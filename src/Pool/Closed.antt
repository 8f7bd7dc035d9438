-- ===== src/Pool/Closed.antt =====
-- What `unsubscribe_markets` of ws/pool.rs does to the map of markets.
use polymarket_orderbook_col.Base.{
  ℕ, ◌+◌, String, ◌≡◌, refl, ap, ◌∙◌, none, List, [], ◌∷◌, arith, ◌=?◌, string_key, if◌then◌else◌,
  Option-cases, inl, inr,
}
use mathlib.Core.List.{reverse}
use polymarket_orderbook_col.Base.HashMap
use polymarket_orderbook_col.Base.HashMap.{
  get-insert, get-remove, get→contains_key, get_some→contains_key,
}
use polymarket_orderbook_col.Base.HashSet
use polymarket_orderbook_col.Events.{Market}
use polymarket_orderbook_col.Pool.{Pool, update_monitor_mappings}
use polymarket_orderbook_col.Pool.Unsubscribe.{
  Removal, remove_asset, remove_market, remove_markets, empty_indices, gc_step, gc_all,
  collect_garbage, unsubscribe_markets,
}
use polymarket_orderbook_col.Pool.Unsubscribed.{withdrawn, unsubscribe_markets-elim}
use polymarket_orderbook_col.Pool.Registry.{close_markets, registry}

remove_asset-markets : (a : String) (r : Removal) → (remove_asset a r).markets ≡ r.markets
unfolding remove_asset
remove_asset-markets a r = elim (Option-cases (HashMap.get r.asset_to_conns a)) [
  | inl e ↦ rw (e, remove_asset) refl
  | inr (c, e) ↦ rw (e, remove_asset) refl
]

pub remove_market-registry :
    (closed : String) (r : Removal) (hash : String)
    → HashMap.get (remove_market closed r).markets hash
      ≡ (if closed =? hash then none else HashMap.get r.markets hash)
unfolding remove_market
remove_market-registry closed r hash = elim (Option-cases (HashMap.get r.markets closed)) [
  | inl e ↦
      rw (e, remove_market)
        (ground (arith, e, string_key.same_iff closed hash, ap (HashMap.get r.markets)))
  | inr (m, e) ↦
      let r1 : Removal = record r {
        markets = HashMap.remove closed r.markets;
        removed_count = r.removed_count + 1;
      } in
      rw (e, remove_market)
        (ap (λ (t : List (String × Market)). HashMap.get t hash)
            (remove_asset-markets m.no_asset (remove_asset m.yes_asset r1)
              ∙ remove_asset-markets m.yes_asset r1)
          ∙ get-remove closed r.markets hash)
]

remove_markets-registry :
    (hashes : List String) (r : Removal) (hash : String)
    → HashMap.get (remove_markets hashes r).markets hash
      ≡ close_markets hashes (λ h. HashMap.get r.markets h) hash
unfolding remove_markets HashSet.contains
remove_markets-registry [] r hash = refl
remove_markets-registry (closed ∷ rest) r hash = ground (
  arith,
  remove_markets-registry rest (remove_market closed r) hash,
  remove_market-registry closed r hash,
)

gc_all-markets : (is : List ℕ) (p : Pool) → (gc_all is p).markets ≡ p.markets
unfolding gc_all gc_step
gc_all-markets [] p = refl
gc_all-markets (i ∷ is) p = gc_all-markets is (gc_step i p)

-- After `unsubscribe_markets` the pool's markets are those of before without the given hashes.
pub unsubscribe_markets-registry :
    (hashes : List String) (p : Pool) (hash : String)
    → registry (unsubscribe_markets hashes p) hash ≡ close_markets hashes (registry p) hash
unfolding collect_garbage update_monitor_mappings
unsubscribe_markets-registry hashes p hash =
    let p1 = withdrawn hashes p in
    unsubscribe_markets-elim
      (λ (q : Pool). registry q hash ≡ close_markets hashes (registry p) hash) hashes p (λ q h. h)
      (ap (λ (t : List (String × Market)). HashMap.get t hash)
          (gc_all-markets (reverse (empty_indices 0 p1.connections)) p1)
        ∙ remove_markets-registry hashes
            (record {
              markets = p.markets;
              asset_to_conns = p.asset_to_conns;
              conn_unsubs = [];
              removed_count = 0;
            })
            hash)
