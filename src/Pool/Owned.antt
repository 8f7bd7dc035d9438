-- ===== src/Pool/Owned.antt =====
-- A removal of markets in ws/pool.rs leaves the entries of other markets' assets in the reverse index alone.
use polymarket_orderbook_col.Base.{
  ◌+◌, String, ◌≡◌, refl, ap, ◌∙◌, some, List, [], ◌∷◌, false, arith, ◌=?◌, string_key,
  Option-cases, inl, inr,
}
use polymarket_orderbook_col.Base.HashMap
use polymarket_orderbook_col.Base.HashMap.{get-remove, contains_key→get, get_some→contains_key}
use polymarket_orderbook_col.Base.HashSet
use polymarket_orderbook_col.Events.{Market}
use polymarket_orderbook_col.Pool.Unsubscribe.{Removal, remove_asset, remove_market, remove_markets}
use polymarket_orderbook_col.Pool.Closed.{remove_market-registry}

module _ (owner : String → String) where
  -- The markets that a removal still has own their assets.
  abbrev pub IsOwning : Removal → Type 0
  IsOwning r =
      (hash : String) (m : Market)
      → HashMap.get r.markets hash ≡ some m
      → (owner m.yes_asset ≡ hash) × (owner m.no_asset ≡ hash)

  remove_asset-other :
      (b : String) (r : Removal) (a : String)
      → (b =? a) ≡ false
      → HashMap.get (remove_asset b r).asset_to_conns a ≡ HashMap.get r.asset_to_conns a
  unfolding remove_asset
  remove_asset-other b r a other = elim (Option-cases (HashMap.get r.asset_to_conns b)) [
    | inl e ↦ rw (e, remove_asset) refl
    | inr (c, e) ↦ rw (e, remove_asset) (get-remove b r.asset_to_conns a ∙ rw other refl)
  ]

  owners_differ :
      (b a hash : String) → owner b ≡ hash → (hash =? owner a) ≡ false → (b =? a) ≡ false
  owners_differ b a hash e h =
      ground (arith, h, e, string_key.same_iff b a, string_key.same_iff hash (owner a), ap owner)

  remove_market-other :
      (hash : String) (r : Removal) (a : String)
      → IsOwning r
      → (hash =? owner a) ≡ false
      → HashMap.get (remove_market hash r).asset_to_conns a ≡ HashMap.get r.asset_to_conns a
  unfolding remove_market
  remove_market-other hash r a v other = elim (Option-cases (HashMap.get r.markets hash)) [
    | inl e ↦ rw (e, remove_market) refl
    | inr (m, e) ↦
        let (own_yes, own_no) = v hash m e in
        let r1 : Removal = record r {
          markets = HashMap.remove hash r.markets;
          removed_count = r.removed_count + 1;
        } in
        rw (e, remove_market)
          (remove_asset-other m.no_asset (remove_asset m.yes_asset r1) a
              (owners_differ m.no_asset a hash own_no other)
            ∙ remove_asset-other m.yes_asset r1 a (owners_differ m.yes_asset a hash own_yes other))
  ]

  remove_market-IsOwning :
      (hash : String) (r : Removal) → IsOwning r → IsOwning (remove_market hash r)
  remove_market-IsOwning closed r v hash m h =
      v hash m (ground (arith, h, remove_market-registry closed r hash))

  pub remove_markets-other :
      (hashes : List String) (r : Removal) (a : String)
      → IsOwning r
      → HashSet.contains hashes (owner a) ≡ false
      → HashMap.get (remove_markets hashes r).asset_to_conns a ≡ HashMap.get r.asset_to_conns a
  unfolding remove_markets HashSet.contains
  remove_markets-other [] r a v other = refl
  remove_markets-other (hash ∷ rest) r a v other =
      remove_markets-other rest (remove_market hash r) a (remove_market-IsOwning hash r v)
        (ground (arith, other))
      ∙ remove_market-other hash r a v (ground (arith, other))
