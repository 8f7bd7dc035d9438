-- ===== src/Pool/Unsubscribe.antt =====
-- `unsubscribe_markets` and `shutdown` of ws/pool.rs.
use polymarket_orderbook_col.Base.{
  ℕ, suc, ◌+◌, String, none, some, List, [], ◌∷◌, length, is_empty, ltb, ◌==◌, nat_key, string_key,
  if◌then◌else◌,
}
use mathlib.Core.List.{reverse}
use polymarket_orderbook_col.Base.HashMap
use polymarket_orderbook_col.Base.HashSet
use polymarket_orderbook_col.Events.{Market}
use polymarket_orderbook_col.Connection.{unsubscribe}
use polymarket_orderbook_col.Pool.{
  send_command, ConnHandle, Pool, Pending, push_pending, update_monitor_mappings,
}
use polymarket_orderbook_col.Pool.Subscribe.{modify}

-- What the first loop builds: the markets and the index without the removed ones, the assets to
-- unsubscribe by connection, and how many markets were removed.
pub record Removal : Type 0 where
  pub markets : List (String × Market)
  pub asset_to_conns : List (String × (ℕ × ℕ))
  pub conn_unsubs : Pending
  pub removed_count : ℕ

unfoldable pub remove_asset : String → Removal → Removal
unfolding push_pending
remove_asset asset r = elim (HashMap.get r.asset_to_conns asset) [
  | none ↦ r
  | some (c1, c2) ↦ record r {
    asset_to_conns = HashMap.remove asset r.asset_to_conns;
    conn_unsubs = push_pending c2 asset (push_pending c1 asset r.conn_unsubs);
  }
]

unfoldable pub remove_market : String → Removal → Removal
unfolding remove_asset
remove_market hash r = elim (HashMap.get r.markets hash) [
  | none ↦ r
  | some market ↦ remove_asset market.no_asset (
      remove_asset market.yes_asset
        (record r { markets = HashMap.remove hash r.markets; removed_count = r.removed_count + 1 }))
]

unfoldable pub remove_markets : List String → Removal → Removal
remove_markets [] r = r
remove_markets (hash ∷ rest) r = remove_markets rest (remove_market hash r)

unfoldable pub remove_each : List String → List String → List String
remove_each [] s = s
remove_each (a ∷ rest) s = remove_each rest (HashSet.remove a s)

-- An `Unsubscribe` of the assets at one connection.
abbrev pub withdraw : List String → ConnHandle → ConnHandle
withdraw assets h = record h {
  assets = remove_each assets h.assets;
  mailbox = send_command (unsubscribe assets) h;
}

-- A connection index that is not there is passed over.
unfoldable pub withdraw_all : Pending → List ConnHandle → List ConnHandle
unfolding modify
withdraw_all [] conns = conns
withdraw_all ((i, assets) ∷ rest) conns = withdraw_all rest (modify (withdraw assets) i conns)

-- The indices of the empty connections, from `idx` on, in ascending order.
unfoldable pub empty_indices : ℕ → List ConnHandle → List ℕ
empty_indices idx [] = []
empty_indices idx (h ∷ hs) =
    let rest = empty_indices (suc idx) hs in if is_empty h.assets then idx ∷ rest else rest

-- All but the last item, and the last item.
unfoldable pub split_last {ℓ} : {A : Type ℓ} → A → List A → List A × A
split_last x [] = ([], x)
split_last x (y ∷ ys) = let (front, last) = split_last y ys in (x ∷ front, last)

-- `Vec::swap_remove`: the last item takes the place. (An index past the end panics; there is none.)
unfoldable pub swap_remove {ℓ} : {A : Type ℓ} → ℕ → List A → List A
unfolding split_last modify
swap_remove i [] = []
swap_remove i (x ∷ xs) = let (front, last) = split_last x xs in modify (λ _. last) i front

-- The reverse index after the connection `old_last` has moved to `idx`.
abbrev pub moved : ℕ → ℕ → ℕ → ℕ
moved old_last idx c = if c == old_last then idx else c

unfoldable pub reindex : ℕ → ℕ → List (String × (ℕ × ℕ)) → List (String × (ℕ × ℕ))
reindex old_last idx [] = []
reindex old_last idx ((a, (c1, c2)) ∷ rest) =
    (a, (moved old_last idx c1, moved old_last idx c2)) ∷ reindex old_last idx rest

-- One round of the garbage collection.
unfoldable pub gc_step : ℕ → Pool → Pool
unfolding swap_remove reindex
gc_step idx p =
    let conns = swap_remove idx p.connections in
    let old_last = length conns in
    record p {
      connections = conns;
      asset_to_conns =
          if ltb idx old_last then reindex old_last idx p.asset_to_conns else p.asset_to_conns;
    }

unfoldable pub gc_all : List ℕ → Pool → Pool
unfolding gc_step
gc_all [] p = p
gc_all (idx ∷ rest) p = gc_all rest (gc_step idx p)

-- The empty connections, highest index first. (Sorting ascending indices that way reverses them.)
unfoldable pub collect_garbage : Pool → Pool
unfolding empty_indices gc_all
collect_garbage p = gc_all (reverse (empty_indices 0 p.connections)) p

unfoldable pub unsubscribe_markets : List String → Pool → Pool
unfolding remove_markets withdraw_all collect_garbage update_monitor_mappings
unsubscribe_markets market_hashes p =
    let r = remove_markets market_hashes (record {
      markets = p.markets;
      asset_to_conns = p.asset_to_conns;
      conn_unsubs = [];
      removed_count = 0;
    }) in
    let p1 = record p {
      markets = r.markets;
      asset_to_conns = r.asset_to_conns;
      connections = withdraw_all r.conn_unsubs p.connections;
    } in
    let p2 = collect_garbage p1 in if ltb 0 r.removed_count then update_monitor_mappings p2 else p2
