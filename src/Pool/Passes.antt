-- ===== src/Pool/Passes.antt =====
-- The two assignment passes and the overflow pass of `subscribe_markets` in ws/pool.rs.
use polymarket_orderbook_col.Base.{
  ℕ, String, none, some, List, [], ◌∷◌, ◌++◌, Result, ok, err, string_key,
}
use polymarket_orderbook_col.Base.HashMap
use polymarket_orderbook_col.Pool.{
  Pool, Panic, no_capacity, missing_key, Pending, push_pending, find_conn_with_capacity,
}

-- The maps that the passes build.
pub record FirstPass : Type 0 where
  pub pending : Pending
  pub first_conn : List (String × ℕ)

-- Pass 1: each asset goes to the first connection with room.
unfoldable pub pass1 : Pool → List String → FirstPass → Result Panic FirstPass
unfolding find_conn_with_capacity push_pending
pass1 p [] s = ok s
pass1 p (asset ∷ rest) s = elim (find_conn_with_capacity p s.pending none) [
  | none ↦ err no_capacity
  | some conn_idx ↦ pass1 p rest (record {
    pending = push_pending conn_idx asset s.pending;
    first_conn = HashMap.insert asset conn_idx s.first_conn;
  })
]

pub record SecondPass : Type 0 where
  pub pending : Pending
  pub asset_to_conns : List (String × (ℕ × ℕ))
  pub overflow : List String

-- One asset of pass 2, whose first connection is `first`.
unfoldable pub place_second : Pool → String → ℕ → SecondPass → SecondPass
unfolding find_conn_with_capacity push_pending
place_second p asset first s = elim (find_conn_with_capacity p s.pending (some first)) [
  | some idx ↦ record s {
    pending = push_pending idx asset s.pending;
    asset_to_conns = HashMap.insert asset (first, idx) s.asset_to_conns;
  }
  | none ↦ record s { overflow = s.overflow ++ asset ∷ [] }
]

-- Pass 2: each asset goes to the first other connection with room, or to the overflow.
unfoldable pub pass2 : Pool → List (String × ℕ) → List String → SecondPass → Result Panic SecondPass
unfolding place_second
pass2 p first_conn [] s = ok s
pass2 p first_conn (asset ∷ rest) s = elim (HashMap.get first_conn asset) [
  | none ↦ err missing_key
  | some first ↦ pass2 p first_conn rest (place_second p asset first s)
]

-- Pass 3: the overflow goes to one more connection.
unfoldable pub pass3 : ℕ → List (String × ℕ) → List String → SecondPass → Result Panic SecondPass
unfolding push_pending
pass3 overflow_idx first_conn [] s = ok s
pass3 overflow_idx first_conn (asset ∷ rest) s = elim (HashMap.get first_conn asset) [
  | none ↦ err missing_key
  | some first ↦ pass3 overflow_idx first_conn rest (record s {
    pending = push_pending overflow_idx asset s.pending;
    asset_to_conns = HashMap.insert asset (first, overflow_idx) s.asset_to_conns;
  })
]
