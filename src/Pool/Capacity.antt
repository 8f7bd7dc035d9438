-- ===== src/Pool/Capacity.antt =====
-- Passes 1 and 2 of `subscribe_markets` in ws/pool.rs: they do not panic, no connection gets more than
-- it may hold, and the overflow fits one connection.
use polymarket_orderbook_col.Base.{
  ℕ, suc, ◌+◌, ◌≤◌, ◌<◌, String, ◌≡◌, refl, Option, none, some, List, [], ◌∷◌, ◌++◌, true, ◌||◌,
  ◌⊎◌, arith, length, length-append, All, All-append, ok, ◌==◌, Option-cases, Bool-cases, inl, inr,
  nat_key, string_key,
}
use polymarket_orderbook_col.Base.HashMap
use polymarket_orderbook_col.Base.HashSet
use polymarket_orderbook_col.Base.HashMap.{
  Unique, insert-Unique, insert-All, contains_key-insert, contains_key→get,
}
use polymarket_orderbook_col.Pool.{
  ConnHandle, Pool, Pending, pending_of, push_pending, find_from, find_conn_with_capacity,
}
use polymarket_orderbook_col.Pool.Passes.{FirstPass, SecondPass, pass1, place_second, pass2}
use polymarket_orderbook_col.Pool.Room.{
  load, free_from, length-pending_of-push, find_from-none, find_from-none_other, find_from-some,
}

-- Each connection holds, with what is pending, no more than the limit.
abbrev pub Fits : ℕ → Pending → ℕ → List ConnHandle → Type 0
Fits limit p idx [] = Unit
Fits limit p idx (h ∷ hs) = (load p idx h ≤ limit) × Fits limit p (suc idx) hs

pub Fits-push_below :
    (limit : ℕ) (p : Pending) (i : ℕ) (a : String) (idx : ℕ) (hs : List ConnHandle)
    → i < idx
    → Fits limit p idx hs
    → Fits limit (push_pending i a p) idx hs
Fits-push_below limit p i a idx [] h f = tt
Fits-push_below limit p i a idx (c ∷ cs) h f = (
  ground (arith, length-pending_of-push i a p idx, f.0),
  Fits-push_below limit p i a (suc idx) cs (omega arith) f.1,
)

Fits-push_found :
    (limit : ℕ) (p : Pending) (ex : Option ℕ) (a : String) (i idx : ℕ) (hs : List ConnHandle)
    → find_from limit p ex idx hs ≡ some i
    → Fits limit p idx hs
    → Fits limit (push_pending i a p) idx hs
unfolding find_from
Fits-push_found limit p ex a i idx [] h f = tt
Fits-push_found limit p ex a i idx (c ∷ cs) h f = elim (Bool-cases (idx == i)) [
  | inl here ↦ (
    ground (
      arith,
      length-pending_of-push i a p idx,
      f.0,
      find_from-some limit p ex a i (suc idx) cs,
      here,
    ),
    Fits-push_below limit p i a (suc idx) cs (ground (arith, here)) f.1,
  )
  | inr later ↦ (
    ground (arith, length-pending_of-push i a p idx, f.0, later),
    Fits-push_found limit p ex a i (suc idx) cs (ground (arith, later, h)) f.1,
  )
]

-- The pending additions of a pool in the course of the passes.
pub record IsReady (p : Pool) (pending : Pending) : Type 0 where
  pub fits : Fits p.max_assets_per_conn pending 0 p.connections
  pub unique : Unique pending
  pub in_range : All (λ (e : ℕ × List String). e.0 < length p.connections) pending

-- The room of a pool.
abbrev pub room : Pool → Pending → ℕ
room p pending = free_from p.max_assets_per_conn pending 0 p.connections

pub push-IsReady :
    (p : Pool) (pending : Pending) (ex : Option ℕ) (a : String) (i : ℕ)
    → find_conn_with_capacity p pending ex ≡ some i
    → IsReady p pending
    → IsReady p (push_pending i a pending)
unfolding find_conn_with_capacity push_pending
push-IsReady p pending ex a i h r =
    let found = find_from-some p.max_assets_per_conn pending ex a i 0 p.connections h in
    record {
      fits = Fits-push_found p.max_assets_per_conn pending ex a i 0 p.connections h r.fits;
      unique = insert-Unique i (pending_of pending i ++ a ∷ []) pending r.unique;
      in_range =
          insert-All (λ j. j < length p.connections) i (pending_of pending i ++ a ∷ []) pending
            (omega (arith, found.1)) r.in_range;
    }

-- A key for every asset of the list.
abbrev pub Keyed : List (String × ℕ) → List String → Type 0
Keyed m xs = All (λ a. HashMap.contains_key m a ≡ true) xs

-- Pass 1 places every asset while there is room, one place each, and keeps what it knows.
pub pass1_lem :
    (p : Pool) (order : List String) (s : FirstPass)
    → IsReady p s.pending
    → length order ≤ room p s.pending
    → (s' : FirstPass) × (pass1 p order s ≡ ok s')
      × IsReady p s'.pending
      × (room p s'.pending + length order ≡ room p s.pending)
unfolding pass1 find_conn_with_capacity
pass1_lem p [] s r h = (s, refl, r, omega arith)
pass1_lem p (a ∷ rest) s r h = elim (Option-cases (find_conn_with_capacity p s.pending none)) [
  | inl nowhere ↦
      absurd (omega (arith, find_from-none p.max_assets_per_conn s.pending 0 p.connections nowhere))
  | inr (i, found) ↦
      let facts = find_from-some p.max_assets_per_conn s.pending none a i 0 p.connections found in
      let s1 : FirstPass = record {
        pending = push_pending i a s.pending;
        first_conn = HashMap.insert a i s.first_conn;
      } in
      let (s', run, ready, left) =
        pass1_lem p rest s1 (push-IsReady p s.pending none a i found r) (omega (arith, facts.3)) in
      (s', rw (found, pass1) run, ready, omega (arith, left, facts.3))
]

-- Pass 1 records a first connection for each asset, and forgets none.
pub pass1-keys :
    (p : Pool) (order : List String) (s s' : FirstPass) (b : String)
    → pass1 p order s ≡ ok s'
    → (HashSet.contains order b || HashMap.contains_key s.first_conn b) ≡ true
    → HashMap.contains_key s'.first_conn b ≡ true
unfolding pass1 HashSet.contains
pass1-keys p [] s s' b h k = ground (arith, h, k)
pass1-keys p (a ∷ rest) s s' b h k =
    elim (Option-cases (find_conn_with_capacity p s.pending none)) [
      | inl nowhere ↦ cc (rw (nowhere, pass1) at h)
      | inr (i, found) ↦
          pass1-keys p rest
            (record {
              pending = push_pending i a s.pending;
              first_conn = HashMap.insert a i s.first_conn;
            })
            s' b (rw (found, pass1) at h)
            (ground (arith, contains_key-insert a i s.first_conn b, k))
    ]

-- What pass 2 has done so far fits, and its overflow has first connections.
pub record IsPlaced2 (p : Pool) (first_conn : List (String × ℕ)) (s : SecondPass) : Type 0 where
  pub ready : IsReady p s.pending
  pub keyed : Keyed first_conn s.overflow

place_second-cases :
    (p : Pool) (a : String) (first : ℕ) (s : SecondPass)
    → ((i : ℕ) × (find_conn_with_capacity p s.pending (some first) ≡ some i)
        × (place_second p a first s ≡ record s {
          pending = push_pending i a s.pending;
          asset_to_conns = HashMap.insert a (first, i) s.asset_to_conns;
        }))
      ⊎ ((find_conn_with_capacity p s.pending (some first) ≡ none)
          × (place_second p a first s ≡ record s { overflow = s.overflow ++ a ∷ [] }))
unfolding place_second
place_second-cases p a first s =
    elim (Option-cases (find_conn_with_capacity p s.pending (some first))) [
      | inl nowhere ↦ inr (nowhere, rw (nowhere, place_second))
      | inr (i, found) ↦ inl (i, found, rw (found, place_second))
    ]

-- Pass 2 does not panic on assets that have a first connection.
pub pass2_lem :
    (p : Pool) (first_conn : List (String × ℕ)) (order : List String) (s : SecondPass)
    → IsPlaced2 p first_conn s
    → Keyed first_conn order
    → (s' : SecondPass) × (pass2 p first_conn order s ≡ ok s')
      × IsPlaced2 p first_conn s'
      × (length s'.overflow ≤ length s.overflow + length order)
unfolding pass2
pass2_lem p first_conn [] s v k = (s, refl, v, omega arith)
pass2_lem p first_conn (a ∷ rest) s v (ka, k) =
    let (first, key) = contains_key→get first_conn a ka in
    elim (place_second-cases p a first s) [
      | inl (i, found, e) ↦
          let s1 : SecondPass = record s {
            pending = push_pending i a s.pending;
            asset_to_conns = HashMap.insert a (first, i) s.asset_to_conns;
          } in
          let (s', run, placed, few) =
            pass2_lem p first_conn rest s1
              (record {
                ready = push-IsReady p s.pending (some first) a i found v.ready;
                keyed = v.keyed;
              })
              k in
          (s', rw (key, pass2) (rw e run), placed, omega (arith, few))
      | inr (nowhere, e) ↦
          let s1 : SecondPass = record s { overflow = s.overflow ++ a ∷ [] } in
          let (s', run, placed, few) =
            pass2_lem p first_conn rest s1
              (record {
                ready = v.ready;
                keyed = All-append _ s.overflow (a ∷ []) v.keyed (ka, tt);
              })
              k in
          (
            s',
            rw (key, pass2) (rw e run),
            placed,
            omega (arith, few, length-append s.overflow (a ∷ [])),
          )
    ]

-- With room for every asset of the pass, the overflow fits one connection: when a first asset finds no
-- place, only its own first connection has room left.
pub pass2-overflow :
    (p : Pool) (first_conn : List (String × ℕ)) (order : List String) (s s' : SecondPass)
    → pass2 p first_conn order s ≡ ok s'
    → IsPlaced2 p first_conn s
    → Keyed first_conn order
    → length order ≤ room p s.pending
    → length s'.overflow ≤ length s.overflow + p.max_assets_per_conn
unfolding pass2 find_conn_with_capacity
pass2-overflow p first_conn [] s s' h v k r = ground (arith, h)
pass2-overflow p first_conn (a ∷ rest) s s' h v (ka, k) r =
    let (first, key) = contains_key→get first_conn a ka in
    elim (place_second-cases p a first s) [
      | inl (i, found, e) ↦
          let s1 : SecondPass = record s {
            pending = push_pending i a s.pending;
            asset_to_conns = HashMap.insert a (first, i) s.asset_to_conns;
          } in
          let facts =
            find_from-some p.max_assets_per_conn s.pending (some first) a i 0 p.connections found in
          pass2-overflow p first_conn rest s1 s' (rw e at (rw (key, pass2) at h))
            (record {
              ready = push-IsReady p s.pending (some first) a i found v.ready;
              keyed = v.keyed;
            })
            k (omega (arith, facts.3))
      | inr (nowhere, e) ↦
          let bound =
            find_from-none_other p.max_assets_per_conn s.pending first 0 p.connections nowhere in
          let (s'', run, _, few) = pass2_lem p first_conn (a ∷ rest) s v (ka, k) in
          let same : length s''.overflow ≡ length s'.overflow = ground (arith, run, h) in
          omega (arith, few, same, bound)
    ]
