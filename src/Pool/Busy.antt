-- ===== src/Pool/Busy.antt =====
-- The garbage collection of `unsubscribe_markets` in ws/pool.rs finds every connection without assets.
use polymarket_orderbook_col.Base.{
  ℕ, zero, suc, ◌+◌, ◌<◌, String, ◌≡◌, refl, sym, ap, ◌∙◌, subst, List, [], ◌∷◌, true, false, arith,
  length, All, get_elem?, ltb, ◌==◌, nat_key, if◌then◌else◌, Bool-cases, inl, inr,
}
use mathlib.Core.List.{reverse, reverse-cons}
use polymarket_orderbook_col.Base.HashSet
use polymarket_orderbook_col.Base.HashSet.{contains-append}
use polymarket_orderbook_col.Pool.{ConnHandle, Pool, update_monitor_mappings}
use polymarket_orderbook_col.Pool.Unsubscribe.{
  empty_indices, swap_remove, moved, gc_step, gc_all, collect_garbage, unsubscribe_markets,
}
use polymarket_orderbook_col.Pool.Unsubscribed.{withdrawn, unsubscribe_markets-elim}
use polymarket_orderbook_col.Pool.Gc.{swap_remove-moved, swap_remove-below}
use polymarket_orderbook_col.Pool.Collect.{
  occupied, occupied-same, Collectable, length-swap_remove_lower, Collectable-swap_remove,
  empty_indices-Collectable,
}

contains-reverse : (xs : List ℕ) (a : ℕ) → HashSet.contains (reverse xs) a ≡ HashSet.contains xs a
unfolding HashSet.contains
contains-reverse [] a = refl
contains-reverse (x ∷ xs) a =
    rw (reverse-cons x xs)
      (rw (contains-append (reverse xs) (x ∷ []) a) (ground (arith, contains-reverse xs a)))

-- The list has every index of a connection without assets.
abbrev Covers : List ConnHandle → List ℕ → Type 0
Covers conns is =
    (c : ℕ) → c < length conns → occupied conns c ≡ false → HashSet.contains is c ≡ true

empty_indices_complete :
    (idx : ℕ) (hs : List ConnHandle) (j : ℕ)
    → j < length hs
    → occupied hs j ≡ false
    → HashSet.contains (empty_indices idx hs) (idx + j) ≡ true
unfolding empty_indices occupied HashSet.contains
empty_indices_complete idx [] j h e = absurd (omega arith)
empty_indices_complete idx (x ∷ hs) zero h e = ground (arith, e)
empty_indices_complete idx (x ∷ hs) (suc j) h e =
    let rest = empty_indices_complete (suc idx) hs j (omega arith) e in
    let same : suc idx + j ≡ idx + suc j = omega arith in
    let there : HashSet.contains (empty_indices (suc idx) hs) (idx + suc j) ≡ true =
      subst (λ k. HashSet.contains (empty_indices (suc idx) hs) k ≡ true) same rest in
    ground (arith, there)

above-All :
    (is : List ℕ) (i c : ℕ) → i < suc c → All (λ j. j < i) is → HashSet.contains is c ≡ false
unfolding HashSet.contains
above-All [] i c h lower = refl
above-All (j ∷ js) i c h (lt, lower) = ground (arith, above-All js i c h lower, lt, h)

Covers-swap_remove :
    (i : ℕ) (conns : List ConnHandle) (is : List ℕ)
    → i < length conns
    → All (λ j. j < i) is
    → Covers conns (i ∷ is)
    → Covers (swap_remove i conns) is
unfolding HashSet.contains
Covers-swap_remove i conns is inside lower covers c h e =
    let conns' = swap_remove i conns in
    let n = length-swap_remove_lower i conns inside in
    elim (Bool-cases (ltb c i)) [
      | inl below ↦
          let same = swap_remove-below i conns c inside (ground (arith, below)) in
          ground (
            arith,
            below,
            covers c (omega (arith, n)) (sym (occupied-same conns conns' c c same) ∙ e),
          )
      | inr not_below ↦
          -- Such an index held a connection that stood above all indices of the list.
          let m = length conns' in
          let d = if c == i then m else c in
          let same =
            swap_remove-moved i conns d inside (ground (arith, n, h))
              (λ k. ground (arith, k, h, not_below)) in
          let back : (if ltb i m then moved m i d else d) ≡ c = ground (arith, h, not_below) in
          let empty =
            sym (
              occupied-same conns conns' d c
                (subst (λ k. get_elem? conns' k ≡ get_elem? conns d) back same))
            ∙ e in
          let listed = covers d (ground (arith, n, h)) empty in
          absurd (
            ground
              (arith, listed, above-All is i d (ground (arith, not_below)) lower, h, not_below))
    ]

-- Collected from the highest index down, no connection without assets is left.
gc_all-busy :
    (is : List ℕ) (p : Pool)
    → Collectable p.connections is
    → Covers p.connections is
    → Covers (gc_all is p).connections []
unfolding gc_all gc_step
gc_all-busy [] p pending covers = covers
gc_all-busy (i ∷ is) p (inside, empty, below, pending) covers =
    gc_all-busy is (gc_step i p) (Collectable-swap_remove i p.connections is inside below pending)
      (Covers-swap_remove i p.connections is inside below covers)

-- After `collect_garbage` every connection of the pool has assets.
collect_garbage-busy :
    (p : Pool) (c : ℕ)
    → c < length (collect_garbage p).connections
    → occupied (collect_garbage p).connections c ≡ true
unfolding collect_garbage HashSet.contains
collect_garbage-busy p c h =
    let is = reverse (empty_indices 0 p.connections) in
    let pending =
      empty_indices-Collectable p.connections 0 p.connections
        (λ j. ap (get_elem? p.connections) (omega arith)) in
    let covers : Covers p.connections is = λ k inside e.
      let at : 0 + k ≡ k = omega arith in
      contains-reverse (empty_indices 0 p.connections) k
      ∙ subst (λ d. HashSet.contains (empty_indices 0 p.connections) d ≡ true) at
          (empty_indices_complete 0 p.connections k inside e) in
    elim (Bool-cases (occupied (collect_garbage p).connections c)) [
      | inl busy ↦ busy
      | inr idle ↦ absurd (cc (gc_all-busy is p pending covers c h idle))
    ]

-- After `unsubscribe_markets` every connection of the pool has assets.
pub unsubscribe_markets-busy :
    (hashes : List String) (p : Pool) (c : ℕ)
    → c < length (unsubscribe_markets hashes p).connections
    → occupied (unsubscribe_markets hashes p).connections c ≡ true
unfolding update_monitor_mappings
unsubscribe_markets-busy hashes p =
    unsubscribe_markets-elim
      (λ (q : Pool). (c : ℕ) → c < length q.connections → occupied q.connections c ≡ true) hashes p
      (λ q h. h) (collect_garbage-busy (withdrawn hashes p))
