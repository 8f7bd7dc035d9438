-- ===== src/Pool/Collect.antt =====
-- `collect_garbage`, the last part of `unsubscribe_markets` in ws/pool.rs: every asset keeps its two
-- connections, under their new indices, and no empty connection is left.
use polymarket_orderbook_col.Base.{
  ℕ, zero, suc, ◌+◌, ◌<◌, String, ◌≡◌, ◌≢◌, refl, sym, ap, subst, ◌∙◌, Option, none, some, List, [],
  ◌∷◌, ◌++◌, Bool, true, false, not, arith, length, All, All-append, get_elem?, is_empty, ltb,
  nat_key, string_key, if◌then◌else◌, Bool-cases, inl, inr,
}
use mathlib.Core.List.{reverse, reverse-cons}
use polymarket_orderbook_col.Base.HashMap
use polymarket_orderbook_col.Pool.{ConnHandle, Pool}
use polymarket_orderbook_col.Pool.Unsubscribe.{
  empty_indices, swap_remove, moved, reindex, gc_step, gc_all, collect_garbage,
}
use polymarket_orderbook_col.Pool.Gc.{swap_remove-moved, swap_remove-below, length-swap_remove}

-- Whether the index is that of a connection with assets.
unfoldable pub occupied : List ConnHandle → ℕ → Bool
occupied conns c = elim (get_elem? conns c) [ none ↦ false | some h ↦ not (is_empty h.assets) ]

-- The two connections of an asset under new indices.
abbrev pub rename : (ℕ → ℕ) → Option (ℕ × ℕ) → Option (ℕ × ℕ)
rename f none = none
rename f (some (c1, c2)) = some (f c1, f c2)

-- From one pool to the next, the indices in the reverse index change so that each leads to the same
-- connection as before, and different connections keep different indices.
pub record Follows (p p' : Pool) : Type 0 where
  pub to : ℕ → ℕ
  pub index :
      (a : String) → HashMap.get p'.asset_to_conns a ≡ rename to (HashMap.get p.asset_to_conns a)
  pub same_conn :
      (c : ℕ)
      → occupied p.connections c ≡ true
      → get_elem? p'.connections (to c) ≡ get_elem? p.connections c
  pub apart :
      (c d : ℕ)
      → occupied p.connections c ≡ true
      → occupied p.connections d ≡ true
      → c ≢ d
      → to c ≢ to d

get-reindex :
    (o i : ℕ) (m : List (String × (ℕ × ℕ))) (a : String)
    → HashMap.get (reindex o i m) a ≡ rename (moved o i) (HashMap.get m a)
unfolding reindex HashMap.get
get-reindex o i [] a = refl
get-reindex o i ((b, (c1, c2)) ∷ m) a = ground (arith, get-reindex o i m a)

pub occupied-inside : (conns : List ConnHandle) (c : ℕ) → occupied conns c ≡ true → c < length conns
unfolding occupied
occupied-inside [] c h = cc
occupied-inside (x ∷ xs) zero h = omega arith
occupied-inside (x ∷ xs) (suc c) h = omega (arith, occupied-inside xs c h)

pub occupied-same :
    (conns conns' : List ConnHandle) (c c' : ℕ)
    → get_elem? conns' c' ≡ get_elem? conns c
    → occupied conns' c' ≡ occupied conns c
unfolding occupied
occupied-same conns conns' c c' e = rw (e, occupied)

pub differ :
    (conns : List ConnHandle) (c i : ℕ) → occupied conns c ≡ true → occupied conns i ≡ false → c ≢ i
differ conns c i h g e = cc (h, g, ap (occupied conns) e)

rename-id : (o : Option (ℕ × ℕ)) → o ≡ rename (λ c. c) o
rename-id none = refl
rename-id (some (a, b)) = refl

moved-apart : (n i c d : ℕ) → c ≢ i → d ≢ i → c ≢ d → moved n i c ≢ moved n i d
moved-apart n i c d h g other e = ground (arith, h, g, other, e)

gc_step-Follows :
    (i : ℕ) (p : Pool)
    → i < length p.connections
    → occupied p.connections i ≡ false
    → Follows p (gc_step i p)
unfolding gc_step
gc_step-Follows i p h empty =
    let conns = swap_remove i p.connections in
    let n = length conns in
    elim (Bool-cases (ltb i n)) [
      | inl inside ↦ record {
        to = moved n i;
        index = λ a. rw inside (get-reindex n i p.asset_to_conns a);
        same_conn = λ c busy.
            subst (λ b. get_elem? conns (if b then moved n i c else c) ≡ get_elem? p.connections c)
              inside
              (swap_remove-moved i p.connections c h (occupied-inside p.connections c busy)
                (differ p.connections c i busy empty));
        apart = λ c d busy_c busy_d other.
            moved-apart n i c d (differ p.connections c i busy_c empty)
              (differ p.connections d i busy_d empty) other;
      }
      | inr at_end ↦ record {
        to = λ c. c;
        index = λ a. rw at_end (rename-id (HashMap.get p.asset_to_conns a));
        same_conn = λ c busy.
            subst (λ b. get_elem? conns (if b then moved n i c else c) ≡ get_elem? p.connections c)
              at_end
              (swap_remove-moved i p.connections c h (occupied-inside p.connections c busy)
                (differ p.connections c i busy empty));
        apart = λ c d busy_c busy_d other. other;
      }
    ]

rename-comp : (f g : ℕ → ℕ) (o : Option (ℕ × ℕ)) → rename g (rename f o) ≡ rename (λ c. g (f c)) o
rename-comp f g none = refl
rename-comp f g (some (a, b)) = refl

Follows-trans : (p q r : Pool) → Follows p q → Follows q r → Follows p r
Follows-trans p q r f g = record {
  to = λ c. g.to (f.to c);
  index = λ a.
      g.index a
      ∙ ap (rename g.to) (f.index a)
      ∙ rename-comp f.to g.to (HashMap.get p.asset_to_conns a);
  same_conn = λ c busy.
      g.same_conn (f.to c)
        (occupied-same p.connections q.connections c (f.to c) (f.same_conn c busy) ∙ busy)
      ∙ f.same_conn c busy;
  apart = λ c d busy_c busy_d other.
      g.apart (f.to c) (f.to d)
        (occupied-same p.connections q.connections c (f.to c) (f.same_conn c busy_c) ∙ busy_c)
        (occupied-same p.connections q.connections d (f.to d) (f.same_conn d busy_d) ∙ busy_d)
        (f.apart c d busy_c busy_d other);
}

-- The indices that are still to be collected: descending, and of empty connections.
abbrev pub Collectable : List ConnHandle → List ℕ → Type 0
Collectable conns [] = Unit
Collectable conns (i ∷ is) =
    (i < length conns) × (occupied conns i ≡ false) × All (λ j. j < i) is × Collectable conns is

pub length-swap_remove_lower :
    (i : ℕ) (xs : List ConnHandle) → i < length xs → length (swap_remove i xs) + 1 ≡ length xs
length-swap_remove_lower i [] h = absurd (omega arith)
length-swap_remove_lower i (x ∷ xs) h = length-swap_remove i (x ∷ xs)

-- A connection below the collected one stays as it was.
pub Collectable-swap_remove :
    (i : ℕ) (conns : List ConnHandle) (is : List ℕ)
    → i < length conns
    → All (λ j. j < i) is
    → Collectable conns is
    → Collectable (swap_remove i conns) is
Collectable-swap_remove i conns [] h lower pending = pending
Collectable-swap_remove i conns (j ∷ js) h (lt, lower) (inside, empty, below, pending) = (
  omega (arith, length-swap_remove_lower i conns h),
  (occupied-same conns (swap_remove i conns) j j (swap_remove-below i conns j h lt) ∙ empty),
  below,
  Collectable-swap_remove i conns js h lower pending,
)

gc_all-Follows : (is : List ℕ) (p : Pool) → Collectable p.connections is → Follows p (gc_all is p)
unfolding gc_all gc_step
gc_all-Follows [] p pending = record {
  to = λ c. c;
  index = λ a. rename-id (HashMap.get p.asset_to_conns a);
  same_conn = λ c busy. refl;
  apart = λ c d busy_c busy_d other. other;
}
gc_all-Follows (i ∷ is) p (inside, empty, below, pending) =
    Follows-trans p (gc_step i p) (gc_all is (gc_step i p)) (gc_step-Follows i p inside empty) (
      gc_all-Follows is (gc_step i p)
        (Collectable-swap_remove i p.connections is inside below pending))

Collectable-snoc :
    (conns : List ConnHandle) (is : List ℕ) (i : ℕ)
    → Collectable conns is
    → All (λ j. i < j) is
    → i < length conns
    → occupied conns i ≡ false
    → Collectable conns (is ++ i ∷ [])
Collectable-snoc conns [] i pending above h e = (h, e, tt, tt)
Collectable-snoc conns (j ∷ js) i (inside, empty, lower, pending) (lt, above) h e = (
  inside,
  empty,
  All-append (λ k. k < j) js (i ∷ []) lower (lt, tt),
  Collectable-snoc conns js i pending above h e,
)

-- The items of `hs` are those of `conns` from `idx` on.
abbrev Tail : List ConnHandle → ℕ → List ConnHandle → Type 0
Tail conns idx hs = (j : ℕ) → get_elem? hs j ≡ get_elem? conns (idx + j)

empty_indices-above :
    (low idx : ℕ) (hs : List ConnHandle)
    → low < idx
    → All (λ j. low < j) (reverse (empty_indices idx hs))
unfolding empty_indices
empty_indices-above low idx [] h = tt
empty_indices-above low idx (x ∷ xs) h =
    let rest = empty_indices-above low (suc idx) xs (omega arith) in
    elim (Bool-cases (is_empty x.assets)) [
      | inl e ↦
          rw (e, reverse-cons idx (empty_indices (suc idx) xs))
            (All-append (λ j. low < j) (reverse (empty_indices (suc idx) xs)) (idx ∷ []) rest
              (h, tt))
      | inr e ↦ rw e rest
    ]

get_elem?-inside :
    (xs : List ConnHandle) (i : ℕ) (x : ConnHandle) → get_elem? xs i ≡ some x → i < length xs
get_elem?-inside [] i x h = cc
get_elem?-inside (y ∷ ys) zero x h = omega arith
get_elem?-inside (y ∷ ys) (suc i) x h = omega (arith, get_elem?-inside ys i x h)

empty-unoccupied :
    (conns : List ConnHandle) (i : ℕ) (x : ConnHandle)
    → get_elem? conns i ≡ some x
    → is_empty x.assets ≡ true
    → occupied conns i ≡ false
unfolding occupied
empty-unoccupied conns i x h e = grind (arith, h, e)

pub empty_indices-Collectable :
    (conns : List ConnHandle) (idx : ℕ) (hs : List ConnHandle)
    → Tail conns idx hs
    → Collectable conns (reverse (empty_indices idx hs))
unfolding empty_indices
empty_indices-Collectable conns idx [] tail = tt
empty_indices-Collectable conns idx (x ∷ xs) tail =
    let here : get_elem? conns idx ≡ some x = ap (get_elem? conns) (omega arith) ∙ sym (tail 0) in
    let rest =
      empty_indices-Collectable conns (suc idx) xs
        (λ j. tail (suc j) ∙ ap (get_elem? conns) (omega arith)) in
    elim (Bool-cases (is_empty x.assets)) [
      | inl e ↦
          rw (e, reverse-cons idx (empty_indices (suc idx) xs))
            (Collectable-snoc conns (reverse (empty_indices (suc idx) xs)) idx rest
              (empty_indices-above idx (suc idx) xs (omega arith))
              (get_elem?-inside conns idx x here) (empty-unoccupied conns idx x here e))
      | inr e ↦ rw e rest
    ]

-- Removing the empty connections by `swap_remove`, highest index first, leaves the pool's reverse
-- index intact: there is one renaming of connection indices under which every asset's entry after
-- `collect_garbage` is its entry before, and under which every connection that had assets is
-- found, unchanged, at its new index, different ones at different indices.
pub collect_garbage-Follows : (p : Pool) → Follows p (collect_garbage p)
unfolding collect_garbage
collect_garbage-Follows p = gc_all-Follows (reverse (empty_indices 0 p.connections)) p (
    empty_indices-Collectable p.connections 0 p.connections
      (λ j. ap (get_elem? p.connections) (omega arith)))
