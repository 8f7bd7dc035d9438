-- ===== src/Base/HashMap.antt =====
-- std::collections::HashMap: an association list. Rust leaves the order of iteration open; here it
-- is the order of insertion.
use mathlib.Core.Path.{◌≡◌, refl, subst}
use mathlib.Core.Bool.{Bool, true, false, ◌||◌}
use mathlib.Core.List.{List, [], ◌∷◌}
use mathlib.Core.Option.{Option, none, some}
use mathlib.Core.Logic.{inl, inr}
use native.Mathlib.Omega.{arith}
use polymarket_orderbook_col.Base.Tests.{if◌then◌else◌, Bool-cases}
use polymarket_orderbook_col.Base.Lists.{All}
use polymarket_orderbook_col.Base.Keys.{Key, ◌=?◌, same_refl}

module _ {ℓ κ} {K : Type ℓ} {V : Type κ} ⦃e : Key K⦄ where
  unfoldable pub get : List (K × V) → K → Option V
  get [] k = none
  get ((j, v) ∷ m) k = if j =? k then some v else get m k

  unfoldable pub contains_key : List (K × V) → K → Bool
  contains_key [] k = false
  contains_key ((j, v) ∷ m) k = (j =? k) || contains_key m k

  unfoldable pub insert : K → V → List (K × V) → List (K × V)
  insert k v [] = (k, v) ∷ []
  insert k v ((j, w) ∷ m) = if j =? k then (k, v) ∷ m else (j, w) ∷ insert k v m

  unfoldable pub remove : K → List (K × V) → List (K × V)
  remove k [] = []
  remove k ((j, v) ∷ m) = let rest = remove k m in if j =? k then rest else (j, v) ∷ rest

  pub get-insert :
      (k : K) (v : V) (m : List (K × V)) (j : K)
      → get (insert k v m) j ≡ (if k =? j then some v else get m j)
  unfolding get insert
  get-insert k v [] j = refl
  get-insert k v ((i, w) ∷ m) j =
      ground (arith, e.same_iff k j, e.same_iff i k, e.same_iff i j, get-insert k v m j)

  pub get-insert_self : (k : K) (v : V) (m : List (K × V)) → get (insert k v m) k ≡ some v
  get-insert_self k v m = rw get-insert (rw (same_refl k))

  pub get-remove :
      (k : K) (m : List (K × V)) (j : K) → get (remove k m) j ≡ (if k =? j then none else get m j)
  unfolding get remove
  get-remove k [] j = ground arith
  get-remove k ((i, w) ∷ m) j =
      ground (arith, e.same_iff k j, e.same_iff i k, e.same_iff i j, get-remove k m j)

  pub contains_key-insert :
      (k : K) (v : V) (m : List (K × V)) (j : K)
      → contains_key (insert k v m) j ≡ ((k =? j) || contains_key m j)
  unfolding contains_key insert
  contains_key-insert k v [] j = refl
  contains_key-insert k v ((i, w) ∷ m) j =
      ground (arith, e.same_iff k j, e.same_iff i k, e.same_iff i j, contains_key-insert k v m j)

  pub contains_key→get :
      (m : List (K × V)) (k : K) → contains_key m k ≡ true → (v : V) × (get m k ≡ some v)
  unfolding contains_key get
  contains_key→get [] k h = cc
  contains_key→get ((j, w) ∷ m) k h = elim (Bool-cases (j =? k)) [
    | inl hit ↦ (w, rw hit)
    | inr miss ↦
        let found = contains_key→get m k (ground (arith, h, miss)) in (found.0, rw miss found.1)
  ]

  pub get→contains_key : (m : List (K × V)) (k : K) → get m k ≡ none → contains_key m k ≡ false
  unfolding contains_key get
  get→contains_key [] k h = refl
  get→contains_key ((j, w) ∷ m) k h = elim (Bool-cases (j =? k)) [
    | inl hit ↦ absurd (ground (arith, h, hit))
    | inr miss ↦ rw miss (get→contains_key m k (ground (arith, h, miss)))
  ]

  pub get_some→contains_key :
      (m : List (K × V)) (k : K) (v : V) → get m k ≡ some v → contains_key m k ≡ true
  unfolding contains_key get
  get_some→contains_key [] k v h = absurd cc
  get_some→contains_key ((j, w) ∷ m) k v h = elim (Bool-cases (j =? k)) [
    | inl hit ↦ rw hit refl
    | inr miss ↦ rw miss (get_some→contains_key m k v (ground (arith, h, miss)))
  ]

  -- No key stands twice.
  abbrev pub Unique : List (K × V) → Type κ
  Unique [] = Unit
  Unique ((k, v) ∷ m) = (get m k ≡ none) × Unique m

  insert-Unique_tail :
      (k : K) (v : V) (m : List (K × V)) (j : K)
      → (j =? k) ≡ false
      → get m j ≡ none
      → get (insert k v m) j ≡ none
  insert-Unique_tail k v m j h g =
      ground (arith, e.same_iff j k, e.same_iff k j, get-insert k v m j)

  pub insert-Unique : (k : K) (v : V) (m : List (K × V)) → Unique m → Unique (insert k v m)
  unfolding insert
  insert-Unique k v [] u = (unfold get in refl, tt)
  insert-Unique k v ((j, w) ∷ m) u = elim (Bool-cases (j =? k)) [
    | inl hit ↦ rw (hit, insert) (subst (λ i. get m i ≡ none) ((e.same_iff j k).0 hit) u.0, u.1)
    | inr miss ↦ rw (miss, insert) (insert-Unique_tail k v m j miss u.0, insert-Unique k v m u.1)
  ]

  -- A predicate of the keys.
  pub insert-All {ι} :
      (P : K → Type ι) (k : K) (v : V) (m : List (K × V))
      → P k
      → All (λ (x : K × V). P x.0) m
      → All (λ (x : K × V). P x.0) (insert k v m)
  unfolding insert
  insert-All P k v [] h a = (h, tt)
  insert-All P k v ((j, w) ∷ m) h a = elim (Bool-cases (j =? k)) [
    | inl hit ↦ rw (hit, insert) (h, a.1)
    | inr miss ↦ rw (miss, insert) (a.0, insert-All P k v m h a.1)
  ]
