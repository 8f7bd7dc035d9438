-- ===== src/Base/HashSet.antt =====
-- std::collections::HashSet: a list with no item twice, in the order of insertion.
use mathlib.Core.Path.{◌≡◌, refl, ap, ◌∙◌}
use mathlib.Core.Bool.{Bool, true, false, ◌||◌, not, ◌&&◌}
use mathlib.Core.List.{List, [], ◌∷◌, ◌++◌}
use native.Mathlib.Omega.{arith}
use Prim.Native.Nat.{◌+◌, ◌≤◌}
use polymarket_orderbook_col.Base.Tests.{if◌then◌else◌}
use polymarket_orderbook_col.Base.Keys.{Key, ◌=?◌, same_refl}
use polymarket_orderbook_col.Base.Lists.{length, length-append, All}

module _ {ℓ} {K : Type ℓ} ⦃e : Key K⦄ where
  unfoldable pub contains : List K → K → Bool
  contains [] a = false
  contains (x ∷ xs) a = (x =? a) || contains xs a

  unfoldable pub insert : K → List K → List K
  insert a s = if contains s a then s else s ++ a ∷ []

  unfoldable pub remove : K → List K → List K
  remove a [] = []
  remove a (x ∷ xs) = let rest = remove a xs in if x =? a then rest else x ∷ rest

  -- `extend`: the items of a list, one by one.
  unfoldable pub extend : List K → List K → List K
  extend [] s = s
  extend (x ∷ xs) s = extend xs (insert x s)

  contains_one : (b a : K) → contains (b ∷ []) a ≡ (b =? a)
  unfolding contains
  contains_one b a = ground arith

  pub contains-append :
      (xs ys : List K) (a : K) → contains (xs ++ ys) a ≡ (contains xs a || contains ys a)
  unfolding contains
  contains-append [] ys a = refl
  contains-append (x ∷ xs) ys a = ground (arith, contains-append xs ys a)

  contains-same : (s : List K) (b a : K) → (b =? a) ≡ true → contains s b ≡ contains s a
  contains-same s b a h = ap (contains s) ((e.same_iff b a).0 h)

  pub contains-insert :
      (b : K) (s : List K) (a : K) → contains (insert b s) a ≡ ((b =? a) || contains s a)
  unfolding insert
  contains-insert b s a = ground (
    arith,
    contains-same s b a,
    contains-append s (b ∷ []) a,
    contains-append [] (b ∷ []) a,
    contains_one b a,
  )

  pub contains-insert_self : (a : K) (s : List K) → contains (insert a s) a ≡ true
  contains-insert_self a s = rw contains-insert (rw (same_refl a))

  pub contains-remove :
      (b : K) (s : List K) (a : K) → contains (remove b s) a ≡ (not (b =? a) && contains s a)
  unfolding contains remove
  contains-remove b [] a = ground arith
  contains-remove b (x ∷ xs) a =
      ground (arith, e.same_iff x b, e.same_iff x a, e.same_iff b a, contains-remove b xs a)

  pub contains-extend :
      (xs s : List K) (a : K) → contains (extend xs s) a ≡ (contains xs a || contains s a)
  unfolding extend
  contains-extend [] s a = unfold contains in refl
  contains-extend (x ∷ xs) s a =
      rw (contains-extend xs (insert x s) a) (rw contains-insert (unfold contains in ground arith))

  pub length-insert_new :
      (a : K) (s : List K) → contains s a ≡ false → length (insert a s) ≡ length s + 1
  unfolding insert
  length-insert_new a s h = rw h (length-append s (a ∷ []) ∙ omega arith)

  pub length-insert-le : (a : K) (s : List K) → length (insert a s) ≤ length s + 1
  unfolding insert
  length-insert-le a s = ground (arith, length-append s (a ∷ []))

  pub length-remove-le : (a : K) (s : List K) → length (remove a s) ≤ length s
  unfolding remove
  length-remove-le a [] = omega arith
  length-remove-le a (x ∷ xs) = ground (arith, length-remove-le a xs)

  pub length-extend-le : (xs s : List K) → length (extend xs s) ≤ length s + length xs
  unfolding extend
  length-extend-le [] s = omega arith
  length-extend-le (x ∷ xs) s =
      omega (arith, length-extend-le xs (insert x s), length-insert-le x s)

  -- What holds of every item that is in the list, holds all along it.
  pub All-contains {κ} :
      (P : K → Type κ) (xs : List K) → ((a : K) → contains xs a ≡ true → P a) → All P xs
  unfolding contains
  All-contains P [] h = tt
  All-contains P (x ∷ xs) h =
      (h x (rw (same_refl x)), All-contains P xs (λ a m. h a (ground (arith, m))))
