-- ===== src/Pool/Gc.antt =====
-- The garbage collection of `unsubscribe_markets` in ws/pool.rs: the reverse index keeps its meaning.
use polymarket_orderbook_col.Base.{
  ℕ, zero, suc, ◌+◌, ◌<◌, ◌≡◌, ◌≢◌, refl, sym, ap, ◌∙◌, some, List, [], ◌∷◌, false, arith, length,
  get_elem?, is_empty, ltb, ◌==◌, ==_iff, nat_key, string_key, if◌then◌else◌, Bool-cases, inl, inr,
}
use polymarket_orderbook_col.Pool.Subscribe.{modify}
use polymarket_orderbook_col.Pool.Unsubscribe.{split_last, swap_remove, moved}

module _ {ℓ} {A : Type ℓ} where
  length-split_last : (x : A) (xs : List A) → length (split_last x xs).0 ≡ length xs
  unfolding split_last
  length-split_last x [] = refl
  length-split_last x (y ∷ ys) = ap suc (length-split_last y ys)

  get_elem?-split_last :
      (x : A) (xs : List A) (j : ℕ)
      → get_elem? (x ∷ xs) j
        ≡ (if j == length xs then some (split_last x xs).1 else get_elem? (split_last x xs).0 j)
  unfolding split_last
  get_elem?-split_last x [] zero = refl
  get_elem?-split_last x [] (suc j) = ground arith
  get_elem?-split_last x (y ∷ ys) zero = ground arith
  get_elem?-split_last x (y ∷ ys) (suc j) = ground (arith, get_elem?-split_last y ys j)

  get_elem?-modify :
      (f : A → A) (i : ℕ) (xs : List A) (j : ℕ)
      → i ≢ j
      → get_elem? (modify f i xs) j ≡ get_elem? xs j
  unfolding modify
  get_elem?-modify f i [] j h = refl
  get_elem?-modify f zero (x ∷ xs) zero h = absurd (h refl)
  get_elem?-modify f zero (x ∷ xs) (suc j) h = refl
  get_elem?-modify f (suc i) (x ∷ xs) zero h = refl
  get_elem?-modify f (suc i) (x ∷ xs) (suc j) h = get_elem?-modify f i xs j (λ e. h (ap suc e))

  get_elem?-modify_self :
      (y : A) (i : ℕ) (xs : List A) → i < length xs → get_elem? (modify (λ _. y) i xs) i ≡ some y
  unfolding modify
  get_elem?-modify_self y i [] h = absurd (omega arith)
  get_elem?-modify_self y zero (x ∷ xs) h = refl
  get_elem?-modify_self y (suc i) (x ∷ xs) h = get_elem?-modify_self y i xs (omega arith)

  pub length-modify : (f : A → A) (i : ℕ) (xs : List A) → length (modify f i xs) ≡ length xs
  unfolding modify
  length-modify f i [] = refl
  length-modify f zero (x ∷ xs) = refl
  length-modify f (suc i) (x ∷ xs) = ap suc (length-modify f i xs)

  pub length-swap_remove :
      (i : ℕ) (xs : List A) → length (swap_remove i xs) + 1 ≡ (if is_empty xs then 1 else length xs)
  unfolding swap_remove
  length-swap_remove i [] = refl
  length-swap_remove i (x ∷ xs) =
      let (front, last) = split_last x xs in
      omega (arith, length-modify (λ _. last) i front, length-split_last x xs)

  -- After the removal of another index, each item is found where the reverse index then says.
  pub swap_remove-moved :
      (i : ℕ) (xs : List A) (c : ℕ)
      → i < length xs
      → c < length xs
      → c ≢ i
      → get_elem?
          (swap_remove i xs)
          (if ltb i (length (swap_remove i xs)) then moved (length (swap_remove i xs)) i c else c)
        ≡ get_elem? xs c
  unfolding swap_remove
  swap_remove-moved i [] c g h n = absurd (omega arith)
  swap_remove-moved i (x ∷ xs) c g h n =
      let (front, last) = split_last x xs in
      let size : length (modify (λ _. last) i front) ≡ length xs =
        length-modify (λ _. last) i front ∙ length-split_last x xs in
      let item = get_elem?-split_last x xs c in
      rw size (elim (Bool-cases (ltb i (length xs))) [
        | inl inside ↦ elim (Bool-cases (c == length xs)) [
          | inl is_last ↦
              rw (inside, is_last)
                (get_elem?-modify_self last i front (ground (arith, inside, length-split_last x xs))
                  ∙ sym (item ∙ rw is_last))
          | inr other ↦
              rw (inside, other)
                (get_elem?-modify (λ _. last) i front c (λ e. n (sym e)) ∙ sym (item ∙ rw other))
        ]
        | inr at_end ↦
            let before : (c == length xs) ≡ false = ground (arith, at_end, ==_iff c i) in
            rw at_end
              (get_elem?-modify (λ _. last) i front c (λ e. n (sym e)) ∙ sym (item ∙ rw before))
      ])

  -- An index below the removed one is not touched.
  pub swap_remove-below :
      (i : ℕ) (xs : List A) (c : ℕ)
      → i < length xs
      → c < i
      → get_elem? (swap_remove i xs) c ≡ get_elem? xs c
  unfolding swap_remove
  swap_remove-below i [] c g h = absurd (omega arith)
  swap_remove-below i (x ∷ xs) c g h =
      let (front, last) = split_last x xs in
      let before : (c == length xs) ≡ false = ground arith in
      get_elem?-modify (λ _. last) i front c (λ e. omega (arith, e))
      ∙ sym (get_elem?-split_last x xs c ∙ rw before)
