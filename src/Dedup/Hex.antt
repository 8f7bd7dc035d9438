-- ===== src/Dedup/Hex.antt =====
-- The key of a content hash: `hex_prefix_u64` of ws/dedup.rs.
use polymarket_orderbook_col.Base.{
  ℕ, zero, suc, ◌+◌, ◌*◌, ◌≤◌, ◌<◌, ◌≡◌, refl, none, some, List, [], ◌∷◌, ◌++◌, map, sym, subst,
  ◌∙◌, arith, length, All, u64_mod, lt→ltb,
}
use mathlib.Core.Path.{ap₂}
use polymarket_orderbook_col.Dedup.{
  hex_digit, radix_digits, from_str_radix, strip_0x, prefix, hex_prefix_u64,
}

-- The digit of a character, 0 where there is none, and the number that digits stand for.
unfoldable pub digit : ℕ → ℕ
unfolding hex_digit
digit c = elim (hex_digit c) [ none ↦ 0 | some d ↦ d ]

unfoldable pub value_from : ℕ → List ℕ → ℕ
value_from acc [] = acc
value_from acc (c ∷ cs) = value_from (acc * 16 + digit c) cs

abbrev pub value : List ℕ → ℕ
value = value_from 0

abbrev pub IsHex : ℕ → Type 0
IsHex c = hex_digit c ≡ some (digit c)

pow16 : ℕ → ℕ
pow16 zero = 1
pow16 (suc n) = 16 * pow16 n

pow16_pos : (n : ℕ) → 1 ≤ pow16 n
unfolding pow16
pow16_pos zero = omega arith
pow16_pos (suc n) = omega (arith, pow16_pos n)

digit-lt : (c : ℕ) → digit c < 16
unfolding digit
digit-lt c = ground arith

shift_bound :
    (acc d p bound : ℕ) → d < 16 → (acc + 1) * (16 * p) ≤ bound → (acc * 16 + d + 1) * p ≤ bound
shift_bound acc d p bound h k = grind arith

drop_factor : (a p bound : ℕ) → 1 ≤ p → (a + 1) * p ≤ bound → a < bound
drop_factor a p bound h k = grind arith

radix_digits-value :
    (acc : ℕ) (cs : List ℕ)
    → (acc + 1) * pow16 (length cs) ≤ u64_mod
    → All IsHex cs
    → (radix_digits acc cs ≡ some (value_from acc cs)) × (value_from acc cs < u64_mod)
unfolding radix_digits value_from
radix_digits-value acc [] h k = (refl, unfold pow16 in omega arith)
radix_digits-value acc (c ∷ cs) h (hex, k) =
    let bound : (acc * 16 + digit c + 1) * pow16 (length cs) ≤ u64_mod =
      shift_bound acc (digit c) (pow16 (length cs)) u64_mod (digit-lt c) (unfold pow16 in h) in
    let rest = radix_digits-value (acc * 16 + digit c) cs bound k in
    (
      rw (hex, radix_digits)
          (rw (lt→ltb _ _ (drop_factor _ (pow16 (length cs)) u64_mod (pow16_pos _) bound)) rest.0),
      rest.1,
    )

prefix-append : (cs rest : List ℕ) → prefix (length cs) (cs ++ rest) ≡ some cs
unfolding prefix
prefix-append [] rest = refl
prefix-append (c ∷ cs) rest = rw (prefix-append cs rest, prefix)

from_str_radix-digits :
    (c d : ℕ) (cs : List ℕ) → IsHex c → from_str_radix (c ∷ d ∷ cs) ≡ radix_digits 0 (c ∷ d ∷ cs)
unfolding from_str_radix hex_digit digit
from_str_radix-digits c d cs hex = ground arith

strip_0x-digits : (c d : ℕ) (cs : List ℕ) → IsHex d → strip_0x (c ∷ d ∷ cs) ≡ c ∷ d ∷ cs
unfolding strip_0x hex_digit digit
strip_0x-digits c d cs hex = ground arith

-- The first sixteen characters of a text, each a hex digit.
pub record IsPrefix16 (cs : List ℕ) : Type 0 where
  pub sixteen : length cs ≡ 16
  pub digits : All IsHex cs

parse16 :
    (cs : List ℕ) → IsPrefix16 cs → (from_str_radix cs ≡ some (value cs)) × (value cs < u64_mod)
parse16 [] h = absurd (omega (arith, h.sixteen))
parse16 (c ∷ []) h = absurd (omega (arith, h.sixteen))
parse16 (c ∷ d ∷ cs) h =
    let parsed =
      radix_digits-value 0 (c ∷ d ∷ cs) (rw h.sixteen (unfold pow16 in omega arith)) h.digits in
    (from_str_radix-digits c d cs h.digits.0 ∙ parsed.0, parsed.1)

strip_0x-IsPrefix16 : (cs rest : List ℕ) → IsPrefix16 cs → strip_0x (cs ++ rest) ≡ cs ++ rest
strip_0x-IsPrefix16 [] rest h = absurd (omega (arith, h.sixteen))
strip_0x-IsPrefix16 (c ∷ []) rest h = absurd (omega (arith, h.sixteen))
strip_0x-IsPrefix16 (c ∷ d ∷ cs) rest h = strip_0x-digits c d (cs ++ rest) h.digits.1.0

prefix16 : (cs rest : List ℕ) → IsPrefix16 cs → prefix 16 (cs ++ rest) ≡ some cs
prefix16 cs rest h = subst (λ n. prefix n (cs ++ rest) ≡ some cs) h.sixteen (prefix-append cs rest)

-- A hash that begins with sixteen hex digits, behind `0x` or not, has the number that these digits
-- stand for as its key, whatever follows them; no key overflows a `u64`.
pub hex_prefix_u64_lem :
    (cs rest : List ℕ)
    → IsPrefix16 cs
    → (hex_prefix_u64 (cs ++ rest) ≡ some (value cs))
      × (hex_prefix_u64 (b'0' ∷ b'x' ∷ (cs ++ rest)) ≡ some (value cs))
      × (value cs < u64_mod)
unfolding hex_prefix_u64
hex_prefix_u64_lem cs rest h = (
  rw (strip_0x-IsPrefix16 cs rest h, hex_prefix_u64)
      (rw (prefix16 cs rest h, hex_prefix_u64) (parse16 cs h).0),
  rw (prefix16 cs rest h, hex_prefix_u64) (parse16 cs h).0,
  (parse16 cs h).1,
)

value_from-injective :
    (a b : ℕ) (cs ds : List ℕ)
    → length cs ≡ length ds
    → value_from a cs ≡ value_from b ds
    → (a ≡ b) × (map digit cs ≡ map digit ds)
unfolding value_from
value_from-injective a b [] [] l h = (h, refl)
value_from-injective a b [] (d ∷ ds) l h = absurd (omega arith)
value_from-injective a b (c ∷ cs) [] l h = absurd (omega arith)
value_from-injective a b (c ∷ cs) (d ∷ ds) l h =
    let (e, rest) =
      value_from-injective (a * 16 + digit c) (b * 16 + digit d) cs ds (omega arith) h in
    (
      omega (arith, e, digit-lt c, digit-lt d),
      ap₂ (λ x l. x ∷ l) (omega (arith, e, digit-lt c, digit-lt d)) rest,
    )

-- Two hashes that begin with sixteen hex digits have the same key only if these digits are the same,
-- up to their case.
pub hex_prefix_u64-injective :
    (cs ds rest rest' : List ℕ)
    → IsPrefix16 cs
    → IsPrefix16 ds
    → hex_prefix_u64 (cs ++ rest) ≡ hex_prefix_u64 (ds ++ rest')
    → map digit cs ≡ map digit ds
hex_prefix_u64-injective cs ds rest rest' h k same =
    (value_from-injective 0 0 cs ds (h.sixteen ∙ sym k.sixteen)
      (cc (same, (hex_prefix_u64_lem cs rest h).0, (hex_prefix_u64_lem ds rest' k).0))).1

prefix-short : (n : ℕ) (cs : List ℕ) → length cs < n → prefix n cs ≡ none
unfolding prefix
prefix-short zero cs h = absurd (omega arith)
prefix-short (suc n) [] h = refl
prefix-short (suc n) (c ∷ cs) h = rw (prefix-short n cs (omega arith), prefix)

-- A hash with fewer than sixteen characters behind its `0x` panics.
hex_prefix_u64-short : (s : List ℕ) → length (strip_0x s) < 16 → hex_prefix_u64 s ≡ none
unfolding hex_prefix_u64
hex_prefix_u64-short s h = rw (prefix-short 16 (strip_0x s) h, hex_prefix_u64)
