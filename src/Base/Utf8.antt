-- ===== src/Base/Utf8.antt =====
-- Texts as lists of code points, with the byte positions of their UTF-8 encoding: what slicing a
-- `&str` by bytes and `trim` do.
use Prim.Native.Nat.{ℕ, zero, suc, ◌+◌, ◌-◌, ◌≤◌, ◌<◌}
use Prim.Native.Char.{code}
use Prim.Native.String.{String}
use mathlib.Core.Path.{◌≡◌, ap}
use mathlib.Core.Logic.{◌≢◌}
use mathlib.Core.Bool.{Bool, true, false, ◌&&◌, ◌||◌}
use mathlib.Core.List.{List, [], ◌∷◌, ◌++◌, reverse}
use mathlib.Core.Option.{Option, none, some}
use native.Mathlib.Omega.{arith}
use mathlib.Core.Logic.{inl, inr}
use mathlib.Core.Path.{refl, sym, subst}
use polymarket_orderbook_col.Base.Tests.{leb, ltb, ◌==◌, if◌then◌else◌, Bool-cases}
use polymarket_orderbook_col.Base.Lists.{All, length}

abbrev pub Text : Type 0
Text = List ℕ

-- The code points of a text.
abbrev pub codes : String → Text
codes String.[] = []
codes (String.◌∷◌ c s) = code c ∷ codes s

-- The bytes of a code point.
unfoldable pub utf8_len : ℕ → ℕ
utf8_len c = if ltb c 0x80 then 1 else if ltb c 0x800 then 2 else if ltb c 0x10000 then 3 else 4

-- `str::len`.
unfoldable pub byte_len : Text → ℕ
unfolding utf8_len
byte_len [] = 0
byte_len (c ∷ cs) = utf8_len c + byte_len cs

-- `&s[..n]`: a panic (`none`) unless the byte position `n` is a character's boundary in the text.
unfoldable pub slice_to : ℕ → Text → Option Text
unfolding utf8_len
slice_to zero cs = some []
slice_to (suc n) [] = none
slice_to (suc n) (c ∷ cs) =
    let rest = slice_to (suc n - utf8_len c) cs in
    if leb (utf8_len c) (suc n) then (elim rest [ none ↦ none | some r ↦ some (c ∷ r) ]) else none

-- `str::floor_char_boundary`: the last boundary of a character that is not past the byte `n`.
unfoldable pub floor_char_boundary : ℕ → Text → ℕ
unfolding utf8_len
floor_char_boundary n [] = zero
floor_char_boundary n (c ∷ cs) =
    let rest = floor_char_boundary (n - utf8_len c) cs in
    if leb (utf8_len c) n then utf8_len c + rest else zero

-- `char::is_whitespace`.
unfoldable pub is_whitespace : ℕ → Bool
is_whitespace c =
    (leb 9 c && leb c 13)
    || (c == 0x20)
    || (c == 0x85)
    || (c == 0xa0)
    || (c == 0x1680)
    || (leb 0x2000 c && leb c 0x200a)
    || (c == 0x2028)
    || (c == 0x2029)
    || (c == 0x202f)
    || (c == 0x205f)
    || (c == 0x3000)

unfoldable pub trim_start : Text → Text
unfolding is_whitespace
trim_start [] = []
trim_start (c ∷ cs) = let rest = trim_start cs in if is_whitespace c then rest else c ∷ cs

-- `str::trim`.
unfoldable pub trim : Text → Text
unfolding trim_start
trim s = reverse (trim_start (reverse (trim_start s)))

abbrev pub eq_text : Text → Text → Bool
eq_text [] [] = true
eq_text [] (d ∷ ds) = false
eq_text (c ∷ cs) [] = false
eq_text (c ∷ cs) (d ∷ ds) = c == d && eq_text cs ds

utf8_len-ascii : (c : ℕ) → c < 0x80 → utf8_len c ≡ 1
unfolding utf8_len
utf8_len-ascii c h = ground arith

-- An ASCII text can be sliced anywhere up to its end.
pub slice_to-ascii :
    (n : ℕ) (s : Text) → All (λ c. c < 0x80) s → n ≤ byte_len s → slice_to n s ≢ none
unfolding slice_to byte_len
slice_to-ascii zero s h g = λ e. cc
slice_to-ascii (suc n) [] h g = absurd (omega arith)
slice_to-ascii (suc n) (c ∷ cs) (h, hs) g =
    let one = utf8_len-ascii c h in
    let rest = slice_to-ascii n cs hs (omega (arith, one)) in
    let shift : suc n - utf8_len c ≡ n = omega (arith, one) in
    λ e. ground (arith, one, ap (λ k. slice_to k cs) shift, rest)

-- A slice that ends inside a character panics.
pub slice_to-split :
    (pre rest : Text) (c : ℕ)
    → All (λ d. d < 0x80) pre
    → 0x80 ≤ c
    → slice_to (suc (length pre)) (pre ++ c ∷ rest) ≡ none
unfolding slice_to utf8_len
slice_to-split [] rest c h wide = ground arith
slice_to-split (d ∷ pre) rest c (h, hs) wide =
    let one = utf8_len-ascii d h in
    let shift : suc (suc (length pre)) - utf8_len d ≡ suc (length pre) = omega (arith, one) in
    ground
      (arith, one, ap (λ k. slice_to k (pre ++ c ∷ rest)) shift, slice_to-split pre rest c hs wide)

pub byte_len-split :
    (pre rest : Text) (c : ℕ) → 0x80 ≤ c → suc (length pre) ≤ byte_len (pre ++ c ∷ rest)
unfolding byte_len utf8_len
byte_len-split [] rest c wide = ground arith
byte_len-split (d ∷ pre) rest c wide = ground (arith, byte_len-split pre rest c wide)

-- The longest part of a text, from its start, that has at most `n` bytes.
pub record IsLongest (n : ℕ) (pre s : Text) : Type 0 where
  pub rest : Text
  pub parts : pre ++ rest ≡ s
  pub short_enough : byte_len pre ≤ n
  pub longest : (c : ℕ) (cs : Text) → rest ≡ c ∷ cs → n < byte_len pre + utf8_len c

utf8_len-pos : (c : ℕ) → (j : ℕ) × (utf8_len c ≡ suc j)
unfolding utf8_len
utf8_len-pos c = (utf8_len c - 1, ground arith)

-- Slicing past the first character.
slice_to-suc :
    (c : ℕ) (cs : Text) (m k : ℕ) (r : Text)
    → utf8_len c + k ≡ suc m
    → slice_to k cs ≡ some r
    → slice_to (suc m) (c ∷ cs) ≡ some (c ∷ r)
unfolding slice_to
slice_to-suc c cs m k r e h =
    let shift : suc m - utf8_len c ≡ k = omega (arith, e) in
    ground (arith, e, h, ap (λ i. slice_to i cs) shift)

slice_to-cons :
    (c : ℕ) (cs : Text) (k : ℕ) (r : Text)
    → slice_to k cs ≡ some r
    → slice_to (utf8_len c + k) (c ∷ cs) ≡ some (c ∷ r)
slice_to-cons c cs k r h =
    let (j, pos) = utf8_len-pos c in
    let e : utf8_len c + k ≡ suc (j + k) = omega (arith, pos) in
    subst (λ n. slice_to n (c ∷ cs) ≡ some (c ∷ r)) (sym e) (slice_to-suc c cs (j + k) k r e h)

-- A text can be sliced at the boundary that `floor_char_boundary` finds, and the slice is the longest.
pub slice_to-floor :
    (n : ℕ) (s : Text)
    → (pre : Text) × (slice_to (floor_char_boundary n s) s ≡ some pre) × IsLongest n pre s
unfolding floor_char_boundary byte_len
slice_to-floor n [] = (
  [],
  unfold slice_to in refl,
  record { rest = []; parts = refl; short_enough = omega arith; longest = λ c cs e. cc },
)
slice_to-floor n (c ∷ cs) = elim (Bool-cases (leb (utf8_len c) n)) [
  | inl fits ↦
      let (pre, found, v) = slice_to-floor (n - utf8_len c) cs in
      (
        c ∷ pre,
        rw fits (slice_to-cons c cs (floor_char_boundary (n - utf8_len c) cs) pre found),
        record {
          rest = v.rest;
          parts = ap (λ t. c ∷ t) v.parts;
          short_enough = ground (arith, fits, v.short_enough);
          longest = λ d ds e. ground (arith, fits, v.longest d ds e);
        },
      )
  | inr wide ↦ (
    [],
    rw wide (unfold slice_to in refl),
    record {
      rest = c ∷ cs;
      parts = refl;
      short_enough = omega arith;
      longest = λ d ds e.
          let eq : c ≡ d = cc e in
          let same : utf8_len c ≡ utf8_len d = ap utf8_len eq in ground (arith, wide, same);
    },
  )
]
