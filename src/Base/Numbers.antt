-- ===== src/Base/Numbers.antt =====
-- Rust's `FromStr` and `Display` for unsigned integers, over the code points of a text.
use Prim.Native.Nat.{ℕ, zero, suc, ◌+◌, ◌-◌, ◌*◌, ◌/◌, ◌%◌, ◌^◌, ◌≤◌, ◌<◌}
use mathlib.Core.Path.{◌≡◌, refl, sym, ap, ◌∙◌}
use mathlib.Core.Bool.{false, ◌&&◌}
use mathlib.Core.List.{List, [], ◌∷◌}
use mathlib.Core.Option.{Option, none, some}
use mathlib.Core.Logic.{inl, inr}
use native.Mathlib.Omega.{arith}
use native.Mathlib.Nat.{div-add-mod, mod-lt, pow-succ'}
use polymarket_orderbook_col.Base.Tests.{leb, ◌==◌, if◌then◌else◌, Bool-cases}

-- The value of decimal digits that is not above a limit.
unfoldable pub parse_digits : (limit acc : ℕ) → List ℕ → Option ℕ
parse_digits limit acc [] = some acc
parse_digits limit acc (c ∷ cs) =
    let next = acc * 10 + (c - b'0') in
    let rest = parse_digits limit next cs in
    if leb b'0' c && leb c b'9' && leb next limit then rest else none

-- Digits of which there is at least one.
unfoldable pub parse_magnitude : ℕ → List ℕ → Option ℕ
unfolding parse_digits
parse_magnitude limit [] = none
parse_magnitude limit (c ∷ cs) = parse_digits limit 0 (c ∷ cs)

-- `parse` of an unsigned integer whose greatest value is the limit: one plus sign may stand first.
unfoldable pub parse_unsigned : ℕ → List ℕ → Option ℕ
unfolding parse_magnitude
parse_unsigned limit [] = none
parse_unsigned limit (c ∷ cs) = parse_magnitude limit (if c == b'+' then cs else c ∷ cs)

-- The decimal digits of a number of at most `fuel` digits, before `rest`.
unfoldable pub digits_of : (fuel n : ℕ) → List ℕ → List ℕ
digits_of zero n rest = rest
digits_of (suc fuel) n rest =
    let here = (b'0' + n % 10) ∷ rest in
    let more = digits_of fuel (n / 10) here in if n / 10 == 0 then here else more

parse_digits-step :
    (limit q d n : ℕ) (rest : List ℕ)
    → d < 10
    → q * 10 + d ≡ n
    → n ≤ limit
    → parse_digits limit q ((b'0' + d) ∷ rest) ≡ parse_digits limit n rest
unfolding parse_digits
parse_digits-step limit q d n rest h e g =
    let next : q * 10 + (b'0' + d - b'0') ≡ n = omega (arith, e) in
    ground (arith, h, g, ap (λ k. parse_digits limit k rest) next)

-- Reading printed digits is to have read the number.
parse_digits-digits_of :
    (fuel n limit : ℕ) (rest : List ℕ)
    → n < 10 ^ fuel
    → n ≤ limit
    → parse_digits limit 0 (digits_of fuel n rest) ≡ parse_digits limit n rest
unfolding digits_of
parse_digits-digits_of zero n limit rest h g =
    let none_left : 0 ≡ n = omega (arith, h) in ap (λ k. parse_digits limit k rest) none_left
parse_digits-digits_of (suc fuel) n limit rest h g =
    let power : 10 ^ suc fuel ≡ 10 * 10 ^ fuel = pow-succ' 10 fuel in
    let parts = div-add-mod n 10 in
    let small : n % 10 < 10 = mod-lt n (omega arith) in
    elim (Bool-cases (n / 10 == 0)) [
      | inl last ↦
          rw last (parse_digits-step limit 0 (n % 10) n rest small (ground (arith, last, parts)) g)
      | inr more ↦ rw more (
          parse_digits-digits_of fuel (n / 10) limit ((b'0' + n % 10) ∷ rest)
            (omega (arith, parts, power)) (omega (arith, parts))
          ∙ parse_digits-step limit (n / 10) (n % 10) n rest small (omega (arith, parts)) g)
    ]

-- Printed digits begin with a digit.
digits_of-head :
    (fuel n c : ℕ) (rest : List ℕ)
    → b'0' ≤ c
    → (d : ℕ) × (ds : List ℕ) × (digits_of fuel n (c ∷ rest) ≡ d ∷ ds) × (b'0' ≤ d)
unfolding digits_of
digits_of-head zero n c rest h = (c, rest, refl, h)
digits_of-head (suc fuel) n c rest h =
    let here = b'0' + n % 10 in
    elim (Bool-cases (n / 10 == 0)) [
      | inl last ↦ (here, c ∷ rest, rw last refl, omega arith)
      | inr more ↦
          let (d, ds, e, digit) = digits_of-head fuel (n / 10) here (c ∷ rest) (omega arith) in
          (d, ds, rw more e, digit)
    ]

parse_unsigned-digit :
    (limit c : ℕ) (cs : List ℕ)
    → b'0' ≤ c
    → parse_unsigned limit (c ∷ cs) ≡ parse_digits limit 0 (c ∷ cs)
unfolding parse_unsigned parse_magnitude
parse_unsigned-digit limit c cs h =
    let other : (c == b'+') ≡ false = ground (arith, h) in rw other refl

digits_of-digit :
    (fuel n : ℕ) → (d : ℕ) × (ds : List ℕ) × (digits_of (suc fuel) n [] ≡ d ∷ ds) × (b'0' ≤ d)
unfolding digits_of
digits_of-digit fuel n = elim (Bool-cases (n / 10 == 0)) [
  | inl last ↦ (b'0' + n % 10, [], rw last refl, omega arith)
  | inr more ↦
      let (d, ds, e, digit) = digits_of-head fuel (n / 10) (b'0' + n % 10) [] (omega arith) in
      (d, ds, rw more e, digit)
]

-- A printed number that is not above the limit is read back.
pub parse_unsigned-digits_of :
    (fuel n limit : ℕ)
    → n < 10 ^ suc fuel
    → n ≤ limit
    → parse_unsigned limit (digits_of (suc fuel) n []) ≡ some n
parse_unsigned-digits_of fuel n limit h g =
    let (d, ds, e, digit) = digits_of-digit fuel n in
    ap (parse_unsigned limit) e
    ∙ parse_unsigned-digit limit d ds digit
    ∙ ap (parse_digits limit 0) (sym e)
    ∙ parse_digits-digits_of (suc fuel) n limit [] h g
    ∙ unfold parse_digits in refl

parse_digits-le :
    (limit acc : ℕ) (cs : List ℕ) (n : ℕ)
    → parse_digits limit acc cs ≡ some n
    → acc ≤ limit
    → n ≤ limit
unfolding parse_digits
parse_digits-le limit acc [] n h g = let same : acc ≡ n = cc h in omega (arith, same)
parse_digits-le limit acc (c ∷ cs) n h g =
    ground (arith, h, parse_digits-le limit (acc * 10 + (c - b'0')) cs n)

magnitude-le : (limit : ℕ) (s : List ℕ) (n : ℕ) → parse_magnitude limit s ≡ some n → n ≤ limit
unfolding parse_magnitude
magnitude-le limit [] n h = cc
magnitude-le limit (c ∷ cs) n h = parse_digits-le limit 0 (c ∷ cs) n h (omega arith)

-- A number that is read is not above the limit.
pub parse_unsigned-le :
    (limit : ℕ) (s : List ℕ) (n : ℕ) → parse_unsigned limit s ≡ some n → n ≤ limit
unfolding parse_unsigned parse_magnitude
parse_unsigned-le limit [] n h = cc
parse_unsigned-le limit (c ∷ cs) n h = elim (Bool-cases (c == b'+')) [
  | inl plus ↦ magnitude-le limit cs n (rw plus at h)
  | inr digit ↦ magnitude-le limit (c ∷ cs) n (rw digit at h)
]
