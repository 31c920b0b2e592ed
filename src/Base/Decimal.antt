-- ===== src/Base/Decimal.antt =====
-- `to_string` and `str::parse` of the unsigned integers: decimal digits, and a parser that takes
-- a leading `+` and refuses what does not fit below a bound.
use Prim.Native.Nat.{ℕ, zero, suc, ◌+◌, ◌-◌, ◌*◌, ◌/◌, ◌%◌, ◌≤◌, ◌<◌}
use mathlib.Core.Path.{◌≡◌, refl, ap, sym, ◌∙◌}
use mathlib.Core.Logic.{inl, inr}
use mathlib.Core.Bool.{Bool, ◌&&◌}
use mathlib.Core.List.{[], ◌∷◌}
use mathlib.Core.Option.{Option, none, some}
use native.Mathlib.Omega.{arith}
use kubsd.Base.Tests.{◌==◌, ltb, leb, if◌then◌else◌, Bool-cases, ltb→lt, ltb→ge}
use kubsd.Base.Lists.{All}
use kubsd.Base.Str.{Str}

-- the digits of `n` in front of `rest`
unfoldable pub digits_onto : ℕ → ℕ → Str → Str
digits_onto zero n rest = rest
digits_onto (suc fuel) n rest =
    let more = digits_onto fuel (n / 10) ((48 + n % 10) ∷ rest) in
    if ltb n 10 then (48 + n) ∷ rest else more

-- `n.to_string()`; `n + 1` rounds are more than the number of digits.
unfoldable pub to_string : ℕ → Str
unfolding digits_onto
to_string n = digits_onto (n + 1) n []

unfoldable pub is_digit : ℕ → Bool
is_digit c = leb b'0' c && leb c b'9'

-- the digits of an unsigned type whose values are below `bound`
unfoldable pub parse_digits : ℕ → ℕ → Str → Option ℕ
unfolding is_digit
parse_digits bound acc [] = some acc
parse_digits bound acc (c ∷ cs) =
    let value = acc * 10 + (c - 48) in
    let more = parse_digits bound value cs in if is_digit c && ltb value bound then more else none

-- `s.parse::<uN>().ok()`
unfoldable pub parse_uint : ℕ → Str → Option ℕ
unfolding parse_digits
parse_uint bound [] = none
parse_uint bound (c ∷ []) = if c == b'+' then none else parse_digits bound 0 (c ∷ [])
parse_uint bound (c ∷ d ∷ s) =
    if c == b'+' then parse_digits bound 0 (d ∷ s) else parse_digits bound 0 (c ∷ d ∷ s)

parse_digits-cons :
    (bound acc d : ℕ) (cs : Str)
    → d < 10
    → acc * 10 + d < bound
    → parse_digits bound acc ((48 + d) ∷ cs) ≡ parse_digits bound (acc * 10 + d) cs
unfolding parse_digits
parse_digits-cons bound acc d cs h k = let e : 48 + d - 48 ≡ d = omega arith in rw e (ground arith)

parse_digits-digits_onto :
    (fuel bound n : ℕ) (rest : Str)
    → n < fuel
    → n < bound
    → parse_digits bound 0 (digits_onto fuel n rest) ≡ parse_digits bound n rest
unfolding digits_onto
parse_digits-digits_onto zero bound n rest h k = absurd (omega arith)
parse_digits-digits_onto (suc fuel) bound n rest h k = elim (Bool-cases (ltb n 10)) [
  | inl e ↦
      rw (e, parse_digits-cons bound 0 n rest (ltb→lt n 10 e) (omega arith))
        (ap (λ t. parse_digits bound t rest) (omega arith))
  | inr e ↦
      let big = ltb→ge n 10 e in
      rw
        (
          e,
          parse_digits-digits_onto fuel bound (n / 10) ((48 + n % 10) ∷ rest) (omega arith)
              (omega arith),
          parse_digits-cons bound (n / 10) (n % 10) rest (omega arith) (omega arith),
        )
        (ap (λ t. parse_digits bound t rest) (omega arith))
]

parse_digits-nil : (bound n : ℕ) → parse_digits bound n [] ≡ some n
unfolding parse_digits
parse_digits-nil bound n = refl

-- every byte is a digit
abbrev pub AllDigits : Str → Type 0
AllDigits = All (λ c. (48 ≤ c) × (c ≤ 57))

digits_onto-shape :
    (fuel n : ℕ) (rest : Str)
    → n < fuel
    → AllDigits rest
    → (d : ℕ) × (s : Str) × (digits_onto fuel n rest ≡ d ∷ s) × AllDigits (d ∷ s)
unfolding digits_onto
digits_onto-shape zero n rest h k = absurd (omega arith)
digits_onto-shape (suc fuel) n rest h k = elim (Bool-cases (ltb n 10)) [
  | inl e ↦ let small = ltb→lt n 10 e in (48 + n, rest, rw e, ((omega arith, omega arith), k))
  | inr e ↦
      let big = ltb→ge n 10 e in
      let (d, s, p, q) =
        digits_onto-shape fuel (n / 10) ((48 + n % 10) ∷ rest) (omega arith)
          ((omega arith, omega arith), k) in
      (d, s, rw e p, q)
]

-- a printed number is a digit and more digits
pub to_string-shape : (n : ℕ) → (d : ℕ) × (s : Str) × (to_string n ≡ d ∷ s) × AllDigits (d ∷ s)
unfolding to_string
to_string-shape n = digits_onto-shape (n + 1) n [] (omega arith) tt

pub to_string-AllDigits : (n : ℕ) → AllDigits (to_string n)
to_string-AllDigits n = let (d, s, e, a) = to_string-shape n in rw e a

parse_uint-digits :
    (bound d : ℕ) (s : Str)
    → AllDigits (d ∷ s)
    → parse_uint bound (d ∷ s) ≡ parse_digits bound 0 (d ∷ s)
unfolding parse_uint
parse_uint-digits bound d [] h = ground arith
parse_uint-digits bound d (c ∷ s) h = ground arith

-- Printing and parsing is the identity below the bound.
pub parse_uint-to_string : (bound n : ℕ) → n < bound → parse_uint bound (to_string n) ≡ some n
unfolding to_string
parse_uint-to_string bound n h =
    let (d, s, e, a) = digits_onto-shape (n + 1) n [] (omega arith) tt in
    rw e (
      parse_uint-digits bound d s a
      ∙ ap (parse_digits bound 0) (sym e)
      ∙ parse_digits-digits_onto (n + 1) bound n [] (omega arith) h
      ∙ parse_digits-nil bound n)

parse_digits-lt :
    (bound acc n : ℕ) (s : Str) → acc < bound → parse_digits bound acc s ≡ some n → n < bound
unfolding parse_digits
parse_digits-lt bound acc n [] h k = ground arith
parse_digits-lt bound acc n (c ∷ s) h k =
    ground (arith, parse_digits-lt bound (acc * 10 + (c - 48)) n s)

-- A parsed number is below the bound of its type.
pub parse_uint-lt : (bound n : ℕ) (s : Str) → 0 < bound → parse_uint bound s ≡ some n → n < bound
unfolding parse_uint
parse_uint-lt bound n [] h k = cc
parse_uint-lt bound n (c ∷ []) h k = ground (arith, parse_digits-lt bound 0 n (c ∷ []))
parse_uint-lt bound n (c ∷ d ∷ s) h k =
    ground (arith, parse_digits-lt bound 0 n (c ∷ d ∷ s), parse_digits-lt bound 0 n (d ∷ s))
