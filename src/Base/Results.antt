-- ===== src/Base/Results.antt =====
-- Rust's `Result`, with its bind, and the bind of `Option`, which here stands for code that may
-- panic: `none` is the panic.
use mathlib.Core.Path.{◌≡◌, refl}
use mathlib.Core.Bool.{Bool, true, false}
use mathlib.Core.Option
use mathlib.Core.Option.{Option, none, some}
use kubsd.Base.Tests.{some_inj, if◌then◌else◌}

pub data Result {ℓ κ} (A : Type ℓ) (E : Type κ) : Type (ℓ ⊔ κ) where
  ok : A → Result A E
  err : E → Result A E

infixl 5 ◌>>=◌ ◌>>◌
abbrev pub ◌>>=◌ {ℓ κ μ} :
    {A : Type ℓ} {B : Type κ} {E : Type μ} → Result A E → (A → Result B E) → Result B E
err failed >>= next = err failed
ok x >>= next = next x

abbrev pub ◌>>◌ {ℓ μ} : {B : Type ℓ} {E : Type μ} → Result (Unit {0}) E → Result B E → Result B E
m >> k = m >>= λ _. k

module _ {ℓ κ} {A : Type ℓ} {E : Type κ} where
  -- `map_err`
  abbrev pub map_err {μ} : {E' : Type μ} → (E → E') → Result A E → Result A E'
  map_err f (ok a) = ok a
  map_err f (err e) = err (f e)

  -- `ok_or`
  abbrev pub ok_or : E → Option A → Result A E
  ok_or e none = err e
  ok_or e (some a) = ok a

  -- `.ok()`
  abbrev pub to_option : Result A E → Option A
  to_option (ok a) = some a
  to_option (err e) = none

  abbrev pub is_ok : Result A E → Bool
  is_ok (ok a) = true
  is_ok (err e) = false

  pub is_ok-ok : (r : Result A E) → is_ok r ≡ true → (a : A) × (r ≡ ok a)
  is_ok-ok (ok a) h = (a, refl)
  is_ok-ok (err e) h = cc

abbrev pub guard {μ} : {E : Type μ} → Bool → E → Result (Unit {0}) E
guard passes failed = if passes then ok tt else err failed

-- Inversion of a bind that returned.
pub >>=-eq-ok {ℓ κ μ} :
    {A : Type ℓ} {B : Type κ} {E : Type μ} (first : Result A E) (next : A → Result B E) {out : B}
    → (first >>= next) ≡ ok out
    → (x : A) × (first ≡ ok x) × (next x ≡ ok out)
>>=-eq-ok (err failed) next returned = cc
>>=-eq-ok (ok x) next returned = (x, refl, returned)

pub ok_or-eq-ok {ℓ κ} :
    {A : Type ℓ} {E : Type κ} (e : E) (o : Option A) {a : A} → ok_or e o ≡ ok a → o ≡ some a
ok_or-eq-ok e none h = cc
ok_or-eq-ok e (some x) h = cc

pub map_err-eq-ok {ℓ κ μ} :
    {A : Type ℓ} {E : Type κ} {E' : Type μ} (f : E → E') (r : Result A E) {a : A}
    → map_err f r ≡ ok a
    → r ≡ ok a
map_err-eq-ok f (ok x) h = cc
map_err-eq-ok f (err e) h = cc

pub ok-injective {ℓ κ} :
    {A : Type ℓ} {E : Type κ} {a b : A} → ◌≡◌ {A = Result A E} (ok a) (ok b) → a ≡ b
ok-injective h = cc

-- `Option::and_then`, and `?` on an option
abbrev pub and_then {ℓ κ} : {A : Type ℓ} {B : Type κ} → Option A → (A → Option B) → Option B
and_then none f = none
and_then (some a) f = f a

pub and_then-eq-some {ℓ κ} :
    {A : Type ℓ} {B : Type κ} (o : Option A) (f : A → Option B) {b : B}
    → and_then o f ≡ some b
    → (a : A) × (o ≡ some a) × (f a ≡ some b)
and_then-eq-some none f h = cc
and_then-eq-some (some a) f h = (a, refl, h)

pub map-eq-some {ℓ κ} :
    {A : Type ℓ} {B : Type κ} (f : A → B) (o : Option A) {b : B}
    → Option.map f o ≡ some b
    → (a : A) × (o ≡ some a) × (f a ≡ b)
map-eq-some f none h = cc
map-eq-some f (some a) h = (a, refl, some_inj h)

pub to_option-eq-some {ℓ κ} :
    {A : Type ℓ} {E : Type κ} (r : Result A E) {a : A} → to_option r ≡ some a → r ≡ ok a
to_option-eq-some (ok a) h = cc
to_option-eq-some (err e) h = cc
