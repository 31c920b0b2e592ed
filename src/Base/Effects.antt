-- ===== src/Base/Effects.antt =====
-- Code that reads and changes a state and may return an error: a function of the state. A `do` block
-- of a module that takes `◌>>=◌` from here is a sequence of such steps.
use mathlib.Core.Path.{◌≡◌, ap}
use mathlib.Core.List.{List, [], ◌∷◌}
use mathlib.Core.Bool.{Bool}
use kubsd.Base.Tests.{if◌then◌else◌}
use kubsd.Base.Results.{Result, ok, err}

-- a step on states `W`, with a result or an error
abbrev pub Step {ℓ} : Type 0 → Type ℓ → Type 0 → Type ℓ
Step W A E = W → W × Result A E

module _ {ℓ} {W E : Type 0} {A : Type ℓ} where
  abbrev pub return : A → Step W A E
  return a w = (w, ok a)

  abbrev pub raise : E → Step W A E
  raise e w = (w, err e)

  -- a result that is known already
  abbrev pub lift : Result A E → Step W A E
  lift r w = (w, r)

  abbrev pub continue {κ} : {B : Type κ} → W × Result A E → (A → Step W B E) → W × Result B E
  continue (w, ok a) next = next a w
  continue (w, err e) next = (w, err e)

infixl 5 ◌>>=◌ ◌>>◌
abbrev pub ◌>>=◌ {ℓ κ} :
    {W E : Type 0} {A : Type ℓ} {B : Type κ} → Step W A E → (A → Step W B E) → Step W B E
(m >>= next) w = continue (m w) next

abbrev pub ◌>>◌ {ℓ} : {W E : Type 0} {B : Type ℓ} → Step W (Unit {0}) E → Step W B E → Step W B E
m >> next = m >>= λ _. next

-- `?` with `From`: another type of errors
abbrev pub relabel {ℓ} :
    {W E E' : Type 0} {A : Type ℓ} → (E → E') → W × Result A E → W × Result A E'
relabel f (w, ok a) = (w, ok a)
relabel f (w, err e) = (w, err (f e))

abbrev pub wrap {ℓ} : {W E E' : Type 0} {A : Type ℓ} → (E → E') → Step W A E → Step W A E'
wrap f m w = relabel f (m w)

-- `let _ = m;`
abbrev pub discard {ℓ} : {W E E' : Type 0} {A : Type ℓ} → Step W A E → Step W (Unit {0}) E'
discard m w = ((m w).0, ok tt)

-- `match m { Ok(()) | Err(absent) => {}, Err(e) => return Err(e) }`
abbrev pub excuse : {W E : Type 0} → (E → Bool) → W × Result (Unit {0}) E → W × Result (Unit {0}) E
excuse absent (w, ok u) = (w, ok tt)
excuse absent (w, err e) = if absent e then (w, ok tt) else (w, err e)

abbrev pub unless : {W E : Type 0} → (E → Bool) → Step W (Unit {0}) E → Step W (Unit {0}) E
unless absent m w = excuse absent (m w)

-- a `for` loop whose body may return an error
unfoldable pub for_each :
    {W E A : Type 0} → (A → Step W (Unit {0}) E) → List A → Step W (Unit {0}) E
for_each body [] = return tt
for_each body (x ∷ xs) = body x >> for_each body xs

-- A step keeps a property of the state, whatever its result is.
abbrev pub Keeps {κ} : {W E : Type 0} {A : Type 0} → (W → Type κ) → Step W A E → Type κ
Keeps {W = W} P m = (w : W) → P w → P (m w).0

module _ {κ} {W E : Type 0} (P : W → Type κ) where
  pub continue-Keeps :
      {A B : Type 0} (out : W × Result A E) (next : A → Step W B E)
      → P out.0
      → ((a : A) → Keeps P (next a))
      → P (continue out next).0
  continue-Keeps (w, ok a) next p k = k a w p
  continue-Keeps (w, err e) next p k = p

  pub relabel-Keeps :
      {A E' : Type 0} (f : E' → E) (out : W × Result A E') → P out.0 → P (relabel f out).0
  relabel-Keeps f (w, ok a) p = p
  relabel-Keeps f (w, err e) p = p

  pub for_each-Keeps :
      {A : Type 0} (body : A → Step W (Unit {0}) E) (xs : List A)
      → ((a : A) → Keeps P (body a))
      → Keeps P (for_each body xs)
  unfolding for_each
  for_each-Keeps body [] k w p = p
  for_each-Keeps body (x ∷ xs) k w p =
      continue-Keeps (body x w) (λ _. for_each body xs) (k x w p) (λ _. for_each-Keeps body xs k)

-- A step that returned, before the next one.
pub >>=-step {ℓ κ} :
    {W E : Type 0} {A : Type ℓ} {B : Type κ} (m : Step W A E) (next : A → Step W B E) (w : W)
    {v : W} {a : A}
    → m w ≡ (v, ok a)
    → (m >>= next) w ≡ next a v
>>=-step m next w e = ap (λ out. continue out next) e
