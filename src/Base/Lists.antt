-- ===== src/Base/Lists.antt =====
-- Lists over the native numbers, predicates on all and on some elements, and sets of numbers.
use Prim.Native.Nat.{ℕ, zero, suc, ◌+◌}
use mathlib.Core.Path.{◌≡◌, refl, ap, sym, subst, ◌∙◌}
use mathlib.Core.Logic.{◌⊎◌, ◌↔◌, inl, inr}
use mathlib.Core.Bool.{Bool, true, false, ◌||◌}
use mathlib.Core.List.{List, [], ◌∷◌, ◌++◌, map}
use mathlib.Core.Option.{Option, none, some}
use native.Mathlib.Omega.{arith}
use kubsd.Base.Tests.{◌==◌, if◌then◌else◌, Bool-cases, ==_iff}

filter_map_here {κ} :
    {B : Type κ} (o : Option B) (b : B) (rest : List B)
    → o ≡ some b
    → (elim o [ none ↦ rest | some c ↦ c ∷ rest ]) ≡ b ∷ rest
filter_map_here none b rest h = cc
filter_map_here (some c) b rest h = cc

module _ {ℓ} {A : Type ℓ} where
  abbrev pub length : List A → ℕ
  length [] = 0
  length (x ∷ xs) = suc (length xs)

  abbrev pub take : ℕ → List A → List A
  take zero xs = []
  take (suc n) [] = []
  take (suc n) (x ∷ xs) = x ∷ take n xs

  abbrev pub is_empty : List A → Bool
  is_empty [] = true
  is_empty (x ∷ xs) = false

  -- `Iterator::filter` and `Iterator::find` by a Boolean test
  abbrev pub filter : (A → Bool) → List A → List A
  filter p [] = []
  filter p (x ∷ xs) = let rest = filter p xs in if p x then x ∷ rest else rest

  abbrev pub find : (A → Bool) → List A → Option A
  find p [] = none
  find p (x ∷ xs) = if p x then some x else find p xs

  -- `Iterator::filter_map`
  abbrev pub filter_map {κ} : {B : Type κ} → (A → Option B) → List A → List B
  filter_map f [] = []
  filter_map f (x ∷ xs) =
      let rest = filter_map f xs in elim (f x) [ none ↦ rest | some b ↦ b ∷ rest ]

  -- every element satisfies `P`
  abbrev pub All {κ} : (A → Type κ) → List A → Type κ
  All P [] = Unit
  All P (x ∷ xs) = P x × All P xs

-- the occurrences of a value in a list
abbrev pub Occurs : {A : Type 0} → A → List A → Type 0
Occurs a [] = ⊥
Occurs a (x ∷ xs) = (a ≡ x) ⊎ Occurs a xs

module _ {κ} {A : Type 0} (P : A → Type κ) where
  pub All-append : (xs ys : List A) → All P xs → All P ys → All P (xs ++ ys)
  All-append [] ys h k = k
  All-append (x ∷ xs) ys h k = (h.0, All-append xs ys h.1 k)

  pub All-Occurs : (xs : List A) (a : A) → All P xs → Occurs a xs → P a
  All-Occurs [] a h o = absurd o
  All-Occurs (x ∷ xs) a h o = elim o [ inl e ↦ subst P (sym e) h.0 | inr r ↦ All-Occurs xs a h.1 r ]

  All-if : (b : Bool) (x : A) (xs : List A) → P x → All P xs → All P (if b then x ∷ xs else xs)
  All-if true x xs p h = (p, h)
  All-if false x xs p h = h

  pub All-filter : (p : A → Bool) (xs : List A) → All P xs → All P (filter p xs)
  All-filter p [] h = tt
  All-filter p (x ∷ xs) h = All-if (p x) x (filter p xs) h.0 (All-filter p xs h.1)

  pub All-pure : (xs : List A) → ((a : A) → P a) → All P xs
  All-pure [] f = tt
  All-pure (x ∷ xs) f = (f x, All-pure xs f)

  pub All-each : (xs : List A) → ((a : A) → Occurs a xs → P a) → All P xs
  All-each [] f = tt
  All-each (x ∷ xs) f = (f x (inl refl), All-each xs (λ a o. f a (inr o)))

module _ {A : Type 0} where
  pub All-weaken {κ μ} :
      (P : A → Type κ) (Q : A → Type μ) (xs : List A) → ((a : A) → P a → Q a) → All P xs → All Q xs
  All-weaken P Q [] f h = tt
  All-weaken P Q (x ∷ xs) f h = (f x h.0, All-weaken P Q xs f h.1)

  filter_step :
      (p : A → Bool) (x : A) (rest : List A) (b : Bool)
      → p x ≡ b
      → All (λ a. p a ≡ true) rest
      → All (λ a. p a ≡ true) (if b then x ∷ rest else rest)
  filter_step p x rest true e h = (e, h)
  filter_step p x rest false e h = h

  -- what a filter keeps passes its test
  pub filter-test : (p : A → Bool) (xs : List A) → All (λ x. p x ≡ true) (filter p xs)
  filter-test p [] = tt
  filter-test p (x ∷ xs) = filter_step p x (filter p xs) (p x) refl (filter-test p xs)

  pub Occurs-filter :
      (p : A → Bool) (xs : List A) (a : A) → p a ≡ true → Occurs a xs → Occurs a (filter p xs)
  Occurs-filter p [] a t o = o
  Occurs-filter p (x ∷ xs) a t o = elim (Bool-cases (p x)) [
    | inl e ↦ rw e (elim o [ inl q ↦ inl q | inr r ↦ inr (Occurs-filter p xs a t r) ])
    | inr e ↦ rw e (elim o [ inl q ↦ absurd (cc (ap p q)) | inr r ↦ Occurs-filter p xs a t r ])
  ]

  filter_map_step :
      {B : Type 0} (f : A → Option B) (x : A) (xs : List A) (b : B) (rest : List B) (o : Option B)
      → f x ≡ o
      → (Occurs b rest → (a : A) × Occurs a xs × (f a ≡ some b))
      → Occurs b (elim o [ none ↦ rest | some c ↦ c ∷ rest ])
      → (a : A) × Occurs a (x ∷ xs) × (f a ≡ some b)
  filter_map_step f x xs b rest none e h occ = let (a, p, q) = h occ in (a, inr p, q)
  filter_map_step f x xs b rest (some c) e h occ = elim occ [
    | inl p ↦ (x, inl refl, rw p e)
    | inr r ↦ let (a, p, q) = h r in (a, inr p, q)
  ]

  -- where every element has a value
  pub filter_map_each {κ} :
      {B : Type κ} (f : A → Option B) (g : A → B) (xs : List A)
      → All (λ x. f x ≡ some (g x)) xs
      → filter_map f xs ≡ map g xs
  filter_map_each f g [] h = refl
  filter_map_each f g (x ∷ xs) h =
      filter_map_here (f x) (g x) (filter_map f xs) h.0
      ∙ ap (λ ys. g x ∷ ys) (filter_map_each f g xs h.1)

  -- what `filter_map` lists comes from an element
  pub Occurs-filter_map :
      {B : Type 0} (f : A → Option B) (xs : List A) (b : B)
      → Occurs b (filter_map f xs)
      → (a : A) × Occurs a xs × (f a ≡ some b)
  Occurs-filter_map f [] b o = absurd o
  Occurs-filter_map f (x ∷ xs) b o =
      filter_map_step f x xs b (filter_map f xs) (f x) refl (Occurs-filter_map f xs b) o

  filter_map_kept :
      {B : Type 0} (f : A → Option B) (x a : A) (b : B) (xs : List A) (rest : List B) (o : Option B)
      → f x ≡ o
      → f a ≡ some b
      → (Occurs a xs → Occurs b rest)
      → Occurs a (x ∷ xs)
      → Occurs b (elim o [ none ↦ rest | some c ↦ c ∷ rest ])
  filter_map_kept f x a b xs rest none q e h (inl p) = absurd (cc (e, q, ap f p))
  filter_map_kept f x a b xs rest none q e h (inr r) = h r
  filter_map_kept f x a b xs rest (some c) q e h (inl p) = inl (cc (e, q, ap f p))
  filter_map_kept f x a b xs rest (some c) q e h (inr r) = inr (h r)

  -- and it lists what comes from an element
  pub filter_map-Occurs :
      {B : Type 0} (f : A → Option B) (xs : List A) (a : A) (b : B)
      → f a ≡ some b
      → Occurs a xs
      → Occurs b (filter_map f xs)
  filter_map-Occurs f [] a b e o = absurd o
  filter_map-Occurs f (x ∷ xs) a b e o =
      filter_map_kept f x a b xs (filter_map f xs) (f x) refl e (filter_map-Occurs f xs a b e) o

  pub length-append : (xs ys : List A) → length (xs ++ ys) ≡ length xs + length ys
  length-append [] ys = omega arith
  length-append (x ∷ xs) ys = omega (arith, length-append xs ys)

  pub find-eq-some :
      (p : A → Bool) (xs : List A) (a : A) → find p xs ≡ some a → (p a ≡ true) × Occurs a xs
  find-eq-some p [] a h = cc
  find-eq-some p (x ∷ xs) a h = ground (arith, find-eq-some p xs a)

  pub find-eq-none : (p : A → Bool) (xs : List A) → find p xs ≡ none → All (λ a. p a ≡ false) xs
  find-eq-none p [] h = tt
  find-eq-none p (x ∷ xs) h = elim (Bool-cases (p x)) [
    | inl t ↦ absurd (ground arith)
    | inr f ↦ (f, find-eq-none p xs (ground arith))
  ]

-- A `HashSet` or `BTreeSet` of numbers.
abbrev pub contains : List ℕ → ℕ → Bool
contains [] a = false
contains (x ∷ xs) a = x == a || contains xs a

pub contains-Occurs : (xs : List ℕ) (a : ℕ) → (contains xs a ≡ true) ↔ Occurs a xs
contains-Occurs [] a = (λ h. cc, λ h. absurd h)
contains-Occurs (x ∷ xs) a =
    (λ h. ground (arith, (contains-Occurs xs a).0), λ h. ground (arith, (contains-Occurs xs a).1))

contains-Occurs_path :
    (xs : List ℕ) (a b : ℕ)
    → contains xs a ≡ true
    → contains xs b ≡ (if a == b then true else contains xs b)
contains-Occurs_path xs a b e = elim (Bool-cases (a == b)) [
  | inl q ↦ rw q (subst (λ t. contains xs t ≡ true) ((==_iff a b).0 q) e)
  | inr q ↦ rw q
]

-- `insert`
abbrev pub set_insert : ℕ → List ℕ → List ℕ
set_insert a xs = if contains xs a then xs else a ∷ xs

-- `remove`
abbrev pub set_remove : ℕ → List ℕ → List ℕ
set_remove a [] = []
set_remove a (x ∷ xs) = let rest = set_remove a xs in if x == a then rest else x ∷ rest

pub contains-set_insert :
    (a b : ℕ) (xs : List ℕ)
    → contains (set_insert a xs) b ≡ (if a == b then true else contains xs b)
contains-set_insert a b xs = elim (Bool-cases (contains xs a)) [
  | inl e ↦ rw e (contains-Occurs_path xs a b e)
  | inr e ↦ rw e (ground arith)
]

pub contains-set_remove :
    (a b : ℕ) (xs : List ℕ)
    → contains (set_remove a xs) b ≡ (if a == b then false else contains xs b)
contains-set_remove a b [] = ground arith
contains-set_remove a b (x ∷ xs) = ground (arith, contains-set_remove a b xs)
