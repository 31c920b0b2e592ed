-- ===== src/Base/Sort.antt =====
-- `sort_by` on a string key: a stable sort, here by insertion.
use mathlib.Core.Path.{◌≡◌}
use mathlib.Core.Logic.{inl, inr, ◌⊎◌}
use mathlib.Core.Bool.{false}
use mathlib.Core.List.{List, [], ◌∷◌}
use kubsd.Base.Tests.{if◌then◌else◌, Bool-cases}
use kubsd.Base.Lists.{All, Occurs}
use kubsd.Base.Str.{Str, str_lt}

module _ {A : Type 0} (key : A → Str) where
  unfoldable pub sorted_insert : A → List A → List A
  sorted_insert x [] = x ∷ []
  sorted_insert x (y ∷ ys) =
      let later = y ∷ sorted_insert x ys in if str_lt (key y) (key x) then later else x ∷ y ∷ ys

  unfoldable pub sort : List A → List A
  unfolding sorted_insert
  sort [] = []
  sort (x ∷ xs) = sorted_insert x (sort xs)

  module _ {κ} (P : A → Type κ) where
    All-sorted_insert : (x : A) (ys : List A) → P x → All P ys → All P (sorted_insert x ys)
    unfolding sorted_insert
    All-sorted_insert x [] p h = (p, tt)
    All-sorted_insert x (y ∷ ys) p h = elim (Bool-cases (str_lt (key y) (key x))) [
      | inl e ↦ rw e (h.0, All-sorted_insert x ys p h.1)
      | inr e ↦ rw e (p, h)
    ]

    -- sorting keeps what holds of every element
    pub All-sort : (xs : List A) → All P xs → All P (sort xs)
    unfolding sort
    All-sort [] h = tt
    All-sort (x ∷ xs) h = All-sorted_insert x (sort xs) h.0 (All-sort xs h.1)

  Occurs-sorted_insert :
      (a x : A) (ys : List A) → (a ≡ x) ⊎ Occurs a ys → Occurs a (sorted_insert x ys)
  unfolding sorted_insert
  Occurs-sorted_insert a x [] o = o
  Occurs-sorted_insert a x (y ∷ ys) o = elim (Bool-cases (str_lt (key y) (key x))) [
    | inl e ↦ rw e (elim o [
      | inl q ↦ inr (Occurs-sorted_insert a x ys (inl q))
      | inr (inl q) ↦ inl q
      | inr (inr r) ↦ inr (Occurs-sorted_insert a x ys (inr r))
    ])
    | inr e ↦ rw e o
  ]

  -- sorting loses no element
  pub Occurs-sort : (a : A) (xs : List A) → Occurs a xs → Occurs a (sort xs)
  unfolding sort
  Occurs-sort a [] o = o
  Occurs-sort a (x ∷ xs) o =
      Occurs-sorted_insert a x (sort xs)
        (elim o [ inl q ↦ inl q | inr r ↦ inr (Occurs-sort a xs r) ])

  -- no later element is smaller
  abbrev pub IsSorted : List A → Type 0
  IsSorted [] = Unit
  IsSorted (x ∷ xs) = All (λ y. str_lt (key y) (key x) ≡ false) xs × IsSorted xs
