-- ===== src/Base/Dict.antt =====
-- Rust's `HashMap` with string keys. A map is an association list, and the order in which it is
-- iterated is the list's: a theorem that quantifies over maps holds for every iteration order.
use mathlib.Core.Path.{◌≡◌, refl, ap, sym, subst}
use mathlib.Core.Logic.{inl, inr}
use mathlib.Core.Bool.{false}
use mathlib.Core.List.{List, [], ◌∷◌, map}
use mathlib.Core.Option.{Option, none, some}
use native.Mathlib.Omega.{arith}
use kubsd.Base.Tests.{if◌then◌else◌, Bool-cases}
use kubsd.Base.Lists.{Occurs, All, All-each, All-weaken}
use kubsd.Base.Str.{Str, str_eq, str_eq_iff, str_eq_refl, ne_of_str_eq, str_eq_of_ne}

abbrev pub Dict {ℓ} : Type ℓ → Type ℓ
Dict V = List (Str × V)

module _ {ℓ} {V : Type ℓ} where
  unfoldable pub get : Str → Dict V → Option V
  get k [] = none
  get k ((j, v) ∷ m) = if str_eq j k then some v else get k m

  unfoldable pub insert : Str → V → Dict V → Dict V
  insert k v [] = (k, v) ∷ []
  insert k v ((j, w) ∷ m) = if str_eq j k then (k, v) ∷ m else (j, w) ∷ insert k v m

  unfoldable pub remove : Str → Dict V → Dict V
  remove k [] = []
  remove k ((j, v) ∷ m) = let rest = remove k m in if str_eq j k then rest else (j, v) ∷ rest

  pub get-insert :
      (k j : Str) (v : V) (m : Dict V)
      → get j (insert k v m) ≡ (if str_eq k j then some v else get j m)
  unfolding get insert
  get-insert k j v [] = refl
  get-insert k j v ((i, w) ∷ m) =
      ground (arith, str_eq_iff k j, str_eq_iff i k, str_eq_iff i j, get-insert k j v m)

  pub get-insert_self : (k : Str) (v : V) (m : Dict V) → get k (insert k v m) ≡ some v
  get-insert_self k v m = simp (get-insert, str_eq_refl)

  pub get-remove :
      (k j : Str) (m : Dict V) → get j (remove k m) ≡ (if str_eq k j then none else get j m)
  unfolding get remove
  get-remove k j [] = ground arith
  get-remove k j ((i, w) ∷ m) =
      ground (arith, str_eq_iff k j, str_eq_iff i k, str_eq_iff i j, get-remove k j m)

-- No key stands twice.
abbrev pub Fresh {ℓ} : {V : Type ℓ} → Str → Dict V → Type 0
Fresh k [] = Unit
Fresh k ((j, v) ∷ m) = (str_eq j k ≡ false) × Fresh k m

abbrev pub Distinct {ℓ} : {V : Type ℓ} → Dict V → Type 0
Distinct [] = Unit
Distinct ((j, v) ∷ m) = Fresh j m × Distinct m

module _ {ℓ} {V : Type ℓ} where
  pub Fresh-insert :
      (i k : Str) (v : V) (m : Dict V) → str_eq k i ≡ false → Fresh i m → Fresh i (insert k v m)
  unfolding insert
  Fresh-insert i k v [] h f = (h, tt)
  Fresh-insert i k v ((j, w) ∷ m) h f = elim (Bool-cases (str_eq j k)) [
    | inl e ↦ rw e (h, f.1)
    | inr e ↦ rw e (f.0, Fresh-insert i k v m h f.1)
  ]

  pub Distinct-insert : (k : Str) (v : V) (m : Dict V) → Distinct m → Distinct (insert k v m)
  unfolding insert
  Distinct-insert k v [] d = (tt, tt)
  Distinct-insert k v ((j, w) ∷ m) d = elim (Bool-cases (str_eq j k)) [
    | inl e ↦ rw e (subst (λ t. Fresh t m) ((str_eq_iff j k).0 e) d.0, d.1)
    | inr e ↦ rw e (
      Fresh-insert j k v m (str_eq_of_ne k j (λ q. ne_of_str_eq j k e (sym q))) d.0,
      Distinct-insert k v m d.1,
    )
  ]

  pub Fresh-remove : (i k : Str) (m : Dict V) → Fresh i m → Fresh i (remove k m)
  unfolding remove
  Fresh-remove i k [] f = tt
  Fresh-remove i k ((j, w) ∷ m) f = elim (Bool-cases (str_eq j k)) [
    | inl e ↦ rw e (Fresh-remove i k m f.1)
    | inr e ↦ rw e (f.0, Fresh-remove i k m f.1)
  ]

  pub Distinct-remove : (k : Str) (m : Dict V) → Distinct m → Distinct (remove k m)
  unfolding remove
  Distinct-remove k [] d = tt
  Distinct-remove k ((j, w) ∷ m) d = elim (Bool-cases (str_eq j k)) [
    | inl e ↦ rw e (Distinct-remove k m d.1)
    | inr e ↦ rw e (Fresh-remove j k m d.0, Distinct-remove k m d.1)
  ]

module _ {V : Type 0} where
  pub Occurs-get : (k : Str) (v : V) (m : Dict V) → get k m ≡ some v → Occurs (k, v) m
  unfolding get
  Occurs-get k v [] h = cc
  Occurs-get k v ((j, w) ∷ m) h = elim (Bool-cases (str_eq j k)) [
    | inl e ↦ inl (ground (arith, str_eq_iff j k))
    | inr e ↦ inr (Occurs-get k v m (ground arith))
  ]

  Fresh-Occurs : (k j : Str) (v : V) (m : Dict V) → Fresh k m → Occurs (j, v) m → str_eq k j ≡ false
  Fresh-Occurs k j v [] f o = absurd o
  Fresh-Occurs k j v ((i, w) ∷ m) f o = elim o [
    | inl e ↦ ground (arith, ap (λ (p : Str × V). p.0) e, str_eq_iff k j, str_eq_iff i k)
    | inr r ↦ Fresh-Occurs k j v m f.1 r
  ]

  -- in a map, what the iteration meets is what a lookup finds
  pub get_of_Occurs :
      (k : Str) (v : V) (m : Dict V) → Distinct m → Occurs (k, v) m → get k m ≡ some v
  unfolding get
  get_of_Occurs k v [] d o = absurd o
  get_of_Occurs k v ((j, w) ∷ m) d o = elim o [
    | inl e ↦
        ground (arith, ap (λ (p : Str × V). p.0) e, ap (λ (p : Str × V). p.1) e, str_eq_iff j k)
    | inr r ↦ rw (Fresh-Occurs j k v m d.0 r) (get_of_Occurs k v m d.1 r)
  ]

-- what holds of every entry that a lookup finds
abbrev pub Each : {V : Type 0} → (Str → V → Type 0) → Dict V → Type 0
Each {V = V} P m = (k : Str) (v : V) → get k m ≡ some v → P k v

module _ {V : Type 0} (P : Str → V → Type 0) where
  pub Each-insert : (k : Str) (v : V) (m : Dict V) → P k v → Each P m → Each P (insert k v m)
  Each-insert k v m p each j w h = elim (Bool-cases (str_eq k j)) [
    | inl e ↦
        let q : v ≡ w = ground (arith, get-insert k j v m) in
        subst (λ t. P t w) ((str_eq_iff k j).0 e) (subst (P k) q p)
    | inr e ↦ each j w (ground (arith, get-insert k j v m))
  ]

  pub Each-remove : (k : Str) (m : Dict V) → Each P m → Each P (remove k m)
  Each-remove k m each j w h = each j w (ground (arith, get-remove k j m))

  pub All-Each : (m : Dict V) → Distinct m → Each P m → All (λ (e : Str × V). P e.0 e.1) m
  All-Each m d each =
      All-each (λ (e : Str × V). P e.0 e.1) m (λ (k, v) o. each k v (get_of_Occurs k v m d o))

-- a key of the map
abbrev pub Has : {V : Type 0} → Str → Dict V → Type 0
Has {V = V} k m = (v : V) × (get k m ≡ some v)

pub insert-Has : {V : Type 0} (k j : Str) (v : V) (m : Dict V) → Has j m → Has j (insert k v m)
insert-Has k j v m (w, h) = elim (Bool-cases (str_eq k j)) [
  | inl e ↦ (v, ground (arith, get-insert k j v m))
  | inr e ↦ (w, ground (arith, get-insert k j v m))
]

cons-Has : {V : Type 0} (j : Str) (w : V) (m : Dict V) (k : Str) → Has k m → Has k ((j, w) ∷ m)
unfolding get
cons-Has j w m k (v, h) = elim (Bool-cases (str_eq j k)) [
  | inl e ↦ (w, rw e refl)
  | inr e ↦ (v, rw e h)
]

-- every key that the iteration meets is one of the map
pub keys-Has : {V : Type 0} (m : Dict V) → All (λ k. Has k m) (map (λ (e : Str × V). e.0) m)
unfolding get
keys-Has {V = V} [] = tt
keys-Has {V = V} ((j, w) ∷ m) = (
  (w, ground (arith, str_eq_refl j)),
  All-weaken (λ k. Has k m) (λ k. Has k ((j, w) ∷ m)) (map (λ (e : Str × V). e.0) m)
      (cons-Has j w m) (keys-Has m),
)

-- what holds of the entries holds of those that an insertion or a removal leaves
module _ {V : Type 0} (P : Str × V → Type 0) where
  pub All-insert : (k : Str) (v : V) (m : Dict V) → P (k, v) → All P m → All P (insert k v m)
  unfolding insert
  All-insert k v [] p h = (p, tt)
  All-insert k v ((j, w) ∷ m) p h = elim (Bool-cases (str_eq j k)) [
    | inl e ↦ rw e (p, h.1)
    | inr e ↦ rw e (h.0, All-insert k v m p h.1)
  ]

  pub All-remove : (k : Str) (m : Dict V) → All P m → All P (remove k m)
  unfolding remove
  All-remove k [] h = tt
  All-remove k ((j, w) ∷ m) h = elim (Bool-cases (str_eq j k)) [
    | inl e ↦ rw e (All-remove k m h.1)
    | inr e ↦ rw e (h.0, All-remove k m h.1)
  ]
