-- ===== src/Agent/Host/Fake/Sets.antt =====
-- The sets and maps of the node in memory: what is found after an insertion or a removal.
use kubsd.Base.{
  ◌≡◌, refl, ap, true, false, ◌||◌, List, [], ◌∷◌, inl, inr, arith, Bool-cases, if◌then◌else◌, none,
  some,
}
use kubsd.Base.Dict
use kubsd.Base.Dict.{Dict}
use kubsd.Base.Str.{Str, str_eq, str_eq_iff}
use kubsd.Spec.Volumes.{has}
use kubsd.Agent.Host.Fake.{put, drop}

pub has-put : (k j : Str) (s : List Str) → has (put k s) j ≡ (str_eq k j || has s j)
has-put k j s = elim (Bool-cases (has s k)) [
  | inl e ↦ elim (Bool-cases (str_eq k j)) [
    | inl q ↦
        let p : k ≡ j = (str_eq_iff k j).0 q in
        let found : has s j ≡ true = rw p at e in rw (e, q) found
    | inr q ↦ rw (e, q) refl
  ]
  | inr e ↦ rw e refl
]

pub has-drop :
    (k j : Str) (s : List Str) → has (drop k s) j ≡ (if str_eq k j then false else has s j)
has-drop k j [] = ground arith
has-drop k j (x ∷ s) =
    ground (arith, has-drop k j s, str_eq_iff k j, str_eq_iff x k, str_eq_iff x j)

pub drop_absent : (k : Str) (s : List Str) → has s k ≡ false → drop k s ≡ s
drop_absent k [] h = refl
drop_absent k (x ∷ s) h =
    let no : str_eq x k ≡ false = ground arith in
    let none_left : has s k ≡ false = ground arith in
    rw no (ap (λ t. x ∷ t) (drop_absent k s none_left))

pub remove_absent : {V : Type 0} (k : Str) (m : Dict V) → Dict.get k m ≡ none → Dict.remove k m ≡ m
unfolding Dict.get Dict.remove
remove_absent k [] h = refl
remove_absent k ((j, v) ∷ m) h = elim (Bool-cases (str_eq j k)) [
  | inl e ↦ let found : some v ≡ none = rw e at h in cc
  | inr e ↦
      let rest : Dict.get k m ≡ none = rw e at h in
      rw e (ap (λ t. (j, v) ∷ t) (remove_absent k m rest))
]
