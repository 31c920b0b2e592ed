-- ===== src/Spec/Volumes.antt =====
-- keel-spec/src/validate.rs: `validate_volumes`, with the set of names seen so far.
use kubsd.Base.{
  ℕ, ◌≡◌, ◌≢◌, refl, ◌↔◌, inl, inr, Bool, false, ◌||◌, List, [], ◌∷◌, arith, if◌then◌else◌, All,
  Result, ok, err, Bool-cases, ◌>>◌, ◌>>=◌, >>=-eq-ok,
}
use kubsd.Base.Str.{Str, str_eq, str_eq_iff, ne_of_str_eq}
use kubsd.Spec.Types.{SpecError, VolumeMount, duplicate_volume_name}
use kubsd.Spec.Names.{validate_name, IsName, validate_name_iff}
use kubsd.Spec.Resources.{parse_zfs_quota}

-- a `HashSet<String>`
abbrev pub has : List Str → Str → Bool
has [] k = false
has (j ∷ l) k = str_eq j k || has l k

-- the loop over the volumes; `seen` holds the names of those before
unfoldable pub validate_from : List Str → List VolumeMount → Result (Unit {0}) SpecError
validate_from seen [] = ok tt
validate_from seen (volume ∷ volumes) =
    let rest = validate_from (volume.name ∷ seen) volumes in
    let sized = parse_zfs_quota volume.size >>= λ _. rest in
    validate_name volume.name
    >> (if has seen volume.name then err (duplicate_volume_name volume.name) else sized)

unfoldable pub validate_volumes : List VolumeMount → Result (Unit {0}) SpecError
unfolding validate_from
validate_volumes volumes = validate_from [] volumes

-- the name does not stand in the list
abbrev pub NotIn : Str → List Str → Type 0
NotIn k l = All (λ j. j ≢ k) l

-- a size that the size parser accepts
abbrev pub IsSize : Str → Type 0
IsSize s = (v : ℕ) × (parse_zfs_quota s ≡ ok v)

-- Every volume has a well-formed name, a well-formed size, and a name that none before it has.
abbrev pub IsVolumeList : List Str → List VolumeMount → Type 0
IsVolumeList seen [] = Unit
IsVolumeList seen (v ∷ vs) =
    IsName v.name × NotIn v.name seen × IsSize v.size × IsVolumeList (v.name ∷ seen) vs

has-NotIn : (l : List Str) (k : Str) → has l k ≡ false → NotIn k l
has-NotIn [] k h = tt
has-NotIn (j ∷ l) k h = (ne_of_str_eq j k (ground arith), has-NotIn l k (ground arith))

NotIn-has : (l : List Str) (k : Str) → NotIn k l → has l k ≡ false
NotIn-has [] k h = refl
NotIn-has (j ∷ l) k h = ground (arith, str_eq_iff j k, NotIn-has l k h.1, h.0)

validate_from-IsVolumeList :
    (seen : List Str) (vs : List VolumeMount) → validate_from seen vs ≡ ok tt → IsVolumeList seen vs
unfolding validate_from
validate_from-IsVolumeList seen [] h = tt
validate_from-IsVolumeList seen (v ∷ vs) h =
    let (named, a, rest) = >>=-eq-ok (validate_name v.name) _ h in
    elim (Bool-cases (has seen v.name)) [
      | inl dup ↦ cc (rw dup at rest)
      | inr new ↦
          let (size, z, deep) = >>=-eq-ok (parse_zfs_quota v.size) _ (rw new at rest) in
          (
            (validate_name_iff v.name).0 a,
            has-NotIn seen v.name new,
            (size, z),
            validate_from-IsVolumeList (v.name ∷ seen) vs deep,
          )
    ]

IsVolumeList-validate_from :
    (seen : List Str) (vs : List VolumeMount) → IsVolumeList seen vs → validate_from seen vs ≡ ok tt
unfolding validate_from
IsVolumeList-validate_from seen [] h = refl
IsVolumeList-validate_from seen (v ∷ vs) (n, d, (size, z), r) =
    rw ((validate_name_iff v.name).1 n, NotIn-has seen v.name d, z)
      (IsVolumeList-validate_from (v.name ∷ seen) vs r)

-- `validate_volumes` accepts a list of volumes exactly when every name and every size in it is
-- well formed and no name stands twice.
pub validate_volumes_iff :
    (vs : List VolumeMount) → (validate_volumes vs ≡ ok tt) ↔ IsVolumeList [] vs
unfolding validate_volumes
validate_volumes_iff vs = (validate_from-IsVolumeList [] vs, IsVolumeList-validate_from [] vs)
