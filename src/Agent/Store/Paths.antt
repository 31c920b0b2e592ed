-- ===== src/Agent/Store/Paths.antt =====
-- keel-agentd/src/store.rs: which paths are taken for records, and in which directory they are.
use kubsd.Base.{
  ℕ, ◌≡◌, ◌≢◌, refl, sym, ap, ◌∙◌, true, false, [], ◌∷◌, ◌++◌, none, some, arith, ◌==◌, ok, All,
}
use mathlib.Core.List.{append_assoc}
use kubsd.Base.Str.{Str, bytes, str_eq}
use kubsd.Spec.Hosts.{has_byte}
use kubsd.Spec.Names.{validate_name, validate_name_iff, NameByte, first}
use kubsd.Agent.Files.{is_yaml, rsplit_once}
use kubsd.Agent.Store.{record_path, tmp_path}

has_byte-append :
    (b : ℕ) (s t : Str) → has_byte b s ≡ false → has_byte b t ≡ false → has_byte b (s ++ t) ≡ false
has_byte-append b [] t h k = k
has_byte-append b (c ∷ s) t h k =
    let rest : has_byte b s ≡ false = ground arith in
    let here : (c == b) ≡ false = ground arith in rw here (has_byte-append b s t rest k)

rsplit_none : (sep : ℕ) (s : Str) → has_byte sep s ≡ false → rsplit_once sep s ≡ none
unfolding rsplit_once
rsplit_none sep [] h = refl
rsplit_none sep (c ∷ s) h =
    let rest : has_byte sep s ≡ false = ground arith in
    let here : (c == sep) ≡ false = ground arith in rw (rsplit_none sep s rest, here) refl

-- the last separator
rsplit_last :
    (sep : ℕ) (s t : Str) → has_byte sep t ≡ false → rsplit_once sep (s ++ (sep ∷ t)) ≡ some (s, t)
unfolding rsplit_once
rsplit_last sep [] t h =
    let here : (sep == sep) ≡ true = ground arith in rw (rsplit_none sep t h, here) refl
rsplit_last sep (c ∷ s) t h = rw (rsplit_last sep s t h) refl

-- a name that is not empty and has no slash
abbrev pub IsFileName : Str → Type 0
IsFileName name = (has_byte b'/' name ≡ false) × ((c : ℕ) × (s : Str) × (name ≡ c ∷ s))

no_slash : (s : Str) → All NameByte s → has_byte b'/' s ≡ false
no_slash [] h = refl
no_slash (c ∷ s) h =
    let here : (c == b'/') ≡ false = ground (arith, h.0) in rw here (no_slash s h.1)

not_empty :
    (s : Str) → (c : ℕ) × (first s ≡ some c) × (c ≢ b'-') → (d : ℕ) × (t : Str) × (s ≡ d ∷ t)
not_empty [] (c, e, n) = cc
not_empty (d ∷ t) h = (d, t, refl)

pub validate_name-IsFileName : (name : Str) → validate_name name ≡ ok tt → IsFileName name
validate_name-IsFileName name h =
    let n = (validate_name_iff name).0 h in (no_slash name n.alphabet, not_empty name n.head)

-- the file's name in its directory
pub record_path_split :
    (dir name : Str)
    → IsFileName name
    → rsplit_once b'/' (record_path dir name) ≡ some (dir, name ++ bytes ".yaml")
unfolding record_path
record_path_split dir name f =
    rsplit_last b'/' dir (name ++ bytes ".yaml")
      (has_byte-append b'/' name (bytes ".yaml") f.0 refl)

pub tmp_path_split :
    (dir name : Str)
    → IsFileName name
    → rsplit_once b'/' (tmp_path dir name) ≡ some (dir, name ++ bytes ".yaml.tmp")
unfolding tmp_path
tmp_path_split dir name f =
    rsplit_last b'/' dir (name ++ bytes ".yaml.tmp")
      (has_byte-append b'/' name (bytes ".yaml.tmp") f.0 refl)

pub record_path_yaml : (dir name : Str) → IsFileName name → is_yaml (record_path dir name) ≡ true
unfolding is_yaml str_eq
record_path_yaml dir name (n, (c, s, e)) =
    let last : rsplit_once b'.' (name ++ bytes ".yaml") ≡ some (name, bytes "yaml") =
      rsplit_last b'.' name (bytes "yaml") refl in
    rw (record_path_split dir name (n, (c, s, e)), last, e) refl

pub tmp_path_yaml : (dir name : Str) → IsFileName name → is_yaml (tmp_path dir name) ≡ false
unfolding is_yaml str_eq
tmp_path_yaml dir name (n, (c, s, e)) =
    let last : rsplit_once b'.' (name ++ bytes ".yaml.tmp")
        ≡ some (name ++ bytes ".yaml", bytes "tmp") =
      ap (rsplit_once b'.') (sym (append_assoc name (bytes ".yaml") (bytes ".tmp")))
      ∙ rsplit_last b'.' (name ++ bytes ".yaml") (bytes "tmp") refl in
    rw (tmp_path_split dir name (n, (c, s, e)), last, e) refl
