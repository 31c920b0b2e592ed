-- ===== src/Spec/Names.antt =====
-- keel-spec/src/validate.rs: `validate_name`, `validate_address` and `validate_transition`.
use kubsd.Base.{
  ℕ, ◌≤◌, ◌≡◌, ◌≢◌, refl, ◌↔◌, ◌⊎◌, Bool, true, false, not, ◌&&◌, ◌||◌, [], ◌∷◌, Option, none, some,
  arith, leb, ◌==◌, if◌then◌else◌, length, is_empty, All, Result, ok, err, map_err,
}
use kubsd.Base.Str.{Str, bytes, str_eq, str_eq_iff}
use kubsd.Extern.{AddressParser}
use kubsd.Spec.Types.{SpecError, invalid_name, invalid_address, immutable_field, JailSpec}
use kubsd.Spec.Equality.{volumes_eq, volumes_eq_iff}

-- `char::is_ascii_lowercase`, `is_ascii_digit`, `is_ascii_alphanumeric`
abbrev pub is_lower : ℕ → Bool
is_lower c = leb b'a' c && leb c b'z'

abbrev pub is_upper : ℕ → Bool
is_upper c = leb b'A' c && leb c b'Z'

abbrev pub is_ascii_digit : ℕ → Bool
is_ascii_digit c = leb b'0' c && leb c b'9'

abbrev pub is_alphanumeric : ℕ → Bool
is_alphanumeric c = is_lower c || (is_upper c || is_ascii_digit c)

-- `chars().all(p)`
abbrev pub all_bytes : (ℕ → Bool) → Str → Bool
all_bytes p [] = true
all_bytes p (c ∷ s) = p c && all_bytes p s

-- `chars().next()` and `chars().last()`
abbrev pub first : Str → Option ℕ
first [] = none
first (c ∷ s) = some c

abbrev pub last : Str → Option ℕ
last [] = none
last (c ∷ []) = some c
last (c ∷ d ∷ s) = last (d ∷ s)

abbrev pub is_some_and : (ℕ → Bool) → Option ℕ → Bool
is_some_and p none = false
is_some_and p (some c) = p c

abbrev pub name_byte : ℕ → Bool
name_byte c = is_lower c || (is_ascii_digit c || c == b'-')

unfoldable pub validate_name : Str → Result (Unit {0}) SpecError
validate_name name =
    let valid =
      not (is_empty name)
      && (leb (length name) 63
          && (all_bytes name_byte name
              && (is_some_and is_alphanumeric (first name)
                  && is_some_and is_alphanumeric (last name)))) in
    if valid then ok tt else err (invalid_name name)

unfoldable pub validate_address : AddressParser → Str → Result (Unit {0}) SpecError
validate_address parse address = map_err (invalid_address address) (parse address)

unfoldable pub validate_transition : JailSpec → JailSpec → Result (Unit {0}) SpecError
validate_transition old new =
    if not (str_eq old.spec.image new.spec.image)
    then err (immutable_field (bytes "spec.image"))
    else if not (str_eq old.spec.network.address new.spec.network.address)
    then err (immutable_field (bytes "spec.network.address"))
    else if not (volumes_eq old.spec.volumes new.spec.volumes)
    then err (immutable_field (bytes "spec.volumes"))
    else ok tt

-- a lower-case letter, a digit or a hyphen
abbrev pub NameByte : ℕ → Type 0
NameByte c = ((b'a' ≤ c) × (c ≤ b'z')) ⊎ (((b'0' ≤ c) × (c ≤ b'9')) ⊎ (c ≡ b'-'))

pub record IsName (s : Str) : Type 0 where
  pub short : length s ≤ 63
  pub alphabet : All NameByte s
  pub head : (c : ℕ) × (first s ≡ some c) × (c ≢ b'-')
  pub end : (c : ℕ) × (last s ≡ some c) × (c ≢ b'-')

all_bytes-NameByte : (s : Str) → all_bytes name_byte s ≡ true → All NameByte s
all_bytes-NameByte [] h = tt
all_bytes-NameByte (c ∷ s) h = (ground arith, all_bytes-NameByte s (ground arith))

NameByte-all_bytes : (s : Str) → All NameByte s → all_bytes name_byte s ≡ true
NameByte-all_bytes [] h = refl
NameByte-all_bytes (c ∷ s) h = ground (arith, NameByte-all_bytes s h.1)

-- the test on an end of a name, in its words
pub end_test :
    (o : Option ℕ) → is_some_and is_alphanumeric o ≡ true → (c : ℕ) × (o ≡ some c) × (c ≢ b'-')
end_test none h = cc
end_test (some c) h = (c, refl, ground arith)

first-NameByte : (s : Str) (c : ℕ) → All NameByte s → first s ≡ some c → NameByte c
first-NameByte [] c a e = cc
first-NameByte (d ∷ s) c a e = ground arith

last-NameByte : (s : Str) (c : ℕ) → All NameByte s → last s ≡ some c → NameByte c
last-NameByte [] c a e = cc
last-NameByte (d ∷ []) c a e = ground arith
last-NameByte (d ∷ x ∷ s) c a e = last-NameByte (x ∷ s) c a.1 e

alphanumeric_of : (c : ℕ) → NameByte c → c ≢ b'-' → is_alphanumeric c ≡ true
alphanumeric_of c h n = ground arith

validate_name-IsName : (s : Str) → validate_name s ≡ ok tt → IsName s
unfolding validate_name
validate_name-IsName [] h = cc
validate_name-IsName (c ∷ s) h = record {
  short = ground arith;
  alphabet = all_bytes-NameByte (c ∷ s) (ground arith);
  head = end_test (first (c ∷ s)) (ground arith);
  end = end_test (last (c ∷ s)) (ground arith);
}

IsName-validate_name : (s : Str) → IsName s → validate_name s ≡ ok tt
unfolding validate_name
IsName-validate_name [] h = absurd (cc (h.head.1))
IsName-validate_name (c ∷ s) h =
    let (a, p, q) = h.head in
    let (b, r, t) = h.end in
    ground (
      arith,
      NameByte-all_bytes (c ∷ s) h.alphabet,
      alphanumeric_of a (first-NameByte (c ∷ s) a h.alphabet p) q,
      alphanumeric_of b (last-NameByte (c ∷ s) b h.alphabet r) t,
      h.short,
    )

-- `validate_name` accepts a name exactly when it has at most 63 bytes, all of them lower-case
-- letters, digits or hyphens, and has a first and a last byte, neither of them a hyphen.
pub validate_name_iff : (s : Str) → (validate_name s ≡ ok tt) ↔ IsName s
validate_name_iff s = (validate_name-IsName s, IsName-validate_name s)

-- A refused name is the error's argument.
pub validate_name_total :
    (s : Str) → (validate_name s ≡ ok tt) ⊎ (validate_name s ≡ err (invalid_name s))
unfolding validate_name
validate_name_total s = ground arith

-- An update is accepted exactly when it keeps the image, the address and the volumes.
pub validate_transition_iff :
    (old new : JailSpec)
    → (validate_transition old new ≡ ok tt) ↔ (
        (old.spec.image ≡ new.spec.image)
        × (old.spec.network.address ≡ new.spec.network.address)
        × (old.spec.volumes ≡ new.spec.volumes))
unfolding validate_transition
validate_transition_iff old new = ground (
  arith,
  str_eq_iff old.spec.image new.spec.image,
  str_eq_iff old.spec.network.address new.spec.network.address,
  volumes_eq_iff old.spec.volumes new.spec.volumes,
)
