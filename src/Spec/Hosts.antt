-- ===== src/Spec/Hosts.antt =====
-- keel-spec/src/validate.rs: `validate_host` and `validate_email`.
use kubsd.Base.{
  ℕ, ◌≤◌, ◌≡◌, ◌≢◌, refl, ap, sym, ◌∙◌, ◌↔◌, ◌⊎◌, inl, inr, Bool, true, false, not, ◌&&◌, ◌||◌,
  List, [], ◌∷◌, ◌++◌, Option, none, some, arith, leb, ◌==◌, if◌then◌else◌, length, is_empty, All,
  Result, ok, err, Bool-cases, ==_iff, &&-true, leb→le,
}
use kubsd.Base.Str.{Str}
use kubsd.Spec.Types.{SpecError, invalid_host, invalid_email}
use kubsd.Spec.Names.{is_alphanumeric, all_bytes, first, last, is_some_and, end_test}

-- `split(sep)`: the pieces between the separators, one more than there are separators
abbrev pub cons_head : ℕ → List Str → List Str
cons_head c [] = (c ∷ []) ∷ []
cons_head c (s ∷ rest) = (c ∷ s) ∷ rest

unfoldable pub split : ℕ → Str → List Str
split sep [] = [] ∷ []
split sep (c ∷ s) = let rest = split sep s in if c == sep then [] ∷ rest else cons_head c rest

abbrev pub label_byte : ℕ → Bool
label_byte c = is_alphanumeric c || c == b'-'

abbrev pub valid_label : Str → Bool
valid_label label =
    not (is_empty label)
    && (leb (length label) 63
        && (all_bytes label_byte label
            && (is_some_and is_alphanumeric (first label)
                && is_some_and is_alphanumeric (last label))))

abbrev pub all_labels : List Str → Bool
all_labels [] = true
all_labels (l ∷ ls) = valid_label l && all_labels ls

unfoldable pub validate_host : Str → Result (Unit {0}) SpecError
unfolding split
validate_host host =
    let labels = split b'.' host in
    if leb 2 (length labels) && all_labels labels then ok tt else err (invalid_host host)

-- `split_once(sep)`
unfoldable pub split_once : ℕ → Str → Option (Str × Str)
split_once sep [] = none
split_once sep (c ∷ s) =
    let rest = split_once sep s in
    if c == sep then some ([], s) else elim rest [ none ↦ none | some (a, b) ↦ some (c ∷ a, b) ]

abbrev pub has_byte : ℕ → Str → Bool
has_byte b [] = false
has_byte b (c ∷ s) = c == b || has_byte b s

-- the UTF-8 encodings of the characters that `char::is_whitespace` accepts
unfoldable pub starts_white : Str → Bool
starts_white [] = false
starts_white (a ∷ []) = (leb 9 a && leb a 13) || a == 32
starts_white (a ∷ b ∷ []) =
    ((leb 9 a && leb a 13) || a == 32) || (a == 0xc2 && (b == 0x85 || b == 0xa0))
starts_white (a ∷ b ∷ c ∷ s) =
    (((leb 9 a && leb a 13) || a == 32) || (a == 0xc2 && (b == 0x85 || b == 0xa0)))
    || ((a == 0xe1 && (b == 0x9a && c == 0x80))
        || ((a == 0xe2
              && (b == 0x80
                  && ((leb 0x80 c && leb c 0x8a) || (c == 0xa8 || (c == 0xa9 || c == 0xaf)))))
            || ((a == 0xe2 && (b == 0x81 && c == 0x9f))
                || (a == 0xe3 && (b == 0x80 && c == 0x80)))))

unfoldable pub has_white : Str → Bool
unfolding starts_white
has_white [] = false
has_white (c ∷ s) = starts_white (c ∷ s) || has_white s

abbrev pub valid_email_parts : Option (Str × Str) → Bool
valid_email_parts none = false
valid_email_parts (some (local, domain)) =
    not (is_empty local)
    && (not (is_empty domain)
        && (not (has_white local) && (not (has_white domain) && has_byte b'.' domain)))

unfoldable pub validate_email : Str → Result (Unit {0}) SpecError
unfolding split_once
validate_email email =
    if valid_email_parts (split_once b'@' email) then ok tt else err (invalid_email email)

-- the labels with dots between them
abbrev pub join : List Str → Str
join [] = []
join (l ∷ []) = l
join (l ∷ m ∷ ls) = l ++ (b'.' ∷ join (m ∷ ls))

label_no_dot : (l : Str) → all_bytes label_byte l ≡ true → All (λ c. c ≢ b'.') l
label_no_dot [] h = tt
label_no_dot (c ∷ l) h = (ground arith, label_no_dot l (ground arith))

split_word : (l : Str) → All (λ c. c ≢ b'.') l → split b'.' l ≡ l ∷ []
unfolding split
split_word [] h = refl
split_word (c ∷ l) h = rw (split_word l h.1) (ground arith)

split-append : (l s : Str) → All (λ c. c ≢ b'.') l → split b'.' (l ++ (b'.' ∷ s)) ≡ l ∷ split b'.' s
unfolding split
split-append [] s h = refl
split-append (c ∷ l) s h = rw (split-append l s h.1) (ground arith)

split-join :
    (l : Str) (ls : List Str)
    → All (All (λ c. c ≢ b'.')) (l ∷ ls)
    → split b'.' (join (l ∷ ls)) ≡ l ∷ ls
split-join l [] h = split_word l h.0
split-join l (m ∷ ls) h = rw (split-append l (join (m ∷ ls)) h.0, split-join m ls h.1)

split-shape : (sep : ℕ) (s : Str) → (l : Str) × (ls : List Str) × (split sep s ≡ l ∷ ls)
unfolding split
split-shape sep [] = ([], [], refl)
split-shape sep (c ∷ s) = elim (Bool-cases (c == sep)) [
  | inl e ↦ ([], split sep s, rw e)
  | inr e ↦ let (l, ls, p) = split-shape sep s in (c ∷ l, ls, rw (e, p))
]

join-cons_head : (c : ℕ) (l : Str) (ls : List Str) → join (cons_head c (l ∷ ls)) ≡ c ∷ join (l ∷ ls)
join-cons_head c l [] = refl
join-cons_head c l (m ∷ ls) = refl

join-split : (s : Str) → join (split b'.' s) ≡ s
unfolding split
join-split [] = refl
join-split (c ∷ s) =
    let (l, ls, p) = split-shape b'.' s in
    let rest : join (l ∷ ls) ≡ s = ap join (sym p) ∙ join-split s in
    elim (Bool-cases (c == b'.')) [
      | inl e ↦ rw (e, p) (cc (rest, (==_iff c b'.').0 e))
      | inr e ↦ rw (e, p) (join-cons_head c l ls ∙ ap (◌∷◌ c) rest)
    ]

-- a letter, a digit or a hyphen
abbrev pub LabelByte : ℕ → Type 0
LabelByte c =
    ((b'a' ≤ c) × (c ≤ b'z'))
    ⊎ (((b'A' ≤ c) × (c ≤ b'Z')) ⊎ (((b'0' ≤ c) × (c ≤ b'9')) ⊎ (c ≡ b'-')))

pub record IsLabel (l : Str) : Type 0 where
  pub short : length l ≤ 63
  pub alphabet : All LabelByte l
  pub head : (c : ℕ) × (first l ≡ some c) × (c ≢ b'-')
  pub end : (c : ℕ) × (last l ≡ some c) × (c ≢ b'-')

all_bytes-LabelByte : (s : Str) → all_bytes label_byte s ≡ true → All LabelByte s
all_bytes-LabelByte [] h = tt
all_bytes-LabelByte (c ∷ s) h = (ground arith, all_bytes-LabelByte s (ground arith))

LabelByte-all_bytes : (s : Str) → All LabelByte s → all_bytes label_byte s ≡ true
LabelByte-all_bytes [] h = refl
LabelByte-all_bytes (c ∷ s) h = ground (arith, LabelByte-all_bytes s h.1)

first-LabelByte : (s : Str) (c : ℕ) → All LabelByte s → first s ≡ some c → LabelByte c
first-LabelByte [] c a e = cc
first-LabelByte (d ∷ s) c a e = ground arith

last-LabelByte : (s : Str) (c : ℕ) → All LabelByte s → last s ≡ some c → LabelByte c
last-LabelByte [] c a e = cc
last-LabelByte (d ∷ []) c a e = ground arith
last-LabelByte (d ∷ x ∷ s) c a e = last-LabelByte (x ∷ s) c a.1 e

alphanumeric_of : (c : ℕ) → LabelByte c → c ≢ b'-' → is_alphanumeric c ≡ true
alphanumeric_of c h n = ground arith

valid_label-IsLabel : (l : Str) → valid_label l ≡ true → IsLabel l
valid_label-IsLabel [] h = cc
valid_label-IsLabel (c ∷ s) h = record {
  short = ground arith;
  alphabet = all_bytes-LabelByte (c ∷ s) (ground arith);
  head = end_test (first (c ∷ s)) (ground arith);
  end = end_test (last (c ∷ s)) (ground arith);
}

IsLabel-valid_label : (l : Str) → IsLabel l → valid_label l ≡ true
IsLabel-valid_label [] h = absurd (cc (h.head.1))
IsLabel-valid_label (c ∷ s) h =
    let (a, p, q) = h.head in
    let (b, r, t) = h.end in
    ground (
      arith,
      LabelByte-all_bytes (c ∷ s) h.alphabet,
      alphanumeric_of a (first-LabelByte (c ∷ s) a h.alphabet p) q,
      alphanumeric_of b (last-LabelByte (c ∷ s) b h.alphabet r) t,
      h.short,
    )

all_labels-IsLabel : (ls : List Str) → all_labels ls ≡ true → All IsLabel ls
all_labels-IsLabel [] h = tt
all_labels-IsLabel (l ∷ ls) h =
    let (a, b) = &&-true (valid_label l) (all_labels ls) h in
    (valid_label-IsLabel l a, all_labels-IsLabel ls b)

IsLabel-all_labels : (ls : List Str) → All IsLabel ls → all_labels ls ≡ true
IsLabel-all_labels [] h = refl
IsLabel-all_labels (l ∷ ls) h = rw (IsLabel-valid_label l h.0, IsLabel-all_labels ls h.1)

IsLabel-no_dot : (ls : List Str) → All IsLabel ls → All (All (λ c. c ≢ b'.')) ls
IsLabel-no_dot [] h = tt
IsLabel-no_dot (l ∷ ls) h =
    (label_no_dot l (LabelByte-all_bytes l h.0.alphabet), IsLabel-no_dot ls h.1)

-- at least two labels with dots between them
abbrev pub IsHost : Str → Type 0
IsHost s = (ls : List Str) × (s ≡ join ls) × (2 ≤ length ls) × All IsLabel ls

host_test :
    (s : Str)
    → validate_host s ≡ ok tt
    → (leb 2 (length (split b'.' s)) && all_labels (split b'.' s)) ≡ true
unfolding validate_host
host_test s h = elim (Bool-cases (leb 2 (length (split b'.' s)) && all_labels (split b'.' s))) [
  | inl e ↦ e
  | inr e ↦ cc (rw e at h)
]

validate_host-IsHost : (s : Str) → validate_host s ≡ ok tt → IsHost s
validate_host-IsHost s h =
    let (two, all) =
      &&-true (leb 2 (length (split b'.' s))) (all_labels (split b'.' s)) (host_test s h) in
    (
      split b'.' s,
      sym (join-split s),
      leb→le 2 (length (split b'.' s)) two,
      all_labels-IsLabel (split b'.' s) all,
    )

IsHost-validate_host : (s : Str) → IsHost s → validate_host s ≡ ok tt
unfolding validate_host
IsHost-validate_host s ([], e, two, h) = absurd (omega arith)
IsHost-validate_host s (l ∷ ls, e, two, h) =
    rw (e, split-join l ls (IsLabel-no_dot (l ∷ ls) h), IsLabel-all_labels (l ∷ ls) h)
      (ground arith)

-- `validate_host` accepts a host exactly when it is two or more labels with dots between them, a
-- label being 1 to 63 letters, digits and hyphens that neither begins nor ends with a hyphen.
pub validate_host_iff : (s : Str) → (validate_host s ≡ ok tt) ↔ IsHost s
validate_host_iff s = (validate_host-IsHost s, IsHost-validate_host s)
