-- ===== src/Plane/Services/Names.antt =====
-- Names of replicas: printing and reading are inverse, and a name belongs to one service at most.
use kubsd.Base.{
  ℕ, ◌+◌, ◌<◌, ◌≡◌, refl, ap, sym, ◌∙◌, [], ◌∷◌, ◌++◌, Option, none, some, arith, if◌then◌else◌,
  and_then, some_inj, Bool-cases, inl, inr,
}
use kubsd.Base.Decimal.{
  to_string, parse_uint, parse_uint-to_string, parse_uint-lt, to_string-AllDigits, AllDigits,
}
use kubsd.Base.Str.{
  Str, str_eq, str_eq_iff, str_eq_refl, strip_prefix, strip_prefix-append, strip_prefix-eq-some,
}
use kubsd.Plane.Subnet.{u32_mod}
use kubsd.Plane.Services.{replica_name, replica_index, canonical_index}

-- The index of a replica's name is the index that it was made with, if that fits into 32 bits.
pub replica_index-replica_name :
    (s : Str) (i : ℕ) → i < u32_mod → replica_index s (replica_name s i) ≡ some i
unfolding replica_index
replica_index-replica_name s i h = rw (
  strip_prefix-append s (b'-' ∷ to_string i),
  strip_prefix-append (b'-' ∷ []) (to_string i),
  parse_uint-to_string u32_mod i h,
  str_eq_refl (to_string i),
)

canonical_index-eq-some :
    (suffix : Str) (i : ℕ)
    → canonical_index suffix ≡ some i
    → (suffix ≡ to_string i) × (i < u32_mod)
canonical_index-eq-some suffix i h = go (parse_uint u32_mod suffix) refl h
  where
    go :
        (o : Option ℕ)
        → parse_uint u32_mod suffix ≡ o
        → and_then o (λ index. if str_eq (to_string index) suffix then some index else none)
          ≡ some i
        → (suffix ≡ to_string i) × (i < u32_mod)
    go none e k = cc
    go (some j) e k =
        let small = parse_uint-lt u32_mod j suffix (omega arith) e in
        elim (Bool-cases (str_eq (to_string j) suffix)) [
          | inl same ↦
              let q : j ≡ i = some_inj (rw same at k) in
              (sym ((str_eq_iff (to_string j) suffix).0 same) ∙ ap to_string q, omega (arith, q))
          | inr other ↦ cc (rw other at k)
        ]

index_after :
    (n s : Str) (i : ℕ) (o : Option Str)
    → strip_prefix s n ≡ o
    → and_then o (λ rest. and_then (strip_prefix (b'-' ∷ []) rest) canonical_index) ≡ some i
    → (n ≡ replica_name s i) × (i < u32_mod)
index_after n s i none e h = cc
index_after n s i (some rest) e h = go (strip_prefix (b'-' ∷ []) rest) refl h
  where
    go :
        (p : Option Str)
        → strip_prefix (b'-' ∷ []) rest ≡ p
        → and_then p canonical_index ≡ some i
        → (n ≡ replica_name s i) × (i < u32_mod)
    go none f k = cc
    go (some suffix) f k =
        let (q, small) = canonical_index-eq-some suffix i k in
        (
          strip_prefix-eq-some s n rest e
              ∙ ap (λ t. s ++ t) (strip_prefix-eq-some (b'-' ∷ []) rest suffix f ∙ ap (◌∷◌ b'-') q),
          small,
        )

-- A name that reads as a replica of a service is the name of that replica, and no other spelling.
pub replica_index-eq-some :
    (s n : Str) (i : ℕ) → replica_index s n ≡ some i → (n ≡ replica_name s i) × (i < u32_mod)
unfolding replica_index
replica_index-eq-some s n i h = index_after n s i (strip_prefix s n) refl h

no_hyphen : (ds : Str) → AllDigits ds → (t es : Str) → ds ≡ t ++ (b'-' ∷ es) → ⊥
no_hyphen [] a [] es e = cc
no_hyphen [] a (x ∷ t) es e = cc
no_hyphen (d ∷ ds) a [] es e = ground arith
no_hyphen (d ∷ ds) a (x ∷ t) es e = no_hyphen ds a.1 t es (ground arith)

last_hyphen :
    (s t ds es : Str)
    → AllDigits ds
    → AllDigits es
    → s ++ (b'-' ∷ ds) ≡ t ++ (b'-' ∷ es)
    → (s ≡ t) × (ds ≡ es)
last_hyphen [] [] ds es a b e = (refl, ground arith)
last_hyphen [] (y ∷ t) ds es a b e = absurd (no_hyphen ds a t es (ground arith))
last_hyphen (x ∷ s) [] ds es a b e = absurd (no_hyphen es b s ds (ground arith))
last_hyphen (x ∷ s) (y ∷ t) ds es a b e =
    let (p, q) = last_hyphen s t ds es a b (ground arith) in (ground (arith, p), q)

-- Different services, and different indices of one service, have different replica names.
pub replica_name_inj :
    (s t : Str) (i j : ℕ) → replica_name s i ≡ replica_name t j → (s ≡ t) × (i ≡ j)
replica_name_inj s t i j h =
    let (p, q) =
      last_hyphen s t (to_string i) (to_string j) (to_string-AllDigits i) (to_string-AllDigits j)
        h in
    let bound = i + j + 1 in
    (
      p,
      some_inj (
          sym (parse_uint-to_string bound i (omega arith))
          ∙ ap (parse_uint bound) q
          ∙ parse_uint-to_string bound j (omega arith)),
    )

-- A name reads as a replica of one service at most.
pub replica_index_sole :
    (s t n : Str) (i j : ℕ) → replica_index s n ≡ some i → replica_index t n ≡ some j → s ≡ t
replica_index_sole s t n i j h k =
    (replica_name_inj s t i j
      (sym (replica_index-eq-some s n i h).0 ∙ (replica_index-eq-some t n j k).0)).0
