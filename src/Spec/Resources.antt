-- ===== src/Spec/Resources.antt =====
-- keel-spec/src/resources.rs: CPU and memory sizes.
use kubsd.Base.{
  ℕ, ◌-◌, ◌*◌, ◌^◌, ◌<◌, ◌≡◌, ◌≢◌, refl, ap, ◌⊎◌, inl, inr, Bool, true, false, ◌&&◌, [], ◌∷◌, ◌++◌,
  Option, none, some, arith, ltb, ◌==◌, if◌then◌else◌, Result, ok, err, Bool-cases, ◌>>=◌, ok_or,
  ltb→lt,
}
use mathlib.Core.List.{append-nil}
use kubsd.Base.Str.{Str}
use kubsd.Base.Decimal.{parse_uint, to_string, parse_uint-to_string, AllDigits, to_string-AllDigits}
use kubsd.Extern.{Float}
use kubsd.Spec.Types.{SpecError, invalid_cpu, invalid_memory}
use kubsd.Spec.Names.{is_lower}

module _ {F : Type 0} ⦃fl : Float F⦄ where
  open fl use {parse_f64, gt, f_zero, is_finite, percent}

  unfoldable pub parse_cpu_cores : Str → Result F SpecError
  parse_cpu_cores s = do
    cores ← ok_or (invalid_cpu s) (parse_f64 s)
    if gt cores f_zero && is_finite cores then ok cores else err (invalid_cpu s)

  unfoldable pub cores_to_pcpu_percent : F → ℕ
  cores_to_pcpu_percent cores = percent cores

abbrev pub u64_bound : ℕ
u64_bound = 2 ^ 64

-- `to_ascii_uppercase`
abbrev pub upper_byte : ℕ → ℕ
upper_byte c = if is_lower c then c - 32 else c

abbrev pub to_uppercase : Str → Str
to_uppercase [] = []
to_uppercase (c ∷ s) = upper_byte c ∷ to_uppercase s

-- `strip_suffix(c)` for one byte
unfoldable pub strip_last : ℕ → Str → Option Str
strip_last c [] = none
strip_last c (x ∷ []) = if x == c then some [] else none
strip_last c (x ∷ y ∷ s) = elim (strip_last c (y ∷ s)) [ none ↦ none | some r ↦ some (x ∷ r) ]

-- the number and its multiplier
unfoldable pub split_unit : Str → Str × ℕ
unfolding strip_last
split_unit upper = elim (strip_last b'K' upper) [
  | some n ↦ (n, 1024)
  | none ↦ elim (strip_last b'M' upper) [
    | some n ↦ (n, 1024 * 1024)
    | none ↦ elim (strip_last b'G' upper) [ some n ↦ (n, 1024 * 1024 * 1024) | none ↦ (upper, 1) ]
  ]
]

-- `u64::checked_mul`
abbrev pub checked_mul : ℕ → ℕ → Option ℕ
checked_mul a b = if ltb (a * b) u64_bound then some (a * b) else none

-- a parsed number, checked and multiplied; `s` is the text for the error
unfoldable pub scaled : Str → ℕ → ℕ → Result ℕ SpecError
scaled s multiplier value =
    if value == 0
    then err (invalid_memory s)
    else ok_or (invalid_memory s) (checked_mul value multiplier)

unfoldable pub parse_memory_bytes : Str → Result ℕ SpecError
unfolding split_unit scaled
parse_memory_bytes s =
    let (num_part, multiplier) = split_unit (to_uppercase s) in
    ok_or (invalid_memory s) (parse_uint u64_bound num_part) >>= scaled s multiplier

unfoldable pub parse_zfs_quota : Str → Result ℕ SpecError
unfolding parse_memory_bytes
parse_zfs_quota s = parse_memory_bytes s

-- The units that a size may end in, with the number of bytes that each stands for.
pub data Size : Type 0 where
  plain kilo mega giga : Size

abbrev pub multiplier_of : Size → ℕ
multiplier_of plain = 1
multiplier_of kilo = 1024
multiplier_of mega = 1024 * 1024
multiplier_of giga = 1024 * 1024 * 1024

-- the two spellings of a unit
abbrev pub suffix_of : Size → Bool → Str
suffix_of plain lower = []
suffix_of kilo lower = (if lower then b'k' else b'K') ∷ []
suffix_of mega lower = (if lower then b'm' else b'M') ∷ []
suffix_of giga lower = (if lower then b'g' else b'G') ∷ []

to_uppercase-append : (s t : Str) → to_uppercase (s ++ t) ≡ to_uppercase s ++ to_uppercase t
to_uppercase-append [] t = refl
to_uppercase-append (c ∷ s) t = ap (◌∷◌ (upper_byte c)) (to_uppercase-append s t)

to_uppercase-digits : (s : Str) → AllDigits s → to_uppercase s ≡ s
to_uppercase-digits [] h = refl
to_uppercase-digits (c ∷ s) h = ground (arith, to_uppercase-digits s h.1)

strip_last-append : (c : ℕ) (s : Str) → strip_last c (s ++ c ∷ []) ≡ some s
unfolding strip_last
strip_last-append c [] = ground arith
strip_last-append c (x ∷ []) = ground arith
strip_last-append c (x ∷ y ∷ s) = rw (strip_last-append c (y ∷ s))

strip_last-append_ne : (c d : ℕ) (s : Str) → d ≢ c → strip_last c (s ++ d ∷ []) ≡ none
unfolding strip_last
strip_last-append_ne c d [] h = ground arith
strip_last-append_ne c d (x ∷ []) h = ground arith
strip_last-append_ne c d (x ∷ y ∷ s) h = rw (strip_last-append_ne c d (y ∷ s) h)

strip_last-digits : (c : ℕ) (s : Str) → b'9' < c → AllDigits s → strip_last c s ≡ none
unfolding strip_last
strip_last-digits c [] h a = refl
strip_last-digits c (x ∷ []) h a = ground arith
strip_last-digits c (x ∷ y ∷ s) h a = rw (strip_last-digits c (y ∷ s) h a.1)

split_unit-digits :
    (size : Size) (lower : Bool) (s : Str)
    → AllDigits s
    → split_unit (to_uppercase (s ++ suffix_of size lower)) ≡ (s, multiplier_of size)
unfolding split_unit
split_unit-digits plain lower s a =
    rw (to_uppercase-append, to_uppercase-digits s a)
      (rw append-nil (
        ground (
          arith,
          strip_last-digits b'K' s (omega arith) a,
          strip_last-digits b'M' s (omega arith) a,
          strip_last-digits b'G' s (omega arith) a,
        )))
split_unit-digits kilo true s a =
    rw (to_uppercase-append, to_uppercase-digits s a) (ground (arith, strip_last-append b'K' s))
split_unit-digits kilo false s a =
    rw (to_uppercase-append, to_uppercase-digits s a) (ground (arith, strip_last-append b'K' s))
split_unit-digits mega true s a =
    rw (to_uppercase-append, to_uppercase-digits s a)
      (ground (arith, strip_last-append_ne b'K' b'M' s (omega arith), strip_last-append b'M' s))
split_unit-digits mega false s a =
    rw (to_uppercase-append, to_uppercase-digits s a)
      (ground (arith, strip_last-append_ne b'K' b'M' s (omega arith), strip_last-append b'M' s))
split_unit-digits giga true s a =
    rw (to_uppercase-append, to_uppercase-digits s a)
      (ground (
        arith,
        strip_last-append_ne b'K' b'G' s (omega arith),
        strip_last-append_ne b'M' b'G' s (omega arith),
        strip_last-append b'G' s,
      ))
split_unit-digits giga false s a =
    rw (to_uppercase-append, to_uppercase-digits s a)
      (ground (
        arith,
        strip_last-append_ne b'K' b'G' s (omega arith),
        strip_last-append_ne b'M' b'G' s (omega arith),
        strip_last-append b'G' s,
      ))

-- A printed positive number with a unit, in either case, is read as the number times the unit's
-- size, and is refused when that does not fit into 64 bits.
pub parse_memory_bytes-print :
    (n : ℕ) (size : Size) (lower : Bool)
    → 0 < n
    → n < u64_bound
    → parse_memory_bytes (to_string n ++ suffix_of size lower) ≡ (
        if ltb (n * multiplier_of size) u64_bound
        then ok (n * multiplier_of size)
        else err (invalid_memory (to_string n ++ suffix_of size lower)))
unfolding parse_memory_bytes
parse_memory_bytes-print n size lower p q =
    rw
      (
        split_unit-digits size lower (to_string n) (to_string-AllDigits n),
        parse_uint-to_string u64_bound n q,
      )
      (ground arith)

mul-pos : (a b : ℕ) → 0 < a → 0 < b → 0 < a * b
mul-pos a b h k = grind arith

split_unit_pos : (s : Str) → 0 < (split_unit s).1
unfolding split_unit
split_unit_pos s = ground arith

scaled_bounds :
    (s : Str) (multiplier : ℕ) (o : Option ℕ)
    → 0 < multiplier
    → ((v : ℕ) × ((ok_or (invalid_memory s) o >>= scaled s multiplier) ≡ ok v)
        × (0 < v)
        × (v < u64_bound))
      ⊎ ((ok_or (invalid_memory s) o >>= scaled s multiplier) ≡ err (invalid_memory s))
unfolding scaled
scaled_bounds s multiplier none p = inr refl
scaled_bounds s multiplier (some value) p = elim (Bool-cases (value == 0)) [
  | inl e ↦ inr (rw e)
  | inr e ↦ elim (Bool-cases (ltb (value * multiplier) u64_bound)) [
    | inl fits ↦ inl (
      value * multiplier,
      rw (e, fits),
      mul-pos value multiplier (ground arith) p,
      ltb→lt (value * multiplier) u64_bound fits,
    )
    | inr big ↦ inr (rw (e, big))
  ]
]

-- An accepted size is positive and fits into 64 bits; a refused one is the error's argument.
pub parse_memory_bytes_bounds :
    (s : Str)
    → ((v : ℕ) × (parse_memory_bytes s ≡ ok v) × (0 < v) × (v < u64_bound))
      ⊎ (parse_memory_bytes s ≡ err (invalid_memory s))
unfolding parse_memory_bytes
parse_memory_bytes_bounds s =
    let (num_part, multiplier) = split_unit (to_uppercase s) in
    scaled_bounds s multiplier (parse_uint u64_bound num_part) (split_unit_pos (to_uppercase s))
