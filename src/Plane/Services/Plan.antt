-- ===== src/Plane/Services/Plan.antt =====
-- `diff_replicas`: which indices to schedule and which to tear down.
use kubsd.Base.{
  ℕ, zero, suc, ◌+◌, ◌-◌, ◌%◌, ◌≤◌, ◌<◌, ◌≡◌, refl, ap, sym, ◌∙◌, true, false, List, [], ◌∷◌, ◌++◌,
  arith, ◌==◌, ltb, ltb→lt, ltb→ge, if◌then◌else◌, All, All-weaken, Occurs, contains, length, take,
  Bool-cases, inl, inr, ◌⊎◌, lt→ltb, length-append,
}
use mathlib.Core.List.{append-nil, reverse, reverse-cons, reverse-append, reverse-reverse}
use mathlib.Core.Path.{subst}
use native.Mathlib.Nat.{mod-eq_of_lt, zero-add}
use kubsd.Plane.Subnet.{u32_mod}
use kubsd.Plane.Services.{lowest_missing, diff_replicas}

-- how many of `fuel` numbers from `start` are in the list
hits : List ℕ → ℕ → ℕ → ℕ
hits l start zero = 0
hits l start (suc fuel) = (if contains l start then 1 else 0) + hits l (start + 1) fuel

hits-nil : (start fuel : ℕ) → hits [] start fuel ≡ 0
unfolding hits
hits-nil start zero = refl
hits-nil start (suc fuel) = omega (arith, hits-nil (start + 1) fuel)

hits-cons_past :
    (x : ℕ) (l : List ℕ) (start fuel : ℕ) → x < start → hits (x ∷ l) start fuel ≡ hits l start fuel
unfolding hits
hits-cons_past x l start zero h = refl
hits-cons_past x l start (suc fuel) h =
    let ne : (x == start) ≡ false = ground arith in
    rw (ne, hits-cons_past x l (start + 1) fuel (omega arith))

hits-cons : (x : ℕ) (l : List ℕ) (start fuel : ℕ) → hits (x ∷ l) start fuel ≤ hits l start fuel + 1
unfolding hits
hits-cons x l start zero = omega arith
hits-cons x l start (suc fuel) = elim (Bool-cases (x == start)) [
  | inl e ↦
      let past = hits-cons_past x l (start + 1) fuel (ground arith) in rw (e, past) (ground arith)
  | inr e ↦ rw e (omega (arith, hits-cons x l (start + 1) fuel))
]

-- no more numbers are in the list than it has elements
hits-le-length : (l : List ℕ) (start fuel : ℕ) → hits l start fuel ≤ length l
hits-le-length [] start fuel = omega (arith, hits-nil start fuel)
hits-le-length (x ∷ l) start fuel =
    omega (arith, hits-cons x l start fuel, hits-le-length l start fuel)

module _ (healthy : List ℕ) where
  length-lowest_missing :
      (fuel start count : ℕ)
      → count + hits healthy start fuel ≤ fuel
      → length (lowest_missing fuel start count healthy) ≡ count
  unfolding lowest_missing hits
  length-lowest_missing zero start count h = omega arith
  length-lowest_missing (suc fuel) start zero h = refl
  length-lowest_missing (suc fuel) start (suc count) h =
      elim (Bool-cases (contains healthy start)) [
        | inl e ↦ rw e (length-lowest_missing fuel (start + 1) (suc count) (ground (arith, e)))
        | inr e ↦ rw e (ap suc (length-lowest_missing fuel (start + 1) count (ground (arith, e))))
      ]

  -- an index that is missing, from `start` on and below a bound
  abbrev pub IsMissing : ℕ → ℕ → ℕ → Type 0
  IsMissing start bound i = (start ≤ i) × (i < bound) × (contains healthy i ≡ false)

  -- in increasing order
  abbrev pub IsIncreasing : List ℕ → Type 0
  IsIncreasing [] = Unit
  IsIncreasing (x ∷ xs) = All (λ y. x < y) xs × IsIncreasing xs

  lowest_missing-IsMissing :
      (fuel start count : ℕ)
      → All (IsMissing start (start + fuel)) (lowest_missing fuel start count healthy)
  unfolding lowest_missing
  lowest_missing-IsMissing zero start count = tt
  lowest_missing-IsMissing (suc fuel) start zero = tt
  lowest_missing-IsMissing (suc fuel) start (suc count) =
      elim (Bool-cases (contains healthy start)) [
        | inl e ↦ rw e (
            All-weaken (IsMissing (start + 1) (start + 1 + fuel))
              (IsMissing start (start + suc fuel)) _ (λ i m. (omega arith, omega arith, m.2))
              (lowest_missing-IsMissing fuel (start + 1) (suc count)))
        | inr e ↦ rw e (
          (omega arith, omega arith, e),
          All-weaken (IsMissing (start + 1) (start + 1 + fuel)) (IsMissing start (start + suc fuel))
              _ (λ i m. (omega arith, omega arith, m.2))
              (lowest_missing-IsMissing fuel (start + 1) count),
        )
      ]

  lowest_missing-IsIncreasing :
      (fuel start count : ℕ) → IsIncreasing (lowest_missing fuel start count healthy)
  unfolding lowest_missing
  lowest_missing-IsIncreasing zero start count = tt
  lowest_missing-IsIncreasing (suc fuel) start zero = tt
  lowest_missing-IsIncreasing (suc fuel) start (suc count) =
      elim (Bool-cases (contains healthy start)) [
        | inl e ↦ rw e (lowest_missing-IsIncreasing fuel (start + 1) (suc count))
        | inr e ↦ rw e (
          All-weaken (IsMissing (start + 1) (start + 1 + fuel)) (λ y. start < y) _
              (λ i m. omega arith) (lowest_missing-IsMissing fuel (start + 1) count),
          lowest_missing-IsIncreasing fuel (start + 1) count,
        )
      ]

  -- nothing that is missing is passed over
  lowest_missing-lowest :
      (fuel start count i j : ℕ)
      → Occurs i (lowest_missing fuel start count healthy)
      → start ≤ j
      → j < i
      → contains healthy j ≡ false
      → Occurs j (lowest_missing fuel start count healthy)
  unfolding lowest_missing
  lowest_missing-lowest zero start count i j o l h m = absurd o
  lowest_missing-lowest (suc fuel) start zero i j o l h m = absurd o
  lowest_missing-lowest (suc fuel) start (suc count) i j o l h m =
      elim (Bool-cases (contains healthy start)) [
        | inl e ↦ rw e (
            lowest_missing-lowest fuel (start + 1) (suc count) i j (rw e at o) (later start j e m l)
              h m)
        | inr e ↦
            let o' : (i ≡ start) ⊎ Occurs i (lowest_missing fuel (start + 1) count healthy) =
              rw e at o in
            rw e (elim (Bool-cases (j == start)) [
              | inl q ↦ inl (ground arith)
              | inr q ↦ inr (
                  lowest_missing-lowest fuel (start + 1) count i j (not_first i j start _ l h o')
                    (ground arith) h m)
            ])
      ]
    where
      later : (a b : ℕ) → contains healthy a ≡ true → contains healthy b ≡ false → a ≤ b → a + 1 ≤ b
      later a b e f le = elim (Bool-cases (ltb a b)) [
        | inl lt ↦ omega (arith, ltb→lt a b lt)
        | inr ge ↦
            let q : a ≡ b = omega (arith, ltb→ge a b ge) in cc (e, f, ap (contains healthy) q)
      ]

      not_first :
          (x y z : ℕ) (rest : List ℕ) → z ≤ y → y < x → (x ≡ z) ⊎ Occurs x rest → Occurs x rest
      not_first x y z rest p q (inl e) = absurd (omega arith)
      not_first x y z rest p q (inr r) = r

  -- Below the desired number, which fits into 32 bits, the plan adds as many indices as are missing, in increasing order:
  -- numbers below the desired one that are not healthy, the lowest of these, and removes none.
  pub diff_replicas-grow :
      (desired : ℕ)
      → length healthy < desired
      → desired < u32_mod
      → (length healthy + length (diff_replicas desired healthy).0 ≡ desired)
        × All (IsMissing 0 desired) (diff_replicas desired healthy).0
        × IsIncreasing (diff_replicas desired healthy).0
        × ((i j : ℕ)
            → Occurs i (diff_replicas desired healthy).0
            → j < i
            → contains healthy j ≡ false
            → Occurs j (diff_replicas desired healthy).0)
        × ((diff_replicas desired healthy).1 ≡ [])
  unfolding diff_replicas
  diff_replicas-grow desired h small =
      let exact : length healthy % u32_mod ≡ length healthy = mod-eq_of_lt (omega arith) in
      rw (exact, lt→ltb (length healthy) desired h)
        (
          omega (
            arith,
            length-lowest_missing desired 0 (desired - length healthy)
                (omega (arith, hits-le-length healthy 0 desired)),
          ),
          subst
              (λ b.
                All (IsMissing 0 b) (lowest_missing desired 0 (desired - length healthy) healthy))
              (zero-add desired) (lowest_missing-IsMissing desired 0 (desired - length healthy)),
          lowest_missing-IsIncreasing desired 0 (desired - length healthy),
          λ i j o lt m.
              lowest_missing-lowest desired 0 (desired - length healthy) i j o (omega arith) lt m,
          refl,
        )

length-reverse : (xs : List ℕ) → length (reverse xs) ≡ length xs
length-reverse [] = refl
length-reverse (x ∷ xs) =
    rw reverse-cons (omega (arith, length-append (reverse xs) (x ∷ []), length-reverse xs))

take-split :
    (k : ℕ) (xs : List ℕ)
    → k ≤ length xs
    → (rest : List ℕ) × (xs ≡ take k xs ++ rest) × (length rest + k ≡ length xs)
take-split zero xs h = (xs, refl, omega arith)
take-split (suc k) [] h = absurd (omega arith)
take-split (suc k) (x ∷ xs) h =
    let (rest, e, l) = take-split k xs (omega arith) in (rest, ap (◌∷◌ x) e, omega (arith, l))

not_less : (a b : ℕ) → b ≤ a → ltb a b ≡ false
not_less a b h = ground arith

-- At or above the desired number, the count of healthy indices fitting into 32 bits, the plan adds
-- none, and removes from the end: what is left is the first `desired` healthy indices.
pub diff_replicas-shrink :
    (desired : ℕ) (healthy : List ℕ)
    → desired ≤ length healthy
    → length healthy < u32_mod
    → ((diff_replicas desired healthy).0 ≡ [])
      × ((kept : List ℕ) × (healthy ≡ kept ++ reverse (diff_replicas desired healthy).1)
          × (length kept ≡ desired))
unfolding diff_replicas
diff_replicas-shrink desired healthy h small =
    let exact : length healthy % u32_mod ≡ length healthy = mod-eq_of_lt small in
    let excess = length healthy - desired in
    let (rest, e, l) =
      take-split excess (reverse healthy) (omega (arith, length-reverse healthy)) in
    rw (exact, not_less (length healthy) desired h)
      (elim (Bool-cases (ltb desired (length healthy))) [
        | inl more ↦ rw more (
          refl,
          (
            reverse rest,
            sym (reverse-reverse healthy)
                ∙ ap reverse e
                ∙ reverse-append (take excess (reverse healthy)) rest,
            omega (arith, length-reverse rest, length-reverse healthy, l),
          ),
        )
        | inr same ↦ rw same (
          refl,
          (healthy, sym (append-nil healthy), omega (arith, ltb→ge desired (length healthy) same)),
        )
      ])
