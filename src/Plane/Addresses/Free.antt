-- ===== src/Plane/Addresses/Free.antt =====
-- What `first_free_address` finds: the lowest address that is free, past the bridge's gateway.
use kubsd.Base.{
  ℕ, zero, suc, ◌+◌, ◌-◌, ◌^◌, ◌≤◌, ◌<◌, ◌≡◌, refl, ap, ◌∙◌, Bool, true, false, not, none, some,
  find, find-eq-some, arith, Bool-cases, not-true, not-false, ltb, ltb→lt, ltb→ge, inl, inr, ◌⊎◌,
}
use kubsd.Base.Powers.{pow-add, pow-pos}
use kubsd.Base.Str.{Str}
use kubsd.Extern.{Ipnet, range_from}
use kubsd.Plane.Addresses.{UsedAddresses, is_used, first_free_address, skip_one}

from_next :
    (p : ℕ → Bool) (start b : ℕ)
    → p start ≡ false
    → start ≤ b
    → (start + 1 ≤ b → p b ≡ false)
    → p b ≡ false
from_next p start b e l f = elim (Bool-cases (ltb start b)) [
  | inl lt ↦ f (omega (arith, ltb→lt start b lt))
  | inr ge ↦ let q : b ≡ start = omega (arith, ltb→ge start b ge) in ap p q ∙ e
]

-- the first number of a range that passes a test, and that none below it does
find-range_from :
    (p : ℕ → Bool) (start count : ℕ)
    → ((a : ℕ) × (find p (range_from start count) ≡ some a)
        × (start ≤ a)
        × (a < start + count)
        × (p a ≡ true)
        × ((b : ℕ) → start ≤ b → b < a → p b ≡ false))
      ⊎ ((find p (range_from start count) ≡ none)
          × ((b : ℕ) → start ≤ b → b < start + count → p b ≡ false))
find-range_from p start zero = inr (refl, λ b l h. absurd (omega arith))
find-range_from p start (suc count) =
    let rest = find-range_from p (start + 1) count in
    elim (Bool-cases (p start)) [
      | inl e ↦ inl (start, rw e, omega arith, omega arith, e, λ b l h. absurd (omega arith))
      | inr e ↦ rw e (elim rest [
        | inl (a, f, l, h, t, under) ↦ inl (
          a,
          f,
          omega arith,
          omega arith,
          t,
          λ b bl bh. from_next p start b e bl (λ g. under b g bh),
        )
        | inr (f, under) ↦
            inr (f, λ b bl bh. from_next p start b e bl (λ g. under b g (omega arith)))
      ])
    ]

split_two : (p : ℕ) → p ≤ 30 → 32 - p ≡ 30 - p + 2
split_two p h = omega arith

module _ {Net : Type 0} ⦃ip : Ipnet Net⦄ (pod_cidr : Net) (node_id : Str)
    (used : UsedAddresses) where
  open ip use {network, prefix_len, hosts}

  -- the address may be assigned: past the network's own and the gateway's, before the broadcast's
  abbrev pub Assignable : ℕ → Type 0
  Assignable a =
      (network pod_cidr + 2 ≤ a) × (a + 1 < network pod_cidr + 2 ^ (32 - prefix_len pod_cidr))

  -- In a network of prefix length 30 or less, the result is the lowest assignable address that is
  -- not in use on the node, and there is none only if all of them are in use.
  pub first_free_address-lowest :
      prefix_len pod_cidr ≤ 30
      → ((a : ℕ) × (first_free_address pod_cidr node_id used ≡ some a)
          × Assignable a
          × (is_used used node_id a ≡ false)
          × ((b : ℕ) → Assignable b → b < a → is_used used node_id b ≡ true))
        ⊎ ((first_free_address pod_cidr node_id used ≡ none)
            × ((b : ℕ) → Assignable b → is_used used node_id b ≡ true))
  unfolding first_free_address
  first_free_address-lowest h =
      let size = 2 ^ (32 - prefix_len pod_cidr) in
      let four : 4 ≤ size = omega (
        arith,
        ap (λ (t : ℕ). 2 ^ t) (split_two (prefix_len pod_cidr) h),
        pow-add (30 - prefix_len pod_cidr) 2,
        pow-pos (30 - prefix_len pod_cidr),
      ) in
      let e : hosts pod_cidr ≡ range_from (network pod_cidr + 1) (suc (size - 3)) =
        ip.hosts_range pod_cidr h
        ∙ ap (range_from (network pod_cidr + 1)) {y = suc (size - 3)} (omega arith) in
      rw e
        (elim (find-range_from (λ addr. not (is_used used node_id addr)) (network pod_cidr + 1 + 1)
          (size - 3)) [
            | inl (a, f, l, r, t, under) ↦ inl (
              a,
              f,
              (omega arith, omega arith),
              not-true (is_used used node_id a) t,
              λ b g lt. not-false (is_used used node_id b) (under b (omega arith) lt),
            )
            | inr (f, under) ↦
                inr (
                  f,
                  λ b g. not-false (is_used used node_id b) (under b (omega arith) (omega arith)),
                )
          ])

  -- What it returns is an address of the network's hosts that is not in use on the node.
  pub first_free_address-unused :
      (a : ℕ) → first_free_address pod_cidr node_id used ≡ some a → is_used used node_id a ≡ false
  unfolding first_free_address
  first_free_address-unused a h =
      not-true (is_used used node_id a)
        (find-eq-some (λ addr. not (is_used used node_id addr)) (skip_one (hosts pod_cidr)) a h).0
