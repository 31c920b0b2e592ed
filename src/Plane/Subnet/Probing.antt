-- ===== src/Plane/Subnet/Probing.antt =====
-- The probe for a virtual address stays in the service network and reaches all of it.
use kubsd.Base.{ℕ, ◌+◌, ◌-◌, ◌%◌, ◌^◌, ◌≤◌, ◌<◌, ◌≡◌, ap, ◌∙◌, arith}
use native.Mathlib.Nat.{mod-lt, mod-eq_of_lt}
use kubsd.Base.Str.{Str}
use kubsd.Extern.{Ipnet}
use kubsd.Plane.Subnet.{fnv1a, vip_at, u32_mod}
use kubsd.Base.Powers.{pow-pos, mod-mod-pow, residue-met}

module _ {Net : Type 0} ⦃ip : Ipnet Net⦄ (name : Str) (c : Net) where
  open ip use {network, prefix_len}

  -- Every probe is an address of the service network: the sum does not wrap.
  pub vip_at-inside :
      (attempt : ℕ)
      → (network c ≤ vip_at name c attempt)
        × (vip_at name c attempt < network c + 2 ^ (32 - prefix_len c))
  unfolding vip_at
  vip_at-inside attempt =
      let small = mod-lt ((fnv1a name + attempt) % u32_mod) (pow-pos (32 - prefix_len c)) in
      let fits : network c + (fnv1a name + attempt) % u32_mod % 2 ^ (32 - prefix_len c) < u32_mod =
        omega (arith, ip.network_fits c) in
      let e = mod-eq_of_lt fits in (omega (arith, e), omega (arith, e))

  -- For each address of the service network there is a probe within its host count that meets it.
  pub vip_at-reaches :
      (addr : ℕ)
      → network c ≤ addr
      → addr < network c + 2 ^ (32 - prefix_len c)
      → (attempt : ℕ) × (attempt < 2 ^ (32 - prefix_len c)) × (vip_at name c attempt ≡ addr)
  unfolding vip_at
  vip_at-reaches addr low high =
      let k = 32 - prefix_len c in
      let (t, small, e) =
        residue-met (fnv1a name) (2 ^ k) (addr - network c) (pow-pos k) (omega arith) in
      let wrapped = mod-mod-pow (fnv1a name + t) k (omega arith) in
      let index : (fnv1a name + t) % u32_mod % 2 ^ k ≡ addr - network c = wrapped ∙ e in
      (
        t,
        small,
        ap (λ (x : ℕ). (network c + x) % u32_mod) index
            ∙ mod-eq_of_lt (omega (arith, ip.network_fits c))
            ∙ omega arith,
      )
