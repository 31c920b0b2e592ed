-- ===== src/Plane/Subnet/Blocks.antt =====
-- Where the derived blocks lie: inside the cluster's network, with no wrap-around.
use kubsd.Base.{ℕ, ◌+◌, ◌-◌, ◌*◌, ◌%◌, ◌^◌, ◌≤◌, ◌<◌, ◌≡◌, ap, sym, ◌∙◌, some, none, arith}
use native.Mathlib.Nat.{mod-lt, div-add-mod, mod-eq_of_lt}
use kubsd.Base.Str.{Str}
use kubsd.Extern.{Ipnet}
use kubsd.Plane.Subnet.{fnv1a, block_addr, derive_pod_cidr}
use kubsd.Base.Powers.{pow-pos, size-blocks}

multiple_of_256 : (b m : ℕ) → b % (256 * m) ≡ 0 → b % 256 ≡ 0
multiple_of_256 b m h = omega (arith, div-add-mod b (256 * m))

module _ {Net : Type 0} ⦃ip : Ipnet Net⦄ (node_id : Str) (c : Net) where
  open ip use {network, prefix_len}

  block_addr-lem :
      prefix_len c ≤ 24
      → (i : ℕ) × (i < 2 ^ (24 - prefix_len c))
        × (block_addr node_id c ≡ network c + i * 256)
        × (network c + i * 256 + 256 ≤ network c + 2 ^ (32 - prefix_len c))
  unfolding block_addr
  block_addr-lem h =
      let k = 2 ^ (24 - prefix_len c) in
      let i = fnv1a node_id % k in
      let small : i < k = mod-lt (fnv1a node_id) (pow-pos (24 - prefix_len c)) in
      let room : network c + i * 256 + 256 ≤ network c + 2 ^ (32 - prefix_len c) =
        omega (arith, size-blocks (prefix_len c) h) in
      (i, small, mod-eq_of_lt (omega (arith, ip.network_fits c)), room)

  -- The block that a node is given, whatever its name hashes to, is a /24 that begins at a multiple
  -- of 256 and lies inside the cluster's network, if that is a /24 or larger.
  pub derive_pod_cidr-inside :
      prefix_len c ≤ 24
      → (n : Net) × (derive_pod_cidr node_id c ≡ some n)
        × (prefix_len n ≡ 24)
        × (network c ≤ network n)
        × (network n + 256 ≤ network c + 2 ^ (32 - prefix_len c))
        × (network n % 256 ≡ 0)
  unfolding derive_pod_cidr
  derive_pod_cidr-inside h =
      let (i, small, e, room) = block_addr-lem h in
      let base : network c % 256 ≡ 0 = multiple_of_256 (network c) (2 ^ (24 - prefix_len c)) (
        ap (λ (t : ℕ). network c % t) (sym (size-blocks (prefix_len c) h))
        ∙ ip.network_aligned c) in
      let (n, p, q, r) =
        ip.new_total (block_addr node_id c) 24 (omega (arith, e, ip.network_fits c))
          (omega arith) in
      let at : network n ≡ network c + i * 256 = omega (arith, e, r) in
      (n, ground (arith, p), q, omega (arith, at), omega (arith, at), omega (arith, at))

  -- A larger prefix is refused by the assertion.
  pub derive_pod_cidr-panics : 24 < prefix_len c → derive_pod_cidr node_id c ≡ none
  unfolding derive_pod_cidr
  derive_pod_cidr-panics h = ground arith
