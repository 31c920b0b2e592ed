-- ===== src/Plane/Subnet.antt =====
-- keel-controlplane/src/subnet.rs: a node's /24 block and a service's virtual address, both from
-- the FNV-1a hash of a name. `none` is a panic: a failed `assert!` or `expect`.
pub mod Blocks
pub mod Probing
use Prim.Native.Nat.{bit_xor}
use kubsd.Base.{
  ℕ, ◌+◌, ◌-◌, ◌*◌, ◌%◌, ◌^◌, ◌<◌, ◌≡◌, refl, List, [], ◌∷◌, Option, none, some, leb, ltb,
  if◌then◌else◌, arith,
}
use kubsd.Base.Str.{Str}
use kubsd.Extern.{Ipnet}

abbrev pub u32_mod : ℕ
u32_mod = 2 ^ 32

abbrev pub pod_prefix_len : ℕ
pod_prefix_len = 24

-- the loop of `fnv1a`
unfoldable pub fnv1a_from : ℕ → Str → ℕ
fnv1a_from hash [] = hash
fnv1a_from hash (byte ∷ bytes) = fnv1a_from (bit_xor hash byte * 0x01000193 % u32_mod) bytes

unfoldable pub fnv1a : Str → ℕ
unfolding fnv1a_from
fnv1a bytes = fnv1a_from 0x811c9dc5 bytes

module _ {Net : Type 0} ⦃ip : Ipnet Net⦄ where
  open ip use {network, prefix_len, new}

  -- the first address of the block that the hash picks
  unfoldable pub block_addr : Str → Net → ℕ
  block_addr node_id cluster_cidr =
      let block_count = 2 ^ (pod_prefix_len - prefix_len cluster_cidr) in
      let index = fnv1a node_id % block_count in
      (network cluster_cidr + index * 2 ^ (32 - pod_prefix_len)) % u32_mod

  unfoldable pub derive_pod_cidr : Str → Net → Option Net
  derive_pod_cidr node_id cluster_cidr =
      if leb (prefix_len cluster_cidr) pod_prefix_len
      then new (block_addr node_id cluster_cidr) pod_prefix_len
      else none

  -- the address at a probe; the addition to the hash wraps
  unfoldable pub vip_at : Str → Net → ℕ → ℕ
  vip_at service_name service_cidr attempt =
      let host_count = 2 ^ (32 - prefix_len service_cidr) in
      let index = (fnv1a service_name + attempt) % u32_mod % host_count in
      (network service_cidr + index) % u32_mod

  unfoldable pub derive_service_vip : Str → Net → ℕ → Option ℕ
  derive_service_vip service_name service_cidr attempt =
      if ltb 0 (prefix_len service_cidr)
      then some (vip_at service_name service_cidr attempt)
      else none
