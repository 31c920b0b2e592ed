-- ===== src/Extern.antt =====
-- What the program takes from outside the repository, as interfaces: the `f64` arithmetic, the
-- `ipnet` crate's `Ipv4Net`, its address parser, and the YAML reader.
use kubsd.Base.{
  ℕ, ◌+◌, ◌-◌, ◌^◌, ◌%◌, ◌≤◌, ◌<◌, ◌≡◌, ◌↔◌, Bool, true, false, List, Option, some, Result, ◌∷◌, [],
  zero, suc,
}
use kubsd.Base.Str.{Str}

-- `f64`: the operations that the program calls, and what IEEE 754 says of its comparisons (they
-- hold of every value, NaN included, since a comparison with NaN is false).
pub record Float (F : Type 0) : Type 0 where
  pub f_zero : F
  pub gt : F → F → Bool
  pub feq : F → F → Bool
  pub sub : F → F → F
  pub div : F → F → F
  pub fmin : F → F → F
  pub add : F → F → F
  pub of_u64 : ℕ → F
  pub is_finite : F → Bool
  -- `s.parse::<f64>().ok()`
  pub parse_f64 : Str → Option F
  -- `(x * 100.0).round() as u32`
  pub percent : F → ℕ
  pub gt_irrefl : (a : F) → gt a a ≡ false
  pub gt_trans : (a b c : F) → gt a b ≡ true → gt b c ≡ true → gt a c ≡ true
  pub gt_feq : (a b c : F) → gt a b ≡ true → feq b c ≡ true → gt a c ≡ true
  pub feq_gt : (a b c : F) → feq a b ≡ true → gt b c ≡ true → gt a c ≡ true
  pub feq_trans : (a b c : F) → feq a b ≡ true → feq b c ≡ true → feq a c ≡ true

-- `count` consecutive numbers from `start`
abbrev pub range_from : ℕ → ℕ → List ℕ
range_from start zero = []
range_from start (suc count) = start ∷ range_from (start + 1) count

-- `ipnet::Ipv4Net`, an IPv4 address (a number below 2^32) with a prefix length.
pub record Ipnet (Net : Type 0) : Type 0 where
  pub network : Net → ℕ
  pub prefix_len : Net → ℕ
  -- `Ipv4Net::new(addr, prefix).ok()`
  pub new : ℕ → ℕ → Option Net
  -- `net.hosts()`
  pub hosts : Net → List ℕ
  pub net_eq : Net → Net → Bool
  -- `net.to_string()`
  pub show : Net → Str
  pub prefix_len-le : (n : Net) → prefix_len n ≤ 32
  -- the network address has no host bits, and its block fits into the address space
  pub network_aligned : (n : Net) → network n % 2 ^ (32 - prefix_len n) ≡ 0
  pub network_fits : (n : Net) → network n + 2 ^ (32 - prefix_len n) ≤ 2 ^ 32
  pub new_total :
      (addr prefix : ℕ)
      → addr < 2 ^ 32
      → prefix ≤ 32
      → (n : Net) × (new addr prefix ≡ some n)
        × (prefix_len n ≡ prefix)
        × (network n ≡ addr - addr % 2 ^ (32 - prefix))
  -- from a /30 on, all addresses but the network's and the broadcast address
  pub hosts_range :
      (n : Net)
      → prefix_len n ≤ 30
      → hosts n ≡ range_from (network n + 1) (2 ^ (32 - prefix_len n) - 2)
  pub net_eq_iff : (a b : Net) → (net_eq a b ≡ true) ↔ (a ≡ b)

-- `address.parse::<IpNet>()`: the error's text, or success.
abbrev pub AddressParser : Type 0
AddressParser = Str → Result (Unit {0}) Str

-- `serde_yaml::from_str`: a document, or the error's text.
abbrev pub YamlReader : Type 0 → Type 0
YamlReader A = Str → Result A Str
