-- ===== src/Plane/Addresses.antt =====
-- keel-controlplane/src/addresses.rs: the addresses in use on each node, and the first free one.
pub mod Consistent
pub mod Free
use kubsd.Base.{
  ℕ, ◌≡◌, Bool, true, false, not, List, [], ◌∷◌, Option, none, some, find, contains, set_insert,
  set_remove,
}
use mathlib.Core.Option
use kubsd.Base.Dict
use kubsd.Base.Dict.{Dict}
use kubsd.Base.Str.{Str}
use kubsd.Extern.{Ipnet}

pub record UsedAddresses : Type 0 where
  pub used_by_node : Dict (List ℕ)
  pub by_jail : Dict (Str × ℕ)

-- `UsedAddresses::new`
abbrev pub empty : UsedAddresses
empty = record { used_by_node = []; by_jail = [] }

abbrev pub set_contains : Option (List ℕ) → ℕ → Bool
set_contains none addr = false
set_contains (some set) addr = contains set addr

unfoldable pub is_used : UsedAddresses → Str → ℕ → Bool
is_used u node_id addr = set_contains (Dict.get node_id u.used_by_node) addr

-- `if let Some(set) = used_by_node.get_mut(&node_id) { set.remove(&addr); }`
abbrev pub drop_address : Str → ℕ → Option (List ℕ) → Dict (List ℕ) → Dict (List ℕ)
drop_address node_id addr none m = m
drop_address node_id addr (some set) m = Dict.insert node_id (set_remove addr set) m

abbrev pub release_entry : Option (Str × ℕ) → Str → UsedAddresses → UsedAddresses
release_entry none jail_name u = u
release_entry (some (node_id, addr)) jail_name u = record {
  used_by_node = drop_address node_id addr (Dict.get node_id u.used_by_node) u.used_by_node;
  by_jail = Dict.remove jail_name u.by_jail;
}

unfoldable pub release : UsedAddresses → Str → UsedAddresses
release u jail_name = release_entry (Dict.get jail_name u.by_jail) jail_name u

-- `used_by_node.entry(node_id).or_default().insert(addr)`
abbrev pub add_address : Str → ℕ → Option (List ℕ) → Dict (List ℕ) → Dict (List ℕ)
add_address node_id addr none m = Dict.insert node_id (addr ∷ []) m
add_address node_id addr (some set) m = Dict.insert node_id (set_insert addr set) m

unfoldable pub record_address : UsedAddresses → Str → Str → ℕ → UsedAddresses
unfolding release
record_address u jail_name node_id addr =
    let u' = release u jail_name in
    record {
      used_by_node = add_address node_id addr (Dict.get node_id u'.used_by_node) u'.used_by_node;
      by_jail = Dict.insert jail_name (node_id, addr) u'.by_jail;
    }

unfoldable pub address_of : UsedAddresses → Str → Option ℕ
address_of u jail_name = Option.map (λ p. p.1) (Dict.get jail_name u.by_jail)

-- `skip(1)`
abbrev pub skip_one : List ℕ → List ℕ
skip_one [] = []
skip_one (x ∷ xs) = xs

module _ {Net : Type 0} ⦃ip : Ipnet Net⦄ where
  unfoldable pub first_free_address : Net → Str → UsedAddresses → Option ℕ
  first_free_address pod_cidr node_id used =
      find (λ addr. not (is_used used node_id addr)) (skip_one (ip.hosts pod_cidr))
