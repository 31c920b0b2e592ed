-- ===== src/Agent/Host/Fake.antt =====
-- keel-jail/src/fake.rs and mount_fake.rs, keel-zfs/src/fake.rs, keel-net/src/fake.rs: the node in
-- memory. The jails' switch that makes a start fail is a field of the jail, and the datasets that are
-- marked busy are a field of the state. `bridge_gateway`, whose parser is not in the repository, is a
-- parameter.
pub mod Sets
use kubsd.Base.{
  ℕ, ◌≡◌, Bool, true, false, not, ◌||◌, List, [], ◌∷◌, ◌++◌, Option, none, some, Result, ok, err,
  filter, if◌then◌else◌, is_empty,
}
use mathlib.Core.Option
use kubsd.Base.Dict
use kubsd.Base.Dict.{Dict}
use kubsd.Base.Effects.{Step}
use kubsd.Base.Str.{Str, bytes, str_eq}
use kubsd.Spec.Hosts.{split}
use kubsd.Spec.Volumes.{has}
use kubsd.Agent.Host.{
  Host, JailRuntime, MountManager, ZfsManager, NetManager, JailError, MountError, ZfsError,
  NetError, jail_not_found, not_mounted, zfs_not_found, zfs_busy, net_not_found,
}

pub record FakeJail : Type 0 where
  pub rootfs : Str
  pub vnet : Bool
  pub running : Bool
  pub pcpu_percent : Option ℕ
  pub memory_bytes : Option ℕ
  pub fail_start : Bool

-- `FakeJailRuntime`, `FakeMountManager`, `FakeZfsManager` and `FakeNetManager`
pub record Node : Type 0 where
  pub jails : Dict FakeJail
  pub mounted : List Str
  pub datasets : List Str
  pub busy : List Str
  pub bridges : List Str
  pub bridge_addresses : Dict Str
  pub attachments : Dict (Str × Str × Str)
  pub routes : Dict Str
  pub aliases : Dict (List Str)

-- `HashSet::insert` and `HashSet::remove` of strings
abbrev pub put : Str → List Str → List Str
put k s = if has s k then s else k ∷ s

abbrev pub drop : Str → List Str → List Str
drop k s = filter (λ j. not (str_eq j k)) s

-- Paths are equal when their components are: repeated slashes, slashes at the end and `.` do not
-- count. All paths here begin with a slash.
unfoldable pub components : List Str → Str
components [] = []
components (c ∷ cs) =
    let rest = components cs in
    if is_empty c || str_eq c (bytes ".") then rest else b'/' ∷ (c ++ rest)

unfoldable pub canonical : Str → Str
unfolding components
canonical path = components (split b'/' path)

-- FakeJailRuntime
abbrev pub fresh_jail : Str → Bool → FakeJail
fresh_jail rootfs vnet = record {
  rootfs = rootfs;
  vnet = vnet;
  running = false;
  pcpu_percent = none;
  memory_bytes = none;
  fail_start = false;
}

-- `get_mut(name).ok_or(NotFound)`, then a change
abbrev pub change_jail :
    Str → (FakeJail → FakeJail) → Node → Option FakeJail → Node × Result (Unit {0}) JailError
change_jail name f w none = (w, err (jail_not_found name))
change_jail name f w (some j) = (record w { jails = Dict.insert name (f j) w.jails }, ok tt)

abbrev pub start_jail : Str → Node → Option FakeJail → Node × Result (Unit {0}) JailError
start_jail name w none = (w, err (jail_not_found name))
start_jail name w (some j) =
    if j.fail_start
    then (w, err (jail_not_found (name ++ bytes " (start_command failure injected for testing)")))
    else (record w { jails = Dict.insert name (record j { running = true }) w.jails }, ok tt)

abbrev pub destroy_jail : Str → Node → Option FakeJail → Node × Result (Unit {0}) JailError
destroy_jail name w none = (w, err (jail_not_found name))
destroy_jail name w (some j) = (record w { jails = Dict.remove name w.jails }, ok tt)

abbrev pub is_some_jail : Option FakeJail → Bool
is_some_jail none = false
is_some_jail (some j) = true

abbrev pub is_running_jail : Option FakeJail → Bool
is_running_jail none = false
is_running_jail (some j) = j.running

abbrev pub fake_jails : JailRuntime Node
fake_jails = record {
  create = λ name rootfs vnet w.
      (record w { jails = Dict.insert name (fresh_jail rootfs vnet) w.jails }, ok tt);
  jail_exists = λ name w. (w, ok (is_some_jail (Dict.get name w.jails)));
  start_command = λ name command w. start_jail name w (Dict.get name w.jails);
  destroy = λ name w. destroy_jail name w (Dict.get name w.jails);
  is_running = λ name w. (w, ok (is_running_jail (Dict.get name w.jails)));
  set_resource_limits = λ name pcpu_percent memory_bytes w.
      change_jail name
        (λ j. record j { pcpu_percent = some pcpu_percent; memory_bytes = some memory_bytes }) w
        (Dict.get name w.jails);
  remove_resource_limits = λ name w.
      change_jail name (λ j. record j { pcpu_percent = none; memory_bytes = none }) w
        (Dict.get name w.jails);
}

-- FakeMountManager
abbrev pub fake_mounts : MountManager Node
fake_mounts = record {
  ensure_mount_point = λ target w. (w, ok tt);
  mount_nullfs =
      λ source target w. (record w { mounted = put (canonical target) w.mounted }, ok tt);
  unmount = λ target w.
      if has w.mounted (canonical target)
      then (record w { mounted = drop (canonical target) w.mounted }, ok tt)
      else (w, err (not_mounted target));
  is_mounted = λ target w. (w, ok (has w.mounted (canonical target)));
}

-- FakeZfsManager
abbrev pub fake_zfs : ZfsManager Node
fake_zfs = record {
  dataset_exists = λ dataset w. (w, ok (has w.datasets dataset));
  clone_from_base = λ base_dataset target_dataset w.
      if has w.datasets base_dataset
      then (record w { datasets = put target_dataset w.datasets }, ok tt)
      else (w, err (zfs_not_found base_dataset));
  create_volume = λ dataset quota w. (record w { datasets = put dataset w.datasets }, ok tt);
  destroy_dataset = λ dataset w.
      if has w.busy dataset
      then (w, err (zfs_busy dataset))
      else if has w.datasets dataset
      then (record w { datasets = drop dataset w.datasets }, ok tt)
      else (w, err (zfs_not_found dataset));
}

-- FakeNetManager
abbrev pub aliases_of : Option (List Str) → List Str
aliases_of none = []
aliases_of (some s) = s

abbrev pub drop_alias : Str → Str → Node → Option (List Str) → Node
drop_alias bridge address w none = w
drop_alias bridge address w (some s) = record w {
  aliases = Dict.insert bridge (drop address s) w.aliases;
}

abbrev pub fake_net : (Str → Str) → NetManager Node
fake_net bridge_gateway = record {
  ensure_bridge_exists = λ bridge w. (record w { bridges = put bridge w.bridges }, ok tt);
  attach_jail = λ jail_name bridge epair_base address w.
      if has w.bridges bridge
      then (
        record w {
          bridge_addresses = Dict.insert bridge (bridge_gateway address) w.bridge_addresses;
          attachments = Dict.insert epair_base (jail_name, bridge, address) w.attachments;
        },
        ok tt,
      )
      else (w, err (net_not_found bridge));
  detach_jail =
      λ epair_base w. (record w { attachments = Dict.remove epair_base w.attachments }, ok tt);
  add_route = λ subnet gateway_addr w.
      (record w { routes = Dict.insert subnet gateway_addr w.routes }, ok tt);
  remove_route = λ subnet w. (record w { routes = Dict.remove subnet w.routes }, ok tt);
  add_alias = λ bridge address w. (
    record w {
      aliases = Dict.insert bridge (put address (aliases_of (Dict.get bridge w.aliases))) w.aliases;
    },
    ok tt,
  );
  remove_alias =
      λ bridge address w. (drop_alias bridge address w (Dict.get bridge w.aliases), ok tt);
}

abbrev pub fake : (Str → Str) → Host Node
fake bridge_gateway = record {
  jails = fake_jails;
  mounts = fake_mounts;
  zfs = fake_zfs;
  net = fake_net bridge_gateway;
}
