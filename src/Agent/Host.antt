-- ===== src/Agent/Host.antt =====
-- keel-jail/src, keel-zfs/src and keel-net/src: the traits that the agent reaches the node through
-- (lib.rs) with their errors (error.rs, mount_error.rs). A step changes the node's state; what an
-- operating system says is a text.
pub mod Fake
use kubsd.Base.{ℕ, Bool, true, false, List, Result}
use kubsd.Base.Effects.{Step}
use kubsd.Base.Str.{Str}

pub data JailError : Type 0 where
  jail_spawn : Str → Str → JailError
  jail_command_failed : Str → Str → Str → JailError
  jail_not_found : Str → JailError

pub data MountError : Type 0 where
  mount_spawn : Str → Str → MountError
  mount_command_failed : Str → Str → Str → MountError
  not_mounted mount_io : Str → MountError

pub data ZfsError : Type 0 where
  zfs_spawn : Str → Str → ZfsError
  zfs_command_failed : Str → Str → Str → ZfsError
  zfs_not_found zfs_busy : Str → ZfsError

pub data NetError : Type 0 where
  net_spawn : Str → Str → NetError
  net_command_failed : Str → Str → Str → NetError
  net_not_found : Str → NetError

-- the tests for `NotFound` and `NotMounted`
abbrev pub is_jail_not_found : JailError → Bool
is_jail_not_found (jail_not_found name) = true
is_jail_not_found (jail_spawn program text) = false
is_jail_not_found (jail_command_failed command status text) = false

abbrev pub is_not_mounted : MountError → Bool
is_not_mounted (not_mounted path) = true
is_not_mounted (mount_io text) = false
is_not_mounted (mount_spawn program text) = false
is_not_mounted (mount_command_failed command status text) = false

abbrev pub is_zfs_not_found : ZfsError → Bool
is_zfs_not_found (zfs_not_found name) = true
is_zfs_not_found (zfs_busy name) = false
is_zfs_not_found (zfs_spawn program text) = false
is_zfs_not_found (zfs_command_failed command status text) = false

-- `JailRuntime`
pub record JailRuntime (W : Type 0) : Type 0 where
  pub create : Str → Str → Bool → Step W (Unit {0}) JailError
  pub jail_exists : Str → Step W Bool JailError
  pub start_command : Str → List Str → Step W (Unit {0}) JailError
  pub destroy : Str → Step W (Unit {0}) JailError
  pub is_running : Str → Step W Bool JailError
  pub set_resource_limits : Str → ℕ → ℕ → Step W (Unit {0}) JailError
  pub remove_resource_limits : Str → Step W (Unit {0}) JailError

-- `MountManager`
pub record MountManager (W : Type 0) : Type 0 where
  pub ensure_mount_point : Str → Step W (Unit {0}) MountError
  pub mount_nullfs : Str → Str → Step W (Unit {0}) MountError
  pub unmount : Str → Step W (Unit {0}) MountError
  pub is_mounted : Str → Step W Bool MountError

-- `ZfsManager`, without the streams of snapshots
pub record ZfsManager (W : Type 0) : Type 0 where
  pub dataset_exists : Str → Step W Bool ZfsError
  pub clone_from_base : Str → Str → Step W (Unit {0}) ZfsError
  pub create_volume : Str → Str → Step W (Unit {0}) ZfsError
  pub destroy_dataset : Str → Step W (Unit {0}) ZfsError

-- `NetManager`
pub record NetManager (W : Type 0) : Type 0 where
  pub ensure_bridge_exists : Str → Step W (Unit {0}) NetError
  pub attach_jail : Str → Str → Str → Str → Step W (Unit {0}) NetError
  pub detach_jail : Str → Step W (Unit {0}) NetError
  pub add_route : Str → Str → Step W (Unit {0}) NetError
  pub remove_route : Str → Step W (Unit {0}) NetError
  pub add_alias : Str → Str → Step W (Unit {0}) NetError
  pub remove_alias : Str → Str → Step W (Unit {0}) NetError

-- The four, on one node.
pub record Host (W : Type 0) : Type 0 where
  pub jails : JailRuntime W
  pub mounts : MountManager W
  pub zfs : ZfsManager W
  pub net : NetManager W
