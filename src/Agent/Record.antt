-- ===== src/Agent/Record.antt =====
-- keel-agentd/src/record.rs: a jail's record, and the names and paths that derive from its name. A
-- path is its bytes.
use kubsd.Base.{ℕ, [], ◌∷◌, ◌++◌, ◌==◌, if◌then◌else◌}
use kubsd.Base.Decimal.{to_string}
use kubsd.Base.Str.{Str, bytes}
use kubsd.Spec.Types.{JailSpec}

pub record JailRecord : Type 0 where
  pub spec : JailSpec
  pub epair_ordinal : ℕ

unfoldable pub jail_name : Str → Str
jail_name spec_name = bytes "keel-" ++ spec_name

-- `INGRESS_JAIL_BRIDGE_ADDR`
abbrev pub ingress_jail_bridge_addr : Str
ingress_jail_bridge_addr = bytes "10.0.0.2"

unfoldable pub base_dataset_path : Str → Str → Str
base_dataset_path pool image = pool ++ (bytes "/keel/" ++ image)

unfoldable pub jail_dataset_path : Str → Str → Str
jail_dataset_path pool spec_name = pool ++ (bytes "/keel/jails/" ++ spec_name)

unfoldable pub jail_rootfs_path : Str → Str → Str
unfolding jail_dataset_path
jail_rootfs_path pool spec_name = bytes "/" ++ jail_dataset_path pool spec_name

unfoldable pub epair_base_name : ℕ → Str
epair_base_name ordinal = bytes "epair" ++ to_string ordinal

unfoldable pub volume_dataset_path : Str → Str → Str
volume_dataset_path pool name = pool ++ (bytes "/keel/volumes/" ++ name)

unfoldable pub volume_mountpoint : Str → Str → Str
unfolding volume_dataset_path
volume_mountpoint pool name = bytes "/" ++ volume_dataset_path pool name

-- `trim_start_matches('/')`
unfoldable pub trim_slashes : Str → Str
trim_slashes [] = []
trim_slashes (c ∷ s) = let rest = trim_slashes s in if c == b'/' then rest else c ∷ s

-- `rootfs.join(mount_path.trim_start_matches('/'))`: what is joined does not begin with a slash
unfoldable pub mount_target : Str → Str → Str
unfolding trim_slashes
mount_target rootfs mount_path = rootfs ++ (b'/' ∷ trim_slashes mount_path)
