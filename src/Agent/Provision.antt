-- ===== src/Agent/Provision.antt =====
-- keel-agentd/src/reconciler.rs: the steps that start a jail, restart it, take it down and clean up
-- after a failed start. They change the node only; `pool` is the reconciler's field.
pub mod Cleared
pub mod Mounted
pub mod Started
pub mod Gone
use kubsd.Base.{ℕ, Bool, not, List, Result, if◌then◌else◌}
use kubsd.Base.Effects.{Step, return, raise, lift, wrap, discard, unless, for_each, ◌>>=◌, ◌>>◌}
use kubsd.Base.Str.{Str}
use kubsd.Extern.{Float}
use kubsd.Spec.Types.{VolumeMount, SpecError}
use kubsd.Spec.Resources.{parse_cpu_cores, cores_to_pcpu_percent, parse_memory_bytes}
use kubsd.Agent.Host.{Host, is_jail_not_found, is_not_mounted, is_zfs_not_found}
use kubsd.Agent.Record.{
  JailRecord, jail_name, base_dataset_path, jail_dataset_path, jail_rootfs_path, epair_base_name,
  volume_dataset_path, volume_mountpoint, mount_target,
}
use kubsd.Agent.Site.{ReconcileError, invalid_spec, jail, zfs, net, mount, base_image_not_found}

-- `?` of the errors that a specification, the jails, the datasets, the mounts and the network give
abbrev pub checked : {W A : Type 0} → Result A SpecError → Step W A ReconcileError
checked r = wrap invalid_spec (lift r)

module _ (F : Type 0) {W : Type 0} ⦃float : Float F⦄ (host : Host W) where
  -- the limits that the record's resources say
  unfoldable pub set_limits : Str → JailRecord → Step W (Unit {0}) ReconcileError
  set_limits name r = do
    cores ← checked (parse_cpu_cores {F = F} r.spec.spec.resources.cpu)
    memory_bytes ← checked (parse_memory_bytes r.spec.spec.resources.memory)
    wrap jail
        (host.jails.set_resource_limits (jail_name name) (cores_to_pcpu_percent cores) memory_bytes)

  unfoldable pub configure_networking_and_limits :
      Str → JailRecord → Step W (Unit {0}) ReconcileError
  unfolding set_limits
  configure_networking_and_limits name r = do
    wrap net (host.net.ensure_bridge_exists r.spec.spec.network.bridge)
    wrap net (
        host.net.attach_jail (jail_name name) r.spec.spec.network.bridge
          (epair_base_name r.epair_ordinal) r.spec.spec.network.address)
    set_limits name r

  unfoldable pub restart : Str → JailRecord → Step W (Unit {0}) ReconcileError
  unfolding configure_networking_and_limits
  restart name r = do
    configure_networking_and_limits name r
    wrap jail (host.jails.start_command (jail_name name) r.spec.spec.command)

-- `rootfs.join(..)`
abbrev pub volume_target : Str → Str → VolumeMount → Str
volume_target pool name v = mount_target (jail_rootfs_path pool name) v.mount_path

module _ {W : Type 0} (host : Host W) (pool : Str) where
  -- the body of the loop over the volumes
  unfoldable pub mount_volume : Str → VolumeMount → Step W (Unit {0}) ReconcileError
  mount_volume name v = do
    wrap mount (host.mounts.ensure_mount_point (volume_target pool name v))
    exists ← wrap zfs (host.zfs.dataset_exists (volume_dataset_path pool v.name))
    if exists
        then return tt
        else wrap zfs (host.zfs.create_volume (volume_dataset_path pool v.name) v.size)
    mounted ← wrap mount (host.mounts.is_mounted (volume_target pool name v))
    if mounted
        then return tt
        else wrap mount
            (host.mounts.mount_nullfs (volume_mountpoint pool v.name) (volume_target pool name v))

  -- `delete`, up to the removal of the record
  unfoldable pub tear_down_jail : Str → JailRecord → Step W (Unit {0}) ReconcileError
  unfolding for_each
  tear_down_jail name r = do
    wrap net (host.net.detach_jail (epair_base_name r.epair_ordinal))
    wrap jail (unless is_jail_not_found (host.jails.destroy (jail_name name)))
    for_each
        (λ v. wrap mount (unless is_not_mounted (host.mounts.unmount (volume_target pool name v))))
        r.spec.spec.volumes
    wrap zfs (unless is_zfs_not_found (host.zfs.destroy_dataset (jail_dataset_path pool name)))
    wrap jail (unless is_jail_not_found (host.jails.remove_resource_limits (jail_name name)))

  unfoldable pub rollback_provision : Str → JailRecord → Step W (Unit {0}) ReconcileError
  unfolding for_each
  rollback_provision name r = do
    discard (host.net.detach_jail (epair_base_name r.epair_ordinal))
    discard (host.jails.destroy (jail_name name))
    for_each (λ v. discard (host.mounts.unmount (volume_target pool name v))) r.spec.spec.volumes
    discard (host.zfs.destroy_dataset (jail_dataset_path pool name))
    discard (host.jails.remove_resource_limits (jail_name name))

module _ (F : Type 0) {W : Type 0} ⦃float : Float F⦄ (host : Host W) (pool : Str) where
  unfoldable pub provision : Str → JailRecord → Step W (Unit {0}) ReconcileError
  unfolding for_each mount_volume configure_networking_and_limits
  provision name r = do
    let base = base_dataset_path pool r.spec.spec.image
    exists ← wrap zfs (host.zfs.dataset_exists base)
    if exists then return tt else raise (base_image_not_found base)
    wrap zfs (host.zfs.clone_from_base base (jail_dataset_path pool name))
    wrap jail
        (host.jails.create (jail_name name) (jail_rootfs_path pool name) r.spec.spec.network.vnet)
    for_each (mount_volume host pool name) r.spec.spec.volumes
    configure_networking_and_limits F host name r
    wrap jail (host.jails.start_command (jail_name name) r.spec.spec.command)
