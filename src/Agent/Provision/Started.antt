-- ===== src/Agent/Provision/Started.antt =====
-- keel-agentd/src/reconciler.rs on the node in memory: what `provision` makes of a record.
use kubsd.Base.{ℕ, ◌≡◌, refl, ap, ◌∙◌, true, some, ok, arith, if◌then◌else◌, All}
use kubsd.Base.Dict
use kubsd.Base.Dict.{get-insert_self}
use kubsd.Base.Effects.{Step, for_each, wrap, return, raise, continue, ◌>>◌, >>=-step}
use kubsd.Base.Str.{Str, str_eq_refl}
use kubsd.Extern.{Float}
use kubsd.Spec.Resources.{parse_cpu_cores, parse_memory_bytes, cores_to_pcpu_percent}
use kubsd.Spec.Volumes.{has}
use kubsd.Agent.Host.Fake.{Node, FakeJail, fresh_jail, fake, fake_jails, fake_zfs, put}
use kubsd.Agent.Host.Fake.Sets.{has-put}
use kubsd.Agent.Provision.{mount_volume, configure_networking_and_limits, provision}
use kubsd.Agent.Provision.Mounted.{
  with_volumes, mount_volumes_lem, volumes_frame, datasets_stay, IsMounted, All-IsMounted,
}
use kubsd.Agent.Record.{
  JailRecord, jail_name, base_dataset_path, jail_dataset_path, jail_rootfs_path, epair_base_name,
}
use kubsd.Agent.Site.{ReconcileError, jail, zfs, base_image_not_found}

module _ (F : Type 0) ⦃float : Float F⦄ (gateway : Str → Str) (pool name : Str) (r : JailRecord)
    (cores : F) (memory : ℕ) (cpu_read : parse_cpu_cores r.spec.spec.resources.cpu ≡ ok cores)
    (memory_read : parse_memory_bytes r.spec.spec.resources.memory ≡ ok memory) where
  abbrev limited_jail : FakeJail
  limited_jail = record (fresh_jail (jail_rootfs_path pool name) r.spec.spec.network.vnet) {
    pcpu_percent = some (cores_to_pcpu_percent cores);
    memory_bytes = some memory;
  }

  abbrev running_jail : FakeJail
  running_jail = record limited_jail { running = true }

  -- networked, limited and running
  abbrev finished : Node → Node
  finished v = record v {
    bridges = put r.spec.spec.network.bridge v.bridges;
    bridge_addresses =
        Dict.insert r.spec.spec.network.bridge (gateway r.spec.spec.network.address)
          v.bridge_addresses;
    attachments =
        Dict.insert (epair_base_name r.epair_ordinal)
          (jail_name name, r.spec.spec.network.bridge, r.spec.spec.network.address) v.attachments;
    jails =
        Dict.insert (jail_name name) running_jail
          (Dict.insert (jail_name name) limited_jail v.jails);
  }

  finish_lem :
      (v : Node)
      → Dict.get (jail_name name) v.jails
        ≡ some (fresh_jail (jail_rootfs_path pool name) r.spec.spec.network.vnet)
      → (configure_networking_and_limits F (fake gateway) name r
            >> wrap jail (fake_jails.start_command (jail_name name) r.spec.spec.command))
          v
        ≡ (finished v, ok tt)
  unfolding configure_networking_and_limits
  finish_lem v g =
      let bridge = r.spec.spec.network.bridge in
      let there : has (put bridge v.bridges) bridge ≡ true =
        ground (arith, has-put bridge bridge v.bridges, str_eq_refl bridge) in
      rw (there, cpu_read, memory_read, g, get-insert_self (jail_name name) limited_jail v.jails)
        refl

  -- the node after the clone and the creation of the jail
  abbrev created : Node → Node
  created w = record w {
    datasets = put (jail_dataset_path pool name) w.datasets;
    jails =
        Dict.insert (jail_name name)
          (fresh_jail (jail_rootfs_path pool name) r.spec.spec.network.vnet) w.jails;
  }

  abbrev populated : Node → Node
  populated w = with_volumes pool name r.spec.spec.volumes (created w)

  populated_jails : (w : Node) → (populated w).jails ≡ (created w).jails
  populated_jails w =
      ap (λ (t : Node). t.jails) (volumes_frame gateway pool name r.spec.spec.volumes (created w))

  clone_lem :
      (w : Node)
      → has w.datasets (base_dataset_path pool r.spec.spec.image) ≡ true
      → wrap zfs
          (fake_zfs.clone_from_base
            (base_dataset_path pool r.spec.spec.image)
            (jail_dataset_path pool name))
          w
        ≡ (record w { datasets = put (jail_dataset_path pool name) w.datasets }, ok tt)
  clone_lem w b = rw b refl

  provision_lem :
      (w : Node)
      → has w.datasets (base_dataset_path pool r.spec.spec.image) ≡ true
      → provision F (fake gateway) pool name r w ≡ (finished (populated w), ok tt)
  unfolding provision
  provision_lem w b =
      let finish : Step Node (Unit {0}) ReconcileError =
        configure_networking_and_limits F (fake gateway) name r
        >> wrap jail (fake_jails.start_command (jail_name name) r.spec.spec.command) in
      let fresh = fresh_jail (jail_rootfs_path pool name) r.spec.spec.network.vnet in
      let there : Dict.get (jail_name name) (populated w).jails ≡ some fresh =
        rw (populated_jails w) (get-insert_self (jail_name name) fresh w.jails) in
      let base = base_dataset_path pool r.spec.spec.image in
      let loop : Step Node (Unit {0}) ReconcileError =
        for_each (mount_volume (fake gateway) pool name) r.spec.spec.volumes in
      let clone : Step Node (Unit {0}) ReconcileError =
        wrap zfs (fake_zfs.clone_from_base base (jail_dataset_path pool name)) in
      let rest : Step Node (Unit {0}) ReconcileError =
        wrap jail
          (fake_jails.create (jail_name name) (jail_rootfs_path pool name) r.spec.spec.network.vnet)
        >> (loop >> finish) in
      ap
        (λ e.
          continue ((if e then return tt else raise (base_image_not_found base)) w)
            (λ (_ : Unit {0}). clone >> rest))
        b
      ∙ >>=-step clone (λ _. rest) w (clone_lem w b)
      ∙ >>=-step loop (λ _. finish) (created w)
          (mount_volumes_lem gateway pool name r.spec.spec.volumes (created w))
      ∙ finish_lem (populated w) there

  -- the jail runs in its own file system, with its limits, its volumes and its address
  pub record IsProvisioned (w : Node) : Type 0 where
    pub is_running : Dict.get (jail_name name) w.jails ≡ some running_jail
    pub has_rootfs : has w.datasets (jail_dataset_path pool name) ≡ true
    pub has_volumes : All (IsMounted gateway pool name w) r.spec.spec.volumes
    pub is_attached :
        Dict.get (epair_base_name r.epair_ordinal) w.attachments
        ≡ some (jail_name name, r.spec.spec.network.bridge, r.spec.spec.network.address)

  finished-IsProvisioned : (w : Node) → IsProvisioned (finished (populated w))
  finished-IsProvisioned w = record {
    is_running = get-insert_self (jail_name name) running_jail _;
    has_rootfs =
        let dataset = jail_dataset_path pool name in
        datasets_stay gateway pool name dataset r.spec.spec.volumes (created w)
          (ground (arith, has-put dataset dataset w.datasets, str_eq_refl dataset));
    has_volumes = All-IsMounted gateway pool name r.spec.spec.volumes (created w);
    is_attached = get-insert_self (epair_base_name r.epair_ordinal) _ _;
  }

  -- The start of a jail whose base image is there and whose resources can be read succeeds, from any
  -- state of the node. After it the jail runs with its limits, and its file system, every volume with
  -- its mount, and its attachment to the bridge are there.
  pub provision-IsProvisioned :
      (w : Node)
      → has w.datasets (base_dataset_path pool r.spec.spec.image) ≡ true
      → (after : Node) × (provision F (fake gateway) pool name r w ≡ (after, ok tt))
        × IsProvisioned after
  provision-IsProvisioned w b =
      (finished (populated w), provision_lem w b, finished-IsProvisioned w)
