-- ===== src/Agent/Provision/Cleared.antt =====
-- keel-agentd/src/reconciler.rs on the node in memory: what `rollback_provision` and `delete` leave of a
-- jail.
use kubsd.Base.{
  ◌≡◌, refl, sym, ap, ◌∙◌, false, List, [], ◌∷◌, Option, none, some, ok, inl, inr, arith,
  Bool-cases,
}
use kubsd.Base.Dict
use kubsd.Base.Dict.{Dict, get-remove}
use kubsd.Base.Effects.{
  Step, discard, unless, wrap, excuse, relabel, for_each, continue, ◌>>◌, >>=-step,
}
use kubsd.Base.Str.{Str, str_eq_refl}
use kubsd.Spec.Types.{VolumeMount}
use kubsd.Spec.Volumes.{has}
use kubsd.Agent.Host.{is_jail_not_found, is_not_mounted, is_zfs_not_found}
use kubsd.Agent.Host.Fake.{
  Node, FakeJail, fake, fake_jails, fake_mounts, fake_zfs, drop, canonical, destroy_jail,
}
use kubsd.Agent.Host.Fake.Sets.{drop_absent, remove_absent}
use kubsd.Agent.Provision.{rollback_provision, tear_down_jail, volume_target}
use kubsd.Agent.Record.{JailRecord, jail_name, jail_dataset_path, epair_base_name}
use kubsd.Agent.Site.{ReconcileError, jail, zfs, mount}

abbrev pub without_mount : Str → Node → Node
without_mount target w = record w { mounted = drop (canonical target) w.mounted }

abbrev pub without_mounts : Str → Str → List VolumeMount → Node → Node
without_mounts pool name [] w = w
without_mounts pool name (v ∷ vs) w =
    without_mounts pool name vs (without_mount (volume_target pool name v) w)

abbrev pub without_jail : Str → Node → Node
without_jail name w = record w { jails = Dict.remove name w.jails }

abbrev pub without_dataset : Str → Node → Node
without_dataset dataset w = record w { datasets = drop dataset w.datasets }

-- A removal of what is not there changes nothing.
discard_unmount :
    (target : Str) (w : Node)
    → discard {E' = ReconcileError} (fake_mounts.unmount target) w ≡ (without_mount target w, ok tt)
discard_unmount target w = elim (Bool-cases (has w.mounted (canonical target))) [
  | inl e ↦ rw e refl
  | inr e ↦ rw e (
      ap (λ t. (record w { mounted = t }, ok tt))
        (sym (drop_absent (canonical target) w.mounted e)))
]

unless_unmount :
    (target : Str) (w : Node)
    → wrap mount (unless is_not_mounted (fake_mounts.unmount target)) w
      ≡ (without_mount target w, ok tt)
unless_unmount target w = elim (Bool-cases (has w.mounted (canonical target))) [
  | inl e ↦ rw e refl
  | inr e ↦ rw e (
      ap (λ t. (record w { mounted = t }, ok tt))
        (sym (drop_absent (canonical target) w.mounted e)))
]

discard_destroy :
    (name : Str) (w : Node) (o : Option FakeJail)
    → Dict.get name w.jails ≡ o
    → ((destroy_jail name w o).0 ≡ without_jail name w)
discard_destroy name w none e =
    ap (λ t. record w { jails = t }) (sym (remove_absent name w.jails e))
discard_destroy name w (some j) e = refl

excuse_destroy :
    (name : Str) (w : Node) (o : Option FakeJail)
    → Dict.get name w.jails ≡ o
    → relabel jail (excuse is_jail_not_found (destroy_jail name w o)) ≡ (without_jail name w, ok tt)
excuse_destroy name w none e =
    ap (λ t. (record w { jails = t }, ok tt)) (sym (remove_absent name w.jails e))
excuse_destroy name w (some j) e = refl

module _ (pool name : Str) where
  discard_unmounts :
      (vs : List VolumeMount) (w : Node)
      → for_each {E = ReconcileError}
          (λ v. discard (fake_mounts.unmount (volume_target pool name v)))
          vs
          w
        ≡ (without_mounts pool name vs w, ok tt)
  unfolding for_each
  discard_unmounts [] w = refl
  discard_unmounts (v ∷ vs) w =
      let body : VolumeMount → Step Node (Unit {0}) ReconcileError =
        λ u. discard (fake_mounts.unmount (volume_target pool name u)) in
      >>=-step (body v) (λ _. for_each body vs) w (discard_unmount (volume_target pool name v) w)
      ∙ discard_unmounts vs (without_mount (volume_target pool name v) w)

  unless_unmounts :
      (vs : List VolumeMount) (w : Node)
      → for_each
          (λ v.
            wrap mount (unless is_not_mounted (fake_mounts.unmount (volume_target pool name v))))
          vs
          w
        ≡ (without_mounts pool name vs w, ok tt)
  unfolding for_each
  unless_unmounts [] w = refl
  unless_unmounts (v ∷ vs) w =
      let body : VolumeMount → Step Node (Unit {0}) ReconcileError =
        λ u. wrap mount (unless is_not_mounted (fake_mounts.unmount (volume_target pool name u))) in
      >>=-step (body v) (λ _. for_each body vs) w (unless_unmount (volume_target pool name v) w)
      ∙ unless_unmounts vs (without_mount (volume_target pool name v) w)

  -- the loop changes the mounts only
  pub unmounts_frame :
      (vs : List VolumeMount) (w : Node)
      → without_mounts pool name vs w
        ≡ record w { mounted = (without_mounts pool name vs w).mounted }
  unmounts_frame [] w = refl
  unmounts_frame (v ∷ vs) w = unmounts_frame vs (without_mount (volume_target pool name v) w)

  -- detached, without the jail and its mounts
  abbrev pub halted : JailRecord → Node → Node
  halted r w = without_mounts pool name r.spec.spec.volumes (
      without_jail (jail_name name)
        (record w { attachments = Dict.remove (epair_base_name r.epair_ordinal) w.attachments }))

  halted_busy : (r : JailRecord) (w : Node) → (halted r w).busy ≡ w.busy
  halted_busy r w = ap (λ (t : Node). t.busy) (unmounts_frame r.spec.spec.volumes _)

  halted_jails :
      (r : JailRecord) (w : Node) → (halted r w).jails ≡ Dict.remove (jail_name name) w.jails
  halted_jails r w = ap (λ (t : Node). t.jails) (unmounts_frame r.spec.spec.volumes _)

  -- the jail is not there when its limits are removed
  no_jail : (r : JailRecord) (w : Node) → Dict.get (jail_name name) (halted r w).jails ≡ none
  no_jail r w = rw (halted_jails r w) (
      ground
        (arith, get-remove (jail_name name) (jail_name name) w.jails, str_eq_refl (jail_name name)))

  discard_end :
      (dataset : Str) (v : Node)
      → has v.busy dataset ≡ false
      → Dict.get (jail_name name) v.jails ≡ none
      → (discard {E' = ReconcileError} (fake_zfs.destroy_dataset dataset)
            >> discard (fake_jails.remove_resource_limits (jail_name name)))
          v
        ≡ (without_dataset dataset v, ok tt)
  discard_end dataset v b g = elim (Bool-cases (has v.datasets dataset)) [
    | inl e ↦ rw (b, e, g) refl
    | inr e ↦
        rw (b, e, g)
          (ap (λ t. (record v { datasets = t }, ok tt)) (sym (drop_absent dataset v.datasets e)))
  ]

  unless_end :
      (dataset : Str) (v : Node)
      → has v.busy dataset ≡ false
      → Dict.get (jail_name name) v.jails ≡ none
      → (wrap zfs (unless is_zfs_not_found (fake_zfs.destroy_dataset dataset))
            >> wrap jail
                (unless is_jail_not_found (fake_jails.remove_resource_limits (jail_name name))))
          v
        ≡ (without_dataset dataset v, ok tt)
  unless_end dataset v b g = elim (Bool-cases (has v.datasets dataset)) [
    | inl e ↦ rw (b, e, g) refl
    | inr e ↦
        rw (b, e, g)
          (ap (λ t. (record v { datasets = t }, ok tt)) (sym (drop_absent dataset v.datasets e)))
  ]

  pub rollback_provision_lem :
      (gateway : Str → Str) (r : JailRecord) (w : Node)
      → has w.busy (jail_dataset_path pool name) ≡ false
      → rollback_provision (fake gateway) pool name r w
        ≡ (without_dataset (jail_dataset_path pool name) (halted r w), ok tt)
  unfolding rollback_provision
  rollback_provision_lem gateway r w b =
      let unmounts : Step Node (Unit {0}) ReconcileError =
        for_each (λ v. discard (fake_mounts.unmount (volume_target pool name v)))
          r.spec.spec.volumes in
      let end : Step Node (Unit {0}) ReconcileError =
        discard (fake_zfs.destroy_dataset (jail_dataset_path pool name))
        >> discard (fake_jails.remove_resource_limits (jail_name name)) in
      let detached : Node = record w {
        attachments = Dict.remove (epair_base_name r.epair_ordinal) w.attachments;
      } in
      ap (λ v. (unmounts >> end) v)
        (discard_destroy (jail_name name) detached (Dict.get (jail_name name) w.jails) refl)
      ∙ >>=-step unmounts (λ _. end) (without_jail (jail_name name) detached)
          (discard_unmounts r.spec.spec.volumes (without_jail (jail_name name) detached))
      ∙ discard_end (jail_dataset_path pool name) (halted r w) (rw (halted_busy r w) b)
          (no_jail r w)

  pub tear_down_jail_lem :
      (gateway : Str → Str) (r : JailRecord) (w : Node)
      → has w.busy (jail_dataset_path pool name) ≡ false
      → tear_down_jail (fake gateway) pool name r w
        ≡ (without_dataset (jail_dataset_path pool name) (halted r w), ok tt)
  unfolding tear_down_jail
  tear_down_jail_lem gateway r w b =
      let unmounts : Step Node (Unit {0}) ReconcileError =
        for_each
          (λ v.
            wrap mount (unless is_not_mounted (fake_mounts.unmount (volume_target pool name v))))
          r.spec.spec.volumes in
      let end : Step Node (Unit {0}) ReconcileError =
        wrap zfs (unless is_zfs_not_found (fake_zfs.destroy_dataset (jail_dataset_path pool name)))
        >> wrap jail
            (unless is_jail_not_found (fake_jails.remove_resource_limits (jail_name name))) in
      let detached : Node = record w {
        attachments = Dict.remove (epair_base_name r.epair_ordinal) w.attachments;
      } in
      ap (λ out. continue out (λ _. unmounts >> end))
        (excuse_destroy (jail_name name) detached (Dict.get (jail_name name) w.jails) refl)
      ∙ >>=-step unmounts (λ _. end) (without_jail (jail_name name) detached)
          (unless_unmounts r.spec.spec.volumes (without_jail (jail_name name) detached))
      ∙ unless_end (jail_dataset_path pool name) (halted r w) (rw (halted_busy r w) b) (no_jail r w)
