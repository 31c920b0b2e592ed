-- ===== src/Agent/Provision/Gone.antt =====
-- keel-agentd/src/reconciler.rs on the node in memory: after a roll-back and after a deletion nothing of
-- the jail is left, and what is not the jail's is untouched.
use kubsd.Base.{◌≡◌, refl, ap, ◌∙◌, false, List, [], ◌∷◌, ◌++◌, none, ok, arith, All}
use kubsd.Base.Dict
use kubsd.Base.Dict.{get-remove}
use kubsd.Base.Str.{Str, bytes, str_eq, str_eq_refl}
use kubsd.Spec.Types.{VolumeMount}
use kubsd.Spec.Volumes.{has}
use kubsd.Agent.Host.Fake.{Node, fake, canonical}
use kubsd.Agent.Host.Fake.Sets.{has-drop}
use kubsd.Agent.Provision.{rollback_provision, tear_down_jail, volume_target}
use kubsd.Agent.Provision.Cleared.{
  halted, without_dataset, without_mounts, without_mount, unmounts_frame, rollback_provision_lem,
  tear_down_jail_lem,
}
use kubsd.Agent.Record.{
  JailRecord, jail_name, jail_dataset_path, volume_dataset_path, epair_base_name,
}

module _ (pool name : Str) (r : JailRecord) where
  -- nothing of the jail is on the node
  pub record IsGone (w : Node) : Type 0 where
    pub no_jail : Dict.get (jail_name name) w.jails ≡ none
    pub no_epair : Dict.get (epair_base_name r.epair_ordinal) w.attachments ≡ none
    pub no_rootfs : has w.datasets (jail_dataset_path pool name) ≡ false
    pub no_mounts :
        All (λ v. has w.mounted (canonical (volume_target pool name v)) ≡ false) r.spec.spec.volumes

  -- other jails, other attachments and the volumes are as they were
  pub record IsSpared (w after : Node) : Type 0 where
    pub jails_spared :
        (j : Str) → str_eq (jail_name name) j ≡ false → Dict.get j after.jails ≡ Dict.get j w.jails
    pub epairs_spared :
        (e : Str)
        → str_eq (epair_base_name r.epair_ordinal) e ≡ false
        → Dict.get e after.attachments ≡ Dict.get e w.attachments
    pub volumes_spared :
        (v : Str)
        → has after.datasets (volume_dataset_path pool v)
          ≡ has w.datasets (volume_dataset_path pool v)

str_eq-append : (s t u : Str) → str_eq (s ++ t) (s ++ u) ≡ str_eq t u
unfolding str_eq
str_eq-append [] t u = refl
str_eq-append (c ∷ s) t u = ground (arith, str_eq-append s t u)

-- a jail's dataset is no volume's
apart :
    (pool name v : Str) → str_eq (jail_dataset_path pool name) (volume_dataset_path pool v) ≡ false
unfolding jail_dataset_path volume_dataset_path str_eq
apart pool name v = str_eq-append pool (bytes "/keel/jails/" ++ name) (bytes "/keel/volumes/" ++ v)

-- what is unmounted stays so
stays_unmounted :
    (pool name target : Str) (vs : List VolumeMount) (w : Node)
    → has w.mounted target ≡ false
    → has (without_mounts pool name vs w).mounted target ≡ false
stays_unmounted pool name target [] w h = h
stays_unmounted pool name target (v ∷ vs) w h =
    let t = canonical (volume_target pool name v) in
    stays_unmounted pool name target vs (without_mount (volume_target pool name v) w)
      (ground (arith, has-drop t target w.mounted))

unmounted :
    (pool name : Str) (vs : List VolumeMount) (w : Node)
    → All
        (λ v.
          has (without_mounts pool name vs w).mounted (canonical (volume_target pool name v))
          ≡ false)
        vs
unmounted pool name [] w = tt
unmounted pool name (v ∷ vs) w =
    let t = canonical (volume_target pool name v) in
    let without = without_mount (volume_target pool name v) w in
    (
      stays_unmounted pool name t vs without
          (ground (arith, has-drop t t w.mounted, str_eq_refl t)),
      unmounted pool name vs without,
    )

module _ (pool name : Str) (r : JailRecord) (w : Node) where
  abbrev cleared : Node
  cleared = without_dataset (jail_dataset_path pool name) (halted pool name r w)

  abbrev quiet : Node
  quiet = record w {
    jails = Dict.remove (jail_name name) w.jails;
    attachments = Dict.remove (epair_base_name r.epair_ordinal) w.attachments;
  }

  frame : halted pool name r w ≡ record quiet { mounted = (halted pool name r w).mounted }
  frame = unmounts_frame pool name r.spec.spec.volumes quiet

  jails_after : cleared.jails ≡ quiet.jails
  jails_after = ap (λ (t : Node). t.jails) frame

  attachments_after : cleared.attachments ≡ quiet.attachments
  attachments_after = ap (λ (t : Node). t.attachments) frame

  datasets_after : (halted pool name r w).datasets ≡ w.datasets
  datasets_after = ap (λ (t : Node). t.datasets) frame

  cleared-IsGone : IsGone pool name r cleared
  cleared-IsGone = record {
    no_jail = rw jails_after (
        ground (
          arith,
          get-remove (jail_name name) (jail_name name) w.jails,
          str_eq_refl (jail_name name),
        ));
    no_epair =
        let epair = epair_base_name r.epair_ordinal in
        rw attachments_after
          (ground (arith, get-remove epair epair w.attachments, str_eq_refl epair));
    no_rootfs =
        let dataset = jail_dataset_path pool name in
        ground
          (arith, has-drop dataset dataset (halted pool name r w).datasets, str_eq_refl dataset);
    no_mounts = unmounted pool name r.spec.spec.volumes quiet;
  }

  cleared-IsSpared : IsSpared pool name r w cleared
  cleared-IsSpared = record {
    jails_spared = λ j h. rw jails_after (ground (arith, get-remove (jail_name name) j w.jails));
    epairs_spared = λ e h.
        rw attachments_after
          (ground (arith, get-remove (epair_base_name r.epair_ordinal) e w.attachments));
    volumes_spared = λ v.
        let dataset = jail_dataset_path pool name in
        let volume = volume_dataset_path pool v in
        let kept : has cleared.datasets volume ≡ has (halted pool name r w).datasets volume =
          ground
            (arith, has-drop dataset volume (halted pool name r w).datasets, apart pool name v) in
        kept ∙ ap (λ t. has t volume) datasets_after;
  }

  -- Whatever a failed start had done, the clean-up after it succeeds when the jail's dataset is not
  -- busy, leaves no jail, no attachment, no dataset and no mount of it, and changes neither another
  -- jail nor another attachment nor any volume's dataset.
  pub rollback_provision-IsGone :
      (gateway : Str → Str)
      → has w.busy (jail_dataset_path pool name) ≡ false
      → (after : Node) × (rollback_provision (fake gateway) pool name r w ≡ (after, ok tt))
        × IsGone pool name r after
        × IsSpared pool name r w after
  rollback_provision-IsGone gateway b =
      (cleared, rollback_provision_lem pool name gateway r w b, cleared-IsGone, cleared-IsSpared)

  -- The deletion of a jail succeeds from any state of the node in which its dataset is not busy, also
  -- when some or all of the jail is gone already. It leaves no jail, no attachment, no dataset and no
  -- mount of it, and changes neither another jail nor another attachment nor any volume's dataset.
  pub tear_down_jail-IsGone :
      (gateway : Str → Str)
      → has w.busy (jail_dataset_path pool name) ≡ false
      → (after : Node) × (tear_down_jail (fake gateway) pool name r w ≡ (after, ok tt))
        × IsGone pool name r after
        × IsSpared pool name r w after
  tear_down_jail-IsGone gateway b =
      (cleared, tear_down_jail_lem pool name gateway r w b, cleared-IsGone, cleared-IsSpared)
