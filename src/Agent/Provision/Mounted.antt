-- ===== src/Agent/Provision/Mounted.antt =====
-- keel-agentd/src/reconciler.rs on the node in memory: the volumes of a jail.
use kubsd.Base.{◌≡◌, refl, ap, ◌∙◌, Bool, true, false, List, [], ◌∷◌, ok, arith, if◌then◌else◌, All}
use kubsd.Base.Effects.{for_each, wrap, return, continue, ◌>>=◌, >>=-step}
use kubsd.Base.Str.{Str, str_eq_refl}
use kubsd.Spec.Types.{VolumeMount}
use kubsd.Spec.Volumes.{has}
use kubsd.Agent.Host.Fake.{Node, fake, fake_zfs, fake_mounts, put, canonical}
use kubsd.Agent.Host.Fake.Sets.{has-put}
use kubsd.Agent.Provision.{mount_volume, volume_target}
use kubsd.Agent.Record.{volume_dataset_path, volume_mountpoint}
use kubsd.Agent.Site.{zfs, mount}

-- the node with a volume's dataset and its mount
abbrev pub with_volume : Str → Str → VolumeMount → Node → Node
with_volume pool name v w = record w {
  datasets = put (volume_dataset_path pool v.name) w.datasets;
  mounted = put (canonical (volume_target pool name v)) w.mounted;
}

abbrev pub with_volumes : Str → Str → List VolumeMount → Node → Node
with_volumes pool name [] w = w
with_volumes pool name (v ∷ vs) w = with_volumes pool name vs (with_volume pool name v w)

module _ (gateway : Str → Str) (pool name : Str) where
  -- the dataset is made unless it is there, and so is the mount
  create_lem :
      (v : VolumeMount) (w : Node) (b : Bool)
      → has w.datasets (volume_dataset_path pool v.name) ≡ b
      → (if b
            then return tt
            else wrap zfs (fake_zfs.create_volume (volume_dataset_path pool v.name) v.size))
          w
        ≡ (record w { datasets = put (volume_dataset_path pool v.name) w.datasets }, ok tt)
  create_lem v w true e = rw e refl
  create_lem v w false e = rw e refl

  mount_lem :
      (v : VolumeMount) (w : Node) (b : Bool)
      → has w.mounted (canonical (volume_target pool name v)) ≡ b
      → (if b
            then return tt
            else wrap mount (
                fake_mounts.mount_nullfs
                  (volume_mountpoint pool v.name)
                  (volume_target pool name v)))
          w
        ≡ (record w { mounted = put (canonical (volume_target pool name v)) w.mounted }, ok tt)
  mount_lem v w true e = rw e refl
  mount_lem v w false e = refl

  mount_volume_lem :
      (v : VolumeMount) (w : Node)
      → mount_volume (fake gateway) pool name v w ≡ (with_volume pool name v w, ok tt)
  unfolding mount_volume
  mount_volume_lem v w =
      let exists = has w.datasets (volume_dataset_path pool v.name) in
      let mounted = has w.mounted (canonical (volume_target pool name v)) in
      ap
        (λ out. continue out (λ (_ : Unit {0}).
          wrap mount (fake_mounts.is_mounted (volume_target pool name v)) >>= λ m.
          if m
          then return tt
          else wrap mount (
              fake_mounts.mount_nullfs (volume_mountpoint pool v.name)
                (volume_target pool name v))))
        (create_lem v w exists refl)
      ∙ mount_lem v (record w { datasets = put (volume_dataset_path pool v.name) w.datasets })
          mounted refl

  pub mount_volumes_lem :
      (vs : List VolumeMount) (w : Node)
      → for_each (mount_volume (fake gateway) pool name) vs w ≡ (with_volumes pool name vs w, ok tt)
  unfolding for_each
  mount_volumes_lem [] w = refl
  mount_volumes_lem (v ∷ vs) w =
      >>=-step (mount_volume (fake gateway) pool name v)
        (λ _. for_each (mount_volume (fake gateway) pool name) vs) w (mount_volume_lem v w)
      ∙ mount_volumes_lem vs (with_volume pool name v w)

  -- the loop changes the datasets and the mounts only
  pub volumes_frame :
      (vs : List VolumeMount) (w : Node)
      → with_volumes pool name vs w ≡ record w {
        datasets = (with_volumes pool name vs w).datasets;
        mounted = (with_volumes pool name vs w).mounted;
      }
  volumes_frame [] w = refl
  volumes_frame (v ∷ vs) w = volumes_frame vs (with_volume pool name v w)

  -- what is there stays there
  pub datasets_stay :
      (d : Str) (vs : List VolumeMount) (w : Node)
      → has w.datasets d ≡ true
      → has (with_volumes pool name vs w).datasets d ≡ true
  datasets_stay d [] w h = h
  datasets_stay d (v ∷ vs) w h =
      datasets_stay d vs (with_volume pool name v w)
        (ground (arith, has-put (volume_dataset_path pool v.name) d w.datasets))

  mounts_stay :
      (t : Str) (vs : List VolumeMount) (w : Node)
      → has w.mounted t ≡ true
      → has (with_volumes pool name vs w).mounted t ≡ true
  mounts_stay t [] w h = h
  mounts_stay t (v ∷ vs) w h =
      mounts_stay t vs (with_volume pool name v w)
        (ground (arith, has-put (canonical (volume_target pool name v)) t w.mounted))

  -- a volume has its dataset, and it is mounted
  abbrev pub IsMounted : Node → VolumeMount → Type 0
  IsMounted w v =
      (has w.datasets (volume_dataset_path pool v.name) ≡ true)
      × (has w.mounted (canonical (volume_target pool name v)) ≡ true)

  pub All-IsMounted :
      (vs : List VolumeMount) (w : Node) → All (IsMounted (with_volumes pool name vs w)) vs
  All-IsMounted [] w = tt
  All-IsMounted (v ∷ vs) w =
      let d = volume_dataset_path pool v.name in
      let t = canonical (volume_target pool name v) in
      let after = with_volume pool name v w in
      (
        (
          datasets_stay d vs after (ground (arith, has-put d d w.datasets, str_eq_refl d)),
          mounts_stay t vs after (ground (arith, has-put t t w.mounted, str_eq_refl t)),
        ),
        All-IsMounted vs after,
      )
