-- ===== src/Agent/Reconciler/Convergent.antt =====
-- keel-agentd/src/reconciler.rs on the node in memory: a pass brings a jail that is wanted up, or cleans
-- up after it and waits.
use kubsd.Base.{ℕ, ◌≡◌, refl, sym, ap, true, false, none, some, Result, ok, err, if◌then◌else◌}
use mathlib.Core.Path.{subst}
use kubsd.Base.Dict
use kubsd.Base.Dict.{get-insert_self}
use kubsd.Base.Str.{Str}
use kubsd.Extern.{Float}
use kubsd.Spec.Resources.{parse_cpu_cores, parse_memory_bytes}
use kubsd.Spec.Volumes.{has}
use kubsd.Agent.Backoff.{BackoffState, can_retry, record_attempt}
use kubsd.Agent.Host.Fake.{Node, FakeJail, fake}
use kubsd.Agent.Provision.{provision, rollback_provision}
use kubsd.Agent.Provision.Gone.{IsGone, rollback_provision-IsGone}
use kubsd.Agent.Provision.Started.{IsProvisioned, provision-IsProvisioned}
use kubsd.Agent.Reconciler.{Reconciler}
use kubsd.Agent.Reconciler.Ingresses.{entry}
use kubsd.Agent.Reconciler.Pass.{attempt, is_error, start, reconcile_one, get, JailStatus}
use kubsd.Agent.Record.{JailRecord, jail_name, jail_dataset_path, base_dataset_path}
use kubsd.Agent.Site.{Site, ReconcileError, base_image_not_found}

module _ (F : Type 0) ⦃float : Float F⦄ (gateway : Str → Str) (site : Site Node) where
  -- the site, on the node in memory
  abbrev pub on_fake : Site Node
  on_fake = record site { host = fake gateway }

  -- what `start` makes of the outcome of `provision`
  abbrev after_provision :
      Str
      → JailRecord
      → BackoffState
      → ℕ
      → Reconciler Node
      → Node × Result (Unit {0}) ReconcileError
      → Reconciler Node × Result (Unit {0}) ReconcileError
  after_provision name r b now s out =
      let u = attempt name b now (record s { node = out.0 }) in
      if is_error out.1
      then (record u { node = (rollback_provision (fake gateway) s.pool name r out.0).0 }, out.1)
      else (u, out.1)

  module _ (name : Str) (r : JailRecord) (now : ℕ) (s : Reconciler Node)
      (tracked : Dict.get name s.records ≡ some r)
      (absent : Dict.get (jail_name name) s.node.jails ≡ none)
      (due : can_retry (entry (Dict.get name s.backoff)) now ≡ true) where
    abbrev delay : BackoffState
    delay = entry (Dict.get name s.backoff)

    abbrev armed : Reconciler Node
    armed = record s { backoff = Dict.insert name delay s.backoff }

    -- the pass of this jail is its start
    started :
        (out : Node × Result (Unit {0}) ReconcileError)
        → provision F (fake gateway) s.pool name r s.node ≡ out
        → reconcile_one F on_fake name now s ≡ some (after_provision name r delay now armed out)
    unfolding reconcile_one start
    started out e =
        rw (tracked, due, absent) (ap (λ o. some (after_provision name r delay now armed o)) e)

    abbrev armed_after : Node → Reconciler Node
    armed_after w = attempt name delay now (record armed { node = w })

    told :
        (w : Node) (j : FakeJail)
        → Dict.get (jail_name name) w.jails ≡ some j
        → j.running ≡ true
        → (found : JailStatus) × ((get on_fake name now (armed_after w)).1 ≡ some found)
          × (found.running ≡ true)
    unfolding get
    told w j g t = rw (tracked, g) (_, refl, t)

    -- A pass over a jail that is wanted and does not exist, with its gate open, its base image there
    -- and its resources readable, succeeds: after it the jail is provisioned, the status that `get`
    -- tells of it says that it runs, and the next start waits for the delay.
    pub reconcile_one-IsProvisioned :
        (cores : F) (memory : ℕ) (cpu_read : parse_cpu_cores r.spec.spec.resources.cpu ≡ ok cores)
        (memory_read : parse_memory_bytes r.spec.spec.resources.memory ≡ ok memory)
        → has s.node.datasets (base_dataset_path s.pool r.spec.spec.image) ≡ true
        → (out : Reconciler Node) × (reconcile_one F on_fake name now s ≡ some (out, ok tt))
          × IsProvisioned F gateway s.pool name r cores memory cpu_read memory_read out.node
          × ((found : JailStatus) × ((get on_fake name now out).1 ≡ some found)
              × (found.running ≡ true))
          × (Dict.get name out.backoff ≡ some (record_attempt delay now))
    reconcile_one-IsProvisioned cores memory cpu_read memory_read b =
        let (w, e, i) =
          provision-IsProvisioned F gateway s.pool name r cores memory cpu_read memory_read s.node
            b in
        (
          armed_after w,
          started (w, ok tt) e,
          i,
          told w _ i.is_running refl,
          get-insert_self name (record_attempt delay now) armed.backoff,
        )

    no_image :
        has s.node.datasets (base_dataset_path s.pool r.spec.spec.image) ≡ false
        → provision F (fake gateway) s.pool name r s.node
          ≡ (s.node, err (base_image_not_found (base_dataset_path s.pool r.spec.spec.image)))
    unfolding provision
    no_image b = rw b refl

    -- A pass over such a jail without its base image fails with the image's dataset, leaves nothing of
    -- the jail on the node when its dataset is not busy, and the next start waits for the delay.
    pub reconcile_one-IsGone :
        has s.node.datasets (base_dataset_path s.pool r.spec.spec.image) ≡ false
        → has s.node.busy (jail_dataset_path s.pool name) ≡ false
        → (out : Reconciler Node) × (reconcile_one F on_fake name now s
            ≡ some (out, err (base_image_not_found (base_dataset_path s.pool r.spec.spec.image))))
          × IsGone s.pool name r out.node
          × (Dict.get name out.backoff ≡ some (record_attempt delay now))
    reconcile_one-IsGone b q =
        let (w, e, i, j) = rollback_provision-IsGone s.pool name r s.node gateway q in
        let failed : ReconcileError =
          base_image_not_found (base_dataset_path s.pool r.spec.spec.image) in
        (
          (after_provision name r delay now armed (s.node, err failed)).0,
          started (s.node, err failed) (no_image b),
          subst (IsGone s.pool name r)
              (sym (ap (λ (o : Node × Result (Unit {0}) ReconcileError). o.0) e)) i,
          get-insert_self name (record_attempt delay now) armed.backoff,
        )
