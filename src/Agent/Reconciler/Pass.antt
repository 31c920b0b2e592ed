-- ===== src/Agent/Reconciler/Pass.antt =====
-- keel-agentd/src/reconciler.rs: a pass of the reconciler over all jails, what it tells of a jail, and
-- the resources that are spoken for. A panic is the result `none`.
use kubsd.Base.{
  ℕ, ◌+◌, ◌^◌, ◌%◌, Bool, true, false, List, [], ◌∷◌, map, Option, none, some, Result, ok, err,
  if◌then◌else◌, and_then, to_option,
}
use mathlib.Core.Option
use kubsd.Base.Dict
use kubsd.Base.Dict.{Dict}
use kubsd.Base.Effects.{Step, wrap, ◌>>=◌}
use kubsd.Base.Sort.{sort}
use kubsd.Base.Str.{Str}
use kubsd.Extern.{Float}
use kubsd.Spec.Types.{never}
use kubsd.Spec.Equality.{policy_eq}
use kubsd.Spec.Resources.{parse_cpu_cores, parse_memory_bytes}
use kubsd.Agent.Backoff.{BackoffState, BackoffStatus, can_retry, record_attempt, status}
use kubsd.Agent.Provision.{set_limits, provision, restart, rollback_provision}
use kubsd.Agent.Reconciler.{Reconciler, on_node, ensure_ingress_jail}
use kubsd.Agent.Reconciler.Ingresses.{entry, reconcile_certs, reconcile_ingress_config}
use kubsd.Agent.Record.{JailRecord, jail_name}
use kubsd.Agent.Site.{Site, ReconcileError, jail}

-- keel-agentd/src/wire.rs
pub record JailStatus : Type 0 where
  pub record_of_jail : JailRecord
  pub running : Bool
  pub backoff : BackoffStatus

abbrev pub note_failure :
    Str
    → Result (Unit {0}) ReconcileError
    → List (Str × ReconcileError)
    → List (Str × ReconcileError)
note_failure name (ok u) failures = failures
note_failure name (err e) failures = (name, e) ∷ failures

abbrev pub is_error : Result (Unit {0}) ReconcileError → Bool
is_error (ok u) = false
is_error (err e) = true

module _ {W : Type 0} where
  -- `record_attempt(now)` on the jail's backoff, which is `b`
  abbrev pub attempt : Str → BackoffState → ℕ → Reconciler W → Reconciler W
  attempt name b now s = record s { backoff = Dict.insert name (record_attempt b now) s.backoff }

module _ (F : Type 0) {W : Type 0} ⦃float : Float F⦄ (site : Site W) where
  -- the jail does not exist
  unfoldable pub start :
      Str → JailRecord → BackoffState → ℕ → Step (Reconciler W) (Unit {0}) ReconcileError
  start name r b now s =
      let (t, result) = on_node (provision F site.host s.pool name r) s in
      let u = attempt name b now t in
      let (v, rolled_back) = on_node (rollback_provision site.host s.pool name r) u in
      if is_error result then (v, result) else (u, result)

  -- the jail exists, and runs or does not
  unfoldable pub keep :
      Str → JailRecord → BackoffState → ℕ → Bool → Step (Reconciler W) (Unit {0}) ReconcileError
  keep name r b now true s = on_node (set_limits F site.host name r) s
  keep name r b now false s =
      let (t, result) = on_node (restart F site.host name r) s in
      if policy_eq r.spec.spec.restart_policy never
      then (s, ok tt)
      else (attempt name b now t, result)

  unfoldable pub reconcile_record :
      Str → JailRecord → BackoffState → ℕ → Step (Reconciler W) (Unit {0}) ReconcileError
  unfolding start keep
  reconcile_record name r b now = do
    exists ← wrap jail (on_node (site.host.jails.jail_exists (jail_name name)))
    if exists
        then (do
          running ← wrap jail (on_node (site.host.jails.is_running (jail_name name)))
          keep name r b now running)
        else start name r b now

  unfoldable pub reconcile_one :
      Str → ℕ → Reconciler W → Option (Reconciler W × Result (Unit {0}) ReconcileError)
  unfolding reconcile_record
  reconcile_one name now s =
      let b = entry (Dict.get name s.backoff) in
      let t : Reconciler W = record s { backoff = Dict.insert name b s.backoff } in
      Option.map
        (λ r.
          let reconciled = reconcile_record name r b now t in
          if can_retry b now then reconciled else (t, ok tt))
        (Dict.get name s.records)

  -- the loop over the names
  unfoldable pub reconcile_each :
      List Str → ℕ → Reconciler W → Option (Reconciler W × List (Str × ReconcileError))
  unfolding reconcile_one
  reconcile_each [] now s = some (s, [])
  reconcile_each (name ∷ names) now s = and_then (reconcile_one name now s) (λ (t, result).
      Option.map (λ (u, failures). (u, note_failure name result failures))
        (reconcile_each names now t))

  -- the steps before the loop: the ingress jail, the certificates, nginx
  unfoldable pub prepare : Reconciler W → Option (Reconciler W)
  unfolding ensure_ingress_jail reconcile_certs reconcile_ingress_config
  prepare s =
      let (t, ensured) = ensure_ingress_jail F site s in
      let (w, now_unix) = site.unix_time t.node in
      Option.map (reconcile_ingress_config site)
        (reconcile_certs site now_unix (record t { node = w }))

  unfoldable pub reconcile : ℕ → Reconciler W → Option (Reconciler W × List (Str × ReconcileError))
  unfolding prepare reconcile_each
  reconcile now s =
      and_then (prepare s)
        (λ t. reconcile_each (map (λ (e : Str × JailRecord). e.0) t.records) now t)

module _ {W : Type 0} (site : Site W) where
  abbrev pub unwrap_or_false : {E : Type 0} → Result Bool E → Bool
  unwrap_or_false (ok b) = b
  unwrap_or_false (err e) = false

  -- `map(|b| b.status(now)).unwrap_or_default()`
  abbrev pub backoff_status : ℕ → Option BackoffState → BackoffStatus
  backoff_status now none = record { retry_in_secs = none; current_delay_secs = none }
  backoff_status now (some b) = status b now

  abbrev pub jail_status : Str → ℕ → JailRecord → Reconciler W → Reconciler W × JailStatus
  jail_status name now r s =
      let (w, running) = site.host.jails.is_running (jail_name name) s.node in
      (
        record s { node = w },
        record {
          record_of_jail = r;
          running = unwrap_or_false running;
          backoff = backoff_status now (Dict.get name s.backoff);
        },
      )

  abbrev pub get_status :
      Str → ℕ → Option JailRecord → Reconciler W → Reconciler W × Option JailStatus
  get_status name now none s = (s, none)
  get_status name now (some r) s = let (t, found) = jail_status name now r s in (t, some found)

  unfoldable pub get : Str → ℕ → Reconciler W → Reconciler W × Option JailStatus
  get name now s = get_status name now (Dict.get name s.records) s

  abbrev add_found : Option JailStatus → List JailStatus → List JailStatus
  add_found none found = found
  add_found (some j) found = j ∷ found

  unfoldable pub get_each : List Str → ℕ → Reconciler W → Reconciler W × List JailStatus
  unfolding get
  get_each [] now s = (s, [])
  get_each (name ∷ names) now s =
      let (t, found) = get name now s in
      let (u, rest) = get_each names now t in (u, add_found found rest)

  -- `list`, in the order of the names
  unfoldable pub list : ℕ → Reconciler W → Reconciler W × List JailStatus
  unfolding sort get_each
  list now s = get_each (sort (λ name. name) (map (λ (e : Str × JailRecord). e.0) s.records)) now s

module _ {F : Type 0} ⦃float : Float F⦄ where
  -- the sums over the records, of which no resource may fail to parse; the bytes wrap at 2^64
  unfoldable pub committed : Dict JailRecord → F × ℕ → Option (F × ℕ)
  committed [] (cpu, mem) = some (cpu, mem)
  committed ((name, r) ∷ rs) (cpu, mem) =
      and_then (to_option (parse_cpu_cores {F = F} r.spec.spec.resources.cpu)) (λ cpu_cores.
        and_then (to_option (parse_memory_bytes r.spec.spec.resources.memory))
          (λ mem_bytes. committed rs (float.add cpu cpu_cores, (mem + mem_bytes) % 2 ^ 64)))

  unfoldable pub committed_resources : {W : Type 0} → Reconciler W → Option (F × ℕ)
  unfolding committed
  committed_resources s = committed s.records (float.f_zero, 0)
