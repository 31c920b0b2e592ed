-- ===== src/Agent/Worker.antt =====
-- keel-agentd/src/worker.rs: the thread that owns the reconciler. A command is handled whole before the
-- next; its reply is the result, and what it spawns is listed. `Instant::now()` is a step of the node.
-- A panic is the result `none`.
pub mod Running
pub mod Isolated
use kubsd.Base.{
  ℕ, Bool, true, false, not, ◌&&◌, List, [], ◌∷◌, ◌++◌, map, Option, none, some, Result, ok, err,
  if◌then◌else◌, and_then, is_empty, is_ok,
}
use mathlib.Core.Option
use kubsd.Base.Dict
use kubsd.Base.Str.{Str, bytes}
use kubsd.Extern.{Float}
use kubsd.Spec.Types.{JailSpec, IngressSpec}
use kubsd.Spec.Volumes.{has}
use kubsd.Agent.Host.{NetError}
use kubsd.Agent.Reconciler.{
  Reconciler, apply, delete, add_route, remove_route, add_alias, remove_alias, get_volume,
  delete_volume, set_replicate_to,
}
use kubsd.Agent.Reconciler.Ingresses.{apply_ingress, delete_ingress}
use kubsd.Agent.Reconciler.Pass.{JailStatus, reconcile, get, list, committed_resources}
use kubsd.Agent.Site.{Site, ReconcileError}
use kubsd.Agent.Store.{IngressRecord}

pub data Command : Type 0 where
  apply_jail : JailSpec → Command
  get_jails : Option Str → Command
  delete_jail : Str → Command
  tick committed_resources_of_all resume_replication_loops : Command
  add_route_to add_service_alias remove_service_alias : Str → Str → Command
  remove_route_to get_volume_named delete_volume_named : Str → Command
  retarget_replication : Str → Option Str → Command
  apply_ingress_spec : IngressSpec → Command
  get_ingresses : Option Str → Command
  delete_ingress_named : Str → Command

pub data Reply (F : Type 0) : Type 0 where
  done : Reply F
  reconciled : Result (Unit {0}) ReconcileError → Reply F
  networked : Result (Unit {0}) NetError → Reply F
  statuses : List JailStatus → Reply F
  resources : F → ℕ → Reply F
  ingresses : List IngressRecord → Reply F

-- `spawned` has the replication loops that were started: the jail's name and the volume's
pub record Server (W : Type 0) : Type 0 where
  pub reconciler : Reconciler W
  pub replicating : List Str
  pub spawned : List (Str × Str)

-- `!volumes.is_empty() && replicate_to.is_some()`
abbrev pub is_some_str : Option Str → Bool
is_some_str none = false
is_some_str (some s) = true

unfoldable pub is_stateful_and_replicated : JailSpec → Bool
is_stateful_and_replicated spec =
    not (is_empty spec.spec.volumes) && is_some_str spec.spec.replicate_to

-- `into_iter().collect()`
abbrev pub as_list : {A : Type 0} → Option A → List A
as_list none = []
as_list (some a) = a ∷ []

module _ {W : Type 0} where
  -- `replicating.insert(name)`, and the loop that is spawned when the name is new
  unfoldable pub spawn_once : Str → Server W → Server W
  spawn_once name s = if has s.replicating name then s else record s {
    replicating = name ∷ s.replicating;
    spawned = s.spawned ++ ((name, name ++ bytes "-data") ∷ []);
  }

  abbrev pub with_reconciler : {A : Type 0} → Server W → Reconciler W × A → Server W × A
  with_reconciler s (r, a) = (record s { reconciler = r }, a)

  -- the jails' loops, in the order of the list
  unfoldable pub resume_each : List JailStatus → Server W → Server W
  unfolding spawn_once is_stateful_and_replicated
  resume_each [] s = s
  resume_each (found ∷ rest) s =
      let spec = found.record_of_jail.spec in
      let t = spawn_once spec.metadata.name s in
      resume_each rest (if is_stateful_and_replicated spec then t else s)

  -- the loop for a jail that was applied
  unfoldable pub after_apply :
      JailSpec
      → Server W × Result (Unit {0}) ReconcileError
      → Server W × Result (Unit {0}) ReconcileError
  unfolding spawn_once is_stateful_and_replicated
  after_apply spec (s, result) =
      let t = spawn_once spec.metadata.name s in
      (if is_ok result && is_stateful_and_replicated spec then t else s, result)

  abbrev pub reply_with : {F A : Type 0} → (A → Reply F) → Server W × A → Server W × Reply F
  reply_with reply (s, a) = (s, reply a)

  abbrev pub answer :
      {F A : Type 0}
      → (A → Reply F)
      → Server W
      → (Reconciler W → Reconciler W × A)
      → Option (Server W × Reply F)
  answer reply s op = some (reply_with reply (with_reconciler s (op s.reconciler)))

abbrev pub find_ingresses : {W : Type 0} → Option Str → Reconciler W → List IngressRecord
find_ingresses none s = map (λ (e : Str × IngressRecord). e.1) s.ingress_records
find_ingresses (some name) s = as_list (Dict.get name s.ingress_records)

module _ {W : Type 0} (site : Site W) where
  abbrev pub find_jails : Option Str → ℕ → Reconciler W → Reconciler W × List JailStatus
  find_jails none now s = list site now s
  find_jails (some name) now s = let (t, found) = get site name now s in (t, as_list found)

  unfoldable pub list_now : Option Str → Reconciler W → Reconciler W × List JailStatus
  list_now name s =
      let (w, now) = site.instant s.node in find_jails name now (record s { node = w })

module _ (F : Type 0) {W : Type 0} ⦃float : Float F⦄ (site : Site W) where
  -- `reconciler.reconcile(Instant::now())`
  unfoldable pub reconcile_now : Reconciler W → Option (Reconciler W × List (Str × ReconcileError))
  reconcile_now s =
      let (w, now) = site.instant s.node in reconcile F site now (record s { node = w })

  -- an operation, and a pass right after it
  unfoldable pub then_reconcile :
      Server W
      → Reconciler W × Result (Unit {0}) ReconcileError
      → Option (Server W × Result (Unit {0}) ReconcileError)
  unfolding reconcile_now
  then_reconcile s (r, result) =
      Option.map (λ (after, failures). (record s { reconciler = after }, result)) (reconcile_now r)

  unfoldable pub handle : Command → Server W → Option (Server W × Reply F)
  unfolding after_apply then_reconcile reconcile_now list_now
  handle (apply_jail spec) s =
      Option.map (λ out. reply_with reconciled (after_apply spec out))
        (then_reconcile s (apply F site spec s.reconciler))
  handle (delete_jail name) s =
      Option.map (reply_with reconciled) (then_reconcile s (delete site name s.reconciler))
  handle (get_jails name) s = answer statuses s (list_now site name)
  handle tick s =
      Option.map (λ (after, failures). (record s { reconciler = after }, done))
        (reconcile_now s.reconciler)
  handle committed_resources_of_all s =
      Option.map (λ (cpu, mem). (s, resources cpu mem)) (committed_resources s.reconciler)
  handle (add_route_to subnet gateway_addr) s =
      answer networked s (add_route site subnet gateway_addr)
  handle (remove_route_to subnet) s = answer networked s (remove_route site subnet)
  handle (add_service_alias bridge address) s = answer networked s (add_alias site bridge address)
  handle (remove_service_alias bridge address) s =
      answer networked s (remove_alias site bridge address)
  handle (get_volume_named name) s = answer reconciled s (get_volume site name)
  handle (delete_volume_named name) s = answer reconciled s (delete_volume site name)
  handle (retarget_replication name replicate_to) s =
      answer reconciled s (set_replicate_to site name replicate_to)
  handle resume_replication_loops s =
      let (t, found) = with_reconciler s (list_now site none s.reconciler) in
      some (resume_each found t, done)
  handle (apply_ingress_spec spec) s =
      Option.map (reply_with reconciled) (then_reconcile s (apply_ingress site spec s.reconciler))
  handle (get_ingresses name) s = some (s, ingresses (find_ingresses name s.reconciler))
  handle (delete_ingress_named name) s =
      Option.map (reply_with reconciled) (then_reconcile s (delete_ingress site name s.reconciler))
