-- ===== src/Plane/Worker/Handle.antt =====
-- keel-controlplane/src/worker.rs: the state that the thread owns, the commands without their reply
-- channels, the replies, and `handle_command`.
use kubsd.Base.{ℕ, List, [], Option, some, Result}
use mathlib.Core.Option
use kubsd.Base.Dict
use kubsd.Base.Str.{Str}
use kubsd.Extern.{Float, Ipnet}
use kubsd.Spec.Types.{JailTemplate}
use kubsd.Plane.Addresses.{UsedAddresses, record_address, release, empty}
use kubsd.Plane.Bookkeeping.{Placements, Standbys, PendingFences, for_node}
use kubsd.Plane.Registry
use kubsd.Plane.Registry.{
  Registry, PodCidrCollision, UnknownNode, ResolveError, JailHealth, NodeStatus, resolve, heartbeat,
  new_registry,
}
use kubsd.Plane.Services.{
  Services, Owner, ApplyServiceError, UnknownService, owner_of, new_services,
}
use kubsd.Plane.Worker.Types.{
  ScheduleOrResolveError, PlacementError, ForceRepinPrep, ForceRepinError, ReplicaAction,
  ServiceReplica, ServiceSummary, ServiceProxyEntry,
}
use kubsd.Plane.Worker.Nodes.{resolve_or_schedule, resolve_placement}
use kubsd.Plane.Worker.Replicas.{
  discover_service, service_summaries, service_proxy_entries, delete_service, apply_service,
}
use kubsd.Plane.Worker.Reconcile.{reconcile_services}
use kubsd.Plane.Worker.Repin.{prepare_force_repin}

pub record State (Net F : Type 0) : Type 0 where
  pub registry : Registry Net F
  pub placements : Placements
  pub services : Services Net
  pub used_addresses : UsedAddresses
  pub standbys : Standbys
  pub pending_fences : PendingFences

pub data Command (F : Type 0) : Type 0 where
  register : Str → Str → Option Str → F → ℕ → Command F
  heartbeat_of : Str → F → ℕ → List JailHealth → Command F
  list_nodes : Command F
  resolve_node : Str → Command F
  resolve_or_schedule_jail : Str → Command F
  resolve_placement_of : Str → Command F
  record_placement : Str → Str → Command F
  remove_placement : Str → Command F
  owner_of_jail : Str → Command F
  apply_service_to : Str → ℕ → JailTemplate → ℕ → Command F
  reconcile : Command F
  discover : Str → Command F
  list_summaries : Command F
  list_proxy_entries : Command F
  delete_service_of : Str → Command F
  record_replica_address : Str → Str → ℕ → Command F
  release_replica_address : Str → Command F
  record_standby : Str → Str → Command F
  record_pending_fence : Str → Str → Command F
  pending_fences_for_node : Str → Command F
  remove_pending_fence : Str → Command F
  prepare_repin : Str → Command F

pub data Reply (Net F : Type 0) : Type 0 where
  done : Reply Net F
  registered : Result Net PodCidrCollision → Reply Net F
  heard : Result (Unit {0}) UnknownNode → Reply Net F
  nodes : List (NodeStatus F) → Reply Net F
  resolved : Result Str ResolveError → Reply Net F
  scheduled : Result (Str × Str) ScheduleOrResolveError → Reply Net F
  placed : Result (Str × Str) PlacementError → Reply Net F
  owner : Option Owner → Reply Net F
  applied : Result (Unit {0}) ApplyServiceError → Reply Net F
  actions : List ReplicaAction → Reply Net F
  discovered : Result (List ServiceReplica) UnknownService → Reply Net F
  summaries : List ServiceSummary → Reply Net F
  proxy_entries : List ServiceProxyEntry → Reply Net F
  deleted : Result (List ReplicaAction) UnknownService → Reply Net F
  fences : List Str → Reply Net F
  prepared : Result ForceRepinPrep ForceRepinError → Reply Net F

module _ {Net F : Type 0} where
  -- the state that `spawn` is given when the control plane starts
  abbrev pub initial : Net → Net → State Net F
  initial cluster_cidr service_cidr = record {
    registry = new_registry cluster_cidr;
    placements = [];
    services = new_services service_cidr;
    used_addresses = empty;
    standbys = [];
    pending_fences = [];
  }

module _ {Net F : Type 0} ⦃ip : Ipnet Net⦄ ⦃fl : Float F⦄ where
  -- `handle_command` at the time `now`; `none` is a panic
  unfoldable pub handle : State Net F → ℕ → Command F → Option (State Net F × Reply Net F)
  handle s now (register id addr replicate_addr capacity_cpu capacity_memory) =
      Option.map (λ r. (record s { registry = r.0 }, registered r.1))
        (Registry.register fl.f_zero s.registry id addr replicate_addr capacity_cpu capacity_memory
          now)
  handle s now (heartbeat_of id committed_cpu committed_memory jails) =
      let r = heartbeat s.registry id committed_cpu committed_memory jails now in
      some (record s { registry = r.0 }, heard r.1)
  handle s now list_nodes = some (s, nodes (Registry.list s.registry now))
  handle s now (resolve_node id) = some (s, resolved (resolve s.registry id now))
  handle s now (resolve_or_schedule_jail jail_name) =
      some (s, scheduled (resolve_or_schedule s.registry s.placements now jail_name))
  handle s now (resolve_placement_of jail_name) =
      some (s, placed (resolve_placement s.registry s.placements now jail_name))
  handle s now (record_placement jail_name node_id) =
      some (record s { placements = Dict.insert jail_name node_id s.placements }, done)
  handle s now (remove_placement jail_name) =
      some (record s { placements = Dict.remove jail_name s.placements }, done)
  handle s now (owner_of_jail name) = some (s, owner (owner_of name s.placements s.services))
  handle s now (apply_service_to name replicas template port) =
      Option.map (λ r. (record s { services = r.0 }, applied r.1))
        (apply_service name replicas template port s.placements s.services)
  handle s now reconcile =
      some (s, actions (reconcile_services s.services s.placements s.registry s.used_addresses now))
  handle s now (discover name) = some (
    s,
    discovered (discover_service name s.services s.placements s.registry s.used_addresses now),
  )
  handle s now list_summaries = some (s, summaries (service_summaries s.services))
  handle s now list_proxy_entries = some (
    s,
    proxy_entries (service_proxy_entries s.services s.placements s.registry s.used_addresses now),
  )
  handle s now (delete_service_of name) =
      let r = delete_service name s.services s.placements s.registry now in
      some (record s { services = r.0 }, deleted r.1)
  handle s now (record_replica_address jail_name node_id address) = some (
    record s { used_addresses = record_address s.used_addresses jail_name node_id address },
    done,
  )
  handle s now (release_replica_address jail_name) =
      some (record s { used_addresses = release s.used_addresses jail_name }, done)
  handle s now (record_standby replica_name node_id) =
      some (record s { standbys = Dict.insert replica_name node_id s.standbys }, done)
  handle s now (record_pending_fence replica_name node_id) =
      some (record s { pending_fences = Dict.insert replica_name node_id s.pending_fences }, done)
  handle s now (pending_fences_for_node node_id) =
      some (s, fences (for_node s.pending_fences node_id))
  handle s now (remove_pending_fence replica_name) =
      some (record s { pending_fences = Dict.remove replica_name s.pending_fences }, done)
  handle s now (prepare_repin replica_name) = some (
    s,
    prepared (
        prepare_force_repin s.registry s.placements s.services s.used_addresses s.standbys now
          replica_name),
  )
