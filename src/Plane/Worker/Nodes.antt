-- ===== src/Plane/Worker/Nodes.antt =====
-- keel-controlplane/src/worker.rs: where a jail runs, or where it can.
use kubsd.Base.{ℕ, List, map, filter, Option, none, some, Result, ok, err, ◌>>=◌, map_err}
use kubsd.Base.Dict
use kubsd.Base.Str.{Str}
use kubsd.Extern.{Float, Ipnet}
use kubsd.Plane.Bookkeeping.{Placements}
use kubsd.Plane.Registry.{Registry, NodeStatus, is_alive, list, resolve, ResolveError}
use kubsd.Plane.Scheduler.{NodeResources, pick_node}
use kubsd.Plane.Worker.Types.{
  ScheduleOrResolveError, schedule_failed, resolve_failed, PlacementError, not_placed,
  placement_unresolved,
}

abbrev pub resources_of : {F : Type 0} → NodeStatus F → NodeResources F
resources_of s = record {
  id = s.id;
  capacity_cpu = s.capacity_cpu;
  capacity_memory = s.capacity_memory;
  committed_cpu = s.committed_cpu;
  committed_memory = s.committed_memory;
}

module _ {Net F : Type 0} where
  -- the address that a node's name resolves to, beside the name
  abbrev pub with_addr :
      {E : Type 0} → Registry Net F → ℕ → (ResolveError → E) → Str → Result (Str × Str) E
  with_addr registry now wrap node_id =
      map_err wrap (resolve registry node_id now) >>= λ addr. ok (node_id, addr)

  abbrev pub resolve_placed :
      Registry Net F → ℕ → Str → Option Str → Result (Str × Str) PlacementError
  resolve_placed registry now jail_name none = err (not_placed jail_name)
  resolve_placed registry now jail_name (some node_id) =
      with_addr registry now placement_unresolved node_id

  -- `Command::ResolvePlacement`
  unfoldable pub resolve_placement :
      Registry Net F → Placements → ℕ → Str → Result (Str × Str) PlacementError
  resolve_placement registry placements now jail_name =
      resolve_placed registry now jail_name (Dict.get jail_name placements)

module _ {Net F : Type 0} ⦃ip : Ipnet Net⦄ where
  -- the nodes that are alive, as the scheduler reads them
  unfoldable pub alive_nodes : Registry Net F → ℕ → List (NodeResources F)
  alive_nodes registry now = map resources_of (filter (λ s. is_alive s.status) (list registry now))

module _ {Net F : Type 0} ⦃ip : Ipnet Net⦄ ⦃fl : Float F⦄ where
  abbrev pub resolve_or_pick :
      Registry Net F → ℕ → Option Str → Result (Str × Str) ScheduleOrResolveError
  resolve_or_pick registry now (some node_id) = with_addr registry now resolve_failed node_id
  resolve_or_pick registry now none =
      map_err schedule_failed (pick_node (alive_nodes registry now))
      >>= with_addr registry now resolve_failed

  -- `Command::ResolveOrSchedule`
  unfoldable pub resolve_or_schedule :
      Registry Net F → Placements → ℕ → Str → Result (Str × Str) ScheduleOrResolveError
  unfolding alive_nodes
  resolve_or_schedule registry placements now jail_name =
      resolve_or_pick registry now (Dict.get jail_name placements)
