-- ===== src/Plane/Worker/Reconcile.antt =====
-- keel-controlplane/src/worker.rs: `Command::ReconcileServices`.
use kubsd.Base.{
  ℕ, Bool, not, List, [], ◌∷◌, ◌++◌, map, filter, filter_map, Option, none, some, and_then, is_ok,
  to_option, is_empty, ltb, ◌==◌, if◌then◌else◌,
}
use mathlib.Core.Option
use kubsd.Base.Dict
use kubsd.Base.Dict.{Dict}
use kubsd.Base.Str.{Str, str_eq}
use kubsd.Extern.{Float, Ipnet}
use kubsd.Plane.Addresses.{UsedAddresses, record_address, first_free_address}
use kubsd.Plane.Bookkeeping.{Placements}
use kubsd.Plane.Registry.{Registry, resolve, replicate_addr}
use kubsd.Plane.Registry
use kubsd.Plane.Scheduler.{NodeResources}
use kubsd.Plane.Services.{
  Services, ServiceRecord, replica_name, replica_index, list_services, diff_replicas,
  nodes_hosting_service, pick_node_for_service,
}
use kubsd.Plane.Worker.Types.{Schedule, ReplicaAction, schedule, tear_down}
use kubsd.Plane.Worker.Nodes.{alive_nodes}

-- `BTreeSet<u32>`: a list in increasing order
abbrev pub btree_insert : ℕ → List ℕ → List ℕ
btree_insert a [] = a ∷ []
btree_insert a (x ∷ xs) =
    let rest = btree_insert a xs in
    if a == x then x ∷ xs else if ltb a x then a ∷ x ∷ xs else x ∷ rest

abbrev pub btree_set : List ℕ → List ℕ
btree_set [] = []
btree_set (x ∷ xs) = btree_insert x (btree_set xs)

-- the replicas of a service that are placed: index, name and node
unfoldable pub placed_replicas : Str → Placements → List (ℕ × Str × Str)
placed_replicas service_name placements =
    filter_map (λ e. Option.map (λ idx. (idx, e.0, e.1)) (replica_index service_name e.0))
      placements

abbrev pub is_stateless : ServiceRecord → Bool
is_stateless r = is_empty r.template.volumes

-- `.ok().filter(..)`
abbrev pub option_filter : {A : Type 0} → (A → Bool) → Option A → Option A
option_filter p none = none
option_filter p (some a) = if p a then some a else none

-- What the loop over the missing replicas changes: `working_used` and `busy`.
pub record Pass : Type 0 where
  pub working_used : UsedAddresses
  pub busy : List Str

-- the loop goes on with what a round has changed
abbrev pub after : Pass → Option (ReplicaAction × Pass) → Pass
after pass none = pass
after pass (some (action, next)) = next

abbrev pub with_action :
    {A : Type 0} → Option (ReplicaAction × A) → List ReplicaAction → List ReplicaAction
with_action none actions = actions
with_action (some (action, next)) actions = action ∷ actions

module _ {Net F : Type 0} where
  -- A stateful replica is present wherever it is placed, a stateless one only on a node that
  -- resolves.
  unfoldable pub present_indices :
      ServiceRecord → Registry Net F → ℕ → List (ℕ × Str × Str) → List ℕ
  present_indices r registry now placed = btree_set (
      map (λ p. p.0)
        (if is_stateless r then filter (λ p. is_ok (resolve registry p.2 now)) placed else placed))

  -- the second loop: the replicas to tear down
  abbrev pub removed_replica : Str → Placements → Registry Net F → ℕ → ℕ → Option ReplicaAction
  removed_replica service_name placements registry now idx =
      let name = replica_name service_name idx in
      and_then (Dict.get name placements) (λ node_id.
        Option.map
          (λ node_addr.
            tear_down (record { replica_name = name; node_id = node_id; node_addr = node_addr }))
          (to_option (resolve registry node_id now)))

module _ {Net F : Type 0} ⦃ip : Ipnet Net⦄ ⦃fl : Float F⦄ where
  -- a stateful replica's standby, on another node than its own
  unfoldable pub choose_standby :
      ServiceRecord → Registry Net F → List (NodeResources F) → List Str → Str → Option (Str × Str)
  choose_standby r registry nodes busy node_id =
      if is_stateless r
      then none
      else and_then
          (option_filter (λ s. not (str_eq s node_id))
            (to_option (pick_node_for_service nodes busy)))
          (λ standby_id.
            Option.map (λ addr. (standby_id, addr)) (replicate_addr registry standby_id))

  abbrev pub scheduled_replica :
      Str
      → ServiceRecord
      → Registry Net F
      → List (NodeResources F)
      → Pass
      → Str
      → Net
      → ℕ
      → Str
      → Schedule
  scheduled_replica name r registry nodes pass node_id pod_cidr address node_addr =
      let standby = choose_standby r registry nodes (node_id ∷ pass.busy) node_id in
      record {
        replica_name = name;
        node_id = node_id;
        node_addr = node_addr;
        template = r.template;
        address = address;
        prefix_len = ip.prefix_len pod_cidr;
        standby_node_id = Option.map (λ s. s.0) standby;
        standby_addr = Option.map (λ s. s.1) standby;
      }

  abbrev pub schedule_at :
      Str
      → ServiceRecord
      → Registry Net F
      → List (NodeResources F)
      → Pass
      → Str
      → Net
      → ℕ
      → Str
      → ReplicaAction × Pass
  schedule_at name r registry nodes pass node_id pod_cidr address node_addr = (
    schedule (scheduled_replica name r registry nodes pass node_id pod_cidr address node_addr),
    record {
      working_used = record_address pass.working_used name node_id address;
      busy = node_id ∷ pass.busy;
    },
  )

  -- one round of the first loop; `none` is a `continue`
  unfoldable pub add_replica :
      Str
      → ServiceRecord
      → Registry Net F
      → ℕ
      → List (NodeResources F)
      → Pass
      → ℕ
      → Option (ReplicaAction × Pass)
  unfolding choose_standby
  add_replica service_name r registry now nodes pass idx =
      and_then (to_option (pick_node_for_service nodes pass.busy)) (λ node_id.
        and_then (Registry.pod_cidr registry node_id) (λ pod_cidr.
          and_then (first_free_address pod_cidr node_id pass.working_used) (λ address.
            Option.map
              (schedule_at (replica_name service_name idx) r registry nodes pass node_id pod_cidr
                address)
              (to_option (resolve registry node_id now)))))

  unfoldable pub add_replicas :
      Str
      → ServiceRecord
      → Registry Net F
      → ℕ
      → List (NodeResources F)
      → Pass
      → List ℕ
      → List ReplicaAction × Pass
  unfolding add_replica
  add_replicas service_name r registry now nodes pass [] = ([], pass)
  add_replicas service_name r registry now nodes pass (idx ∷ to_add) =
      let round = add_replica service_name r registry now nodes pass idx in
      let rest = add_replicas service_name r registry now nodes (after pass round) to_add in
      (with_action round rest.0, rest.1)

  -- one service: the actions, and the addresses that are then in use
  unfoldable pub reconcile_service :
      Placements
      → Registry Net F
      → ℕ
      → List (NodeResources F)
      → UsedAddresses
      → Str × ServiceRecord
      → List ReplicaAction × UsedAddresses
  unfolding add_replicas present_indices placed_replicas
  reconcile_service placements registry now nodes working_used (service_name, r) =
      let present = present_indices r registry now (placed_replicas service_name placements) in
      let diff = diff_replicas r.desired_replicas present in
      let pass : Pass = record {
        working_used = working_used;
        busy = nodes_hosting_service service_name placements;
      } in
      let added = add_replicas service_name r registry now nodes pass diff.0 in
      (
        added.0 ++ filter_map (removed_replica service_name placements registry now) diff.1,
        added.1.working_used,
      )

  unfoldable pub reconcile_list :
      Placements
      → Registry Net F
      → ℕ
      → List (NodeResources F)
      → UsedAddresses
      → Dict ServiceRecord
      → List ReplicaAction
  unfolding reconcile_service
  reconcile_list placements registry now nodes working_used [] = []
  reconcile_list placements registry now nodes working_used (entry ∷ services) =
      let one = reconcile_service placements registry now nodes working_used entry in
      one.0 ++ reconcile_list placements registry now nodes one.1 services

  -- `Command::ReconcileServices`
  unfoldable pub reconcile_services :
      Services Net → Placements → Registry Net F → UsedAddresses → ℕ → List ReplicaAction
  unfolding reconcile_list
  reconcile_services services placements registry used_addresses now =
      reconcile_list placements registry now (alive_nodes registry now) used_addresses
        (list_services services)
