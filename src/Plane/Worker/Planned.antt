-- ===== src/Plane/Worker/Planned.antt =====
-- keel-controlplane/src/worker.rs: what `Command::ReconcileServices` plans for each replica.
use kubsd.Base.{
  ℕ, ◌≡◌, ◌≢◌, refl, sym, ap, ◌∙◌, Bool, true, false, not, List, [], ◌∷◌, ◌++◌, filter_map, Option,
  none, some, ok, and_then-eq-some, map-eq-some, to_option, to_option-eq-some, All, All-append,
  All-each, Occurs-filter_map, inl, inr, not-true, Bool-cases, some_inj,
}
use mathlib.Core.Path.{subst}
use mathlib.Core.Option
use kubsd.Base.Dict
use kubsd.Base.Dict.{Dict}
use kubsd.Base.Str.{Str, str_eq, ne_of_str_eq}
use kubsd.Extern.{Float, Ipnet}
use kubsd.Plane.Addresses.{UsedAddresses, is_used, record_address, first_free_address}
use kubsd.Plane.Addresses.Free.{first_free_address-unused}
use kubsd.Plane.Bookkeeping.{Placements}
use kubsd.Plane.Registry
use kubsd.Plane.Registry.{Registry, resolve, replicate_addr}
use kubsd.Plane.Scheduler.{NodeResources}
use kubsd.Plane.Services.{
  Services, ServiceRecord, replica_name, list_services, diff_replicas, nodes_hosting_service,
  pick_node_for_service,
}
use kubsd.Plane.Worker.Types.{Schedule, TearDown, ReplicaAction, schedule, tear_down}
use kubsd.Plane.Worker.Nodes.{alive_nodes}
use kubsd.Plane.Worker.Reconcile.{
  Pass, is_stateless, option_filter, choose_standby, scheduled_replica, add_replica, after,
  with_action, add_replicas, removed_replica, reconcile_service, reconcile_list, reconcile_services,
  present_indices, placed_replicas,
}

-- The addresses in use after the actions that schedule a replica.
abbrev pub ended : UsedAddresses → List ReplicaAction → UsedAddresses
ended w [] = w
ended w (schedule a ∷ rest) = ended (record_address w a.replica_name a.node_id a.address) rest
ended w (tear_down t ∷ rest) = ended w rest

-- Every action that schedules a replica has an address that is not in use on its node then.
abbrev pub IsPlanned : UsedAddresses → List ReplicaAction → Type 0
IsPlanned w [] = Unit
IsPlanned w (schedule a ∷ rest) =
    (is_used w a.node_id a.address ≡ false)
    × IsPlanned (record_address w a.replica_name a.node_id a.address) rest
IsPlanned w (tear_down t ∷ rest) = IsPlanned w rest

pub IsPlanned-append :
    (w : UsedAddresses) (xs ys : List ReplicaAction)
    → IsPlanned w xs
    → IsPlanned (ended w xs) ys
    → IsPlanned w (xs ++ ys)
IsPlanned-append w [] ys h k = k
IsPlanned-append w (schedule a ∷ xs) ys h k =
    (h.0, IsPlanned-append (record_address w a.replica_name a.node_id a.address) xs ys h.1 k)
IsPlanned-append w (tear_down t ∷ xs) ys h k = IsPlanned-append w xs ys h k

pub ended-append :
    (w : UsedAddresses) (xs ys : List ReplicaAction) → ended w (xs ++ ys) ≡ ended (ended w xs) ys
ended-append w [] ys = refl
ended-append w (schedule a ∷ xs) ys =
    ended-append (record_address w a.replica_name a.node_id a.address) xs ys
ended-append w (tear_down t ∷ xs) ys = ended-append w xs ys

pub option_filter-eq-some :
    {A : Type 0} (p : A → Bool) (o : Option A) {a : A}
    → option_filter p o ≡ some a
    → (o ≡ some a) × (p a ≡ true)
option_filter-eq-some p none h = cc
option_filter-eq-some p (some b) {a} h = elim (Bool-cases (p b)) [
  | inl t ↦ let e : b ≡ a = some_inj (rw t at h) in (ap some e, rw (sym e) t)
  | inr f ↦ cc (rw f at h)
]

module _ {Net F : Type 0} ⦃ip : Ipnet Net⦄ ⦃fl : Float F⦄ (registry : Registry Net F)
    (now : ℕ) where
  -- The replica's node resolves to the address the action is sent to, the prefix length is that of
  -- the node's block, and a standby is another node, with its replication address.
  pub record IsPlaceable (a : Schedule) : Type 0 where
    pub reachable : resolve registry a.node_id now ≡ ok a.node_addr
    pub prefixed :
        (net : Net) × (Registry.pod_cidr registry a.node_id ≡ some net)
        × (ip.prefix_len net ≡ a.prefix_len)
    pub standby_apart :
        (id : Str)
        → a.standby_node_id ≡ some id
        → (id ≢ a.node_id)
          × ((addr : Str) × (a.standby_addr ≡ some addr) × (replicate_addr registry id ≡ some addr))

  -- what is planned is sent to a node that resolves
  abbrev pub IsDirected : ReplicaAction → Type 0
  IsDirected (schedule a) = IsPlaceable a
  IsDirected (tear_down t) = resolve registry t.node_id now ≡ ok t.node_addr

  choose_standby-apart :
      (r : ServiceRecord) (nodes : List (NodeResources F)) (busy : List Str) (node_id : Str)
      (s : Str × Str)
      → choose_standby r registry nodes busy node_id ≡ some s
      → (s.0 ≢ node_id) × (replicate_addr registry s.0 ≡ some s.1)
  unfolding choose_standby
  choose_standby-apart r nodes busy node_id s h = elim (Bool-cases (is_stateless r)) [
    | inl t ↦ cc (rw t at h)
    | inr f ↦
        let (id, p, q) =
          and_then-eq-some
            (option_filter (λ s. not (str_eq s node_id))
              (to_option (pick_node_for_service nodes busy)))
            (λ standby_id.
              Option.map (λ addr. (standby_id, addr)) (replicate_addr registry standby_id))
            (rw f at h) in
        let (addr, u, v) = map-eq-some (λ addr. (id, addr)) (replicate_addr registry id) q in
        let (c, d) =
          option_filter-eq-some (λ s. not (str_eq s node_id))
            (to_option (pick_node_for_service nodes busy)) p in
        let e : id ≢ node_id = ne_of_str_eq id node_id (not-true (str_eq id node_id) d) in
        subst (λ t. (t.0 ≢ node_id) × (replicate_addr registry t.0 ≡ some t.1)) v (e, u)
  ]

  standby_of :
      (r : ServiceRecord) (nodes : List (NodeResources F)) (busy : List Str) (node_id id : Str)
      → Option.map (λ (s : Str × Str). s.0) (choose_standby r registry nodes busy node_id) ≡ some id
      → (id ≢ node_id)
        × ((addr : Str) × (Option.map
                (λ (s : Str × Str). s.1)
                (choose_standby r registry nodes busy node_id)
              ≡ some addr)
            × (replicate_addr registry id ≡ some addr))
  standby_of r nodes busy node_id id k =
      let (s, p, q) =
        map-eq-some (λ (s : Str × Str). s.0) (choose_standby r registry nodes busy node_id) k in
      let (u, v) = choose_standby-apart r nodes busy node_id s p in
      subst
        (λ t.
          (t ≢ node_id)
          × ((addr : Str) × (Option.map (λ (s : Str × Str). s.1)
                  (choose_standby r registry nodes busy node_id)
                ≡ some addr)
              × (replicate_addr registry t ≡ some addr)))
        q (u, (s.1, rw p refl, v))

  -- a round that plans an action: for which replica, with which address and node, and what it leaves
  add_replica-eq-some :
      (service_name : Str) (r : ServiceRecord) (nodes : List (NodeResources F)) (pass next : Pass)
      (idx : ℕ) (action : ReplicaAction)
      → add_replica service_name r registry now nodes pass idx ≡ some (action, next)
      → (a : Schedule) × (action ≡ schedule a)
        × IsPlaceable a
        × (is_used pass.working_used a.node_id a.address ≡ false)
        × (next.working_used ≡ record_address pass.working_used a.replica_name a.node_id a.address)
  unfolding add_replica
  add_replica-eq-some service_name r nodes pass next idx action h =
      let (node_id, p, h1) =
        and_then-eq-some (to_option (pick_node_for_service nodes pass.busy)) _ h in
      let (net, q, h2) = and_then-eq-some (Registry.pod_cidr registry node_id) _ h1 in
      let (address, u, h3) =
        and_then-eq-some (first_free_address net node_id pass.working_used) _ h2 in
      let (node_addr, v, e) = map-eq-some _ (to_option (resolve registry node_id now)) h3 in
      let a =
        scheduled_replica (replica_name service_name idx) r registry nodes pass node_id net address
          node_addr in
      let good : IsPlaceable a = record {
        reachable = to_option-eq-some (resolve registry node_id now) v;
        prefixed = (net, q, refl);
        standby_apart = λ id k. standby_of r nodes (node_id ∷ pass.busy) node_id id k;
      } in
      subst
        (λ t.
          (b : Schedule) × (t.0 ≡ schedule b)
          × IsPlaceable b
          × (is_used pass.working_used b.node_id b.address ≡ false)
          × (t.1.working_used
              ≡ record_address pass.working_used b.replica_name b.node_id b.address))
        e (a, refl, good, first_free_address-unused net node_id pass.working_used address u, refl)

  -- what one round adds to the plan
  abbrev pub Planned : UsedAddresses → List ReplicaAction → UsedAddresses → Type 0
  Planned w actions w' = IsPlanned w actions × All IsDirected actions × (w' ≡ ended w actions)

  add_one :
      (service_name : Str) (r : ServiceRecord) (nodes : List (NodeResources F)) (pass : Pass)
      (idx : ℕ) (o : Option (ReplicaAction × Pass)) (rest : List ReplicaAction) (w : UsedAddresses)
      → add_replica service_name r registry now nodes pass idx ≡ o
      → Planned (after pass o).working_used rest w
      → Planned pass.working_used (with_action o rest) w
  add_one service_name r nodes pass idx none rest w h k = k
  add_one service_name r nodes pass idx (some (action, next)) rest w h (p, d, e) =
      let (a, q, good, unused, u) =
        add_replica-eq-some service_name r nodes pass next idx action h in
      let k : Planned (record_address pass.working_used a.replica_name a.node_id a.address) rest w =
        subst (λ t. Planned t rest w) u (p, d, e) in
      subst (λ t. Planned pass.working_used (t ∷ rest) w) (sym q) ((unused, k.0), (good, k.1), k.2)

  add_replicas-Planned :
      (service_name : Str) (r : ServiceRecord) (nodes : List (NodeResources F)) (pass : Pass)
      (to_add : List ℕ)
      → Planned pass.working_used
          (add_replicas service_name r registry now nodes pass to_add).0
          (add_replicas service_name r registry now nodes pass to_add).1.working_used
  unfolding add_replicas
  add_replicas-Planned service_name r nodes pass [] = (tt, tt, refl)
  add_replicas-Planned service_name r nodes pass (idx ∷ to_add) =
      let round = add_replica service_name r registry now nodes pass idx in
      let rest = add_replicas service_name r registry now nodes (after pass round) to_add in
      add_one service_name r nodes pass idx round rest.0 rest.1.working_used refl
        (add_replicas-Planned service_name r nodes (after pass round) to_add)

  Planned-append :
      (w w' w'' : UsedAddresses) (xs ys : List ReplicaAction)
      → Planned w xs w'
      → Planned w' ys w''
      → Planned w (xs ++ ys) w''
  Planned-append w w' w'' xs ys (p, d, e) k =
      let (q, c, f) = subst (λ t. Planned t ys w'') e k in
      (
        IsPlanned-append w xs ys p q,
        All-append IsDirected xs ys d c,
        f ∙ sym (ended-append w xs ys),
      )

  -- what is torn down leaves the plan's addresses as they are
  Planned-tear_down :
      (w : UsedAddresses) (xs : List ReplicaAction)
      → All (λ x. (t : TearDown) × (x ≡ tear_down t) × IsDirected x) xs
      → Planned w xs w
  Planned-tear_down w [] h = (tt, tt, refl)
  Planned-tear_down w (x ∷ xs) ((t, e, d), h) =
      let (p, c, f) = Planned-tear_down w xs h in
      subst (λ y. Planned w (y ∷ xs) w) (sym e) (p, (subst IsDirected e d, c), f)

  module _ (placements : Placements) where
    removed_replica-IsDirected :
        (service_name : Str) (idx : ℕ) (x : ReplicaAction)
        → removed_replica service_name placements registry now idx ≡ some x
        → (t : TearDown) × (x ≡ tear_down t) × IsDirected x
    removed_replica-IsDirected service_name idx x h =
        let (node_id, p, k) =
          and_then-eq-some (Dict.get (replica_name service_name idx) placements) _ h in
        let (addr, q, e) = map-eq-some _ (to_option (resolve registry node_id now)) k in
        (
          record {
            replica_name = replica_name service_name idx;
            node_id = node_id;
            node_addr = addr;
          },
          sym e,
          subst IsDirected e (to_option-eq-some (resolve registry node_id now) q),
        )

    All-removed :
        (service_name : Str) (idxs : List ℕ)
        → All
            (λ x. (t : TearDown) × (x ≡ tear_down t) × IsDirected x)
            (filter_map (removed_replica service_name placements registry now) idxs)
    All-removed service_name idxs =
        All-each (λ x. (t : TearDown) × (x ≡ tear_down t) × IsDirected x)
          (filter_map (removed_replica service_name placements registry now) idxs)
          (λ x o.
            let (idx, p, e) =
              Occurs-filter_map (removed_replica service_name placements registry now) idxs x o in
            removed_replica-IsDirected service_name idx x e)

    reconcile_service-Planned :
        (nodes : List (NodeResources F)) (w : UsedAddresses) (entry : Str × ServiceRecord)
        → Planned w
            (reconcile_service placements registry now nodes w entry).0
            (reconcile_service placements registry now nodes w entry).1
    unfolding reconcile_service
    reconcile_service-Planned nodes w (service_name, r) =
        let diff =
          diff_replicas r.desired_replicas
            (present_indices r registry now (placed_replicas service_name placements)) in
        let pass : Pass = record {
          working_used = w;
          busy = nodes_hosting_service service_name placements;
        } in
        let added = add_replicas service_name r registry now nodes pass diff.0 in
        let removed = filter_map (removed_replica service_name placements registry now) diff.1 in
        Planned-append w added.1.working_used added.1.working_used added.0 removed
          (add_replicas-Planned service_name r nodes pass diff.0)
          (Planned-tear_down added.1.working_used removed (All-removed service_name diff.1))

    reconcile_list-Planned :
        (nodes : List (NodeResources F)) (w : UsedAddresses) (services : Dict ServiceRecord)
        → IsPlanned w (reconcile_list placements registry now nodes w services)
          × All IsDirected (reconcile_list placements registry now nodes w services)
    unfolding reconcile_list
    reconcile_list-Planned nodes w [] = (tt, tt)
    reconcile_list-Planned nodes w (entry ∷ services) =
        let one = reconcile_service placements registry now nodes w entry in
        let rest = reconcile_list placements registry now nodes one.1 services in
        let (p, d, e) = reconcile_service-Planned nodes w entry in
        let (q, c) = reconcile_list-Planned nodes one.1 services in
        (
          IsPlanned-append w one.0 rest p (subst (λ t. IsPlanned t rest) e q),
          All-append IsDirected one.0 rest d c,
        )

    -- Every action of a reconciliation is sent to the address that its node resolves to. A replica is
    -- scheduled on a node with a block, at an address that is not in use on the node when the actions
    -- before it are counted, with the block's prefix length, and a standby is another node with its
    -- replication address.
    pub reconcile_services-IsPlanned :
        (services : Services Net) (used_addresses : UsedAddresses)
        → IsPlanned used_addresses
            (reconcile_services services placements registry used_addresses now)
          × All IsDirected (reconcile_services services placements registry used_addresses now)
    unfolding reconcile_services
    reconcile_services-IsPlanned services used_addresses =
        reconcile_list-Planned (alive_nodes registry now) used_addresses (list_services services)
