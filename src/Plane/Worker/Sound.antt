-- ===== src/Plane/Worker/Sound.antt =====
-- keel-controlplane/src/worker.rs: the invariant of the worker's state, and that the worker never
-- panics.
use kubsd.Base.{and_then, ℕ, ◌≤◌, ◌<◌, ◌≡◌, refl, List, [], ◌∷◌, Option, some}
use kubsd.Base.Dict
use kubsd.Base.Dict.{Distinct, Distinct-insert, Distinct-remove, get-remove}
use kubsd.Base.Str.{Str}
use kubsd.Extern.{Float, Ipnet}
use kubsd.Plane.Addresses.Consistent.{
  IsConsistent, empty-IsConsistent, release-IsConsistent, record_address-IsConsistent,
}
use kubsd.Plane.Bookkeeping.{Placements, Standbys, PendingFences}
use kubsd.Plane.Addresses.{UsedAddresses}
use kubsd.Plane.Registry.{Registry, heartbeat}
use kubsd.Plane.Registry.Unique.{IsUnique, new_registry-IsUnique, heartbeat-IsUnique}
use kubsd.Plane.Services.{Services}
use kubsd.Plane.Services.Vips.{IsAllocated, new_services-IsAllocated}
use kubsd.Plane.Worker.Replicas.{delete_service}
use kubsd.Plane.Worker.Steps.{register_sound, heartbeat_cluster, delete_sound, apply_service_sound}
use kubsd.Plane.Worker.Handle.{
  State, Command, Reply, registered, applied, handle, initial, register, heartbeat_of, list_nodes,
  resolve_node, resolve_or_schedule_jail, resolve_placement_of, record_placement, remove_placement,
  owner_of_jail, apply_service_to, reconcile, discover, list_summaries, list_proxy_entries,
  delete_service_of, record_replica_address, release_replica_address, record_standby,
  record_pending_fence, pending_fences_for_node, remove_pending_fence, prepare_repin,
}

module _ {Net F : Type 0} ⦃ip : Ipnet Net⦄ ⦃fl : Float F⦄ where
  open ip use {prefix_len}

  pub record IsSound (s : State Net F) : Type 0 where
    pub registry : IsUnique s.registry
    pub services : IsAllocated s.services
    pub used_addresses : IsConsistent s.used_addresses
    pub placements : Distinct s.placements
    pub standbys : Distinct s.standbys
    pub pending_fences : Distinct s.pending_fences
    pub cluster_size : prefix_len s.registry.cluster_cidr ≤ 24
    pub service_size : 0 < prefix_len s.services.service_cidr

  -- An address is recorded only for the jail that has it, or when no jail has it.
  abbrev pub Allowed : State Net F → Command F → Type 0
  Allowed s (record_replica_address jail_name node_id address) =
      (k : Str) → Dict.get k s.used_addresses.by_jail ≡ some (node_id, address) → k ≡ jail_name
  Allowed s c = Unit

  pub initial-IsSound :
      (cluster_cidr service_cidr : Net)
      → prefix_len cluster_cidr ≤ 24
      → 0 < prefix_len service_cidr
      → IsSound (initial cluster_cidr service_cidr)
  initial-IsSound cluster_cidr service_cidr h k = record {
    registry = new_registry-IsUnique cluster_cidr;
    services = new_services-IsAllocated service_cidr;
    used_addresses = empty-IsConsistent;
    placements = tt;
    standbys = tt;
    pending_fences = tt;
    cluster_size = h;
    service_size = k;
  }

  -- the invariant when one part of the state changes
  pub with_registry :
      (s : State Net F) (x : Registry Net F)
      → IsSound s
      → IsUnique x
      → prefix_len x.cluster_cidr ≤ 24
      → IsSound (record s { registry = x })
  with_registry s x i u h = record {
    registry = u;
    services = i.services;
    used_addresses = i.used_addresses;
    placements = i.placements;
    standbys = i.standbys;
    pending_fences = i.pending_fences;
    cluster_size = h;
    service_size = i.service_size;
  }

  pub with_services :
      (s : State Net F) (x : Services Net)
      → IsSound s
      → IsAllocated x
      → 0 < prefix_len x.service_cidr
      → IsSound (record s { services = x })
  with_services s x i u h = record {
    registry = i.registry;
    services = u;
    used_addresses = i.used_addresses;
    placements = i.placements;
    standbys = i.standbys;
    pending_fences = i.pending_fences;
    cluster_size = i.cluster_size;
    service_size = h;
  }

  pub with_used_addresses :
      (s : State Net F) (x : UsedAddresses)
      → IsSound s
      → IsConsistent x
      → IsSound (record s { used_addresses = x })
  with_used_addresses s x i u = record {
    registry = i.registry;
    services = i.services;
    used_addresses = u;
    placements = i.placements;
    standbys = i.standbys;
    pending_fences = i.pending_fences;
    cluster_size = i.cluster_size;
    service_size = i.service_size;
  }

  pub with_placements :
      (s : State Net F) (x : Placements)
      → IsSound s
      → Distinct x
      → IsSound (record s { placements = x })
  with_placements s x i u = record {
    registry = i.registry;
    services = i.services;
    used_addresses = i.used_addresses;
    placements = u;
    standbys = i.standbys;
    pending_fences = i.pending_fences;
    cluster_size = i.cluster_size;
    service_size = i.service_size;
  }

  pub with_standbys :
      (s : State Net F) (x : Standbys)
      → IsSound s
      → Distinct x
      → IsSound (record s { standbys = x })
  with_standbys s x i u = record {
    registry = i.registry;
    services = i.services;
    used_addresses = i.used_addresses;
    placements = i.placements;
    standbys = u;
    pending_fences = i.pending_fences;
    cluster_size = i.cluster_size;
    service_size = i.service_size;
  }

  pub with_pending_fences :
      (s : State Net F) (x : PendingFences)
      → IsSound s
      → Distinct x
      → IsSound (record s { pending_fences = x })
  with_pending_fences s x i u = record {
    registry = i.registry;
    services = i.services;
    used_addresses = i.used_addresses;
    placements = i.placements;
    standbys = i.standbys;
    pending_fences = u;
    cluster_size = i.cluster_size;
    service_size = i.service_size;
  }

  -- In a state with the invariant the worker handles every allowed command without a panic, and the
  -- invariant holds afterwards.
  pub handle-IsSound :
      (s : State Net F) (now : ℕ) (c : Command F)
      → IsSound s
      → Allowed s c
      → (out : State Net F × Reply Net F) × (handle s now c ≡ some out) × IsSound out.0
  unfolding handle
  handle-IsSound s now (register id addr replicate_addr cpu memory) i a =
      let (out, e, u, h) =
        register_sound s.registry id addr replicate_addr cpu memory now i.cluster_size i.registry in
      ((record s { registry = out.0 }, registered out.1), rw e refl, with_registry s out.0 i u h)
  handle-IsSound s now (heartbeat_of id cpu memory jails) i a = (
    _,
    refl,
    with_registry s (heartbeat s.registry id cpu memory jails now).0 i
        (heartbeat-IsUnique s.registry id cpu memory jails now i.registry)
        (heartbeat_cluster s.registry id cpu memory jails now i.cluster_size),
  )
  handle-IsSound s now list_nodes i a = (_, refl, i)
  handle-IsSound s now (resolve_node id) i a = (_, refl, i)
  handle-IsSound s now (resolve_or_schedule_jail jail_name) i a = (_, refl, i)
  handle-IsSound s now (resolve_placement_of jail_name) i a = (_, refl, i)
  handle-IsSound s now (record_placement jail_name node_id) i a =
      (_, refl, with_placements s _ i (Distinct-insert jail_name node_id s.placements i.placements))
  handle-IsSound s now (remove_placement jail_name) i a =
      (_, refl, with_placements s _ i (Distinct-remove jail_name s.placements i.placements))
  handle-IsSound s now (owner_of_jail name) i a = (_, refl, i)
  handle-IsSound s now (apply_service_to name replicas template port) i a =
      let (out, e, u, h) =
        apply_service_sound s.services name replicas template port s.placements i.service_size
          i.services in
      ((record s { services = out.0 }, applied out.1), rw e refl, with_services s out.0 i u h)
  handle-IsSound s now reconcile i a = (_, refl, i)
  handle-IsSound s now (discover name) i a = (_, refl, i)
  handle-IsSound s now list_summaries i a = (_, refl, i)
  handle-IsSound s now list_proxy_entries i a = (_, refl, i)
  handle-IsSound s now (delete_service_of name) i a =
      let (u, h) =
        delete_sound name s.services s.placements s.registry now i.service_size i.services in
      (
        _,
        refl,
        with_services s (delete_service name s.services s.placements s.registry now).0 i u h,
      )
  handle-IsSound s now (record_replica_address jail_name node_id address) i a = (
    _,
    refl,
    with_used_addresses s _ i
        (record_address-IsConsistent s.used_addresses jail_name node_id address i.used_addresses a),
  )
  handle-IsSound s now (release_replica_address jail_name) i a = (
    _,
    refl,
    with_used_addresses s _ i (release-IsConsistent s.used_addresses jail_name i.used_addresses),
  )
  handle-IsSound s now (record_standby replica_name node_id) i a =
      (_, refl, with_standbys s _ i (Distinct-insert replica_name node_id s.standbys i.standbys))
  handle-IsSound s now (record_pending_fence replica_name node_id) i a = (
    _,
    refl,
    with_pending_fences s _ i
        (Distinct-insert replica_name node_id s.pending_fences i.pending_fences),
  )
  handle-IsSound s now (pending_fences_for_node node_id) i a = (_, refl, i)
  handle-IsSound s now (remove_pending_fence replica_name) i a = (
    _,
    refl,
    with_pending_fences s _ i (Distinct-remove replica_name s.pending_fences i.pending_fences),
  )
  handle-IsSound s now (prepare_repin replica_name) i a = (_, refl, i)

  -- The worker's loop over the commands it receives, each with the instant at which it is handled;
  -- `none` is a panic.
  unfoldable pub run : State Net F → List (ℕ × Command F) → Option (State Net F)
  run s [] = some s
  run s ((now, c) ∷ rest) = and_then (handle s now c) (λ out. run out.0 rest)

  -- Every command is allowed in the state in which it is handled.
  abbrev pub AllAllowed : State Net F → List (ℕ × Command F) → Type 0
  AllAllowed s [] = Unit
  AllAllowed s ((now, c) ∷ rest) =
      Allowed s c
      × ((out : State Net F × Reply Net F) → handle s now c ≡ some out → AllAllowed out.0 rest)

  from-IsSound :
      (s : State Net F) (cs : List (ℕ × Command F))
      → IsSound s
      → AllAllowed s cs
      → (t : State Net F) × (run s cs ≡ some t) × IsSound t
  unfolding run
  from-IsSound s [] i a = (s, refl, i)
  from-IsSound s ((now, c) ∷ rest) i a =
      let (out, e, j) = handle-IsSound s now c i a.0 in
      let (t, f, k) = from-IsSound out.0 rest j (a.1 out e) in (t, rw (e, f), k)

  -- From the state in which the control plane starts, with a cluster network of prefix length at most
  -- 24 and a service network that is not the whole address space, every sequence of allowed commands
  -- is handled without a panic, and the invariant holds at its end.
  pub run-IsSound :
      (cluster_cidr service_cidr : Net) (cs : List (ℕ × Command F))
      → prefix_len cluster_cidr ≤ 24
      → 0 < prefix_len service_cidr
      → AllAllowed (initial cluster_cidr service_cidr) cs
      → (t : State Net F) × (run (initial cluster_cidr service_cidr) cs ≡ some t) × IsSound t
  run-IsSound cluster_cidr service_cidr cs h k a =
      from-IsSound (initial cluster_cidr service_cidr) cs
        (initial-IsSound cluster_cidr service_cidr h k) a
