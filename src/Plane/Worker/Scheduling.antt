-- ===== src/Plane/Worker/Scheduling.antt =====
-- keel-controlplane/src/worker.rs: the nodes that the scheduler sees are those that resolve, so a
-- jail that is not placed goes to one of them.
use kubsd.Base.{
  ℕ, ◌≡◌, refl, ap, sym, ◌⊎◌, inl, inr, true, List, [], ◌∷◌, map, filter, none, Result, ok, err,
  All, All-Occurs, All-filter, filter-test, Occurs, Occurs-filter,
}
use mathlib.Core.Path.{subst}
use kubsd.Base.Dict
use kubsd.Base.Dict.{Distinct}
use kubsd.Base.Str.{Str}
use kubsd.Extern.{Float, Ipnet}
use kubsd.Plane.Bookkeeping.{Placements}
use kubsd.Plane.Registry.{Registry, NodeStatus, is_alive, list, resolve}
use kubsd.Plane.Registry.Alive.{Resolves, list-Resolves, resolve-listed}
use kubsd.Plane.Scheduler.{
  NodeResources, IsBest, pick_node-IsBest, pick_node-err, no_available_nodes,
}
use kubsd.Plane.Worker.Types.{ScheduleOrResolveError, schedule_failed}
use kubsd.Plane.Worker.Nodes.{resources_of, alive_nodes, resolve_or_schedule}

module _ {Net F : Type 0} ⦃ip : Ipnet Net⦄ (r : Registry Net F) (now : ℕ) where
  -- a node with an address that its name resolves to
  abbrev pub IsReachable : Str → Type 0
  IsReachable id = (addr : Str) × (resolve r id now ≡ ok addr)

  All-resources :
      (xs : List (NodeStatus F))
      → All (Resolves r now) xs
      → All (λ s. is_alive s.status ≡ true) xs
      → All (λ n. IsReachable n.id) (map resources_of xs)
  All-resources [] h k = tt
  All-resources (s ∷ xs) h k = ((s.addr, h.0 k.0), All-resources xs h.1 k.1)

  -- The nodes that the scheduler is given resolve.
  pub alive_nodes-IsReachable : Distinct r.nodes → All (λ n. IsReachable n.id) (alive_nodes r now)
  unfolding alive_nodes
  alive_nodes-IsReachable d =
      All-resources (filter (λ s. is_alive s.status) (list r now))
        (All-filter (Resolves r now) (λ s. is_alive s.status) (list r now) (list-Resolves r now d))
        (filter-test (λ s. is_alive s.status) (list r now))

  Occurs-resources :
      (s : NodeStatus F) (xs : List (NodeStatus F))
      → Occurs s xs
      → Occurs (resources_of s) (map resources_of xs)
  Occurs-resources s [] o = absurd o
  Occurs-resources s (x ∷ xs) o = elim o [
    | inl e ↦ inl (ap resources_of e)
    | inr p ↦ inr (Occurs-resources s xs p)
  ]

  -- A name that resolves is that of a node that the scheduler is given.
  pub IsReachable-alive_nodes :
      (id : Str)
      → IsReachable id
      → (n : NodeResources F) × Occurs n (alive_nodes r now) × (n.id ≡ id)
  unfolding alive_nodes
  IsReachable-alive_nodes id (addr, e) =
      let (s, o, i, t) = resolve-listed r now id addr e in
      (
        resources_of s,
        Occurs-resources s (filter (λ s. is_alive s.status) (list r now))
            (Occurs-filter (λ s. is_alive s.status) (list r now) s t o),
        i,
      )

  none_alive : alive_nodes r now ≡ [] → (id : Str) → ¬ IsReachable id
  none_alive e id h = let (n, o, i) = IsReachable-alive_nodes id h in subst (Occurs n) e o

  module _ ⦃fl : Float F⦄ (placements : Placements) (jail_name : Str) where
    -- what a jail that is not placed is answered
    abbrev pub IsScheduled : Result (Str × Str) ScheduleOrResolveError → Type 0
    IsScheduled reply =
        ((id addr : Str) × (reply ≡ ok (id, addr))
          × (resolve r id now ≡ ok addr)
          × IsBest id (alive_nodes r now))
        ⊎ ((reply ≡ err (schedule_failed no_available_nodes)) × ((id : Str) → ¬ IsReachable id))

    pick_reachable :
        (ns : List (NodeResources F))
        → alive_nodes r now ≡ ns
        → All (λ n. IsReachable n.id) ns
        → Dict.get jail_name placements ≡ none
        → IsScheduled (resolve_or_schedule r placements now jail_name)
    unfolding resolve_or_schedule
    pick_reachable [] e h p = inr (rw (p, e, (pick_node-err []).1 refl), none_alive e)
    pick_reachable (n ∷ ns) e h p =
        let (id, q, best) = pick_node-IsBest n ns in
        let (addr, a) =
          subst IsReachable best.named
            (All-Occurs (λ n. IsReachable n.id) (n ∷ ns) best.node h best.listed) in
        inl (id, addr, rw (p, e, q, a), a, subst (IsBest id) (sym e) best)

    -- If the nodes' names are distinct, a jail that is not placed is given a node that is alive and that
    -- no other node alive beats, with the address that it resolves to; the only error is that no node is
    -- alive.
    pub resolve_or_schedule-IsScheduled :
        Distinct r.nodes
        → Dict.get jail_name placements ≡ none
        → IsScheduled (resolve_or_schedule r placements now jail_name)
    resolve_or_schedule-IsScheduled d p =
        pick_reachable (alive_nodes r now) refl (alive_nodes-IsReachable d) p
