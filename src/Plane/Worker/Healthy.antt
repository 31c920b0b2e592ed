-- ===== src/Plane/Worker/Healthy.antt =====
-- keel-controlplane/src/worker.rs: which replicas of a service are told to others.
use kubsd.Base.{
  ℕ, ◌≡◌, refl, true, ◌&&◌, some, All, All-each, Occurs, Occurs-filter_map, filter_map,
  filter_map-Occurs, map-eq-some, is_ok, &&-true, Bool-cases, inl, inr,
}
use mathlib.Core.Path.{subst}
use kubsd.Base.Sort.{All-sort, Occurs-sort}
use kubsd.Base.Str.{Str}
use kubsd.Plane.Addresses.{UsedAddresses, address_of}
use kubsd.Plane.Bookkeeping.{Placements}
use kubsd.Plane.Registry.{Registry, resolve, is_jail_running}
use kubsd.Plane.Services.{replica_index, is_some}
use kubsd.Plane.Worker.Types.{ServiceReplica, show_addr}
use kubsd.Plane.Worker.Replicas.{healthy_replica, healthy_replicas}

module _ {Net F : Type 0} (name : Str) (placements : Placements) (registry : Registry Net F)
    (used_addresses : UsedAddresses) (now : ℕ) where
  -- a placed replica of the service, on a node that resolves and that reported it as running, with
  -- its recorded address
  pub record IsHealthy (r : ServiceReplica) : Type 0 where
    pub placed : Occurs (r.name, r.node) placements
    pub replica : is_some (replica_index name r.name) ≡ true
    pub reachable : is_ok (resolve registry r.node now) ≡ true
    pub running : is_jail_running registry r.node r.name ≡ true
    pub address : (a : ℕ) × (address_of used_addresses r.name ≡ some a) × (show_addr a ≡ r.address)

  healthy_replica-IsHealthy :
      (e : Str × Str) (r : ServiceReplica)
      → Occurs e placements
      → healthy_replica name registry used_addresses now e ≡ some r
      → IsHealthy r
  healthy_replica-IsHealthy (jail_name, node_id) r o h =
      elim (Bool-cases (
        is_some (replica_index name jail_name)
        && (is_ok (resolve registry node_id now) && is_jail_running registry node_id jail_name))) [
          | inl t ↦
              let (a, p, q) =
                map-eq-some
                  (λ (a : ℕ). record { name = jail_name; node = node_id; address = show_addr a })
                  (address_of used_addresses jail_name) (rw t at h) in
              let (i, k) = &&-true (is_some (replica_index name jail_name)) _ t in
              let (u, v) = &&-true (is_ok (resolve registry node_id now)) _ k in
              subst IsHealthy q (record {
                placed = o;
                replica = i;
                reachable = u;
                running = v;
                address = (a, p, refl);
              })
          | inr f ↦ cc (rw f at h)
        ]

  IsHealthy-healthy_replica :
      (r : ServiceReplica)
      → IsHealthy r
      → healthy_replica name registry used_addresses now (r.name, r.node) ≡ some r
  IsHealthy-healthy_replica r h =
      let (a, p, q) = h.address in rw (h.replica, h.reachable, h.running, p, q) refl

  -- The replicas of a service that are told are exactly those that are placed on a node that resolves
  -- and that reported them as running, with their recorded addresses.
  pub healthy_replicas-IsHealthy :
      All IsHealthy (healthy_replicas name placements registry used_addresses now)
      × ((r : ServiceReplica)
          → IsHealthy r
          → Occurs r (healthy_replicas name placements registry used_addresses now))
  unfolding healthy_replicas
  healthy_replicas-IsHealthy =
      let listed = filter_map (healthy_replica name registry used_addresses now) placements in
      (
        All-sort (λ r. r.name) IsHealthy listed
            (All-each IsHealthy listed (λ r o.
              let (e, p, q) =
                Occurs-filter_map (healthy_replica name registry used_addresses now) placements r
                  o in
              healthy_replica-IsHealthy e r p q)),
        λ r h.
            Occurs-sort (λ r. r.name) r listed
              (filter_map-Occurs (healthy_replica name registry used_addresses now) placements
                (r.name, r.node) r (IsHealthy-healthy_replica r h) h.placed),
      )
