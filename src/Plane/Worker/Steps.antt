-- ===== src/Plane/Worker/Steps.antt =====
-- keel-controlplane/src/worker.rs: the commands that register nodes and change services return, and
-- keep the parts of the worker's invariant.
use kubsd.Base.{
  ℕ, ◌≤◌, ◌<◌, ◌≡◌, refl, List, Option, none, some, Result, err, Option-cases, arith, Bool-cases,
  inl, inr,
}
use kubsd.Base.Dict
use kubsd.Base.Dict.{Distinct, Distinct-insert, Distinct-remove, get-remove}
use kubsd.Base.Str.{Str}
use kubsd.Extern.{Float, Ipnet}
use kubsd.Spec.Types.{JailTemplate}
use kubsd.Plane.Bookkeeping.{Placements}
use kubsd.Plane.Registry
use kubsd.Plane.Registry.{
  Registry, PodCidrCollision, JailHealth, register_at, heartbeat, heartbeat_entry, NodeRecord,
}
use kubsd.Plane.Registry.Unique.{
  IsUnique, Outcome, refused, accepted, register-Outcome, register-IsUnique,
}
use kubsd.Plane.Services.{Services, ApplyServiceError, remove_service, get_service, is_some, apply}
use kubsd.Plane.Services.Vips.{IsAllocated, apply_new, apply_existing, apply-IsAllocated}
use kubsd.Plane.Subnet.Blocks.{derive_pod_cidr-inside}
use kubsd.Plane.Worker.Replicas.{apply_service, apply_unless, replica_conflict, delete_service}

module _ {Net : Type 0} ⦃ip : Ipnet Net⦄ where
  open ip use {prefix_len}

  module _ (s : Services Net) (name : Str) (replicas : ℕ) (template : JailTemplate) (port : ℕ) where
    -- applying a service returns, keeps the network and the services' addresses apart
    abbrev pub AppliesTo : Option (Services Net × Result (Unit {0}) ApplyServiceError) → Type 0
    AppliesTo result =
        (out : Services Net × Result (Unit {0}) ApplyServiceError) × (result ≡ some out)
        × IsAllocated out.0
        × (0 < prefix_len out.0.service_cidr)

    applied :
        (out : Services Net × Result (Unit {0}) ApplyServiceError)
        → 0 < prefix_len s.service_cidr
        → IsAllocated s
        → 0 < prefix_len out.0.service_cidr
        → apply s name replicas template port ≡ some out
        → AppliesTo (apply s name replicas template port)
    applied out h a k e = (out, e, apply-IsAllocated s name replicas template port out h a e, k)

    apply_sound :
        0 < prefix_len s.service_cidr
        → IsAllocated s
        → AppliesTo (apply s name replicas template port)
    apply_sound h a = elim (Option-cases (Dict.get name s.by_name)) [
      | inl new ↦ elim (apply_new s name replicas template port new h) [
        | inl (vip, e, i, free) ↦ applied _ h a h e
        | inr (e, all) ↦ applied _ h a h e
      ]
      | inr (r, old) ↦ elim (apply_existing s name replicas template port r old) [
        | inl (e, t, p) ↦ applied _ h a h e
        | inr (inl (e, t)) ↦ applied _ h a h e
        | inr (inr (e, t)) ↦ applied _ h a h e
      ]
    ]

    apply_unless_sound :
        (o : Option ApplyServiceError)
        → 0 < prefix_len s.service_cidr
        → IsAllocated s
        → AppliesTo (apply_unless o s name replicas template port)
    apply_unless_sound none h a = apply_sound h a
    apply_unless_sound (some e) h a = ((s, err e), refl, a, h)

    pub apply_service_sound :
        (placements : Placements)
        → 0 < prefix_len s.service_cidr
        → IsAllocated s
        → AppliesTo (apply_service name replicas template port placements s)
    unfolding apply_service
    apply_service_sound placements h a =
        apply_unless_sound (replica_conflict name replicas 0 placements s) h a

  remove-IsAllocated :
      (s : Services Net) (name : Str) → IsAllocated s → IsAllocated (remove_service s name)
  remove-IsAllocated s name a = record {
    distinct = Distinct-remove name s.by_name a.distinct;
    sole = λ i j m n h k e.
        ground (arith, get-remove name i s.by_name, get-remove name j s.by_name, a.sole i j m n);
    inside = λ i m h. ground (arith, get-remove name i s.by_name, a.inside i m);
  }

module _ {Net F : Type 0} ⦃ip : Ipnet Net⦄ ⦃fl : Float F⦄ where
  open ip use {prefix_len}

  -- a registration returns, and keeps the network
  pub register_sound :
      (r : Registry Net F) (id addr : Str) (replicate_addr : Option Str) (cpu : F) (memory now : ℕ)
      → prefix_len r.cluster_cidr ≤ 24
      → IsUnique r
      → (out : Registry Net F × Result Net PodCidrCollision) × (Registry.register fl.f_zero r id
            addr replicate_addr cpu memory now
          ≡ some out)
        × IsUnique out.0
        × (prefix_len out.0.cluster_cidr ≤ 24)
  unfolding Registry.register
  register_sound r id addr replicate_addr cpu memory now h u =
      let (net, e, _, _, _, _) = derive_pod_cidr-inside id r.cluster_cidr h in
      let out = register_at fl.f_zero r id addr replicate_addr cpu memory now net in
      let q : Registry.register fl.f_zero r id addr replicate_addr cpu memory now ≡ some out =
        rw e in
      (
        out,
        q,
        register-IsUnique fl.f_zero r id addr replicate_addr cpu memory now out q u,
        same_cluster out (register-Outcome fl.f_zero r id addr replicate_addr cpu memory now out q),
      )
    where
      same_cluster :
          (out : Registry Net F × Result Net PodCidrCollision)
          → Outcome fl.f_zero r id addr replicate_addr cpu memory now out
          → prefix_len out.0.cluster_cidr ≤ 24
      same_cluster out (refused net j n d o ne e) = h
      same_cluster out (accepted net d alone) = h

  pub heartbeat_cluster :
      (r : Registry Net F) (id : Str) (cpu : F) (memory : ℕ) (jails : List JailHealth) (now : ℕ)
      → prefix_len r.cluster_cidr ≤ 24
      → prefix_len (heartbeat r id cpu memory jails now).0.cluster_cidr ≤ 24
  unfolding heartbeat
  heartbeat_cluster r id cpu memory jails now h = entry (Dict.get id r.nodes)
    where
      entry :
          (o : Option (NodeRecord Net F))
          → prefix_len (heartbeat_entry r id cpu memory jails now o).0.cluster_cidr ≤ 24
      entry none = h
      entry (some n) = h

  pub delete_sound :
      (name : Str) (s : Services Net) (placements : Placements) (r : Registry Net F) (now : ℕ)
      → 0 < prefix_len s.service_cidr
      → IsAllocated s
      → IsAllocated (delete_service name s placements r now).0
        × (0 < prefix_len (delete_service name s placements r now).0.service_cidr)
  unfolding delete_service
  delete_sound name s placements r now h a = elim (Bool-cases (is_some (get_service s name))) [
    | inl e ↦ rw e (remove-IsAllocated s name a, h)
    | inr e ↦ rw e (a, h)
  ]
