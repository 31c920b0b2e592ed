-- ===== src/Plane/Worker/Claimed.antt =====
-- keel-controlplane/src/worker.rs: a service is applied only if the names of its replicas are its own.
use kubsd.Base.{
  ℕ, zero, suc, ◌+◌, ◌≤◌, ◌<◌, ◌≡◌, refl, ap, Option, none, some, ok, ◌⊎◌, inl, inr, Bool-cases,
  arith, ◌==◌, ==_iff,
}
use mathlib.Core.Path.{subst}
use kubsd.Base.Str.{Str, str_eq, str_eq_iff}
use kubsd.Extern.{Ipnet}
use kubsd.Spec.Types.{JailTemplate}
use kubsd.Plane.Bookkeeping.{Placements}
use kubsd.Plane.Services.{
  Services, Owner, unmanaged, service, ApplyServiceError, replica_name, owner_of, apply,
}
use kubsd.Plane.Worker.Replicas.{
  owner_conflict, or_else, replica_conflict, apply_service, apply_unless,
}

-- the name is not placed, or it is one of the service's own replicas
abbrev pub IsOwn : Str → Option Owner → Type 0
IsOwn name owner = (owner ≡ none) ⊎ (owner ≡ some (service name))

owner_conflict-none :
    (name candidate : Str) (o : Option Owner)
    → owner_conflict name candidate o ≡ none
    → IsOwn name o
owner_conflict-none name candidate none h = inl refl
owner_conflict-none name candidate (some unmanaged) h = cc
owner_conflict-none name candidate (some (service other)) h =
    elim (Bool-cases (str_eq other name)) [
      | inl e ↦ inr (ap (λ t. some (service t)) ((str_eq_iff other name).0 e))
      | inr e ↦ cc (rw e at h)
    ]

or_else-none : {A : Type 0} (o p : Option A) → or_else o p ≡ none → (o ≡ none) × (p ≡ none)
or_else-none none p h = (refl, h)
or_else-none (some a) p h = cc

module _ {Net : Type 0} (name : Str) (placements : Placements) (services : Services Net) where
  replica_conflict-none :
      (left start i : ℕ)
      → replica_conflict name left start placements services ≡ none
      → start ≤ i
      → i < start + left
      → IsOwn name (owner_of (replica_name name i) placements services)
  unfolding replica_conflict
  replica_conflict-none zero start i h l r = absurd (omega arith)
  replica_conflict-none (suc left) start i h l r =
      let (p, q) = or_else-none _ (replica_conflict name left (start + 1) placements services) h in
      elim (Bool-cases (start == i)) [
        | inl e ↦
            subst (λ t. IsOwn name (owner_of (replica_name name t) placements services))
              ((==_iff start i).0 e) (owner_conflict-none name (replica_name name start) _ p)
        | inr e ↦ replica_conflict-none left (start + 1) i q (ground arith) (omega arith)
      ]

  module _ ⦃ip : Ipnet Net⦄ (replicas : ℕ) (template : JailTemplate) (port : ℕ) where
    apply_unless-ok :
        (o : Option ApplyServiceError) (services' : Services Net)
        → apply_unless o services name replicas template port ≡ some (services', ok tt)
        → (o ≡ none) × (apply services name replicas template port ≡ some (services', ok tt))
    apply_unless-ok none services' h = (refl, h)
    apply_unless-ok (some e) services' h = cc

    -- A service is applied only if each of its replicas' names is unplaced or belongs to the service
    -- already; the result is then that of applying it to the services.
    pub apply_service-IsOwn :
        (services' : Services Net)
        → apply_service name replicas template port placements services ≡ some (services', ok tt)
        → ((i : ℕ) → i < replicas → IsOwn name (owner_of (replica_name name i) placements services))
          × (apply services name replicas template port ≡ some (services', ok tt))
    unfolding apply_service
    apply_service-IsOwn services' h =
        let (p, q) =
          apply_unless-ok (replica_conflict name replicas 0 placements services) services' h in
        (λ i l. replica_conflict-none replicas 0 i p (omega arith) (omega arith), q)
