-- ===== src/Plane/Services/Owners.antt =====
-- Who owns a name: the answer does not depend on the order in which the services are visited.
use kubsd.Base.{
  ◌≡◌, refl, ap, sym, ◌∙◌, ◌↔◌, true, [], ◌∷◌, Option, none, some, Occurs, Bool-cases, inl, inr,
  some_inj,
}
use kubsd.Base.Dict
use kubsd.Base.Dict.{Dict}
use kubsd.Base.Str.{Str}
use kubsd.Plane.Bookkeeping.{Placements}
use kubsd.Plane.Services.{
  ServiceRecord, Services, service, owner_among, owner_of, replica_index, is_some,
}
use kubsd.Plane.Services.Names.{replica_index_sole}

-- a name that reads as a replica of the service
abbrev pub IsReplicaOf : Str → Str → Type 0
IsReplicaOf name s = is_some (replica_index s name) ≡ true

is_some-eq : {A : Type 0} (o : Option A) → is_some o ≡ true → (a : A) × (o ≡ some a)
is_some-eq none h = cc
is_some-eq (some a) h = (a, refl)

pub IsReplicaOf-sole : (name s t : Str) → IsReplicaOf name s → IsReplicaOf name t → s ≡ t
IsReplicaOf-sole name s t h k =
    let (i, p) = is_some-eq (replica_index s name) h in
    let (j, q) = is_some-eq (replica_index t name) k in replica_index_sole s t name i j p q

-- the service is among the names
abbrev pub Named : Str → Dict ServiceRecord → Type 0
Named s m = (r : ServiceRecord) × Occurs (s, r) m

owner_among-service :
    (name s : Str) (m : Dict ServiceRecord)
    → owner_among name m ≡ service s
    → Named s m × IsReplicaOf name s
unfolding owner_among
owner_among-service name s [] h = absurd (cc h)
owner_among-service name s ((t, r) ∷ m) h = elim (Bool-cases (is_some (replica_index t name))) [
  | inl e ↦
      let q : t ≡ s = service_inj (rw e at h) in
      ((r, inl (ap (λ x. (x, r)) (sym q))), ap (λ x. is_some (replica_index x name)) (sym q) ∙ e)
  | inr e ↦ let ((r', o), k) = owner_among-service name s m (rw e at h) in ((r', inr o), k)
]
  where
    service_inj : {a b : Str} → service a ≡ service b → a ≡ b
    service_inj p = cc

service-owner_among :
    (name s : Str) (r : ServiceRecord) (m : Dict ServiceRecord)
    → Occurs (s, r) m
    → IsReplicaOf name s
    → owner_among name m ≡ service s
unfolding owner_among
service-owner_among name s r [] o h = absurd o
service-owner_among name s r ((t, u) ∷ m) o h = elim (Bool-cases (is_some (replica_index t name))) [
  | inl e ↦ rw e (ap service (IsReplicaOf-sole name t s e h))
  | inr e ↦ rw e (elim o [
    | inl p ↦ cc (ap (λ (x : Str × ServiceRecord). is_some (replica_index x.0 name)) p, h, e)
    | inr q ↦ service-owner_among name s r m q h
  ])
]

-- A placed name is owned by a service exactly when the service exists and the name reads as one of
-- its replicas, whatever the order of the services.
pub owner_of_iff :
    {Net : Type 0} (name node s : Str) (placements : Placements) (services : Services Net)
    → Dict.get name placements ≡ some node
    → (owner_of name placements services ≡ some (service s))
      ↔ (Named s services.by_name × IsReplicaOf name s)
unfolding owner_of
owner_of_iff name node s placements services e = (
  λ h. owner_among-service name s services.by_name (some_inj (rw e at h)),
  λ p. rw e (ap some (service-owner_among name s p.0.0 services.by_name p.0.1 p.1)),
)
