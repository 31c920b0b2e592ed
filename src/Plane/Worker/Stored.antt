-- ===== src/Plane/Worker/Stored.antt =====
-- keel-controlplane/src/worker.rs and services.rs: what the application of a service leaves.
use kubsd.Base.{ℕ, ◌<◌, ◌≡◌, refl, Option, some, none, Result, ok, err, inl, inr, Option-cases}
use kubsd.Base.Dict
use kubsd.Base.Dict.{get-insert_self}
use kubsd.Base.Str.{Str}
use kubsd.Extern.{Ipnet}
use kubsd.Spec.Types.{JailTemplate}
use kubsd.Plane.Services.{Services, ServiceRecord, ApplyServiceError, apply}
use kubsd.Plane.Services.Vips.{apply_new, apply_existing}
use kubsd.Plane.Bookkeeping.{Placements}
use kubsd.Plane.Worker.Replicas.{replica_conflict, apply_unless, apply_service}

module _ {Net : Type 0} (s : Services Net) (name : Str) (desired : ℕ) (template : JailTemplate)
    (port : ℕ) where
  -- the services have this one as it was asked for
  abbrev pub Stores : Services Net → Type 0
  Stores t =
      (r : ServiceRecord) × (Dict.get name t.by_name ≡ some r)
      × (r.desired_replicas ≡ desired)
      × (r.template ≡ template)
      × (r.port ≡ port)

  -- with success the service is stored, and otherwise nothing has changed
  abbrev pub IsStored : Services Net × Result (Unit {0}) ApplyServiceError → Type 0
  IsStored (t, ok u) = Stores t
  IsStored (t, err e) = t ≡ s

module _ {Net : Type 0} ⦃ip : Ipnet Net⦄ (s : Services Net) (name : Str) (desired : ℕ)
    (template : JailTemplate) (port : ℕ) (positive : 0 < ip.prefix_len s.service_cidr) where
  abbrev Returning : Option (Services Net × Result (Unit {0}) ApplyServiceError) → Type 0
  Returning o =
      (x : Services Net × Result (Unit {0}) ApplyServiceError) × (o ≡ some x)
      × IsStored s name desired template port x

  apply-IsStored : Returning (apply s name desired template port)
  apply-IsStored = elim (Option-cases (Dict.get name s.by_name)) [
    | inl new ↦ elim (apply_new s name desired template port new positive) [
      | inl (vip, e, i, free) ↦ (_, e, (_, get-insert_self name _ s.by_name, refl, refl, refl))
      | inr (e, all) ↦ (_, e, refl)
    ]
    | inr (r, old) ↦ elim (apply_existing s name desired template port r old) [
      | inl (e, t, p) ↦ (_, e, (_, get-insert_self name _ s.by_name, refl, t, p))
      | inr (inl (e, t)) ↦ (_, e, refl)
      | inr (inr (e, t)) ↦ (_, e, refl)
    ]
  ]

  unless-IsStored :
      (o : Option ApplyServiceError) → Returning (apply_unless o s name desired template port)
  unless-IsStored (some e) = (_, refl, refl)
  unless-IsStored none = apply-IsStored

  -- The worker's command returns. With success the service is stored as it was asked for, and
  -- otherwise the services are the same as before.
  pub apply_service-IsStored :
      (placements : Placements)
      → (x : Services Net × Result (Unit {0}) ApplyServiceError) × (apply_service name desired
            template port placements s
          ≡ some x)
        × IsStored s name desired template port x
  unfolding apply_service
  apply_service-IsStored placements = unless-IsStored (replica_conflict name desired 0 placements s)
