-- ===== src/Plane/Http/Served.antt =====
-- keel-controlplane/src/http.rs: every answer to a request to apply a service.
use kubsd.Base.{
  ℕ, sym, some_inj, ok-injective, ◌≡◌, ◌⊎◌, ◌∙◌, ap, true, Option, some, Result, ok, err, and_then,
  Bool-cases, inl, inr, refl, ◌<◌,
}
use mathlib.Core.Option
use mathlib.Core.Path.{subst}
use kubsd.Base.Str.{Str, str_eq, str_eq_iff, ne_of_str_eq}
use kubsd.Extern.{Float, Ipnet, YamlReader}
use kubsd.Spec.Types.{JailSpec, ServiceSpec, SpecError}
use kubsd.Spec.Parse.{parse_and_validate_service}
use kubsd.Spec.Parse.Service.{IsAccepted, parse_and_validate_service_iff}
use kubsd.Plane.Services.{
  Services, ApplyServiceError, name_conflict, template_changed, port_changed, vip_pool_exhausted,
  Owner, owner_of, replica_name,
}
use kubsd.Plane.Worker.Replicas.{apply_service}
use kubsd.Plane.Worker.Claimed.{IsOwn, apply_service-IsOwn}
use kubsd.Plane.Worker.Stored.{Stores, IsStored, apply_service-IsStored}
use kubsd.Plane.Worker.Handle.{handle, apply_service_to, applied}
use kubsd.Plane.Worker.Sound.{IsSound, handle-IsSound}
use kubsd.Plane.Http.Executed.{reconcile_and_execute-IsSound}
use kubsd.Plane.Http.Quiet.{IsQuiet, next, submit-then}
use kubsd.Plane.Http.{Turn, Run, submit, Forward, is_success, reconcile_and_execute}
use kubsd.Plane.Http.Applied.{
  apply_status, apply_at, service_applied, parsed_service, handle_apply_service,
}

-- the status with which the worker's refusal is answered
abbrev pub IsRefusal : ApplyServiceError → ℕ → Type 0
IsRefusal e status =
    (((name : Str) × (o : Owner) × (e ≡ name_conflict name o)) × (status ≡ 400))
    ⊎ ((((name : Str) × ((e ≡ template_changed name) ⊎ (e ≡ port_changed name))) × (status ≡ 409))
        ⊎ (((name : Str) × (e ≡ vip_pool_exhausted name)) × (status ≡ 503)))

apply_status-IsRefusal : (e : ApplyServiceError) → IsRefusal e (apply_status e)
apply_status-IsRefusal (name_conflict name o) = inl ((name, o, refl), refl)
apply_status-IsRefusal (template_changed name) = inr (inl ((name, inl refl), refl))
apply_status-IsRefusal (port_changed name) = inr (inl ((name, inr refl), refl))
apply_status-IsRefusal (vip_pool_exhausted name) = inr (inr ((name, refl), refl))

module _ {Net F : Type 0} ⦃ip : Ipnet Net⦄ ⦃fl : Float F⦄ (forward : Forward)
    (print_spec : JailSpec → Str) (turns : ℕ → Turn F) (quiet : IsQuiet turns Net)
    (accepted : (addr method path body : Str)
      → is_success (forward addr method path body) ≡ true) where
  module _ (read : YamlReader ServiceSpec) (r : Run Net F) (name body : Str) where
    -- the body asks for the service of this name, and passes every check
    abbrev pub IsWanted : ServiceSpec → Type 0
    IsWanted spec = (read body ≡ ok spec) × IsAccepted fl spec × (spec.metadata.name ≡ name)

    -- Each name of a replica is unplaced or the service's own, the service is stored as the body
    -- says, and a reconciliation after that has led to the run.
    pub record IsDone (spec : ServiceSpec) (t : Run Net F) : Type 0 where
      pub own :
          (i : ℕ)
          → i < spec.spec.replicas
          → IsOwn name (owner_of (replica_name name i) r.state.placements r.state.services)
      pub services : Services Net
      pub stored :
          Stores r.state.services name spec.spec.replicas spec.spec.template spec.spec.port services
      pub reconciled :
          reconcile_and_execute forward print_spec turns
            (next r (record r.state { services = services }))
          ≡ some t
      pub kept : t.state.services ≡ services

    abbrev pub IsServed : Option (Run Net F × ℕ) → Type 0
    IsServed o =
        (out : Run Net F × ℕ) × (o ≡ some out)
        × IsSound out.0.state
        × ((((out.1 ≡ 400) × (out.0.state ≡ r.state)) × ¬ ((spec : ServiceSpec) × IsWanted spec))
            ⊎ ((spec : ServiceSpec) × IsWanted spec
                × (((out.1 ≡ 200) × IsDone spec out.0)
                    ⊎ ((e : ApplyServiceError) × (apply_service name spec.spec.replicas
                            spec.spec.template spec.spec.port r.state.placements r.state.services
                          ≡ some (r.state.services, err e))
                        × IsRefusal e out.1
                        × (out.0.state ≡ r.state)))))

    -- what the worker's command leaves
    stored-IsSound :
        (spec : ServiceSpec) (x : Services Net × Result (Unit {0}) ApplyServiceError)
        → apply_service name spec.spec.replicas spec.spec.template spec.spec.port r.state.placements
            r.state.services
          ≡ some x
        → IsSound r.state
        → IsSound (record r.state { services = x.0 })
    unfolding handle
    stored-IsSound spec x e i =
        let (out, h, j) =
          handle-IsSound r.state 0
            (apply_service_to name spec.spec.replicas spec.spec.template spec.spec.port) i tt in
        let same : (record r.state { services = x.0 }, applied x.1) ≡ out =
          some_inj
            (sym (ap (Option.map (λ y. (record r.state { services = y.0 }, applied y.1))) e) ∙ h) in
        subst (λ t. IsSound t.0) (sym same) j

    service_applied-IsServed :
        (spec : ServiceSpec) (x : Services Net × Result (Unit {0}) ApplyServiceError)
        → IsWanted spec
        → apply_service name spec.spec.replicas spec.spec.template spec.spec.port r.state.placements
            r.state.services
          ≡ some x
        → IsStored r.state.services name spec.spec.replicas spec.spec.template spec.spec.port x
        → IsSound r.state
        → IsServed (
            service_applied forward print_spec turns
              (next r (record r.state { services = x.0 }), x.1))
    service_applied-IsServed spec (services, ok u) w e stored i =
        let j = stored-IsSound spec (services, ok u) e i in
        let (t, f, k, v) =
          reconcile_and_execute-IsSound forward print_spec turns quiet accepted
            (next r (record r.state { services = services })) j in
        let (own, _) =
          apply_service-IsOwn name r.state.placements r.state.services spec.spec.replicas
            spec.spec.template spec.spec.port services e in
        (
          (t, 200),
          ap (Option.map (λ t. (t, 200))) f,
          k,
          inr (
            spec,
            w,
            inl (
              refl,
              record { own = own; services = services; stored = stored; reconciled = f; kept = v },
            ),
          ),
        )
    service_applied-IsServed spec (services, err e) w h same i = (
      (next r (record r.state { services = services }), apply_status e),
      refl,
      stored-IsSound spec (services, err e) h i,
      inr (
        spec,
        w,
        inr (
          e,
          h ∙ ap (λ t. some (t, err e)) same,
          apply_status-IsRefusal e,
          ap (λ t. record r.state { services = t }) same,
        ),
      ),
    )

    rejected : IsSound r.state → ¬ ((spec : ServiceSpec) × IsWanted spec) → IsServed (some (r, 400))
    rejected i n = ((r, 400), refl, i, inl ((refl, refl), n))

    named-IsServed :
        (spec : ServiceSpec)
        → IsWanted spec
        → IsSound r.state
        → IsServed (
            and_then
              (submit turns r (apply_at name spec))
              (service_applied forward print_spec turns))
    named-IsServed spec w i =
        let (x, e, stored) =
          apply_service-IsStored r.state.services name spec.spec.replicas spec.spec.template
            spec.spec.port i.service_size r.state.placements in
        subst IsServed
          (sym (
            submit-then turns quiet r (apply_at name spec) (record r.state { services = x.0 }) x.1
              (service_applied forward print_spec turns)
              (ap (Option.map (λ y. (record r.state { services = y.0 }, y.1))) e)))
          (service_applied-IsServed spec x w e stored i)

    parsed_service-IsServed :
        (o : Result ServiceSpec SpecError)
        → parse_and_validate_service fl read body ≡ o
        → IsSound r.state
        → IsServed (parsed_service forward print_spec turns r name o)
    parsed_service-IsServed (err e) h i = rejected i (λ (spec, (a, b, n)).
        cc (sym h ∙ (parse_and_validate_service_iff fl read body spec).1 (a, b)))
    parsed_service-IsServed (ok spec) h i =
        let (a, b) = (parse_and_validate_service_iff fl read body spec).0 h in
        elim (Bool-cases (str_eq spec.metadata.name name)) [
          | inl e ↦ rw e (named-IsServed spec (a, b, (str_eq_iff spec.metadata.name name).0 e) i)
          | inr e ↦ rw e (
              rejected i (λ (other, (a', b', n)).
                ne_of_str_eq spec.metadata.name name e
                  (ap (λ t. t.metadata.name) (ok-injective (sym a ∙ a')) ∙ n)))
        ]

    -- If every request to a node succeeds and what other threads send in between changes nothing, a
    -- request to apply a service to a state with the invariant meets no panic and keeps the invariant,
    -- and one of three answers is given. It is 400, and nothing changes, when the body is no
    -- service that passes every check under the name of the path. Otherwise it is the worker's refusal,
    -- 400 for a name that is taken, 409 for another template or port and 503 without a free address,
    -- and nothing changes; or it is 200, each replica's name is unplaced or the service's own, the
    -- service is stored with the replicas, the template and the port of the body, and the state is the
    -- one to which a reconciliation of it leads.
    pub handle_apply_service-IsServed :
        IsSound r.state → IsServed (handle_apply_service forward print_spec turns read r name body)
    unfolding handle_apply_service
    handle_apply_service-IsServed i =
        parsed_service-IsServed (parse_and_validate_service fl read body) refl i
