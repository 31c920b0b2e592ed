-- ===== src/Plane/Http/Applied.antt =====
-- keel-controlplane/src/http.rs: the requests on a service, with the status of their responses. The
-- bodies of the responses are left out; a body is the text that it reads as.
use kubsd.Base.{ℕ, List, Option, some, Result, ok, err, and_then, if◌then◌else◌}
use mathlib.Core.Option
use kubsd.Base.Str.{Str, str_eq}
use kubsd.Extern.{Float, Ipnet, YamlReader}
use kubsd.Spec.Types.{JailSpec, ServiceSpec, SpecError}
use kubsd.Spec.Parse.{parse_and_validate_service}
use kubsd.Plane.Services.{
  ApplyServiceError, name_conflict, template_changed, port_changed, vip_pool_exhausted,
  UnknownService,
}
use kubsd.Plane.Worker.Types.{ReplicaAction}
use kubsd.Plane.Worker.Replicas.{apply_service, delete_service, discover_service}
use kubsd.Plane.Worker.Handle.{State}
use kubsd.Plane.Http.{
  Turn, Run, submit, ask, Forward, execute_replica_actions, reconcile_and_execute,
}

abbrev pub apply_status : ApplyServiceError → ℕ
apply_status (name_conflict name o) = 400
apply_status (template_changed name) = 409
apply_status (port_changed name) = 409
apply_status (vip_pool_exhausted name) = 503

abbrev pub discover_status : {A : Type 0} → Result A UnknownService → ℕ
discover_status (ok replicas) = 200
discover_status (err e) = 404

module _ {Net F : Type 0} ⦃ip : Ipnet Net⦄ where
  -- the command `ApplyService`
  abbrev pub apply_at :
      Str
      → ServiceSpec
      → State Net F
      → ℕ
      → Option (State Net F × Result (Unit {0}) ApplyServiceError)
  apply_at name spec s now =
      Option.map (λ x. (record s { services = x.0 }, x.1))
        (apply_service name spec.spec.replicas spec.spec.template spec.spec.port s.placements
          s.services)

  -- the command `DeleteService`
  abbrev pub delete_at :
      Str → State Net F → ℕ → Option (State Net F × Result (List ReplicaAction) UnknownService)
  delete_at name s now =
      let x = delete_service name s.services s.placements s.registry now in
      some (record s { services = x.0 }, x.1)

module _ {Net F : Type 0} ⦃ip : Ipnet Net⦄ ⦃fl : Float F⦄ (forward : Forward)
    (print_spec : JailSpec → Str) (turns : ℕ → Turn F) where
  abbrev pub service_applied :
      Run Net F × Result (Unit {0}) ApplyServiceError → Option (Run Net F × ℕ)
  service_applied (r, ok u) =
      Option.map (λ t. (t, 200)) (reconcile_and_execute forward print_spec turns r)
  service_applied (r, err e) = some (r, apply_status e)

  abbrev pub parsed_service :
      Run Net F → Str → Result ServiceSpec SpecError → Option (Run Net F × ℕ)
  parsed_service r name (err e) = some (r, 400)
  parsed_service r name (ok spec) =
      if str_eq spec.metadata.name name
      then and_then (submit turns r (apply_at name spec)) service_applied
      else some (r, 400)

  unfoldable pub handle_apply_service :
      YamlReader ServiceSpec → Run Net F → Str → Str → Option (Run Net F × ℕ)
  unfolding parse_and_validate_service submit
  handle_apply_service read r name body =
      parsed_service r name (parse_and_validate_service fl read body)

  abbrev pub service_deleted :
      Run Net F × Result (List ReplicaAction) UnknownService → Option (Run Net F × ℕ)
  service_deleted (r, ok actions) =
      Option.map (λ t. (t, 200)) (execute_replica_actions forward print_spec turns r actions)
  service_deleted (r, err e) = some (r, 404)

  unfoldable pub handle_delete_service : Run Net F → Str → Option (Run Net F × ℕ)
  unfolding submit
  handle_delete_service r name = and_then (submit turns r (delete_at name)) service_deleted

  unfoldable pub handle_get_service : Run Net F → Str → Option (Run Net F × ℕ)
  unfolding ask
  handle_get_service r name =
      Option.map (λ out. (out.0, discover_status out.1))
        (ask turns r
          (λ s now. discover_service name s.services s.placements s.registry s.used_addresses now))
