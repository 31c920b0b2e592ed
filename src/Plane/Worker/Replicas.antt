-- ===== src/Plane/Worker/Replicas.antt =====
-- keel-controlplane/src/worker.rs: what is told about the services, and the commands that apply and
-- delete one.
use kubsd.Base.{
  ℕ, zero, suc, ◌+◌, Bool, false, ◌&&◌, List, map, filter_map, Option, none, some, Result, ok, err,
  is_ok, to_option, if◌then◌else◌,
}
use mathlib.Core.Option
use kubsd.Base.Sort.{sort}
use kubsd.Base.Str.{Str, str_eq}
use kubsd.Extern.{Ipnet}
use kubsd.Spec.Types.{JailTemplate}
use kubsd.Plane.Addresses.{UsedAddresses, address_of}
use kubsd.Plane.Bookkeeping.{Placements}
use kubsd.Plane.Registry.{Registry, resolve, is_jail_running}
use kubsd.Plane.Services.{
  Services, ServiceRecord, Owner, unmanaged, service, UnknownService, unknown_service,
  ApplyServiceError, name_conflict, replica_name, replica_index, is_some, owner_of, get_service,
  remove_service, list_services, apply,
}
use kubsd.Plane.Worker.Types.{
  ServiceReplica, ServiceSummary, ServiceProxyEntry, ReplicaAction, tear_down, show_addr,
}

abbrev pub summary : Str × ServiceRecord → ServiceSummary
summary (name, r) = record {
  name = name;
  desired_replicas = r.desired_replicas;
  vip = show_addr r.vip;
  port = r.port;
}

-- `Command::ListServices`
unfoldable pub service_summaries : {Net : Type 0} → Services Net → List ServiceSummary
service_summaries services = map summary (list_services services)

module _ {Net F : Type 0} where
  -- the body of the `filter_map` of `healthy_replicas`
  abbrev pub healthy_replica :
      Str → Registry Net F → UsedAddresses → ℕ → Str × Str → Option ServiceReplica
  healthy_replica name registry used_addresses now (jail_name, node_id) =
      if is_some (replica_index name jail_name)
        && (is_ok (resolve registry node_id now) && is_jail_running registry node_id jail_name)
      then Option.map (λ a. record { name = jail_name; node = node_id; address = show_addr a })
          (address_of used_addresses jail_name)
      else none

  unfoldable pub healthy_replicas :
      Str → Placements → Registry Net F → UsedAddresses → ℕ → List ServiceReplica
  healthy_replicas name placements registry used_addresses now =
      sort (λ r. r.name) (filter_map (healthy_replica name registry used_addresses now) placements)

  -- `Command::DiscoverService`
  unfoldable pub discover_service :
      Str
      → Services Net
      → Placements
      → Registry Net F
      → UsedAddresses
      → ℕ
      → Result (List ServiceReplica) UnknownService
  discover_service name services placements registry used_addresses now =
      if is_some (get_service services name)
      then ok (healthy_replicas name placements registry used_addresses now)
      else err (unknown_service name)

  abbrev pub proxy_entry :
      Placements → Registry Net F → UsedAddresses → ℕ → Str × ServiceRecord → ServiceProxyEntry
  proxy_entry placements registry used_addresses now (name, r) = record {
    name = name;
    vip = show_addr r.vip;
    port = r.port;
    replicas = healthy_replicas name placements registry used_addresses now;
  }

  -- `Command::ListServiceProxyEntries`
  unfoldable pub service_proxy_entries :
      Services Net → Placements → Registry Net F → UsedAddresses → ℕ → List ServiceProxyEntry
  service_proxy_entries services placements registry used_addresses now =
      map (proxy_entry placements registry used_addresses now) (list_services services)

  -- the body of the `filter_map` of `Command::DeleteService`
  abbrev pub deleted_replica : Str → Registry Net F → ℕ → Str × Str → Option ReplicaAction
  deleted_replica name registry now (jail_name, node_id) =
      if is_some (replica_index name jail_name)
      then Option.map
          (λ node_addr.
            tear_down
              (record { replica_name = jail_name; node_id = node_id; node_addr = node_addr }))
          (to_option (resolve registry node_id now))
      else none

  -- `Command::DeleteService`
  unfoldable pub delete_service :
      Str
      → Services Net
      → Placements
      → Registry Net F
      → ℕ
      → Services Net × Result (List ReplicaAction) UnknownService
  delete_service name services placements registry now =
      if is_some (get_service services name)
      then (
        remove_service services name,
        ok (filter_map (deleted_replica name registry now) placements),
      )
      else (services, err (unknown_service name))

-- `matches!(&owner, Owner::Service(other) if other == &name)`
abbrev pub is_self : Str → Owner → Bool
is_self name unmanaged = false
is_self name (service other) = str_eq other name

abbrev pub owner_conflict : Str → Str → Option Owner → Option ApplyServiceError
owner_conflict name candidate none = none
owner_conflict name candidate (some owner) =
    if is_self name owner then none else some (name_conflict candidate owner)

abbrev pub or_else : {A : Type 0} → Option A → Option A → Option A
or_else none other = other
or_else (some a) other = some a

module _ {Net : Type 0} where
  -- the loop over the replicas' names, from `i` on
  unfoldable pub replica_conflict :
      Str → ℕ → ℕ → Placements → Services Net → Option ApplyServiceError
  replica_conflict name zero i placements services = none
  replica_conflict name (suc left) i placements services =
      let candidate = replica_name name i in
      or_else (owner_conflict name candidate (owner_of candidate placements services))
        (replica_conflict name left (i + 1) placements services)

module _ {Net : Type 0} ⦃ip : Ipnet Net⦄ where
  abbrev pub apply_unless :
      Option ApplyServiceError
      → Services Net
      → Str
      → ℕ
      → JailTemplate
      → ℕ
      → Option (Services Net × Result (Unit {0}) ApplyServiceError)
  apply_unless (some e) services name replicas template port = some (services, err e)
  apply_unless none services name replicas template port =
      apply services name replicas template port

  -- `Command::ApplyService`; `none` is the panic of `apply`
  unfoldable pub apply_service :
      Str
      → ℕ
      → JailTemplate
      → ℕ
      → Placements
      → Services Net
      → Option (Services Net × Result (Unit {0}) ApplyServiceError)
  unfolding replica_conflict
  apply_service name replicas template port placements services =
      apply_unless (replica_conflict name replicas 0 placements services) services name replicas
        template port
