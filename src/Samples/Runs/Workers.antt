-- ===== src/Samples/Runs/Workers.antt =====
-- Samples for the worker and for the threads that send it commands.
use kubsd.Base.{
  Occurs, ℕ, ◌+◌, ◌*◌, ◌<◌, ◌≡◌, refl, ◌⊎◌, inl, inr, List, [], ◌∷◌, Option, none, some, Result, ok,
  err, true, false, Bool, ◌&&◌, to_option, if◌then◌else◌, All, arith,
}
use kubsd.Base.Dict
use kubsd.Base.Str.{Str, bytes}
use kubsd.Samples.{number, cidr, Cidr}
use kubsd.Extern.{YamlReader}
use kubsd.Spec.Types.{JailSpec, ServiceSpec, VolumeMount}
use kubsd.Plane.Addresses.{UsedAddresses, empty, record_address}
use kubsd.Plane.Bookkeeping.{Placements}
use kubsd.Plane.Registry.{Registry, NodeRecord, nanos, resolve}
use kubsd.Plane.Services.{Services, ServiceRecord, replica_name, owner_of, apply, store_service}
use kubsd.Plane.Worker.Types.{ForceRepinPrep, ServiceReplica}
use kubsd.Plane.Worker.Handle.{
  State, Command, Reply, handle, list_nodes, initial, register, apply_service_to, record_placement,
  reconcile,
}
use kubsd.Plane.Worker.Nodes.{resolve_or_schedule}
use kubsd.Plane.Worker.Scheduling.{IsScheduled, resolve_or_schedule-IsScheduled}
use kubsd.Plane.Worker.Replicas.{apply_service, healthy_replicas}
use kubsd.Plane.Worker.Claimed.{IsOwn, apply_service-IsOwn}
use kubsd.Plane.Worker.Reconcile.{reconcile_services}
use kubsd.Plane.Worker.Planned.{IsPlanned, IsDirected, reconcile_services-IsPlanned}
use kubsd.Plane.Worker.Repin.{prepare_force_repin}
use kubsd.Plane.Worker.Repinned.{IsSafe, prepare_force_repin-IsSafe}
use kubsd.Plane.Worker.Sound.{
  IsSound, initial-IsSound, handle-IsSound, AllAllowed, run, run-IsSound,
}
use kubsd.Plane.Http.Quiet.{IsQuiet}
use kubsd.Plane.Http.{
  Turn, Run, interleave, Forward, reconcile_and_execute, check_and_execute_fencing,
}
use kubsd.Plane.Worker.Healthy.{IsHealthy, healthy_replicas-IsHealthy}
use kubsd.Plane.Http.Repin.{handle_force_repin, IsAnswered, handle_force_repin-IsAnswered}
use kubsd.Plane.Http.Applied.{handle_apply_service}
use kubsd.Plane.Http.Served.{IsServed, handle_apply_service-IsServed}
use kubsd.Plane.Http.Scheduled.{put_jail, IsPut, put_jail-IsPut}
use kubsd.Plane.Http.Executed.{reconcile_and_execute-IsSound}
use kubsd.Plane.Http.Fenced.{is_owed, is_deleted_at, check_and_execute_fencing-clears}
use kubsd.Samples.Runs.Planes.{
  cluster, service_net, node, registry, template, web, services, fences,
}

abbrev start : State Cidr ℕ
start = initial cluster service_net

start-IsSound : IsSound start
unfolding cidr
start-IsSound = initial-IsSound cluster service_net (omega arith) (omega arith)

abbrev register_n1 : Command ℕ
register_n1 = register (bytes "n1") (bytes "10.9.0.1:7620") none 8 1024

handle-IsSound_example :
    (out : State Cidr ℕ × Reply Cidr ℕ) × (handle start 0 register_n1 ≡ some out) × IsSound out.0
handle-IsSound_example = handle-IsSound start 0 register_n1 start-IsSound tt

abbrev commands : List (ℕ × Command ℕ)
commands =
    (0, register_n1)
    ∷ (nanos, apply_service_to (bytes "web") 2 template 80)
    ∷ (2 * nanos, reconcile)
    ∷ (3 * nanos, record_placement (bytes "web-0") (bytes "n1"))
    ∷ []

all_allowed : AllAllowed start commands
all_allowed = (tt, λ a h. (tt, λ b i. (tt, λ c j. (tt, λ d k. tt))))

run-IsSound_example :
    (t : State Cidr ℕ) × (run (initial cluster service_net) commands ≡ some t) × IsSound t
unfolding cidr
run-IsSound_example =
    run-IsSound cluster service_net commands (omega arith) (omega arith) all_allowed

-- the state that the commands lead to
reached : (t : State Cidr ℕ) × (run start commands ≡ some t) × IsSound t
unfolding cidr
reached = run-IsSound cluster service_net commands (omega arith) (omega arith) all_allowed

abbrev forward : Forward
forward addr method path body = some 200

abbrev print_spec : JailSpec → Str
print_spec s = s.metadata.name

-- before each of a thread's commands another lists the nodes, and time goes on
abbrev turns : ℕ → Turn ℕ
turns k = record { others = (4 * nanos, list_nodes) ∷ []; instant = (4 + k) * nanos }

turns-IsQuiet : IsQuiet turns Cidr
unfolding interleave handle
turns-IsQuiet k s = refl

abbrev begun : Run Cidr ℕ
begun = record { state = reached.0; sent = 0 }

reconcile_and_execute-IsSound_example :
    (t : Run Cidr ℕ) × (reconcile_and_execute forward print_spec turns begun ≡ some t)
    × IsSound t.state
    × (t.state.services ≡ begun.state.services)
reconcile_and_execute-IsSound_example =
    reconcile_and_execute-IsSound forward print_spec turns turns-IsQuiet
      (λ addr method path body. refl) begun reached.2

-- a reader that finds the same service in every text
abbrev read_web : YamlReader ServiceSpec
read_web text = ok (record {
  api_version = bytes "keel/v1";
  kind = bytes "Service";
  metadata = record { name = bytes "web" };
  spec = record { replicas = 3; port = 80; template = template };
})

handle_apply_service-IsServed_example :
    IsServed forward print_spec turns turns-IsQuiet
      (λ addr method path body. refl)
      read_web
      begun
      (bytes "web")
      (bytes "kind: Service")
      (handle_apply_service forward print_spec turns read_web begun
        (bytes "web")
        (bytes "kind: Service"))
handle_apply_service-IsServed_example =
    handle_apply_service-IsServed forward print_spec turns turns-IsQuiet
      (λ addr method path body. refl) read_web begun (bytes "web") (bytes "kind: Service") reached.2

abbrev now : ℕ
now = 105 * nanos

handle_force_repin-IsAnswered_example :
    IsAnswered forward print_spec turns turns-IsQuiet begun.state
      (4 * nanos)
      (bytes "web-0")
      (handle_force_repin forward print_spec turns begun (bytes "web-0"))
handle_force_repin-IsAnswered_example =
    handle_force_repin-IsAnswered forward print_spec turns turns-IsQuiet begun (bytes "web-0")
      reached.2

put_jail-IsPut_example :
    IsPut forward turns turns-IsQuiet begun.state
      (5 * nanos)
      (bytes "job")
      (bytes "image: base")
      (put_jail forward turns begun (bytes "job") (bytes "image: base"))
put_jail-IsPut_example =
    put_jail-IsPut forward turns turns-IsQuiet begun (bytes "job") (bytes "image: base") reached.2

reconcile_services-IsPlanned_example :
    IsPlanned empty (reconcile_services services [] registry empty now)
    × All (IsDirected registry now) (reconcile_services services [] registry empty now)
reconcile_services-IsPlanned_example = reconcile_services-IsPlanned registry now [] services empty

not_placed : {A : Type 0} → Dict.get {V = A} (bytes "job") [] ≡ none
unfolding Dict.get
not_placed = refl

resolve_or_schedule-IsScheduled_example :
    IsScheduled registry now [] (bytes "job") (resolve_or_schedule registry [] now (bytes "job"))
resolve_or_schedule-IsScheduled_example =
    resolve_or_schedule-IsScheduled registry now [] (bytes "job") (tt, tt) not_placed

abbrev running : Registry Cidr ℕ
running = record {
  cluster_cidr = cluster;
  nodes = (bytes "n1", record node { running_jails = (bytes "web-0", true) ∷ [] }) ∷ [];
}

abbrev web_placed : Placements
web_placed = (bytes "web-0", bytes "n1") ∷ (bytes "job", bytes "n1") ∷ []

abbrev web_used : UsedAddresses
web_used = record_address empty (bytes "web-0") (bytes "n1") 167773954

healthy_replicas-IsHealthy_example :
    All
      (IsHealthy (bytes "web") web_placed running web_used now)
      (healthy_replicas (bytes "web") web_placed running web_used now)
    × ((r : ServiceReplica)
        → IsHealthy (bytes "web") web_placed running web_used now r
        → Occurs r (healthy_replicas (bytes "web") web_placed running web_used now))
healthy_replicas-IsHealthy_example =
    healthy_replicas-IsHealthy (bytes "web") web_placed running web_used now

abbrev grown : Services Cidr
grown = store_service services (bytes "web") (record web { desired_replicas = 3 })

grown_ok : apply_service (bytes "web") 3 template 80 [] services ≡ some (grown, ok tt)
unfolding apply_service owner_of Dict.get apply kubsd.Base.Str.str_eq
    kubsd.Spec.Equality.template_eq kubsd.Spec.Equality.bool_eq
grown_ok = refl

apply_service-IsOwn_example :
    ((i : ℕ) → i < 3 → IsOwn (bytes "web") (owner_of (replica_name (bytes "web") i) [] services))
    × (apply services (bytes "web") 3 template 80 ≡ some (grown, ok tt))
apply_service-IsOwn_example =
    apply_service-IsOwn (bytes "web") [] services 3 template 80 grown grown_ok

abbrev fenced : State Cidr ℕ
fenced = record start { registry = registry; pending_fences = fences }

check_and_execute_fencing-clears_example :
    (t : Run Cidr ℕ) × (check_and_execute_fencing forward print_spec turns
        (record { state = fenced; sent = 0 })
        (bytes "n1")
      ≡ some t)
    × ((k : Str)
        → Dict.get k t.state.pending_fences ≡ (
            if is_owed (bytes "n1") (Dict.get k fences)
              && is_deleted_at forward (to_option (resolve registry (bytes "n1") (5 * nanos))) k
            then none
            else Dict.get k fences))
check_and_execute_fencing-clears_example =
    check_and_execute_fencing-clears forward print_spec turns turns-IsQuiet
      (record { state = fenced; sent = 0 }) (bytes "n1") (tt, tt)

-- a stateful service, whose replica's node `n0` is silent
abbrev volume : VolumeMount
volume = record { name = bytes "data"; mount_path = bytes "/data"; size = bytes "10G" }

abbrev database : ServiceRecord
database = record web { template = record template { volumes = volume ∷ [] } }

abbrev databases : Services Cidr
databases = record { service_cidr = service_net; by_name = (bytes "db", database) ∷ [] }

abbrev three_nodes : Registry Cidr ℕ
three_nodes = record {
  cluster_cidr = cluster;
  nodes =
      (bytes "n0", record node { last_heartbeat = 0 })
      ∷ (bytes "n1", node)
      ∷ (bytes "n2", node)
      ∷ [];
}

abbrev prep : ForceRepinPrep
prep = record {
  old_node_id = bytes "n0";
  standby_node_id = bytes "n1";
  standby_addr = bytes "10.9.0.1:7620";
  template = database.template;
  fresh_standby_node_id = bytes "n2";
  fresh_standby_addr = bytes "10.9.0.1:7621";
  address = 167773954;
  prefix_len = 24;
}

prepared :
    prepare_force_repin three_nodes
      ((bytes "db-0", bytes "n0") ∷ [])
      databases
      empty
      ((bytes "db-0", bytes "n1") ∷ [])
      now
      (bytes "db-0")
    ≡ ok prep
unfolding prepare_force_repin Dict.get kubsd.Base.Str.str_eq resolve owner_of
    kubsd.Plane.Services.owner_among kubsd.Plane.Services.replica_index kubsd.Base.Str.strip_prefix
    kubsd.Base.Decimal.parse_uint kubsd.Base.Decimal.to_string
    kubsd.Plane.Services.pick_node_for_service kubsd.Plane.Worker.Nodes.alive_nodes
    kubsd.Plane.Registry.list kubsd.Base.Sort.sort kubsd.Base.Str.str_lt
    kubsd.Plane.Scheduler.pick_node kubsd.Plane.Registry.replicate_addr
    kubsd.Base.Decimal.digits_onto kubsd.Base.Decimal.is_digit kubsd.Base.Decimal.parse_digits
    kubsd.Base.Sort.sorted_insert kubsd.Plane.Addresses.first_free_address
    kubsd.Plane.Addresses.is_used kubsd.Plane.Registry.pod_cidr kubsd.Plane.Registry.status_of
    kubsd.Plane.Scheduler.better kubsd.Plane.Scheduler.fold kubsd.Plane.Scheduler.headroom_score
    kubsd.Plane.Worker.Repin.pick_fresh number cidr
prepared = refl

prepare_force_repin-IsSafe_example :
    IsSafe three_nodes
      ((bytes "db-0", bytes "n0") ∷ [])
      databases
      empty
      ((bytes "db-0", bytes "n1") ∷ [])
      now
      (bytes "db-0")
      prep
prepare_force_repin-IsSafe_example =
    prepare_force_repin-IsSafe three_nodes ((bytes "db-0", bytes "n0") ∷ []) databases empty
      ((bytes "db-0", bytes "n1") ∷ []) now (bytes "db-0") prep prepared
