-- ===== src/Samples/Runs/Planes.antt =====
-- Samples for the parts of keel-controlplane that the worker uses.
use kubsd.Base.{
  ℕ, ◌+◌, ◌-◌, ◌*◌, ◌/◌, ◌%◌, ◌^◌, ◌≤◌, ◌<◌, ◌≡◌, ◌≢◌, refl, ◌↔◌, ◌⊎◌, inl, inr, List, [], ◌∷◌,
  ◌++◌, Option, none, some, ok, err, true, false, Bool, if◌then◌else◌, ltb, All, Occurs, contains,
  length, arith, Result,
}
use mathlib.Core.List.{reverse}
use kubsd.Base.Dict
use kubsd.Base.Dict.{Distinct}
use kubsd.Base.Str.{Str, bytes}
use kubsd.Samples.{number, cidr, Cidr}
use kubsd.Spec.Types.{JailTemplate, on_failure}
use kubsd.Plane.Subnet.{derive_pod_cidr, u32_mod}
use kubsd.Plane.Subnet.Blocks.{derive_pod_cidr-inside}
use kubsd.Plane.Addresses.{empty, is_used, record_address, first_free_address}
use kubsd.Plane.Addresses.Consistent.{IsConsistent, empty-IsConsistent, record_address-IsConsistent}
use kubsd.Plane.Addresses.Free.{Assignable, first_free_address-lowest}
use kubsd.Plane.Bookkeeping.{PendingFences}
use kubsd.Plane.Registry
use kubsd.Plane.Registry.{
  Registry, NodeRecord, heartbeat, resolve, list, dead_threshold, nanos, dead, new_registry,
  register,
}
use kubsd.Plane.Registry.Unique.{Outcome, register-Outcome}
use kubsd.Plane.Registry.Alive.{Resolves, heartbeat-resolve, list-Resolves}
use kubsd.Plane.Scheduler.{NodeResources, pick_node, pick_node-IsBest, IsBest}
use kubsd.Plane.Services.{
  Services, ServiceRecord, service, replica_name, replica_index, owner_of, apply, store_service,
  taken_vips, template_changed, port_changed, vip_pool_exhausted, diff_replicas,
}
use kubsd.Plane.Services.Names.{replica_index-eq-some}
use kubsd.Plane.Services.Owners.{Named, IsReplicaOf, owner_of_iff}
use kubsd.Plane.Services.Vips.{InNetwork, apply_new, apply_existing}
use kubsd.Plane.Services.Plan.{IsMissing, IsIncreasing, diff_replicas-grow, diff_replicas-shrink}

-- 10.0.0.0/16 for the cluster and 10.1.0.0/24 for the services
abbrev pub cluster : Cidr
cluster = (167772160, 16)

abbrev pub service_net : Cidr
service_net = (167837696, 24)

-- 10.0.7.0/24
abbrev pub block : Cidr
block = (167774000 - 48, 24)

abbrev pub node : NodeRecord Cidr ℕ
node = record {
  addr = bytes "10.9.0.1:7620";
  replicate_addr = some (bytes "10.9.0.1:7621");
  last_heartbeat = 100 * nanos;
  capacity_cpu = 8;
  capacity_memory = 1024;
  committed_cpu = 1;
  committed_memory = 100;
  pod_cidr = block;
  running_jails = [];
}

abbrev pub registry : Registry Cidr ℕ
registry = record { cluster_cidr = cluster; nodes = (bytes "n1", node) ∷ [] }

abbrev pub template : JailTemplate
template = record {
  image = bytes "base";
  command = bytes "/bin/sh" ∷ [];
  network = record { vnet = true; bridge = bytes "keel0" };
  resources = record { cpu = bytes "1"; memory = bytes "512M" };
  restart_policy = on_failure;
  volumes = [];
}

abbrev pub web : ServiceRecord
web = record { desired_replicas = 2; template = template; vip = 167837700; port = 80 }

abbrev pub services : Services Cidr
services = record { service_cidr = service_net; by_name = (bytes "web", web) ∷ [] }

derive_pod_cidr-inside_example :
    (n : Cidr) × (derive_pod_cidr (bytes "n1") cluster ≡ some n)
    × (cidr.prefix_len n ≡ 24)
    × (cidr.network cluster ≤ cidr.network n)
    × (cidr.network n + 256 ≤ cidr.network cluster + 2 ^ (32 - 16))
    × (cidr.network n % 256 ≡ 0)
unfolding cidr
derive_pod_cidr-inside_example = derive_pod_cidr-inside (bytes "n1") cluster (omega arith)

held_by_none :
    (k : Str) → Dict.get k empty.by_jail ≡ some (bytes "n1", 167773958) → k ≡ bytes "web-0"
unfolding Dict.get kubsd.Base.Str.str_eq
held_by_none k h = cc

record_address-IsConsistent_example :
    IsConsistent (record_address empty (bytes "web-0") (bytes "n1") 167773958)
record_address-IsConsistent_example =
    record_address-IsConsistent empty (bytes "web-0") (bytes "n1") 167773958 empty-IsConsistent
      held_by_none

first_free_address-lowest_example :
    ((a : ℕ) × (first_free_address block (bytes "n1") empty ≡ some a)
      × Assignable block (bytes "n1") empty a
      × (is_used empty (bytes "n1") a ≡ false)
      × ((b : ℕ)
          → Assignable block (bytes "n1") empty b
          → b < a
          → is_used empty (bytes "n1") b ≡ true))
    ⊎ ((first_free_address block (bytes "n1") empty ≡ none)
        × ((b : ℕ) → Assignable block (bytes "n1") empty b → is_used empty (bytes "n1") b ≡ true))
unfolding cidr
first_free_address-lowest_example = first_free_address-lowest block (bytes "n1") empty (omega arith)

abbrev pub fences : PendingFences
fences = (bytes "db-0", bytes "n1") ∷ []

pub known : Dict.get (bytes "n1") registry.nodes ≡ some node
unfolding Dict.get kubsd.Base.Str.str_eq
known = refl

heartbeat-resolve_example :
    resolve (heartbeat registry (bytes "n1") 1 100 [] (110 * nanos)).0 (bytes "n1") (120 * nanos)
    ≡ (if ltb (120 * nanos - 110 * nanos) dead_threshold
        then ok (bytes "10.9.0.1:7620")
        else err (dead (bytes "n1") ((120 * nanos - 110 * nanos) / nanos)))
heartbeat-resolve_example =
    heartbeat-resolve registry (bytes "n1") 1 100 [] (110 * nanos) (120 * nanos) node known

list-Resolves_example : All (Resolves registry (105 * nanos)) (list registry (105 * nanos))
list-Resolves_example = list-Resolves registry (105 * nanos) (tt, tt)

abbrev resources : NodeResources ℕ
resources = record {
  id = bytes "n1";
  capacity_cpu = 8;
  capacity_memory = 1024;
  committed_cpu = 1;
  committed_memory = 100;
}

-- a node without memory left, and two that are empty
abbrev three : List (NodeResources ℕ)
three =
    resources
    ∷ record resources { id = bytes "n3"; committed_cpu = 0; committed_memory = 0 }
    ∷ record resources { id = bytes "n2"; committed_cpu = 0; committed_memory = 0 }
    ∷ []

picked : pick_node (resources ∷ three) ≡ ok (bytes "n2")
unfolding pick_node kubsd.Plane.Scheduler.better kubsd.Plane.Scheduler.fold
    kubsd.Plane.Scheduler.headroom_score kubsd.Base.Str.str_lt kubsd.Samples.number
picked = refl

pick_node-IsBest_example :
    (id : Str) × (pick_node (resources ∷ three) ≡ ok id) × IsBest id (resources ∷ three)
pick_node-IsBest_example = pick_node-IsBest resources three

read_index : replica_index (bytes "web") (bytes "web-12") ≡ some 12
unfolding replica_index kubsd.Base.Str.strip_prefix kubsd.Base.Decimal.parse_uint
    kubsd.Base.Str.str_eq kubsd.Base.Decimal.to_string
read_index = refl

replica_index-eq-some_example : (bytes "web-12" ≡ replica_name (bytes "web") 12) × (12 < u32_mod)
replica_index-eq-some_example = replica_index-eq-some (bytes "web") (bytes "web-12") 12 read_index

placed : Dict.get (bytes "web-0") ((bytes "web-0", bytes "n1") ∷ []) ≡ some (bytes "n1")
unfolding Dict.get kubsd.Base.Str.str_eq
placed = refl

owner_of_iff_example :
    (owner_of (bytes "web-0") ((bytes "web-0", bytes "n1") ∷ []) services
      ≡ some (service (bytes "web")))
    ↔ (Named (bytes "web") services.by_name × IsReplicaOf (bytes "web-0") (bytes "web"))
owner_of_iff_example =
    owner_of_iff (bytes "web-0") (bytes "n1") (bytes "web") ((bytes "web-0", bytes "n1") ∷ [])
      services placed

known_service : Dict.get (bytes "web") services.by_name ≡ some web
unfolding Dict.get kubsd.Base.Str.str_eq
known_service = refl

apply_existing_example :
    ((apply services (bytes "web") 3 template 80
        ≡ some (store_service services (bytes "web") (record web { desired_replicas = 3 }), ok tt))
      × (template ≡ template)
      × (web.port ≡ 80))
    ⊎ (((apply services (bytes "web") 3 template 80
            ≡ some (services, err (template_changed (bytes "web"))))
          × (template ≢ template))
        ⊎ ((apply services (bytes "web") 3 template 80
              ≡ some (services, err (port_changed (bytes "web"))))
            × (web.port ≢ 80)))
apply_existing_example = apply_existing services (bytes "web") 3 template 80 web known_service

unknown_service : Dict.get (bytes "db") services.by_name ≡ none
unfolding Dict.get kubsd.Base.Str.str_eq
unknown_service = refl

apply_new_example :
    ((vip : ℕ) × (apply services (bytes "db") 1 template 5432
        ≡ some (
          store_service services
              (bytes "db")
              (record { desired_replicas = 1; template = template; vip = vip; port = 5432 }),
          ok tt,
        ))
      × InNetwork service_net vip
      × (contains (taken_vips services.by_name) vip ≡ false))
    ⊎ ((apply services (bytes "db") 1 template 5432
          ≡ some (services, err (vip_pool_exhausted (bytes "db"))))
        × ((addr : ℕ)
            → InNetwork service_net addr
            → contains (taken_vips services.by_name) addr ≡ true))
unfolding cidr
apply_new_example = apply_new services (bytes "db") 1 template 5432 unknown_service (omega arith)

diff_replicas-grow_example :
    (length {A = ℕ} (1 ∷ []) + length (diff_replicas 3 (1 ∷ [])).0 ≡ 3)
    × All (IsMissing (1 ∷ []) 0 3) (diff_replicas 3 (1 ∷ [])).0
    × IsIncreasing (1 ∷ []) (diff_replicas 3 (1 ∷ [])).0
    × ((i j : ℕ)
        → Occurs i (diff_replicas 3 (1 ∷ [])).0
        → j < i
        → contains (1 ∷ []) j ≡ false
        → Occurs j (diff_replicas 3 (1 ∷ [])).0)
    × ((diff_replicas 3 (1 ∷ [])).1 ≡ [])
diff_replicas-grow_example = diff_replicas-grow (1 ∷ []) 3 (omega arith) (omega arith)

diff_replicas-shrink_example :
    ((diff_replicas 1 (0 ∷ 2 ∷ [])).0 ≡ [])
    × ((kept : List ℕ) × (0 ∷ 2 ∷ [] ≡ kept ++ reverse (diff_replicas 1 (0 ∷ 2 ∷ [])).1)
        × (length kept ≡ 1))
diff_replicas-shrink_example = diff_replicas-shrink 1 (0 ∷ 2 ∷ []) (omega arith) (omega arith)

-- the block that the name `n1` derives
abbrev derived : Cidr
derived = (167772160, 24)

abbrev fresh : Registry Cidr ℕ
fresh = new_registry cluster

abbrev outcome : Registry Cidr ℕ × Result Cidr Registry.PodCidrCollision
outcome = (
  record fresh {
    nodes =
        Dict.insert (bytes "n1")
          (Registry.new_record (bytes "10.9.0.1:7620") none 8 1024 0 0 derived) [];
  },
  ok derived,
)

registered :
    Registry.register 0 fresh (bytes "n1") (bytes "10.9.0.1:7620") none 8 1024 0 ≡ some outcome
unfolding Registry.register derive_pod_cidr cidr kubsd.Plane.Subnet.block_addr
    kubsd.Plane.Subnet.fnv1a
registered = refl

register-Outcome_example :
    Outcome 0 fresh (bytes "n1") (bytes "10.9.0.1:7620") none 8 1024 0 outcome
register-Outcome_example =
    register-Outcome 0 fresh (bytes "n1") (bytes "10.9.0.1:7620") none 8 1024 0 outcome registered
