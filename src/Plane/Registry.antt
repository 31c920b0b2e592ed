-- ===== src/Plane/Registry.antt =====
-- keel-controlplane/src/registry.rs: the nodes, their heartbeats and their blocks. Instants and
-- durations are nanoseconds; `saturating_duration_since` is the subtraction that stops at 0.
pub mod Unique
pub mod Alive
use kubsd.Base.{
  ℕ, ◌-◌, ◌*◌, ◌/◌, ◌^◌, ◌≡◌, ◌≢◌, Bool, true, false, not, ◌&&◌, List, [], ◌∷◌, map, Option, none,
  some, Result, ok, err, ok_or, and_then, find, ltb, leb, if◌then◌else◌,
}
use mathlib.Core.Option
use kubsd.Base.Dict
use kubsd.Base.Dict.{Dict}
use kubsd.Base.Sort.{sort}
use kubsd.Base.Str.{Str, str_eq}
use kubsd.Extern.{Float, Ipnet}
use kubsd.Plane.Subnet.{derive_pod_cidr}

abbrev pub nanos : ℕ
nanos = 1_000_000_000

-- `DEAD_THRESHOLD`, 15 seconds
abbrev pub dead_threshold : ℕ
dead_threshold = 15 * nanos

pub record NodeRecord (Net F : Type 0) : Type 0 where
  pub addr : Str
  pub replicate_addr : Option Str
  pub last_heartbeat : ℕ
  pub capacity_cpu : F
  pub capacity_memory : ℕ
  pub committed_cpu : F
  pub committed_memory : ℕ
  pub pod_cidr : Net
  pub running_jails : Dict Bool

pub record Registry (Net F : Type 0) : Type 0 where
  pub cluster_cidr : Net
  pub nodes : Dict (NodeRecord Net F)

pub data UnknownNode : Type 0 where
  unknown_node : Str → UnknownNode

pub data ResolveError : Type 0 where
  unknown : Str → ResolveError
  dead : Str → ℕ → ResolveError

pub record PodCidrCollision : Type 0 where
  pub node_id : Str
  pub derived : Str
  pub conflicting_node_id : Str

-- keel-controlplane/src/wire.rs
pub record JailHealth : Type 0 where
  pub name : Str
  pub running : Bool

pub data NodeState : Type 0 where
  alive dead_node : NodeState

pub record NodeStatus (F : Type 0) : Type 0 where
  pub id : Str
  pub addr : Str
  pub pod_cidr : Str
  pub status : NodeState
  pub last_seen_secs : ℕ
  pub capacity_cpu : F
  pub capacity_memory : ℕ
  pub committed_cpu : F
  pub committed_memory : ℕ

abbrev pub is_alive : NodeState → Bool
is_alive alive = true
is_alive dead_node = false

-- `jails.into_iter().map(|j| (j.name, j.running)).collect()`: the last entry of a name wins
unfoldable pub health_map : Dict Bool → List JailHealth → Dict Bool
health_map m [] = m
health_map m (j ∷ jails) = health_map (Dict.insert j.name j.running m) jails

module _ {Net F : Type 0} where
  -- `Registry::new`
  abbrev pub new_registry : Net → Registry Net F
  new_registry cluster_cidr = record { cluster_cidr = cluster_cidr; nodes = [] }

  abbrev pub heartbeat_record : F → ℕ → List JailHealth → ℕ → NodeRecord Net F → NodeRecord Net F
  heartbeat_record cpu memory jails now r = record r {
    last_heartbeat = now;
    committed_cpu = cpu;
    committed_memory = memory;
    running_jails = health_map [] jails;
  }

  -- the `match` on the node's entry
  abbrev pub heartbeat_entry :
      Registry Net F
      → Str
      → F
      → ℕ
      → List JailHealth
      → ℕ
      → Option (NodeRecord Net F)
      → Registry Net F × Result (Unit {0}) UnknownNode
  heartbeat_entry r id cpu memory jails now (some node) = (
    record r { nodes = Dict.insert id (heartbeat_record cpu memory jails now node) r.nodes },
    ok tt,
  )
  heartbeat_entry r id cpu memory jails now none = (r, err (unknown_node id))

  unfoldable pub heartbeat :
      Registry Net F
      → Str
      → F
      → ℕ
      → List JailHealth
      → ℕ
      → Registry Net F × Result (Unit {0}) UnknownNode
  heartbeat r id cpu memory jails now =
      heartbeat_entry r id cpu memory jails now (Dict.get id r.nodes)

  -- `get(..).and_then(..).copied().unwrap_or(false)`
  abbrev pub running_in : Str → Option (NodeRecord Net F) → Bool
  running_in jail_name none = false
  running_in jail_name (some r) = Option.get_or (Dict.get jail_name r.running_jails) false

  unfoldable pub is_jail_running : Registry Net F → Str → Str → Bool
  is_jail_running r node_id jail_name = running_in jail_name (Dict.get node_id r.nodes)

  unfoldable pub pod_cidr : Registry Net F → Str → Option Net
  pod_cidr r node_id = Option.map (λ n. n.pod_cidr) (Dict.get node_id r.nodes)

  unfoldable pub replicate_addr : Registry Net F → Str → Option Str
  replicate_addr r node_id = and_then (Dict.get node_id r.nodes) (λ n. n.replicate_addr)

  -- whether a node counts as alive
  abbrev pub is_fresh : NodeRecord Net F → ℕ → Bool
  is_fresh n now = ltb (now - n.last_heartbeat) dead_threshold

  abbrev pub resolve_record : Str → ℕ → Option (NodeRecord Net F) → Result Str ResolveError
  resolve_record id now none = err (unknown id)
  resolve_record id now (some n) =
      if leb dead_threshold (now - n.last_heartbeat)
      then err (dead id ((now - n.last_heartbeat) / nanos))
      else ok n.addr

  unfoldable pub resolve : Registry Net F → Str → ℕ → Result Str ResolveError
  resolve r id now = resolve_record id now (Dict.get id r.nodes)

module _ {Net F : Type 0} ⦃ip : Ipnet Net⦄ where
  open ip use {net_eq, show}

  abbrev pub conflicts : Str → Net → Str × NodeRecord Net F → Bool
  conflicts id net entry = not (str_eq entry.0 id) && net_eq entry.1.pod_cidr net

  abbrev pub new_record : Str → Option Str → F → ℕ → F → ℕ → Net → NodeRecord Net F
  new_record addr replicate_addr cpu memory zero_cpu now net = record {
    addr = addr;
    replicate_addr = replicate_addr;
    last_heartbeat = now;
    capacity_cpu = cpu;
    capacity_memory = memory;
    committed_cpu = zero_cpu;
    committed_memory = 0;
    pod_cidr = net;
    running_jails = [];
  }

  -- what follows the search for another node with the block
  abbrev pub register_entry :
      F
      → Registry Net F
      → Str
      → Str
      → Option Str
      → F
      → ℕ
      → ℕ
      → Net
      → Option (Str × NodeRecord Net F)
      → Registry Net F × Result Net PodCidrCollision
  register_entry zero_cpu r id addr replicate_addr cpu memory now net (some (other, _)) =
      (r, err (record { node_id = id; derived = show net; conflicting_node_id = other }))
  register_entry zero_cpu r id addr replicate_addr cpu memory now net none = (
    record r {
      nodes = Dict.insert id (new_record addr replicate_addr cpu memory zero_cpu now net) r.nodes;
    },
    ok net,
  )

  abbrev pub register_at :
      F
      → Registry Net F
      → Str
      → Str
      → Option Str
      → F
      → ℕ
      → ℕ
      → Net
      → Registry Net F × Result Net PodCidrCollision
  register_at zero_cpu r id addr replicate_addr cpu memory now net =
      register_entry zero_cpu r id addr replicate_addr cpu memory now net
        (find (conflicts id net) r.nodes)

  -- `none` is the panic of `derive_pod_cidr`
  unfoldable pub register :
      F
      → Registry Net F
      → Str
      → Str
      → Option Str
      → F
      → ℕ
      → ℕ
      → Option (Registry Net F × Result Net PodCidrCollision)
  register zero_cpu r id addr replicate_addr cpu memory now =
      Option.map (register_at zero_cpu r id addr replicate_addr cpu memory now)
        (derive_pod_cidr id r.cluster_cidr)

  unfoldable pub status_of : ℕ → Str × NodeRecord Net F → NodeStatus F
  status_of now (id, n) = record {
    id = id;
    addr = n.addr;
    pod_cidr = show n.pod_cidr;
    status = if ltb (now - n.last_heartbeat) dead_threshold then alive else dead_node;
    last_seen_secs = (now - n.last_heartbeat) / nanos;
    capacity_cpu = n.capacity_cpu;
    capacity_memory = n.capacity_memory;
    committed_cpu = n.committed_cpu;
    committed_memory = n.committed_memory;
  }

  unfoldable pub list : Registry Net F → ℕ → List (NodeStatus F)
  unfolding status_of
  list r now = sort (λ s. s.id) (map (status_of now) r.nodes)
