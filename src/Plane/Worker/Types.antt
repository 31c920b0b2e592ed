-- ===== src/Plane/Worker/Types.antt =====
-- keel-controlplane/src/worker.rs and wire.rs: the errors and the replies of the commands.
use kubsd.Base.{ℕ, ◌/◌, ◌%◌, ◌^◌, List, ◌∷◌, ◌++◌, Option}
use kubsd.Base.Decimal.{to_string}
use kubsd.Base.Str.{Str}
use kubsd.Spec.Types.{JailTemplate}
use kubsd.Plane.Registry.{ResolveError}
use kubsd.Plane.Scheduler.{ScheduleError}

pub data ScheduleOrResolveError : Type 0 where
  schedule_failed : ScheduleError → ScheduleOrResolveError
  resolve_failed : ResolveError → ScheduleOrResolveError

pub data PlacementError : Type 0 where
  not_placed : Str → PlacementError
  placement_unresolved : ResolveError → PlacementError

pub record ForceRepinPrep : Type 0 where
  pub old_node_id : Str
  pub standby_node_id : Str
  pub standby_addr : Str
  pub template : JailTemplate
  pub fresh_standby_node_id : Str
  pub fresh_standby_addr : Str
  pub address : ℕ
  pub prefix_len : ℕ

pub data ForceRepinError : Type 0 where
  repin_not_placed not_stateful primary_still_alive : Str → ForceRepinError
  standby_unresolvable : ResolveError → ForceRepinError
  no_fresh_standby no_free_address : ForceRepinError

-- `ReplicaAction::Schedule`
pub record Schedule : Type 0 where
  pub replica_name : Str
  pub node_id : Str
  pub node_addr : Str
  pub template : JailTemplate
  pub address : ℕ
  pub prefix_len : ℕ
  pub standby_node_id : Option Str
  pub standby_addr : Option Str

-- `ReplicaAction::TearDown`
pub record TearDown : Type 0 where
  pub replica_name : Str
  pub node_id : Str
  pub node_addr : Str

pub data ReplicaAction : Type 0 where
  schedule : Schedule → ReplicaAction
  tear_down : TearDown → ReplicaAction

pub record ServiceReplica : Type 0 where
  pub name : Str
  pub node : Str
  pub address : Str

pub record ServiceSummary : Type 0 where
  pub name : Str
  pub desired_replicas : ℕ
  pub vip : Str
  pub port : ℕ

pub record ServiceProxyEntry : Type 0 where
  pub name : Str
  pub vip : Str
  pub port : ℕ
  pub replicas : List ServiceReplica

-- `Ipv4Addr::to_string`: the four bytes in decimal
unfoldable pub show_addr : ℕ → Str
show_addr a =
    to_string (a / 2 ^ 24 % 256)
    ++ (b'.' ∷ to_string (a / 2 ^ 16 % 256))
    ++ (b'.' ∷ to_string (a / 2 ^ 8 % 256))
    ++ (b'.' ∷ to_string (a % 256))
