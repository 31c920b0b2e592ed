-- ===== src/Plane/Http.antt =====
-- keel-controlplane/src/http.rs: what a request's thread does with the actions and the fences that
-- the worker names, one round trip to a node after another, each followed by its commands to the
-- worker. `forward`, the request to a node, and the YAML printer are parameters: a status, or `none`
-- when the node is not reached. What is only logged is left out. Between two of a thread's commands the worker
-- handles those of other threads, and it reads the clock at each.
pub mod Quiet
pub mod Executed
pub mod Fenced
pub mod Repin
pub mod Scheduled
pub mod Applied
pub mod Served
use kubsd.Base.{
  ℕ, suc, ◌≡◌, Bool, true, false, ◌&&◌, ◌||◌, List, [], ◌∷◌, ◌++◌, Option, none, some, Result, ok,
  err, and_then, ltb, leb, ◌==◌, if◌then◌else◌, is_empty, to_option,
}
use mathlib.Core.Option
use kubsd.Base.Decimal.{to_string}
use kubsd.Base.Str.{Str, bytes}
use kubsd.Extern.{Float, Ipnet}
use kubsd.Spec.Types.{JailSpec, JailTemplate, to_jail_spec}
use kubsd.Plane.Registry.{resolve}
use kubsd.Plane.Bookkeeping.{for_node}
use kubsd.Plane.Worker.Types.{Schedule, TearDown, ReplicaAction, schedule, tear_down, show_addr}
use kubsd.Plane.Worker.Reconcile.{reconcile_services}
use kubsd.Plane.Worker.Handle.{
  State, Command, handle, record_placement, remove_placement, record_replica_address,
  release_replica_address, record_standby, remove_pending_fence,
}

-- address, method, path and body to the status of the response
abbrev pub Forward : Type 0
Forward = Str → Str → Str → Str → Option ℕ

-- `(200..300).contains(&status)`
abbrev pub is_success : Option ℕ → Bool
is_success none = false
is_success (some status) = leb 200 status && ltb status 300

-- a fence is cleared by success or by 404
abbrev pub is_gone : Option ℕ → Bool
is_gone none = false
is_gone (some status) = (leb 200 status && ltb status 300) || (status == 404)

abbrev pub jail_path : Str → Str
jail_path replica_name = bytes "/jails/" ++ replica_name

-- the specification that a node is sent
unfoldable pub scheduled_spec : Schedule → JailSpec
scheduled_spec a =
    let cidr = show_addr a.address ++ (b'/' ∷ to_string a.prefix_len) in
    let spec = to_jail_spec a.template a.replica_name cidr in
    record spec { spec = record spec.spec { replicate_to = a.standby_addr } }

-- what the worker handles before a command of the thread, each at its instant, and the instant at
-- which it handles that command
pub record Turn (F : Type 0) : Type 0 where
  pub others : List (ℕ × Command F)
  pub instant : ℕ

-- the worker's state as the thread goes on, with the number of commands that the thread has sent
pub record Run (Net F : Type 0) : Type 0 where
  pub state : State Net F
  pub sent : ℕ

module _ {Net F : Type 0} ⦃ip : Ipnet Net⦄ ⦃fl : Float F⦄ where
  -- the commands of the other threads; `none` is a panic of the worker
  unfoldable pub interleave : State Net F → List (ℕ × Command F) → Option (State Net F)
  interleave s [] = some s
  interleave s ((now, c) ∷ rest) = and_then (handle s now c) (λ out. interleave out.0 rest)

module _ {Net F : Type 0} ⦃ip : Ipnet Net⦄ ⦃fl : Float F⦄ (turns : ℕ → Turn F) where
  abbrev pub instant_of : Run Net F → ℕ
  instant_of r = (turns r.sent).instant

  -- a command of the thread, as what the worker does at an instant, with its reply
  unfoldable pub submit :
      {A : Type 0}
      → Run Net F
      → (State Net F → ℕ → Option (State Net F × A))
      → Option (Run Net F × A)
  unfolding interleave
  submit r f = and_then (interleave r.state (turns r.sent).others) (λ s.
      Option.map (λ out. (record { state = out.0; sent = suc r.sent }, out.1)) (f s (instant_of r)))

  -- a command whose reply is not used
  unfoldable pub send : Run Net F → Command F → Option (Run Net F)
  unfolding submit handle
  send r c = Option.map (λ out. out.0) (submit r (λ s now. handle s now c))

  -- a command that leaves the state as it is
  unfoldable pub ask : {A : Type 0} → Run Net F → (State Net F → ℕ → A) → Option (Run Net F × A)
  unfolding submit
  ask r read = submit r (λ s now. some (s, read s now))

module _ {Net F : Type 0} ⦃ip : Ipnet Net⦄ ⦃fl : Float F⦄ (forward : Forward)
    (print_spec : JailSpec → Str) (turns : ℕ → Turn F) where
  abbrev pub send_standby : Run Net F → Str → Option Str → Option (Run Net F)
  send_standby r replica_name none = some r
  send_standby r replica_name (some id) = send turns r (record_standby replica_name id)

  unfoldable pub record_scheduled : Run Net F → Schedule → Option (Run Net F)
  unfolding send
  record_scheduled r a = and_then (send turns r (record_placement a.replica_name a.node_id)) (λ r'.
      and_then (send turns r' (record_replica_address a.replica_name a.node_id a.address))
        (λ r''. send_standby r'' a.replica_name a.standby_node_id))

  unfoldable pub record_torn_down : Run Net F → TearDown → Option (Run Net F)
  unfolding send
  record_torn_down r t =
      and_then (send turns r (remove_placement t.replica_name))
        (λ r'. send turns r' (release_replica_address t.replica_name))

  unfoldable pub execute_action : Run Net F → ReplicaAction → Option (Run Net F)
  unfolding record_scheduled record_torn_down
  execute_action r (schedule a) =
      if is_success (
        forward a.node_addr (bytes "PUT") (jail_path a.replica_name)
          (print_spec (scheduled_spec a)))
      then record_scheduled r a
      else some r
  execute_action r (tear_down t) =
      if is_success (forward t.node_addr (bytes "DELETE") (jail_path t.replica_name) [])
      then record_torn_down r t
      else some r

  unfoldable pub execute_replica_actions : Run Net F → List ReplicaAction → Option (Run Net F)
  unfolding execute_action
  execute_replica_actions r [] = some r
  execute_replica_actions r (a ∷ actions) =
      and_then (execute_action r a) (λ t. execute_replica_actions t actions)

  unfoldable pub reconcile_and_execute : Run Net F → Option (Run Net F)
  unfolding ask execute_replica_actions
  reconcile_and_execute r =
      and_then
        (ask turns r
          (λ s now. reconcile_services s.services s.placements s.registry s.used_addresses now))
        (λ out. execute_replica_actions out.0 out.1)

  -- the loop over the replicas that are owed a forced delete
  unfoldable pub execute_fences : Str → Run Net F → List Str → Option (Run Net F)
  unfolding send
  execute_fences addr r [] = some r
  execute_fences addr r (replica_name ∷ rest) =
      let deleted = is_gone (forward addr (bytes "DELETE") (jail_path replica_name) []) in
      and_then (if deleted then send turns r (remove_pending_fence replica_name) else some r)
        (λ t. execute_fences addr t rest)

  abbrev pub fence_at : Run Net F → List Str → Option Str → Option (Run Net F)
  fence_at r names none = some r
  fence_at r names (some addr) = execute_fences addr r names

  -- the names that are told; without any, the node's address is not asked for
  abbrev pub fence_names : Str → Run Net F → List Str → Option (Run Net F)
  fence_names node_id r names =
      if is_empty names
      then some r
      else and_then (ask turns r (λ s now. to_option (resolve s.registry node_id now)))
          (λ out. fence_at out.0 names out.1)

  unfoldable pub check_and_execute_fencing : Run Net F → Str → Option (Run Net F)
  unfolding ask execute_fences
  check_and_execute_fencing r node_id =
      and_then (ask turns r (λ s now. for_node s.pending_fences node_id))
        (λ out. fence_names node_id out.0 out.1)
