-- ===== src/Plane/Services.antt =====
-- keel-controlplane/src/services.rs: the services, the names of their replicas, and the plan that
-- brings a service to its number of replicas.
pub mod Names
pub mod Owners
pub mod Vips
pub mod Plan
use kubsd.Base.{
  ℕ, zero, suc, ◌+◌, ◌-◌, ◌%◌, ◌^◌, ◌≡◌, Bool, true, false, not, List, [], ◌∷◌, ◌++◌, map, Option,
  none, some, Result, ok, err, and_then, ltb, ◌==◌, if◌then◌else◌, length, take, filter, contains,
  is_empty,
}
use mathlib.Core.List.{reverse}
use mathlib.Core.Option
use kubsd.Base.Decimal.{to_string, parse_uint}
use kubsd.Base.Dict
use kubsd.Base.Dict.{Dict}
use kubsd.Base.Sort.{sort}
use kubsd.Base.Str.{Str, bytes, str_eq, strip_prefix}
use kubsd.Extern.{Float, Ipnet}
use kubsd.Spec.Types.{JailTemplate}
use kubsd.Spec.Equality.{template_eq}
use kubsd.Spec.Volumes.{has}
use kubsd.Plane.Subnet.{derive_service_vip, u32_mod}
use kubsd.Plane.Scheduler.{NodeResources, ScheduleError, pick_node}
use kubsd.Plane.Bookkeeping.{Placements}

pub record ServiceRecord : Type 0 where
  pub desired_replicas : ℕ
  pub template : JailTemplate
  pub vip : ℕ
  pub port : ℕ

pub record Services (Net : Type 0) : Type 0 where
  pub service_cidr : Net
  pub by_name : Dict ServiceRecord

pub data Owner : Type 0 where
  unmanaged : Owner
  service : Str → Owner

pub data ApplyServiceError : Type 0 where
  name_conflict : Str → Owner → ApplyServiceError
  template_changed port_changed vip_pool_exhausted : Str → ApplyServiceError

pub data UnknownService : Type 0 where
  unknown_service : Str → UnknownService

-- `format!("{service_name}-{index}")`
abbrev pub replica_name : Str → ℕ → Str
replica_name service_name index = service_name ++ (b'-' ∷ to_string index)

-- the digits after the hyphen, in the form that printing gives
abbrev pub canonical_index : Str → Option ℕ
canonical_index suffix =
    and_then (parse_uint u32_mod suffix)
      (λ index. if str_eq (to_string index) suffix then some index else none)

unfoldable pub replica_index : Str → Str → Option ℕ
replica_index service_name jail_name =
    and_then (strip_prefix service_name jail_name)
      (λ rest. and_then (strip_prefix (b'-' ∷ []) rest) canonical_index)

abbrev pub is_some {ℓ} : {A : Type ℓ} → Option A → Bool
is_some none = false
is_some (some a) = true

-- the loop over the services' names
unfoldable pub owner_among : Str → Dict ServiceRecord → Owner
owner_among name [] = unmanaged
owner_among name ((service_name, _) ∷ rest) =
    if is_some (replica_index service_name name)
    then service service_name
    else owner_among name rest

module _ {Net : Type 0} where
  abbrev pub new_services : Net → Services Net
  new_services service_cidr = record { service_cidr = service_cidr; by_name = [] }

  -- `Services::get`, `Services::remove`
  abbrev pub get_service : Services Net → Str → Option ServiceRecord
  get_service s name = Dict.get name s.by_name

  abbrev pub remove_service : Services Net → Str → Services Net
  remove_service s name = record s { by_name = Dict.remove name s.by_name }

  -- `Services::list`
  unfoldable pub list_services : Services Net → Dict ServiceRecord
  list_services s = sort (λ e. e.0) s.by_name

  unfoldable pub owner_of : Str → Placements → Services Net → Option Owner
  owner_of name placements services =
      Option.map (λ _. owner_among name services.by_name) (Dict.get name placements)

-- The addresses that the services have.
abbrev pub taken_vips : Dict ServiceRecord → List ℕ
taken_vips [] = []
taken_vips ((_, r) ∷ rest) = r.vip ∷ taken_vips rest

module _ {Net : Type 0} ⦃ip : Ipnet Net⦄ where
  -- `(attempt..attempt + left).map(derive_service_vip).find(not taken)`; `none` is its panic
  unfoldable pub probe : Str → Net → List ℕ → ℕ → ℕ → Option (Option ℕ)
  probe name net taken zero attempt = some none
  probe name net taken (suc left) attempt =
      let rest = probe name net taken left (attempt + 1) in
      elim (derive_service_vip name net attempt) [
        | none ↦ none
        | some addr ↦ if contains taken addr then rest else some (some addr)
      ]

  abbrev pub store_service : Services Net → Str → ServiceRecord → Services Net
  store_service s name r = record s { by_name = Dict.insert name r s.by_name }

  -- an existing service: only the number of replicas may change
  abbrev pub update_service :
      Services Net
      → Str
      → ℕ
      → JailTemplate
      → ℕ
      → ServiceRecord
      → Services Net × Result (Unit {0}) ApplyServiceError
  update_service s name desired template port existing =
      if not (template_eq existing.template template)
      then (s, err (template_changed name))
      else if not (existing.port == port)
      then (s, err (port_changed name))
      else (
        store_service s name (record {
          desired_replicas = desired;
          template = template;
          vip = existing.vip;
          port = port;
        }),
        ok tt,
      )

  -- a new service, with what the probe found
  abbrev pub create_service :
      Services Net
      → Str
      → ℕ
      → JailTemplate
      → ℕ
      → Option ℕ
      → Services Net × Result (Unit {0}) ApplyServiceError
  create_service s name desired template port none = (s, err (vip_pool_exhausted name))
  create_service s name desired template port (some vip) = (
    store_service s name
        (record { desired_replicas = desired; template = template; vip = vip; port = port }),
    ok tt,
  )

  abbrev pub apply_entry :
      Services Net
      → Str
      → ℕ
      → JailTemplate
      → ℕ
      → Option ServiceRecord
      → Option (Services Net × Result (Unit {0}) ApplyServiceError)
  apply_entry s name desired template port (some existing) =
      some (update_service s name desired template port existing)
  apply_entry s name desired template port none =
      Option.map (create_service s name desired template port) (
        probe name s.service_cidr (taken_vips s.by_name) (2 ^ (32 - ip.prefix_len s.service_cidr))
          0)

  -- `Services::apply`; `none` is a panic
  unfoldable pub apply :
      Services Net
      → Str
      → ℕ
      → JailTemplate
      → ℕ
      → Option (Services Net × Result (Unit {0}) ApplyServiceError)
  unfolding probe
  apply s name desired template port =
      apply_entry s name desired template port (Dict.get name s.by_name)

-- `(start..).filter(|i| !healthy.contains(i)).take(count)`, over at most `fuel` numbers
unfoldable pub lowest_missing : ℕ → ℕ → ℕ → List ℕ → List ℕ
lowest_missing zero start count healthy = []
lowest_missing (suc fuel) start zero healthy = []
lowest_missing (suc fuel) start (suc count) healthy =
    let present = contains healthy start in
    let rest = lowest_missing fuel (start + 1) (if present then suc count else count) healthy in
    if present then rest else start ∷ rest

-- A `BTreeSet<u32>` is its elements in increasing order. All missing numbers that are wanted are
-- below `desired`, so that many are enough to look at.
unfoldable pub diff_replicas : ℕ → List ℕ → List ℕ × List ℕ
unfolding lowest_missing
diff_replicas desired healthy =
    let healthy_count = length healthy % u32_mod in
    if ltb healthy_count desired
    then (lowest_missing desired 0 (desired - healthy_count) healthy, [])
    else if ltb desired healthy_count
    then ([], take (healthy_count - desired) (reverse healthy))
    else ([], [])

-- `nodes_hosting_service`: a set, in which the order and repetitions say nothing
unfoldable pub nodes_hosting_service : Str → Placements → List Str
nodes_hosting_service service_name [] = []
nodes_hosting_service service_name ((jail_name, node_id) ∷ placements) =
    let rest = nodes_hosting_service service_name placements in
    if is_some (replica_index service_name jail_name) then node_id ∷ rest else rest

module _ {F : Type 0} ⦃fl : Float F⦄ where
  unfoldable pub pick_node_for_service :
      List (NodeResources F) → List Str → Result Str ScheduleError
  pick_node_for_service candidates busy_nodes =
      let filtered = filter (λ n. not (has busy_nodes n.id)) candidates in
      if not (is_empty filtered) then pick_node filtered else pick_node candidates
