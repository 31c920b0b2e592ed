-- ===== src/Agent/Reconciler.antt =====
-- keel-agentd/src/reconciler.rs: the reconciler's state, how it is loaded, and the operations that
-- change what is wanted. The state has the node, its files and the services' addresses, which the
-- reconciler shares, in it. Where the source adds one to a u32, the sum wraps.
pub mod Ingresses
pub mod Pass
pub mod Steps
pub mod Sound
pub mod Convergent
pub mod Committed
pub mod Tidy
pub mod Renewed
pub mod Wanted
use kubsd.Base.{
  ℕ, ◌+◌, ◌^◌, ◌%◌, Bool, true, false, not, List, [], ◌∷◌, ◌++◌, map, Option, none, some, Result,
  ok, err, ltb, if◌then◌else◌, is_empty,
}
use mathlib.Core.Option
use kubsd.Base.Dict
use kubsd.Base.Dict.{Dict}
use kubsd.Base.Effects.{Step, return, raise, lift, wrap, ◌>>=◌, ◌>>◌}
use kubsd.Base.Str.{Str, bytes}
use kubsd.Extern.{Float}
use kubsd.Spec.Types.{JailSpec, IngressSpec, SpecError, always}
use kubsd.Spec.Names.{validate_name, validate_address, validate_transition}
use kubsd.Spec.Hosts.{validate_host, validate_email}
use kubsd.Spec.Parse.{check_port}
use kubsd.Spec.Resources.{parse_cpu_cores, parse_memory_bytes}
use kubsd.Agent.Backoff.{BackoffState}
use kubsd.Agent.Checks.{check_jail, check_ingress}
use kubsd.Agent.Host.{zfs_not_found, NetError}
use kubsd.Agent.Ingress.{nginx_conf_path}
use kubsd.Agent.Provision.{checked, tear_down_jail}
use kubsd.Agent.Record.{JailRecord, volume_dataset_path, ingress_jail_bridge_addr}
use kubsd.Agent.Site.{Site, ReconcileError, store, zfs, not_found}
use kubsd.Agent.Store.{IngressRecord, StoreError, ingress_dir}
use kubsd.Agent.Store

pub record Reconciler (W : Type 0) : Type 0 where
  pub node : W
  pub pool : Str
  pub state_dir : Str
  pub records : Dict JailRecord
  pub backoff : Dict BackoffState
  pub next_epair_ordinal : ℕ
  pub ingress_records : Dict IngressRecord
  pub ingress_backoff : Dict BackoffState
  pub service_vips : Dict (Str × ℕ)

abbrev pub next_u32 : ℕ → ℕ
next_u32 n = (n + 1) % 2 ^ 32

module _ {W A E : Type 0} where
  abbrev pub with_node : Reconciler W → W × Result A E → Reconciler W × Result A E
  with_node s (w, r) = (record s { node = w }, r)

  -- a step of the node, as one of the reconciler
  abbrev pub on_node : Step W A E → Step (Reconciler W) A E
  on_node m s = with_node s (m s.node)

-- `iter().map(|r| r.epair_ordinal).max()`
abbrev pub max_option : ℕ → Option ℕ → ℕ
max_option n none = n
max_option n (some m) = if ltb n m then m else n

abbrev pub max_ordinal : List JailRecord → Option ℕ
max_ordinal [] = none
max_ordinal (r ∷ rs) = some (max_option r.epair_ordinal (max_ordinal rs))

abbrev pub ordinal_after : Option ℕ → ℕ
ordinal_after none = 1
ordinal_after (some m) = next_u32 m

-- `collect()` into a map, whose later entries replace earlier ones
abbrev pub collect : {R : Type 0} → (R → Str) → List R → Dict R → Dict R
collect key [] m = m
collect key (r ∷ rs) m = collect key rs (Dict.insert (key r) r m)

abbrev pub jail_key : JailRecord → Str
jail_key r = r.spec.metadata.name

abbrev pub ingress_key : IngressRecord → Str
ingress_key r = r.spec.metadata.name

abbrev pub retargeted : Option Str → JailRecord → JailRecord
retargeted replicate_to r = record r {
  spec = record r.spec { spec = record r.spec.spec { replicate_to = replicate_to } };
}

module _ {W : Type 0} (site : Site W) where
  abbrev pub empty_reconciler : Str → Str → Dict (Str × ℕ) → W → Reconciler W
  empty_reconciler pool state_dir service_vips w = record {
    node = w;
    pool = pool;
    state_dir = state_dir;
    records = [];
    backoff = [];
    next_epair_ordinal = 1;
    ingress_records = [];
    ingress_backoff = [];
    service_vips = service_vips;
  }

  -- `Reconciler::new`
  unfoldable pub new : Str → Str → Dict (Str × ℕ) → Step W (Reconciler W) StoreError
  new pool state_dir service_vips = do
    loaded ← Store.load_all site.files site.jail_codec state_dir
    ingress_loaded ← Store.load_all site.files site.ingress_codec (ingress_dir state_dir)
    λ w.
        return
          (record (empty_reconciler pool state_dir service_vips w) {
            next_epair_ordinal = ordinal_after (max_ordinal loaded);
            records = collect jail_key loaded [];
            ingress_records = collect ingress_key ingress_loaded [];
          })
          w

  -- `store::save` and the insertion that follows it
  unfoldable pub save_record : Str → JailRecord → Step (Reconciler W) (Unit {0}) ReconcileError
  save_record name r s =
      (do
        wrap store (on_node (Store.save site.files site.jail_codec s.state_dir (jail_key r) r))
        λ t. (record t { records = Dict.insert name r t.records }, ok tt))
        s

  -- the ordinal of the record, which is a new one for a new jail
  abbrev pub ordinal_for : JailSpec → Option JailRecord → Step (Reconciler W) ℕ ReconcileError
  ordinal_for spec (some existing) s =
      (checked (validate_transition existing.spec spec) >> return existing.epair_ordinal) s
  ordinal_for spec none s =
      (record s { next_epair_ordinal = next_u32 s.next_epair_ordinal }, ok s.next_epair_ordinal)

  -- `get_volume` and `delete_volume`
  unfoldable pub get_volume : Str → Step (Reconciler W) (Unit {0}) ReconcileError
  get_volume name s =
      let dataset = volume_dataset_path s.pool name in
      (do
        exists ← wrap zfs (on_node (site.host.zfs.dataset_exists dataset))
        if exists then return tt else raise (zfs (zfs_not_found dataset)))
        s

  unfoldable pub delete_volume : Str → Step (Reconciler W) (Unit {0}) ReconcileError
  delete_volume name s =
      wrap zfs (on_node (site.host.zfs.destroy_dataset (volume_dataset_path s.pool name))) s

  -- the four wrappers of the network manager
  unfoldable pub add_route : Str → Str → Step (Reconciler W) (Unit {0}) NetError
  add_route subnet gateway_addr = on_node (site.host.net.add_route subnet gateway_addr)

  unfoldable pub remove_route : Str → Step (Reconciler W) (Unit {0}) NetError
  remove_route subnet = on_node (site.host.net.remove_route subnet)

  unfoldable pub add_alias : Str → Str → Step (Reconciler W) (Unit {0}) NetError
  add_alias bridge address = on_node (site.host.net.add_alias bridge address)

  unfoldable pub remove_alias : Str → Str → Step (Reconciler W) (Unit {0}) NetError
  remove_alias bridge address = on_node (site.host.net.remove_alias bridge address)

  -- `delete` of a record that is there
  abbrev pub delete_record : Str → Option JailRecord → Step (Reconciler W) (Unit {0}) ReconcileError
  delete_record name none s = (s, err (not_found name))
  delete_record name (some r) s =
      (do
        on_node (tear_down_jail site.host s.pool name r)
        wrap store (on_node (Store.remove site.files site.jail_codec s.state_dir name))
        λ t. (
          record t { records = Dict.remove name t.records; backoff = Dict.remove name t.backoff },
          ok tt,
        ))
        s

  unfoldable pub delete : Str → Step (Reconciler W) (Unit {0}) ReconcileError
  delete name s = delete_record name (Dict.get name s.records) s

  unfoldable pub retarget :
      Str → Option Str → Option JailRecord → Step (Reconciler W) (Unit {0}) ReconcileError
  unfolding save_record
  retarget name replicate_to none = raise (not_found name)
  retarget name replicate_to (some r) = save_record name (retargeted replicate_to r)

  unfoldable pub set_replicate_to : Str → Option Str → Step (Reconciler W) (Unit {0}) ReconcileError
  set_replicate_to name replicate_to s = retarget name replicate_to (Dict.get name s.records) s

-- the specification of the ingress jail
abbrev pub ingress_jail_spec : JailSpec
ingress_jail_spec = record {
  api_version = bytes "keel/v1";
  kind = bytes "Jail";
  metadata = record { name = bytes "ingress" };
  spec = record {
    image = bytes "base/keel-ingress";
    command =
        bytes "/usr/local/sbin/nginx"
        ∷ bytes "-c"
        ∷ nginx_conf_path
        ∷ bytes "-g"
        ∷ bytes "daemon off;"
        ∷ [];
    network = record {
      vnet = true;
      bridge = bytes "keel0";
      address = ingress_jail_bridge_addr ++ bytes "/24";
    };
    resources = record { cpu = bytes "1"; memory = bytes "256M" };
    restart_policy = always;
    volumes = [];
    replicate_to = none;
  };
}

abbrev pub is_tracked : Option JailRecord → Bool
is_tracked none = false
is_tracked (some r) = true

module _ (F : Type 0) {W : Type 0} ⦃float : Float F⦄ (site : Site W) where
  unfoldable pub apply : JailSpec → Step (Reconciler W) (Unit {0}) ReconcileError
  unfolding save_record
  apply spec s =
      (do
        checked (check_jail F site.parse_address spec)
        ordinal ← ordinal_for site spec (Dict.get spec.metadata.name s.records)
        save_record site spec.metadata.name (record { spec = spec; epair_ordinal = ordinal }))
        s

  unfoldable pub ensure_ingress_jail : Step (Reconciler W) (Unit {0}) ReconcileError
  unfolding apply
  ensure_ingress_jail s =
      let applied = apply ingress_jail_spec s in
      if is_empty s.ingress_records
      then (s, ok tt)
      else if is_tracked (Dict.get (bytes "ingress") s.records)
      then (s, ok tt)
      else applied
