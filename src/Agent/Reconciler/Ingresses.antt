-- ===== src/Agent/Reconciler/Ingresses.antt =====
-- keel-agentd/src/reconciler.rs: the ingresses, their certificates and nginx's configuration. Seconds
-- of the wall clock are an i64, which is its two's complement: a number below 2^64, from 2^63 on a
-- negative one. Sums and differences wrap around, as a release build has them.
use kubsd.Base.{
  ℕ, ◌+◌, ◌-◌, ◌^◌, ◌%◌, ◌*◌, Bool, true, false, not, ◌||◌, List, [], ◌∷◌, ◌++◌, map, Option, none,
  some, Result, ok, err, ltb, if◌then◌else◌, filter_map, and_then,
}
use mathlib.Core.Option
use kubsd.Base.Dict
use kubsd.Base.Effects.{Step, wrap, ◌>>=◌, ◌>>◌}
use kubsd.Base.Str.{Str, bytes}
use kubsd.Spec.Types.{IngressSpec}
use kubsd.Agent.Backoff.{BackoffState, can_retry, record_attempt}
use kubsd.Agent.Backoff
use kubsd.Agent.Checks.{check_ingress}
use kubsd.Agent.Files.{join_path}
use kubsd.Agent.Ingress.{AcmeError, Cert, IngressBackendConfig, NginxError, render_nginx_config}
use kubsd.Agent.Provision.{checked}
use kubsd.Agent.Reconciler.{Reconciler, on_node, ingress_key}
use kubsd.Agent.Record.{jail_rootfs_path}
use kubsd.Agent.Site.{Site, ReconcileError, store, not_found}
use kubsd.Agent.Store.{IngressRecord, StoreError, io, ingress_dir}
use kubsd.Agent.Store

-- `or_insert_with(BackoffState::new)`
abbrev pub entry : Option BackoffState → BackoffState
entry none = Backoff.new
entry (some b) = b

abbrev pub expiry : Option IngressRecord → Option ℕ
expiry none = none
expiry (some r) = r.cert_expires_at_unix

abbrev pub is_ingress : Option IngressRecord → Bool
is_ingress none = false
is_ingress (some r) = true

-- `RENEWAL_THRESHOLD_SECS`, and the 90 days that a certificate is taken to be valid
abbrev pub renewal_threshold_secs : ℕ
renewal_threshold_secs = 30 * 24 * 60 * 60

abbrev pub validity_secs : ℕ
validity_secs = 90 * 24 * 60 * 60

abbrev pub i64_add : ℕ → ℕ → ℕ
i64_add a b = (a + b) % 2 ^ 64

abbrev pub i64_sub : ℕ → ℕ → ℕ
i64_sub a b = (a + (2 ^ 64 - b % 2 ^ 64)) % 2 ^ 64

-- the signed order
abbrev pub i64_lt : ℕ → ℕ → Bool
i64_lt a b = ltb ((a + 2 ^ 63) % 2 ^ 64) ((b + 2 ^ 63) % 2 ^ 64)

abbrev pub needs_issuance : Bool → ℕ → Option ℕ → Bool
needs_issuance cert_file_missing now_unix none = true
needs_issuance cert_file_missing now_unix (some expires_at) =
    cert_file_missing || i64_lt (i64_sub expires_at now_unix) renewal_threshold_secs

-- the three failures after which a certificate is retried
pub data CertFailure : Type 0 where
  issuing : AcmeError → CertFailure
  storing : ReconcileError → CertFailure

abbrev pub certs_dir : Str → Str
certs_dir pool =
    join_path (jail_rootfs_path pool (bytes "ingress")) (bytes "usr/local/etc/nginx/certs")

-- the record after `apply_ingress`, and after a certificate was issued
abbrev pub ingress_record : IngressSpec → Option IngressRecord → IngressRecord
ingress_record spec existing = record { spec = spec; cert_expires_at_unix = expiry existing }

abbrev pub renewed_until : ℕ → IngressRecord → IngressRecord
renewed_until now_unix r = record r { cert_expires_at_unix = some (i64_add now_unix validity_secs) }

module _ {W : Type 0} (site : Site W) where
  -- `ingress_store::save` and `remove`
  abbrev pub save_ingress : Str → IngressRecord → Step W (Unit {0}) StoreError
  save_ingress state_dir r =
      Store.save site.files site.ingress_codec (ingress_dir state_dir) (ingress_key r) r

  abbrev pub remove_ingress : Str → Str → Step W (Unit {0}) StoreError
  remove_ingress state_dir name =
      Store.remove site.files site.ingress_codec (ingress_dir state_dir) name

  unfoldable pub apply_ingress : IngressSpec → Step (Reconciler W) (Unit {0}) ReconcileError
  apply_ingress spec s =
      let r = ingress_record spec (Dict.get spec.metadata.name s.ingress_records) in
      (do
        checked (check_ingress spec)
        wrap store (on_node (save_ingress s.state_dir r))
        λ t. (
          record t { ingress_records = Dict.insert spec.metadata.name r t.ingress_records },
          ok tt,
        ))
        s

  unfoldable pub delete_ingress : Str → Step (Reconciler W) (Unit {0}) ReconcileError
  delete_ingress name s =
      let deleted =
        (do
          wrap store (on_node (remove_ingress s.state_dir name))
          λ t. (
            record t {
              ingress_records = Dict.remove name t.ingress_records;
              ingress_backoff = Dict.remove name t.ingress_backoff;
            },
            ok tt,
          ))
          s in
      if is_ingress (Dict.get name s.ingress_records) then deleted else (s, err (not_found name))

  unfoldable pub cert_exists_in_ingress_jail : Str → Reconciler W → Bool
  cert_exists_in_ingress_jail host s =
      site.files.is_file (join_path (certs_dir s.pool) (host ++ bytes ".crt")) s.node

  abbrev pub write_cert_files : Str → Str → Cert → Step W (Unit {0}) StoreError
  write_cert_files pool host cert =
      let crt_path = join_path (certs_dir pool) (host ++ bytes ".crt") in
      let key_path = join_path (certs_dir pool) (host ++ bytes ".key") in
      do
        wrap (io (certs_dir pool)) (site.files.create_dir_all (certs_dir pool))
        wrap (io crt_path) (site.files.write_file crt_path cert.cert_pem)
        wrap (io key_path) (site.files.write_file key_path cert.key_pem)

  abbrev pub write_cert_to_ingress_jail : Str → Cert → Step (Reconciler W) (Unit {0}) ReconcileError
  write_cert_to_ingress_jail host cert s =
      wrap store (on_node (write_cert_files s.pool host cert)) s

  -- `record_attempt(Instant::now())` on the ingress's backoff
  abbrev pub delay_ingress : Str → BackoffState → Reconciler W → Reconciler W
  delay_ingress name b s =
      let (w, now) = site.instant s.node in
      record s {
        node = w;
        ingress_backoff = Dict.insert name (record_attempt b now) s.ingress_backoff;
      }

  unfoldable pub issue : Str → IngressRecord → ℕ → Step (Reconciler W) (Unit {0}) CertFailure
  issue name r now_unix s =
      (do
        cert ← wrap issuing (
            on_node (site.acme.request_certificate r.spec.spec.host r.spec.spec.tls.email site.dns))
        wrap storing (write_cert_to_ingress_jail r.spec.spec.host cert)
        wrap storing (wrap store (on_node (save_ingress s.state_dir (renewed_until now_unix r))))
        λ t. (
          record t {
            ingress_records = Dict.insert name (renewed_until now_unix r) t.ingress_records;
          },
          ok tt,
        ))
        s

  abbrev pub after_issue :
      Str → BackoffState → Reconciler W × Result (Unit {0}) CertFailure → Reconciler W
  after_issue name b (s, ok u) = s
  after_issue name b (s, err e) = delay_ingress name b s

  -- one round of the loop of `reconcile_certs`, from the decision whether to retry on
  unfoldable pub renew : Str → BackoffState → IngressRecord → ℕ → Reconciler W → Reconciler W
  unfolding issue cert_exists_in_ingress_jail
  renew name b r now_unix s =
      let issued = after_issue name b (issue name r now_unix s) in
      let missing = not (cert_exists_in_ingress_jail r.spec.spec.host s) in
      if needs_issuance missing now_unix r.cert_expires_at_unix then issued else s

  unfoldable pub reconcile_cert : Str → ℕ → Reconciler W → Option (Reconciler W)
  unfolding renew
  reconcile_cert name now_unix s =
      let b = entry (Dict.get name s.ingress_backoff) in
      let (w, now) = site.instant s.node in
      let t : Reconciler W = record s {
        node = w;
        ingress_backoff = Dict.insert name b s.ingress_backoff;
      } in
      let renewed = Option.map (λ r. renew name b r now_unix t) (Dict.get name t.ingress_records) in
      if can_retry b now then renewed else some t

  abbrev pub reconcile_cert_each : List Str → ℕ → Reconciler W → Option (Reconciler W)
  reconcile_cert_each [] now_unix s = some s
  reconcile_cert_each (name ∷ names) now_unix s =
      and_then (reconcile_cert name now_unix s) (reconcile_cert_each names now_unix)

  unfoldable pub reconcile_certs : ℕ → Reconciler W → Option (Reconciler W)
  unfolding reconcile_cert
  reconcile_certs now_unix s =
      reconcile_cert_each (map (λ (e : Str × IngressRecord). e.0) s.ingress_records) now_unix s

  abbrev pub cert_file : Str → Str → Str
  cert_file host suffix = bytes "/usr/local/etc/nginx/certs/" ++ (host ++ suffix)

  abbrev pub backend : IngressRecord → Str × ℕ → IngressBackendConfig
  backend r (vip, port) = record {
    host = r.spec.spec.host;
    vip = vip;
    port = port;
    cert_path = cert_file r.spec.spec.host (bytes ".crt");
    key_path = cert_file r.spec.spec.host (bytes ".key");
  }

  unfoldable pub backends : Reconciler W → List IngressBackendConfig
  backends s =
      filter_map
        (λ (e : Str × IngressRecord).
          Option.map (backend e.1) (Dict.get e.1.spec.spec.backend.service s.service_vips))
        s.ingress_records

  abbrev pub ingress_jail_name : Str
  ingress_jail_name = bytes "keel-ingress"

  -- the sequence, which ends at the first failure
  unfoldable pub install_config : Str → Step W (Unit {0}) NginxError
  install_config config = do
    site.nginx.write_config ingress_jail_name config
    site.nginx.test_config ingress_jail_name
    site.nginx.reload ingress_jail_name

  unfoldable pub reconcile_ingress_config : Reconciler W → Reconciler W
  unfolding backends install_config
  reconcile_ingress_config s = record s {
    node = (install_config (render_nginx_config (backends s)) s.node).0;
  }
