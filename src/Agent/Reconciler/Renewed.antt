-- ===== src/Agent/Reconciler/Renewed.antt =====
-- keel-agentd/src/reconciler.rs: the ingresses' part of a pass does not panic, and leaves the jails'
-- part of the state alone.
use kubsd.Base.{
  ℕ, ◌≡◌, refl, Bool, true, false, not, List, [], ◌∷◌, Option, some, Result, ok, err, inl, inr,
  Bool-cases, if◌then◌else◌, All,
}
use kubsd.Base.Dict
use kubsd.Base.Dict.{Has, insert-Has, keys-Has, Dict, get-insert, Distinct, get_of_Occurs}
use kubsd.Base.Effects.{Keeps}
use kubsd.Base.Str.{Str}
use kubsd.Spec.Types.{IngressSpec}
use kubsd.Agent.Backoff.{BackoffState, can_retry}
use kubsd.Agent.Checks.{check_ingress}
use kubsd.Agent.Reconciler.{Reconciler}
use kubsd.Agent.Reconciler.Steps.{node_step-Keeps, node_step2-Keeps, guard-Keeps}
use kubsd.Agent.Reconciler.Ingresses.{
  entry, issue, after_issue, renew, reconcile_cert, reconcile_cert_each, reconcile_certs,
  needs_issuance, CertFailure, issuing, storing, cert_exists_in_ingress_jail, save_ingress,
  remove_ingress, write_cert_files, ingress_record, renewed_until, apply_ingress, delete_ingress,
  is_ingress, reconcile_ingress_config,
}
use kubsd.Agent.Site.{Site, invalid_spec, store}
use kubsd.Agent.Store.{IngressRecord}

-- a result that is not a panic
abbrev pub Returns : {A : Type 0} → (A → Type 0) → Option A → Type 0
Returns {A = A} Q o = (a : A) × (o ≡ some a) × Q a

-- `P` is about neither the node nor the ingresses.
module _ {W : Type 0} (site : Site W) (P : Reconciler W → Type 0)
    (free : (s : Reconciler W) (w : W) (m : Dict IngressRecord) (k : Dict BackoffState)
      → P s
      → P (record s { node = w; ingress_records = m; ingress_backoff = k })) where
  moved : (s : Reconciler W) → P s → (w : W) → P (record s { node = w })
  moved s p w = free s w s.ingress_records s.ingress_backoff p

  pub apply_ingress-Keeps : (spec : IngressSpec) → Keeps P (apply_ingress site spec)
  unfolding apply_ingress
  apply_ingress-Keeps spec s p =
      let r = ingress_record spec (Dict.get spec.metadata.name s.ingress_records) in
      guard-Keeps P s invalid_spec (check_ingress spec) _ p (λ _ _.
        node_step-Keeps P s store (save_ingress site s.state_dir r s.node) _ (moved s p)
          (λ _ w. free s w _ s.ingress_backoff p))

  pub delete_ingress-Keeps : (name : Str) → Keeps P (delete_ingress site name)
  unfolding delete_ingress
  delete_ingress-Keeps name s p = elim (Bool-cases (is_ingress (Dict.get name s.ingress_records))) [
    | inl e ↦ rw e (
        node_step-Keeps P s store (remove_ingress site s.state_dir name s.node) _ (moved s p)
          (λ _ w. free s w _ _ p))
    | inr e ↦ rw e p
  ]

  -- with the keys of `m`
  abbrev Kept : Dict IngressRecord → Reconciler W → Type 0
  Kept m s = P s × ((n : Str) → Has n m → Has n s.ingress_records)

  issue-Kept :
      (m : Dict IngressRecord) (name : Str) (r : IngressRecord) (now_unix : ℕ)
      → Keeps (Kept m) (issue site name r now_unix)
  unfolding issue
  issue-Kept m name r now_unix s k =
      node_step-Keeps (Kept m) s issuing
        (site.acme.request_certificate r.spec.spec.host r.spec.spec.tls.email site.dns s.node) _
        (λ w. (moved s k.0 w, k.1))
        (λ cert w.
          node_step2-Keeps (Kept m) (record s { node = w }) storing store
            (write_cert_files site s.pool r.spec.spec.host cert w) _ (λ v. (moved s k.0 v, k.1))
            (λ _ v.
              node_step2-Keeps (Kept m) (record s { node = v }) storing store
                (save_ingress site s.state_dir (renewed_until now_unix r) v) _
                (λ u. (moved s k.0 u, k.1))
                (λ _ u. (
                  free s u _ s.ingress_backoff k.0,
                  λ n q. insert-Has name n (renewed_until now_unix r) s.ingress_records (k.1 n q),
                ))))

  after_issue-Kept :
      (m : Dict IngressRecord) (name : Str) (b : BackoffState)
      (out : Reconciler W × Result (Unit {0}) CertFailure)
      → Kept m out.0
      → Kept m (after_issue site name b out)
  after_issue-Kept m name b (s, ok u) k = k
  after_issue-Kept m name b (s, err e) k = (free s _ s.ingress_records _ k.0, k.1)

  renew-Kept :
      (m : Dict IngressRecord) (name : Str) (b : BackoffState) (r : IngressRecord) (now_unix : ℕ)
      (s : Reconciler W)
      → Kept m s
      → Kept m (renew site name b r now_unix s)
  unfolding renew
  renew-Kept m name b r now_unix s k = if-Kept (
      needs_issuance (not (cert_exists_in_ingress_jail site r.spec.spec.host s)) now_unix
        r.cert_expires_at_unix)
    where
      if-Kept :
          (c : Bool)
          → Kept m (if c then after_issue site name b (issue site name r now_unix s) else s)
      if-Kept true =
          after_issue-Kept m name b (issue site name r now_unix s)
            (issue-Kept m name r now_unix s k)
      if-Kept false = k

  reconcile_cert-Kept :
      (m : Dict IngressRecord) (name : Str) (now_unix : ℕ) (s : Reconciler W)
      → Has name m
      → Kept m s
      → Returns (Kept m) (reconcile_cert site name now_unix s)
  unfolding reconcile_cert
  reconcile_cert-Kept m name now_unix s h k =
      let b = entry (Dict.get name s.ingress_backoff) in
      let w = (site.instant s.node).0 in
      let now = (site.instant s.node).1 in
      let t : Reconciler W = record s {
        node = w;
        ingress_backoff = Dict.insert name b s.ingress_backoff;
      } in
      let kept : Kept m t = (free s w s.ingress_records _ k.0, k.1) in
      let (r, e) = k.1 name h in
      elim (Bool-cases (can_retry b now)) [
        | inl o ↦
            rw (o, e) (renew site name b r now_unix t, refl, renew-Kept m name b r now_unix t kept)
        | inr o ↦ rw o (t, refl, kept)
      ]

  reconcile_cert_each-Kept :
      (m : Dict IngressRecord) (names : List Str) (now_unix : ℕ) (s : Reconciler W)
      → All (λ name. Has name m) names
      → Kept m s
      → Returns (Kept m) (reconcile_cert_each site names now_unix s)
  reconcile_cert_each-Kept m [] now_unix s h k = (s, refl, k)
  reconcile_cert_each-Kept m (name ∷ names) now_unix s h k =
      let (t, e, kept) = reconcile_cert-Kept m name now_unix s h.0 k in
      rw e (reconcile_cert_each-Kept m names now_unix t h.1 kept)

  pub reconcile_certs-Returns :
      (now_unix : ℕ) (s : Reconciler W) → P s → Returns P (reconcile_certs site now_unix s)
  unfolding reconcile_certs
  reconcile_certs-Returns now_unix s p =
      let (t, e, kept) =
        reconcile_cert_each-Kept s.ingress_records _ now_unix s (keys-Has s.ingress_records)
          (p, λ n h. h) in
      (t, e, kept.0)

  pub reconcile_ingress_config-Keeps :
      (s : Reconciler W) → P s → P (reconcile_ingress_config site s)
  unfolding reconcile_ingress_config
  reconcile_ingress_config-Keeps s p = moved s p _
