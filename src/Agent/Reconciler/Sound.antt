-- ===== src/Agent/Reconciler/Sound.antt =====
-- keel-agentd/src/reconciler.rs: a pass over all jails does not panic and keeps the state tidy.
use kubsd.Base.{
  ℕ, ◌+◌, ◌^◌, ◌<◌, ◌≡◌, refl, Bool, true, false, List, [], ◌∷◌, map, Option, none, some, ok, inl,
  inr, Bool-cases, All,
}
use kubsd.Base.Dict
use kubsd.Base.Dict.{Has, keys-Has, Dict, Each, Each-insert}
use kubsd.Base.Effects.{Keeps}
use kubsd.Base.Str.{Str}
use kubsd.Extern.{Float}
use kubsd.Spec.Types.{never}
use kubsd.Spec.Equality.{policy_eq}
use kubsd.Agent.Backoff.{BackoffState, can_retry, record_attempt}
use kubsd.Agent.Backoff.Gate.{IsPaced, new-IsPaced, record_attempt-IsPaced}
use kubsd.Agent.Provision.{provision}
use kubsd.Agent.Reconciler.{Reconciler, ensure_ingress_jail}
use kubsd.Agent.Reconciler.Ingresses.{entry, reconcile_ingress_config}
use kubsd.Agent.Reconciler.Pass.{
  is_error, start, keep, reconcile_record, reconcile_one, note_failure, reconcile_each, prepare,
  reconcile,
}
use kubsd.Agent.Reconciler.Renewed.{
  Returns, reconcile_certs-Returns, reconcile_ingress_config-Keeps,
}
use kubsd.Agent.Reconciler.Steps.{node_step-Keeps}
use kubsd.Agent.Reconciler.Tidy.{IsTidy}
use kubsd.Agent.Reconciler.Wanted.{ensure_ingress_jail-IsTidy}
use kubsd.Agent.Record.{JailRecord, jail_name}
use kubsd.Agent.Site.{Site, jail}

entry-IsPaced :
    (name : Str) (backoff : Dict BackoffState) (o : Option BackoffState)
    → Dict.get name backoff ≡ o
    → Each (λ k b. IsPaced b) backoff
    → IsPaced (entry o)
entry-IsPaced name backoff none e each = new-IsPaced
entry-IsPaced name backoff (some b) e each = each name b e

module _ (F : Type 0) {W : Type 0} ⦃float : Float F⦄ (site : Site W) where
  abbrev Tidied : ℕ → Reconciler W → Type 0
  Tidied = IsTidy F site.parse_address

  -- tidy, with the records `m`
  abbrev Steady : ℕ → Dict JailRecord → Reconciler W → Type 0
  Steady bound m s = Tidied bound s × (s.records ≡ m)

  paced_insert :
      (bound : ℕ) (m : Dict JailRecord) (name : Str) (b : BackoffState) (s : Reconciler W)
      → IsPaced b
      → Steady bound m s
      → Steady bound m (record s { backoff = Dict.insert name b s.backoff })
  paced_insert bound m name b s p (t, e) = (
    record {
      tidy_records = t.tidy_records;
      paced = Each-insert (λ k b. IsPaced b) name b s.backoff p t.paced;
      bounded = t.bounded;
    },
    e,
  )

  start-Steady :
      (bound : ℕ) (m : Dict JailRecord) (name : Str) (r : JailRecord) (b : BackoffState) (now : ℕ)
      → IsPaced (record_attempt b now)
      → Keeps (Steady bound m) (start F site name r b now)
  unfolding start
  start-Steady bound m name r b now p s k =
      elim (Bool-cases (is_error (provision F site.host s.pool name r s.node).1)) [
        | inl e ↦ rw e (paced_insert bound m name (record_attempt b now) s p k)
        | inr e ↦ rw e (paced_insert bound m name (record_attempt b now) s p k)
      ]

  keep-Steady :
      (bound : ℕ) (m : Dict JailRecord) (name : Str) (r : JailRecord) (b : BackoffState) (now : ℕ)
      (running : Bool)
      → IsPaced (record_attempt b now)
      → Keeps (Steady bound m) (keep F site name r b now running)
  unfolding keep
  keep-Steady bound m name r b now true p s k = k
  keep-Steady bound m name r b now false p s k =
      elim (Bool-cases (policy_eq r.spec.spec.restart_policy never)) [
        | inl e ↦ rw e k
        | inr e ↦ rw e (paced_insert bound m name (record_attempt b now) s p k)
      ]

  reconcile_record-Steady :
      (bound : ℕ) (m : Dict JailRecord) (name : Str) (r : JailRecord) (b : BackoffState) (now : ℕ)
      → IsPaced (record_attempt b now)
      → Keeps (Steady bound m) (reconcile_record F site name r b now)
  unfolding reconcile_record
  reconcile_record-Steady bound m name r b now p s k =
      node_step-Keeps (Steady bound m) s jail (site.host.jails.jail_exists (jail_name name) s.node)
        _ (λ w. k)
        (λ exists w. elim (Bool-cases exists) [
          | inl e ↦ rw e (
              node_step-Keeps (Steady bound m) (record s { node = w }) jail
                (site.host.jails.is_running (jail_name name) w) _ (λ v. k)
                (λ running v. keep-Steady bound m name r b now running p (record s { node = v }) k))
          | inr e ↦ rw e (start-Steady bound m name r b now p (record s { node = w }) k)
        ])

  reconcile_one-Steady :
      (bound : ℕ) (m : Dict JailRecord) (name : Str) (now : ℕ) (s : Reconciler W)
      → Has name m
      → Steady bound m s
      → Returns (λ out. Steady bound m out.0) (reconcile_one F site name now s)
  unfolding reconcile_one
  reconcile_one-Steady bound m name now s (r, h) k =
      let b = entry (Dict.get name s.backoff) in
      let p : IsPaced b = entry-IsPaced name s.backoff (Dict.get name s.backoff) refl k.0.paced in
      let t : Reconciler W = record s { backoff = Dict.insert name b s.backoff } in
      let i : Steady bound m t = paced_insert bound m name b s p k in
      let found : Dict.get name s.records ≡ some r = rw k.1 h in
      elim (Bool-cases (can_retry b now)) [
        | inl o ↦
            rw (found, o)
              (
                reconcile_record F site name r b now t,
                refl,
                reconcile_record-Steady bound m name r b now (record_attempt-IsPaced b now p o) t i,
              )
        | inr o ↦ rw (found, o) ((t, ok tt), refl, i)
      ]

  reconcile_each-Steady :
      (bound : ℕ) (m : Dict JailRecord) (names : List Str) (now : ℕ) (s : Reconciler W)
      → All (λ name. Has name m) names
      → Steady bound m s
      → Returns (λ out. Steady bound m out.0) (reconcile_each F site names now s)
  unfolding reconcile_each
  reconcile_each-Steady bound m [] now s h k = ((s, []), refl, k)
  reconcile_each-Steady bound m (name ∷ names) now s h k =
      let ((t, result), e, i) = reconcile_one-Steady bound m name now s h.0 k in
      let ((u, failures), e', j) = reconcile_each-Steady bound m names now t h.1 i in
      rw (e, e') ((u, note_failure name result failures), refl, j)

  prepare-IsTidy :
      (bound : ℕ) (s : Reconciler W)
      → bound + 1 < 2 ^ 32
      → Tidied bound s
      → Returns (Tidied (bound + 1)) (prepare F site s)
  unfolding prepare
  prepare-IsTidy bound s l k =
      let t = (ensure_ingress_jail F site s).0 in
      let (u, e, i) =
        reconcile_certs-Returns site (Tidied (bound + 1)) (λ v w m n p. p) (site.unix_time t.node).1
          (record t { node = (site.unix_time t.node).0 })
          (ensure_ingress_jail-IsTidy F site bound s l k) in
      rw e (
        reconcile_ingress_config site u,
        refl,
        reconcile_ingress_config-Keeps site (Tidied (bound + 1)) (λ v w m n p. p) u i,
      )

  -- A pass does not panic, and the state after it is tidy.
  pub reconcile-Returns :
      (bound now : ℕ) (s : Reconciler W)
      → bound + 1 < 2 ^ 32
      → IsTidy F site.parse_address bound s
      → Returns (λ out. IsTidy F site.parse_address (bound + 1) out.0) (reconcile F site now s)
  unfolding reconcile
  reconcile-Returns bound now s l k =
      let (t, e, i) = prepare-IsTidy bound s l k in
      let (out, e', j) =
        reconcile_each-Steady (bound + 1) t.records (map (λ (e : Str × JailRecord). e.0) t.records)
          now t (keys-Has t.records) (i, refl) in
      rw e (out, e', j.0)
