-- ===== src/Agent/Worker/Running.antt =====
-- keel-agentd/src/worker.rs: whatever commands the thread gets, it answers each of them and does not
-- panic.
use kubsd.Base.{
  ℕ, suc, ◌+◌, ◌*◌, ◌^◌, ◌≤◌, ◌<◌, ◌≡◌, refl, ap, Bool, true, false, List, [], ◌∷◌, Option, none,
  some, Result, inl, inr, arith, Bool-cases, if◌then◌else◌, length, and_then, ◌&&◌, sym, ◌∙◌, is_ok,
}
use mathlib.Core.Path.{subst}
use kubsd.Spec.Types.{JailSpec}
use kubsd.Spec.Volumes.{has}
use mathlib.Core.Option
use kubsd.Base.Str.{Str}
use kubsd.Extern.{Float}
use kubsd.Agent.Reconciler.{
  Reconciler, apply, delete, add_route, remove_route, add_alias, remove_alias, get_volume,
  delete_volume, set_replicate_to,
}
use kubsd.Agent.Reconciler.Committed.{committed_resources-Returns, get-Keeps, list-Keeps}
use kubsd.Agent.Reconciler.Ingresses.{apply_ingress, delete_ingress}
use kubsd.Agent.Reconciler.Pass.{JailStatus}
use kubsd.Agent.Reconciler.Renewed.{Returns, apply_ingress-Keeps, delete_ingress-Keeps}
use kubsd.Agent.Reconciler.Sound.{reconcile-Returns}
use kubsd.Agent.Reconciler.Tidy.{IsTidy}
use kubsd.Agent.Reconciler.Wanted.{
  apply-IsTidy, delete-IsTidy, set_replicate_to-IsTidy, weaken-IsTidy,
}
use kubsd.Agent.Site.{Site, ReconcileError, zfs}
use kubsd.Agent.Reconciler.{on_node}
use kubsd.Agent.Reconciler.Steps.{node_step-Keeps}
use kubsd.Agent.Record.{volume_dataset_path}
use kubsd.Base.Effects.{Keeps, relabel-Keeps}
use kubsd.Agent.Worker.{
  apply_jail, get_jails, delete_jail, tick, committed_resources_of_all, resume_replication_loops,
  add_route_to, remove_route_to, add_service_alias, remove_service_alias, get_volume_named,
  delete_volume_named, retarget_replication, apply_ingress_spec, get_ingresses,
  delete_ingress_named, done, reconciled, networked, statuses, resources, answer, Command, Reply,
  Server, handle, reconcile_now, then_reconcile, list_now, resume_each, spawn_once,
  is_stateful_and_replicated, after_apply, reply_with,
}

module _ (F : Type 0) {W : Type 0} ⦃float : Float F⦄ (site : Site W) where
  -- the commands in turn, with their replies
  unfoldable pub run : List Command → Server W → Option (Server W × List (Reply F))
  unfolding handle
  run [] s = some (s, [])
  run (c ∷ cs) s =
      and_then (handle F site c s)
        (λ (t, reply). Option.map (λ (u, replies). (u, reply ∷ replies)) (run cs t))

  abbrev Tidied : ℕ → Reconciler W → Type 0
  Tidied = IsTidy F site.parse_address

  reconcile_now-Returns :
      (bound : ℕ) (s : Reconciler W)
      → bound + 1 < 2 ^ 32
      → Tidied bound s
      → Returns (λ out. Tidied (bound + 1) out.0) (reconcile_now F site s)
  unfolding reconcile_now
  reconcile_now-Returns bound s l k =
      reconcile-Returns F site bound (site.instant s.node).1
        (record s { node = (site.instant s.node).0 }) l k

  then_reconcile-Returns :
      (bound : ℕ) (s : Server W) (out : Reconciler W × Result (Unit {0}) ReconcileError)
      → bound + 1 < 2 ^ 32
      → Tidied bound out.0
      → Returns (λ after. Tidied (bound + 1) after.0.reconciler) (then_reconcile F site s out)
  unfolding then_reconcile
  then_reconcile-Returns bound s (r, result) l k =
      let ((after, failures), e, i) = reconcile_now-Returns bound r l k in
      rw e ((record s { reconciler = after }, result), refl, i)

  list_now-Keeps :
      (bound : ℕ) (name : Option Str) (s : Reconciler W)
      → Tidied bound s
      → Tidied bound (list_now site name s).0
  unfolding list_now
  list_now-Keeps bound none s k =
      list-Keeps site (Tidied bound) (λ t w p. p) (site.instant s.node).1
        (record s { node = (site.instant s.node).0 }) k
  list_now-Keeps bound (some name) s k =
      get-Keeps site (Tidied bound) (λ t w p. p) name (site.instant s.node).1
        (record s { node = (site.instant s.node).0 }) k

  -- an operation that keeps the state tidy, and its answer
  answer-Returns :
      {A : Type 0} (bound : ℕ) (reply : A → Reply F) (s : Server W)
      (op : Reconciler W → Reconciler W × A)
      → Tidied bound (op s.reconciler).0
      → Returns (λ out. Tidied (bound + 2) out.0.reconciler) (answer reply s op)
  answer-Returns bound reply s op k =
      (_, refl, weaken-IsTidy F site bound (bound + 2) (op s.reconciler).0 (omega arith) k)

  -- an operation, and a pass after it
  reconciled-Returns :
      (n bound : ℕ) (f : Server W × Result (Unit {0}) ReconcileError → Server W × Reply F)
      (s : Server W) (out : Reconciler W × Result (Unit {0}) ReconcileError)
      → n ≤ bound + 1
      → bound + 2 < 2 ^ 32
      → ((x : Server W × Result (Unit {0}) ReconcileError) → (f x).0.reconciler ≡ x.0.reconciler)
      → Tidied n out.0
      → Returns
          (λ after. Tidied (bound + 2) after.0.reconciler)
          (Option.map f (then_reconcile F site s out))
  reconciled-Returns n bound f s out h l same k =
      let (x, e, i) = then_reconcile-Returns n s out (omega arith) k in
      rw e (
        f x,
        refl,
        weaken-IsTidy F site (n + 1) (bound + 2) (f x).0.reconciler (omega arith)
            (subst (Tidied (n + 1)) (sym (same x)) i),
      )

  spawn_once_same : (name : Str) (s : Server W) → (spawn_once name s).reconciler ≡ s.reconciler
  unfolding spawn_once
  spawn_once_same name s = elim (Bool-cases (has s.replicating name)) [
    | inl e ↦ rw e refl
    | inr e ↦ rw e refl
  ]

  resume_each_same :
      (found : List JailStatus) (s : Server W) → (resume_each found s).reconciler ≡ s.reconciler
  unfolding resume_each
  resume_each_same [] s = refl
  resume_each_same (j ∷ found) s =
      resume_each_same found (
        if is_stateful_and_replicated j.record_of_jail.spec
        then spawn_once j.record_of_jail.spec.metadata.name s
        else s)
      ∙ if_same (is_stateful_and_replicated j.record_of_jail.spec)
    where
      if_same :
          (b : Bool)
          → (if b then spawn_once j.record_of_jail.spec.metadata.name s else s).reconciler
            ≡ s.reconciler
      if_same true = spawn_once_same j.record_of_jail.spec.metadata.name s
      if_same false = refl

  after_apply_same :
      (spec : JailSpec) (x : Server W × Result (Unit {0}) ReconcileError)
      → (after_apply spec x).0.reconciler ≡ x.0.reconciler
  unfolding after_apply
  after_apply_same spec (s, result) =
      elim (Bool-cases (is_ok result && is_stateful_and_replicated spec)) [
        | inl e ↦ rw e (spawn_once_same spec.metadata.name s)
        | inr e ↦ rw e refl
      ]

  get_volume-Keeps : (bound : ℕ) (name : Str) → Keeps (Tidied bound) (get_volume site name)
  unfolding get_volume
  get_volume-Keeps bound name s k =
      node_step-Keeps (Tidied bound) s zfs
        (site.host.zfs.dataset_exists (volume_dataset_path s.pool name) s.node) _ (λ w. k)
        (λ exists w. elim (Bool-cases exists) [ inl e ↦ rw e k | inr e ↦ rw e k ])

  delete_volume-Keeps : (bound : ℕ) (name : Str) → Keeps (Tidied bound) (delete_volume site name)
  unfolding delete_volume
  delete_volume-Keeps bound name s k =
      relabel-Keeps (Tidied bound) zfs
        (on_node (site.host.zfs.destroy_dataset (volume_dataset_path s.pool name)) s) k

  handle-Returns :
      (bound : ℕ) (c : Command) (s : Server W)
      → bound + 2 < 2 ^ 32
      → Tidied bound s.reconciler
      → Returns (λ out. Tidied (bound + 2) out.0.reconciler) (handle F site c s)
  unfolding handle add_route add_alias remove_alias remove_route
  handle-Returns bound (apply_jail spec) s l k =
      reconciled-Returns (bound + 1) bound (λ out. reply_with reconciled (after_apply spec out)) s
        (apply F site spec s.reconciler) (omega arith) l (after_apply_same spec)
        (apply-IsTidy F site bound spec s.reconciler (omega arith) k)
  handle-Returns bound (delete_jail name) s l k =
      reconciled-Returns bound bound (reply_with reconciled) s (delete site name s.reconciler)
        (omega arith) l (λ x. refl) (delete-IsTidy F site bound name s.reconciler k)
  handle-Returns bound (get_jails name) s l k =
      answer-Returns bound statuses s (list_now site name)
        (list_now-Keeps bound name s.reconciler k)
  handle-Returns bound tick s l k =
      let ((after, failures), e, i) = reconcile_now-Returns bound s.reconciler (omega arith) k in
      rw e (
        (record s { reconciler = after }, done),
        refl,
        weaken-IsTidy F site (bound + 1) (bound + 2) after (omega arith) i,
      )
  handle-Returns bound committed_resources_of_all s l k =
      let ((cpu, mem), e, u) =
        committed_resources-Returns F site.parse_address bound s.reconciler k in
      rw e (
        (s, resources cpu mem),
        refl,
        weaken-IsTidy F site bound (bound + 2) s.reconciler (omega arith) k,
      )
  handle-Returns bound (add_route_to subnet gateway_addr) s l k =
      answer-Returns bound networked s (add_route site subnet gateway_addr) k
  handle-Returns bound (remove_route_to subnet) s l k =
      answer-Returns bound networked s (remove_route site subnet) k
  handle-Returns bound (add_service_alias bridge address) s l k =
      answer-Returns bound networked s (add_alias site bridge address) k
  handle-Returns bound (remove_service_alias bridge address) s l k =
      answer-Returns bound networked s (remove_alias site bridge address) k
  handle-Returns bound (get_volume_named name) s l k =
      answer-Returns bound reconciled s (get_volume site name)
        (get_volume-Keeps bound name s.reconciler k)
  handle-Returns bound (delete_volume_named name) s l k =
      answer-Returns bound reconciled s (delete_volume site name)
        (delete_volume-Keeps bound name s.reconciler k)
  handle-Returns bound (retarget_replication name replicate_to) s l k =
      answer-Returns bound reconciled s (set_replicate_to site name replicate_to)
        (set_replicate_to-IsTidy F site bound name replicate_to s.reconciler k)
  handle-Returns bound resume_replication_loops s l k =
      let (r, found) = list_now site none s.reconciler in
      let t : Server W = record s { reconciler = r } in
      (
        (resume_each found t, done),
        refl,
        weaken-IsTidy F site bound (bound + 2) (resume_each found t).reconciler (omega arith) (
            subst (Tidied bound) (sym (resume_each_same found t))
              (list_now-Keeps bound none s.reconciler k)),
      )
  handle-Returns bound (apply_ingress_spec spec) s l k =
      reconciled-Returns bound bound (reply_with reconciled) s
        (apply_ingress site spec s.reconciler) (omega arith) l (λ x. refl)
        (apply_ingress-Keeps site (Tidied bound) (λ t w m n p. p) spec s.reconciler k)
  handle-Returns bound (get_ingresses name) s l k =
      (_, refl, weaken-IsTidy F site bound (bound + 2) s.reconciler (omega arith) k)
  handle-Returns bound (delete_ingress_named name) s l k =
      reconciled-Returns bound bound (reply_with reconciled) s
        (delete_ingress site name s.reconciler) (omega arith) l (λ x. refl)
        (delete_ingress-Keeps site (Tidied bound) (λ t w m n p. p) name s.reconciler k)

  -- From a state in which every record stands under its own name, has passed the guards of `apply` and
  -- has an ordinal of its own below the next one, and every attempt was made with its gate open, the
  -- thread answers any commands, each with a reply: no lookup that the code takes to succeed fails, and
  -- no size that it takes to parse does not. All of this holds again after them, if two ordinals for
  -- every command fit 32 bits.
  pub run-Returns :
      (bound : ℕ) (cs : List Command) (s : Server W)
      → bound + 2 * length cs < 2 ^ 32
      → IsTidy F site.parse_address bound s.reconciler
      → (out : Server W × List (Reply F)) × (run cs s ≡ some out)
        × IsTidy F site.parse_address (bound + 2 * length cs) out.0.reconciler
        × (length out.1 ≡ length cs)
  unfolding run
  run-Returns bound [] s l k =
      ((s, []), refl, weaken-IsTidy F site bound (bound + 2 * 0) s.reconciler (omega arith) k, refl)
  run-Returns bound (c ∷ cs) s l k =
      let ((t, reply), e, i) = handle-Returns bound c s (omega arith) k in
      let ((u, replies), e', j, n) = run-Returns (bound + 2) cs t (omega arith) i in
      rw (e, e')
        (
          (u, reply ∷ replies),
          refl,
          weaken-IsTidy F site (bound + 2 + 2 * length cs) (bound + 2 * suc (length cs))
              u.reconciler (omega arith) j,
          ap suc n,
        )
