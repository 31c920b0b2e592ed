-- ===== src/Agent/Worker/Isolated.antt =====
-- keel-agentd/src/worker.rs: what holds of the jails in every state that the thread reaches.
use kubsd.Base.{
  ℕ, ◌+◌, ◌*◌, ◌^◌, ◌<◌, ◌≡◌, ◌≢◌, sym, ap, ◌∙◌, ◌⊎◌, true, List, ◌++◌, none, some, some_inj,
  length, arith,
}
use mathlib.Core.List.{append_cancel_left}
use mathlib.Core.Path.{subst}
use kubsd.Base.Decimal.{to_string, parse_uint, parse_uint-to_string}
use kubsd.Base.Dict
use kubsd.Base.Str.{Str, bytes}
use kubsd.Extern.{Float}
use kubsd.Agent.Backoff.{BackoffState, can_retry, nanos}
use kubsd.Agent.Backoff.Cooldown.{attempts_open}
use kubsd.Agent.Reconciler.Tidy.{IsTidy}
use kubsd.Agent.Record.{JailRecord, jail_name, jail_dataset_path, epair_base_name}
use kubsd.Agent.Site.{Site}
use kubsd.Agent.Worker.{Command, Reply, Server}
use kubsd.Agent.Worker.Running.{run, run-Returns}

to_string_injective : (n m : ℕ) → to_string n ≡ to_string m → n ≡ m
to_string_injective n m h =
    let bound = n + m + 1 in
    some_inj (
      sym (parse_uint-to_string bound n (omega arith))
      ∙ ap (parse_uint bound) h
      ∙ parse_uint-to_string bound m (omega arith))

pub epair_base_name_injective : (n m : ℕ) → epair_base_name n ≡ epair_base_name m → n ≡ m
unfolding epair_base_name
epair_base_name_injective n m h =
    to_string_injective n m (append_cancel_left (bytes "epair") (to_string n) (to_string m) h)

jail_name_injective : (a b : Str) → jail_name a ≡ jail_name b → a ≡ b
unfolding jail_name
jail_name_injective a b h = append_cancel_left (bytes "keel-") a b h

jail_dataset_path_injective :
    (pool a b : Str) → jail_dataset_path pool a ≡ jail_dataset_path pool b → a ≡ b
unfolding jail_dataset_path
jail_dataset_path_injective pool a b h =
    append_cancel_left (bytes "/keel/jails/") a b
      (append_cancel_left pool (bytes "/keel/jails/" ++ a) (bytes "/keel/jails/" ++ b) h)

module _ (F : Type 0) {W : Type 0} ⦃float : Float F⦄ (site : Site W) where
  reached-IsTidy :
      (bound : ℕ) (cs : List Command) (s : Server W) (out : Server W × List (Reply F))
      → bound + 2 * length cs < 2 ^ 32
      → IsTidy F site.parse_address bound s.reconciler
      → run F site cs s ≡ some out
      → IsTidy F site.parse_address (bound + 2 * length cs) out.0.reconciler
  reached-IsTidy bound cs s out l k e =
      let (found, e', i, n) = run-Returns F site bound cs s l k in
      subst
        (λ (o : Server W × List (Reply F)).
          IsTidy F site.parse_address (bound + 2 * length cs) o.0.reconciler)
        (some_inj (sym e' ∙ e)) i

  -- After any commands from a state whose records stand under their names, have passed the guards and
  -- have ordinals of their own, for which the ordinals fit 32 bits, two jails under different
  -- names have different network interfaces, different names on the host and different datasets,
  -- whatever was applied, deleted and applied again in between.
  pub run-IsIsolated :
      (bound : ℕ) (cs : List Command) (s : Server W) (out : Server W × List (Reply F)) (a b : Str)
      (r q : JailRecord)
      → bound + 2 * length cs < 2 ^ 32
      → IsTidy F site.parse_address bound s.reconciler
      → run F site cs s ≡ some out
      → Dict.get a out.0.reconciler.records ≡ some r
      → Dict.get b out.0.reconciler.records ≡ some q
      → a ≢ b
      → (epair_base_name r.epair_ordinal ≢ epair_base_name q.epair_ordinal)
        × (jail_name a ≢ jail_name b)
        × (jail_dataset_path out.0.reconciler.pool a ≢ jail_dataset_path out.0.reconciler.pool b)
  run-IsIsolated bound cs s out a b r q l k e g h d =
      let t = reached-IsTidy bound cs s out l k e in
      (
        λ p. d (
            t.tidy_records.separate a b r q g h
              (epair_base_name_injective r.epair_ordinal q.epair_ordinal p)),
        λ p. d (jail_name_injective a b p),
        λ p. d (jail_dataset_path_injective out.0.reconciler.pool a b p),
      )

  -- After any commands from a state as above (records under their names, guarded, with ordinals of
  -- their own, and attempts made with the gate open), for which the ordinals fit 32 bits, no jail's next
  -- start is more than 64 seconds after its last: there is no start to wait for, or the gate is open 64
  -- seconds after the last attempt.
  pub run-opens :
      (bound : ℕ) (cs : List Command) (s : Server W) (out : Server W × List (Reply F)) (name : Str)
      (b : BackoffState)
      → bound + 2 * length cs < 2 ^ 32
      → IsTidy F site.parse_address bound s.reconciler
      → run F site cs s ≡ some out
      → Dict.get name out.0.reconciler.backoff ≡ some b
      → (b.next_retry_at ≡ none)
        ⊎ ((last : ℕ) × (b.last_started_at ≡ some last) × (can_retry b (last + 64 * nanos) ≡ true))
  run-opens bound cs s out name b l k e g =
      let t = reached-IsTidy bound cs s out l k e in
      let (nows, p, gated) = t.paced name b g in
      subst
        (λ (x : BackoffState).
          (x.next_retry_at ≡ none)
          ⊎ ((last : ℕ) × (x.last_started_at ≡ some last)
              × (can_retry x (last + 64 * nanos) ≡ true)))
        (sym p) (attempts_open nows gated)
