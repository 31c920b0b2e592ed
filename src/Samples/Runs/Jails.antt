-- ===== src/Samples/Runs/Jails.antt =====
-- Samples for the reconciler and the worker of keel-agentd.
use kubsd.Base.{
  ℕ, ◌+◌, ◌*◌, ◌≡◌, ◌≢◌, ◌⊎◌, refl, true, false, List, [], ◌∷◌, Option, none, some, ok, err, length,
  arith, Bool-cases, inl, inr, ap, some_inj,
}
use kubsd.Base.Dict
use kubsd.Base.Dict.{Dict, Each-insert}
use kubsd.Spec.Names.{validate_name, validate_address}
use kubsd.Agent.Checks.{check_jail}
use kubsd.Agent.Backoff.Gate.{IsPaced, new-IsPaced, record_attempt-IsPaced}
use kubsd.Agent.Reconciler.{retargeted, get_volume, set_replicate_to, retarget, save_record}
use kubsd.Agent.Store
use kubsd.Agent.Worker.{handle}
use kubsd.Base.Str.{Str, bytes}
use kubsd.Spec.Resources.{parse_cpu_cores, parse_memory_bytes}
use kubsd.Agent.Backoff.{BackoffState, can_retry, record_attempt, nanos}
use kubsd.Agent.Backoff
use kubsd.Agent.Host.Fake.{Node, fake}
use kubsd.Agent.Provision.{provision, rollback_provision, tear_down_jail}
use kubsd.Agent.Provision.Gone.{IsGone, IsSpared, rollback_provision-IsGone, tear_down_jail-IsGone}
use kubsd.Agent.Provision.Started.{IsProvisioned, provision-IsProvisioned}
use kubsd.Agent.Reconciler.{Reconciler}
use kubsd.Agent.Reconciler.Ingresses.{entry}
use kubsd.Agent.Reconciler.Convergent.{on_fake, reconcile_one-IsProvisioned, reconcile_one-IsGone}
use kubsd.Agent.Reconciler.Pass.{JailStatus, reconcile_one, get}
use kubsd.Agent.Reconciler.Tidy.{IsTidy, insert-TidyRecords}
use kubsd.Spec.Volumes.{has}
use kubsd.Agent.Record.{
  JailRecord, volume_dataset_path, base_dataset_path, jail_name, jail_dataset_path, epair_base_name,
}
use kubsd.Agent.Site.{base_image_not_found}
use kubsd.Agent.Worker.{
  Server, Command, Reply, apply_jail, get_jails, retarget_replication, get_volume_named,
}
use kubsd.Agent.Worker.Isolated.{run-IsIsolated, run-opens}
use kubsd.Agent.Worker.Running.{run, run-Returns}
use kubsd.Samples.{number}
use kubsd.Base.Decimal.{parse_uint}
use kubsd.Base.Str.{str_eq}
use kubsd.Samples.Sites.{
  site, gateway, node, record_numbered, jail_named, reconciler, wanting, server,
}

cpu_read : parse_cpu_cores {F = ℕ} (bytes "2") ≡ ok 2
unfolding parse_cpu_cores parse_uint number
cpu_read = refl

memory_read : parse_memory_bytes (bytes "512M") ≡ ok (512 * 1024 * 1024)
unfolding parse_memory_bytes parse_uint
memory_read = refl

image_there : has node.datasets (base_dataset_path (bytes "tank") (bytes "base/web")) ≡ true
unfolding base_dataset_path str_eq
image_there = refl

provision-IsProvisioned_example :
    (after : Node) × (provision ℕ
        (fake gateway)
        (bytes "tank")
        (bytes "web")
        (record_numbered 1 (bytes "web"))
        node
      ≡ (after, ok tt))
    × IsProvisioned ℕ gateway
        (bytes "tank")
        (bytes "web")
        (record_numbered 1 (bytes "web"))
        2
        (512 * 1024 * 1024)
        cpu_read
        memory_read
        after
provision-IsProvisioned_example =
    provision-IsProvisioned ℕ gateway (bytes "tank") (bytes "web") (record_numbered 1 (bytes "web"))
      2 (512 * 1024 * 1024) cpu_read memory_read node image_there

not_busy : has node.busy (jail_dataset_path (bytes "tank") (bytes "web")) ≡ false
not_busy = refl

rollback_provision-IsGone_example :
    (after : Node) × (rollback_provision
        (fake gateway)
        (bytes "tank")
        (bytes "web")
        (record_numbered 1 (bytes "web"))
        node
      ≡ (after, ok tt))
    × IsGone (bytes "tank") (bytes "web") (record_numbered 1 (bytes "web")) after
    × IsSpared (bytes "tank") (bytes "web") (record_numbered 1 (bytes "web")) node after
rollback_provision-IsGone_example =
    rollback_provision-IsGone (bytes "tank") (bytes "web") (record_numbered 1 (bytes "web")) node
      gateway not_busy

tear_down_jail-IsGone_example :
    (after : Node) × (tear_down_jail
        (fake gateway)
        (bytes "tank")
        (bytes "web")
        (record_numbered 1 (bytes "web"))
        node
      ≡ (after, ok tt))
    × IsGone (bytes "tank") (bytes "web") (record_numbered 1 (bytes "web")) after
    × IsSpared (bytes "tank") (bytes "web") (record_numbered 1 (bytes "web")) node after
tear_down_jail-IsGone_example =
    tear_down_jail-IsGone (bytes "tank") (bytes "web") (record_numbered 1 (bytes "web")) node
      gateway not_busy

wanted : Dict.get (bytes "web") wanting.records ≡ some (record_numbered 1 (bytes "web"))
unfolding Dict.get str_eq
wanted = refl

missing : Dict.get (jail_name (bytes "web")) wanting.node.jails ≡ none
unfolding Dict.get
missing = refl

due : can_retry (entry (Dict.get (bytes "web") wanting.backoff)) nanos ≡ true
unfolding can_retry Dict.get
due = refl

reconcile_one-IsProvisioned_example :
    (out : Reconciler Node) × (reconcile_one ℕ (on_fake ℕ gateway site) (bytes "web") nanos wanting
      ≡ some (out, ok tt))
    × IsProvisioned ℕ gateway
        (bytes "tank")
        (bytes "web")
        (record_numbered 1 (bytes "web"))
        2
        (512 * 1024 * 1024)
        cpu_read
        memory_read
        out.node
    × ((found : JailStatus) × ((get (on_fake ℕ gateway site) (bytes "web") nanos out).1
          ≡ some found)
        × (found.running ≡ true))
    × (Dict.get (bytes "web") out.backoff
        ≡ some (record_attempt (entry (Dict.get (bytes "web") wanting.backoff)) nanos))
reconcile_one-IsProvisioned_example =
    reconcile_one-IsProvisioned ℕ gateway site (bytes "web") (record_numbered 1 (bytes "web")) nanos
      wanting wanted missing due 2 (512 * 1024 * 1024) cpu_read memory_read image_there

-- without any image
abbrev bare : Reconciler Node
bare = record wanting { node = record node { datasets = [] } }

reconcile_one-IsGone_example :
    (out : Reconciler Node) × (reconcile_one ℕ (on_fake ℕ gateway site) (bytes "web") nanos bare
      ≡ some
          (out, err (base_image_not_found (base_dataset_path (bytes "tank") (bytes "base/web")))))
    × IsGone (bytes "tank") (bytes "web") (record_numbered 1 (bytes "web")) out.node
    × (Dict.get (bytes "web") out.backoff
        ≡ some (record_attempt (entry (Dict.get (bytes "web") bare.backoff)) nanos))
reconcile_one-IsGone_example =
    reconcile_one-IsGone ℕ gateway site (bytes "web") (record_numbered 1 (bytes "web")) nanos bare
      wanted missing due refl not_busy

start-IsTidy : IsTidy ℕ site.parse_address 1 server.reconciler
unfolding Dict.get
start-IsTidy = record {
  tidy_records = record { distinct = tt; sound = λ k v g. cc; separate = λ a b r q g h e. cc };
  paced = λ k v g. cc;
  bounded = omega arith;
}

-- two jails are applied, and one of them is read
abbrev orders : List Command
orders =
    apply_jail (jail_named (bytes "web"))
    ∷ apply_jail (jail_named (bytes "db"))
    ∷ get_jails (some (bytes "web"))
    ∷ []

run-Returns_example :
    (out : Server Node × List (Reply ℕ)) × (run ℕ site orders server ≡ some out)
    × IsTidy ℕ site.parse_address (1 + 2 * length orders) out.0.reconciler
    × (length out.1 ≡ length orders)
run-Returns_example = run-Returns ℕ site 1 orders server (omega arith) start-IsTidy

-- two jails, one of which was started
abbrev two_records : Dict JailRecord
two_records =
    Dict.insert (bytes "db") (record_numbered 2 (bytes "db"))
      (Dict.insert (bytes "web") (record_numbered 1 (bytes "web")) [])

abbrev one_backoff : Dict BackoffState
one_backoff = Dict.insert (bytes "web") (record_attempt Backoff.new nanos) []

abbrev two_jails : Server Node
two_jails = record server {
  reconciler = record reconciler {
    records = two_records;
    backoff = one_backoff;
    next_epair_ordinal = 3;
  };
}

accepted :
    (name : Str)
    → validate_name name ≡ ok tt
    → check_jail ℕ site.parse_address (jail_named name) ≡ ok tt
unfolding check_jail validate_address
accepted name e = rw (e, cpu_read, memory_read) refl

web_named : validate_name (bytes "web") ≡ ok tt
unfolding validate_name
web_named = refl

db_named : validate_name (bytes "db") ≡ ok tt
unfolding validate_name
db_named = refl

web_alone :
    (a : Str) (q : JailRecord)
    → Dict.get a (Dict.insert (bytes "web") (record_numbered 1 (bytes "web")) []) ≡ some q
    → q.epair_ordinal ≡ 2
    → a ≡ bytes "db"
unfolding Dict.get Dict.insert
web_alone a q h e = elim (Bool-cases (str_eq (bytes "web") a)) [
  | inl p ↦
      let same : some (record_numbered 1 (bytes "web")) ≡ some q = rw p at h in
      absurd (omega (arith, ap (λ (r : JailRecord). r.epair_ordinal) (some_inj same)))
  | inr p ↦ let none_found : none ≡ some q = rw p at h in cc
]

two_jails-IsTidy : IsTidy ℕ site.parse_address 3 two_jails.reconciler
unfolding Dict.get can_retry
two_jails-IsTidy = record {
  tidy_records =
      insert-TidyRecords ℕ site.parse_address 3 (bytes "db") (record_numbered 2 (bytes "db")) _
        (insert-TidyRecords ℕ site.parse_address 3 (bytes "web") (record_numbered 1 (bytes "web"))
          [] (record { distinct = tt; sound = λ k v g. cc; separate = λ a b r q g h e. cc })
          (refl, accepted (bytes "web") web_named, omega arith) (λ a q h e. cc))
        (refl, accepted (bytes "db") db_named, omega arith) web_alone;
  paced =
      Each-insert (λ k b. IsPaced b) (bytes "web") (record_attempt Backoff.new nanos) []
        (record_attempt-IsPaced Backoff.new nanos new-IsPaced refl) (λ k v g. cc);
  bounded = omega arith;
}

-- one of the jails gets a standby, and the other's volume is looked for
abbrev orders_of_two : List Command
orders_of_two =
    retarget_replication (bytes "web") (some (bytes "10.0.0.9"))
    ∷ get_volume_named (bytes "db-data")
    ∷ []

unwrap : Option (Server Node × List (Reply ℕ)) → Server Node × List (Reply ℕ)
unwrap none = (server, [])
unwrap (some out) = out

abbrev after_orders : Server Node × List (Reply ℕ)
after_orders = unwrap (run ℕ site orders_of_two two_jails)

ran : run ℕ site orders_of_two two_jails ≡ some after_orders
unfolding run unwrap
ran = refl

web_found :
    Dict.get (bytes "web") after_orders.0.reconciler.records
    ≡ some (retargeted (some (bytes "10.0.0.9")) (record_numbered 1 (bytes "web")))
unfolding run unwrap Dict.get get_volume set_replicate_to retarget save_record Store.save
    Dict.insert str_eq handle volume_dataset_path
web_found = refl

db_found :
    Dict.get (bytes "db") after_orders.0.reconciler.records ≡ some (record_numbered 2 (bytes "db"))
unfolding run unwrap Dict.get get_volume set_replicate_to retarget save_record Store.save
    Dict.insert str_eq handle volume_dataset_path
db_found = refl

run-IsIsolated_example :
    (epair_base_name 1 ≢ epair_base_name 2)
    × (jail_name (bytes "web") ≢ jail_name (bytes "db"))
    × (jail_dataset_path after_orders.0.reconciler.pool (bytes "web")
        ≢ jail_dataset_path after_orders.0.reconciler.pool (bytes "db"))
run-IsIsolated_example =
    run-IsIsolated ℕ site 3 orders_of_two two_jails after_orders (bytes "web") (bytes "db")
      (retargeted (some (bytes "10.0.0.9")) (record_numbered 1 (bytes "web")))
      (record_numbered 2 (bytes "db")) (omega arith) two_jails-IsTidy ran web_found db_found
      (λ e. cc)

web_delay :
    Dict.get (bytes "web") after_orders.0.reconciler.backoff
    ≡ some (record_attempt Backoff.new nanos)
unfolding run unwrap Dict.get get_volume set_replicate_to retarget save_record Store.save
    Dict.insert str_eq handle record_attempt volume_dataset_path
web_delay = refl

run-opens_example :
    ((record_attempt Backoff.new nanos).next_retry_at ≡ none)
    ⊎ ((last : ℕ) × ((record_attempt Backoff.new nanos).last_started_at ≡ some last)
        × (can_retry (record_attempt Backoff.new nanos) (last + 64 * nanos) ≡ true))
run-opens_example =
    run-opens ℕ site 3 orders_of_two two_jails after_orders (bytes "web")
      (record_attempt Backoff.new nanos) (omega arith) two_jails-IsTidy ran web_delay
