-- ===== src/Agent/Reconciler/Committed.antt =====
-- keel-agentd/src/reconciler.rs: in a tidy state the resources that are spoken for can be added up, and
-- what is told of the jails leaves the state tidy.
use kubsd.Base.{
  ℕ, ◌+◌, ◌^◌, ◌%◌, ◌≡◌, refl, List, [], ◌∷◌, map, Option, none, some, ok, All, >>=-eq-ok,
}
use kubsd.Base.Dict
use kubsd.Base.Dict.{Dict, All-Each}
use kubsd.Base.Str.{Str}
use kubsd.Base.Sort.{sort}
use kubsd.Extern.{Float, AddressParser}
use kubsd.Spec.Names.{validate_name, validate_address}
use kubsd.Spec.Types.{JailSpec}
use kubsd.Spec.Resources.{parse_cpu_cores, parse_memory_bytes}
use kubsd.Agent.Checks.{check_jail}
use kubsd.Agent.Reconciler.{Reconciler}
use kubsd.Agent.Reconciler.Pass.{get, get_each, get_status, list, committed, committed_resources}
use kubsd.Agent.Reconciler.Renewed.{Returns}
use kubsd.Agent.Reconciler.Tidy.{IsTidy}
use kubsd.Agent.Record.{JailRecord}
use kubsd.Agent.Site.{Site}

module _ (F : Type 0) ⦃float : Float F⦄ where
  -- the two sizes can be read
  abbrev Parses : JailSpec → Type 0
  Parses spec =
      ((cores : F) × (parse_cpu_cores {F = F} spec.spec.resources.cpu ≡ ok cores))
      × ((n : ℕ) × (parse_memory_bytes spec.spec.resources.memory ≡ ok n))

  check_jail-Parses :
      (parse_address : AddressParser) (spec : JailSpec)
      → check_jail F parse_address spec ≡ ok tt
      → Parses spec
  unfolding check_jail
  check_jail-Parses parse_address spec h =
      let (u, e, h1) = >>=-eq-ok (validate_name spec.metadata.name) _ h in
      let (v, e1, h2) = >>=-eq-ok (validate_address parse_address spec.spec.network.address) _ h1 in
      let (cores, e2, h3) = >>=-eq-ok (parse_cpu_cores {F = F} spec.spec.resources.cpu) _ h2 in
      let (n, e3, h4) = >>=-eq-ok (parse_memory_bytes spec.spec.resources.memory) _ h3 in
      ((cores, e2), (n, e3))

  committed-Returns :
      (m : Dict JailRecord) (cpu : F) (mem : ℕ)
      → All (λ (e : Str × JailRecord). Parses e.1.spec) m
      → Returns (λ out. Unit) (committed {F = F} m (cpu, mem))
  unfolding committed
  committed-Returns [] cpu mem h = ((cpu, mem), refl, tt)
  committed-Returns ((name, r) ∷ m) cpu mem (((cores, e), (n, e')), h) =
      rw (e, e') (committed-Returns m (float.add cpu cores) ((mem + n) % 2 ^ 64) h)

  pub committed_resources-Returns :
      {W : Type 0} (parse_address : AddressParser) (bound : ℕ) (s : Reconciler W)
      → IsTidy F parse_address bound s
      → Returns (λ out. Unit) (committed_resources {F = F} s)
  unfolding committed_resources
  committed_resources-Returns parse_address bound s t = committed-Returns s.records float.f_zero 0 (
      All-Each (λ name r. Parses r.spec) s.records t.tidy_records.distinct
        (λ k v g. check_jail-Parses parse_address v.spec (t.tidy_records.sound k v g).1))

module _ {W : Type 0} (site : Site W) (P : Reconciler W → Type 0)
    (free : (s : Reconciler W) (w : W) → P s → P (record s { node = w })) where
  get_status-Keeps :
      (name : Str) (now : ℕ) (o : Option JailRecord) (s : Reconciler W)
      → P s
      → P (get_status site name now o s).0
  get_status-Keeps name now none s p = p
  get_status-Keeps name now (some r) s p = free s _ p

  pub get-Keeps : (name : Str) (now : ℕ) (s : Reconciler W) → P s → P (get site name now s).0
  unfolding get
  get-Keeps name now s p = get_status-Keeps name now (Dict.get name s.records) s p

  get_each-Keeps :
      (names : List Str) (now : ℕ) (s : Reconciler W) → P s → P (get_each site names now s).0
  unfolding get_each
  get_each-Keeps [] now s p = p
  get_each-Keeps (name ∷ names) now s p =
      get_each-Keeps names now (get site name now s).0 (get-Keeps name now s p)

  pub list-Keeps : (now : ℕ) (s : Reconciler W) → P s → P (list site now s).0
  unfolding list
  list-Keeps now s p =
      get_each-Keeps (sort (λ name. name) (map (λ (e : Str × JailRecord). e.0) s.records)) now s p
