-- ===== src/Agent/Reconciler/Wanted.antt =====
-- keel-agentd/src/reconciler.rs: the operations that change what is wanted keep the state tidy.
use kubsd.Base.{
  ℕ, ◌+◌, ◌^◌, ◌≤◌, ◌<◌, ◌≡◌, refl, ◌∙◌, Option, none, some, ok, inl, inr, arith, Bool-cases,
  is_empty,
}
use native.Mathlib.Nat.{mod-eq_of_lt}
use kubsd.Base.Dict
use kubsd.Base.Dict.{Dict, Distinct, Each, Each-remove}
use kubsd.Base.Effects.{continue}
use kubsd.Base.Str.{Str, bytes}
use kubsd.Extern.{Float}
use kubsd.Spec.Types.{JailSpec}
use kubsd.Agent.Backoff.Gate.{IsPaced}
use kubsd.Agent.Checks.{check_jail}
use kubsd.Agent.Reconciler.{
  Reconciler, jail_key, next_u32, save_record, ordinal_for, apply, delete, delete_record,
  set_replicate_to, retarget, ensure_ingress_jail, is_tracked, retargeted, ingress_jail_spec,
}
use kubsd.Agent.Provision.{tear_down_jail}
use kubsd.Agent.Reconciler.Steps.{node_step-Keeps, node_then-Keeps, guard-Keeps, guard_then-Keeps}
use kubsd.Agent.Reconciler.Tidy.{IsRecord, IsTidy, weaken, insert-TidyRecords, remove-TidyRecords}
use kubsd.Agent.Record.{JailRecord}
use kubsd.Agent.Site.{Site, invalid_spec, store}
use kubsd.Spec.Names.{validate_transition}
use kubsd.Agent.Store

module _ (F : Type 0) {W : Type 0} ⦃float : Float F⦄ (site : Site W) where
  abbrev Tidied : ℕ → Reconciler W → Type 0
  Tidied = IsTidy F site.parse_address

  save_record-IsTidy :
      (bound : ℕ) (name : Str) (r : JailRecord) (s : Reconciler W)
      → Tidied bound s
      → IsRecord F site.parse_address s.next_epair_ordinal name r
      → ((a : Str) (q : JailRecord)
          → Dict.get a s.records ≡ some q
          → q.epair_ordinal ≡ r.epair_ordinal
          → a ≡ name)
      → Tidied bound (save_record site name r s).0
  unfolding save_record
  save_record-IsTidy bound name r s t i fresh =
      node_step-Keeps (Tidied bound) s store
        (Store.save site.files site.jail_codec s.state_dir (jail_key r) r s.node) _ (λ w. t)
        (λ _ w. record {
          tidy_records =
              insert-TidyRecords F site.parse_address s.next_epair_ordinal name r s.records
                t.tidy_records i fresh;
          paced = t.paced;
          bounded = t.bounded;
        })

  next_small : (n bound : ℕ) → n ≤ bound → bound + 1 < 2 ^ 32 → next_u32 n ≡ n + 1
  next_small n bound h l = mod-eq_of_lt (omega arith)

  -- the state once the next ordinal is given out
  taken-IsTidy :
      (bound : ℕ) (s : Reconciler W)
      → bound + 1 < 2 ^ 32
      → Tidied bound s
      → Tidied (bound + 1) (record s { next_epair_ordinal = next_u32 s.next_epair_ordinal })
  taken-IsTidy bound s l t = record {
    tidy_records =
        weaken F site.parse_address s.next_epair_ordinal (next_u32 s.next_epair_ordinal) s.records
          (rw (next_small s.next_epair_ordinal bound t.bounded l) (omega arith)) t.tidy_records;
    paced = t.paced;
    bounded = rw (next_small s.next_epair_ordinal bound t.bounded l) (omega (arith, t.bounded));
  }

  pub weaken-IsTidy : (n m : ℕ) (s : Reconciler W) → n ≤ m → Tidied n s → Tidied m s
  weaken-IsTidy n m s h t = record {
    tidy_records = t.tidy_records;
    paced = t.paced;
    bounded = omega (arith, t.bounded);
  }

  apply_record-IsTidy :
      (bound : ℕ) (spec : JailSpec) (s : Reconciler W) (o : Option JailRecord)
      → bound + 1 < 2 ^ 32
      → Tidied bound s
      → check_jail F site.parse_address spec ≡ ok tt
      → Dict.get spec.metadata.name s.records ≡ o
      → Tidied
          (bound + 1)
          (continue (ordinal_for site spec o s) (λ ordinal.
            save_record site spec.metadata.name
              (record { spec = spec; epair_ordinal = ordinal }))).0
  apply_record-IsTidy bound spec s none l t c g =
      save_record-IsTidy (bound + 1) spec.metadata.name
        (record { spec = spec; epair_ordinal = s.next_epair_ordinal })
        (record s { next_epair_ordinal = next_u32 s.next_epair_ordinal }) (taken-IsTidy bound s l t)
        (refl, c, rw (next_small s.next_epair_ordinal bound t.bounded l) (omega arith))
        (λ a q h e. absurd (
          let old : q.epair_ordinal < s.next_epair_ordinal = (t.tidy_records.sound a q h).2 in
          omega arith))
  apply_record-IsTidy bound spec s (some existing) l t c g =
      let kept = t.tidy_records.sound spec.metadata.name existing g in
      guard_then-Keeps (Tidied (bound + 1)) s invalid_spec (validate_transition existing.spec spec)
        existing.epair_ordinal _ (weaken-IsTidy bound (bound + 1) s (omega arith) t)
        (save_record-IsTidy (bound + 1) spec.metadata.name
          (record { spec = spec; epair_ordinal = existing.epair_ordinal }) s
          (weaken-IsTidy bound (bound + 1) s (omega arith) t) (refl, c, kept.2)
          (λ a q h e. t.tidy_records.separate a spec.metadata.name q existing h g e))

  pub apply-IsTidy :
      (bound : ℕ) (spec : JailSpec) (s : Reconciler W)
      → bound + 1 < 2 ^ 32
      → Tidied bound s
      → Tidied (bound + 1) (apply F site spec s).0
  unfolding apply
  apply-IsTidy bound spec s l t =
      guard-Keeps (Tidied (bound + 1)) s invalid_spec (check_jail F site.parse_address spec) _
        (weaken-IsTidy bound (bound + 1) s (omega arith) t)
        (λ _ c. apply_record-IsTidy bound spec s (Dict.get spec.metadata.name s.records) l t c refl)

  pub ensure_ingress_jail-IsTidy :
      (bound : ℕ) (s : Reconciler W)
      → bound + 1 < 2 ^ 32
      → Tidied bound s
      → Tidied (bound + 1) (ensure_ingress_jail F site s).0
  unfolding ensure_ingress_jail
  ensure_ingress_jail-IsTidy bound s l t =
      let unchanged = weaken-IsTidy bound (bound + 1) s (omega arith) t in
      elim (Bool-cases (is_empty s.ingress_records)) [
        | inl e ↦ rw e unchanged
        | inr e ↦ elim (Bool-cases (is_tracked (Dict.get (bytes "ingress") s.records))) [
          | inl q ↦ rw (e, q) unchanged
          | inr q ↦ rw (e, q) (apply-IsTidy bound (ingress_jail_spec) s l t)
        ]
      ]

  delete_record-IsTidy :
      (bound : ℕ) (name : Str) (s : Reconciler W) (o : Option JailRecord)
      → Tidied bound s
      → Tidied bound (delete_record site name o s).0
  delete_record-IsTidy bound name s none t = t
  delete_record-IsTidy bound name s (some r) t =
      node_then-Keeps (Tidied bound) s (tear_down_jail site.host s.pool name r s.node) _ (λ w. t)
        (λ _ w.
          node_step-Keeps (Tidied bound) (record s { node = w }) store
            (Store.remove site.files site.jail_codec s.state_dir name w) _ (λ v. t)
            (λ _ v. record {
              tidy_records =
                  remove-TidyRecords F site.parse_address s.next_epair_ordinal name s.records
                    t.tidy_records;
              paced = Each-remove (λ name b. IsPaced b) name s.backoff t.paced;
              bounded = t.bounded;
            }))

  pub delete-IsTidy :
      (bound : ℕ) (name : Str) (s : Reconciler W)
      → Tidied bound s
      → Tidied bound (delete site name s).0
  unfolding delete
  delete-IsTidy bound name s t = delete_record-IsTidy bound name s (Dict.get name s.records) t

  -- the guards do not look at `replicate_to`
  retargeted_lem :
      (replicate_to : Option Str) (r : JailRecord)
      → check_jail F site.parse_address (retargeted replicate_to r).spec
        ≡ check_jail F site.parse_address r.spec
  unfolding check_jail
  retargeted_lem replicate_to r = refl

  retarget-IsTidy :
      (bound : ℕ) (name : Str) (replicate_to : Option Str) (s : Reconciler W)
      (o : Option JailRecord)
      → Tidied bound s
      → Dict.get name s.records ≡ o
      → Tidied bound (retarget site name replicate_to o s).0
  unfolding retarget
  retarget-IsTidy bound name replicate_to s none t g = t
  retarget-IsTidy bound name replicate_to s (some r) t g =
      let i = t.tidy_records.sound name r g in
      save_record-IsTidy bound name (retargeted replicate_to r) s t
        (i.0, retargeted_lem replicate_to r ∙ i.1, i.2)
        (λ a q h e. t.tidy_records.separate a name q r h g e)

  pub set_replicate_to-IsTidy :
      (bound : ℕ) (name : Str) (replicate_to : Option Str) (s : Reconciler W)
      → Tidied bound s
      → Tidied bound (set_replicate_to site name replicate_to s).0
  unfolding set_replicate_to
  set_replicate_to-IsTidy bound name replicate_to s t =
      retarget-IsTidy bound name replicate_to s (Dict.get name s.records) t refl
