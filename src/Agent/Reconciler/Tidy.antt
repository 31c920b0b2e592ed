-- ===== src/Agent/Reconciler/Tidy.antt =====
-- keel-agentd/src/reconciler.rs: what holds of the reconciler's state at all times.
use kubsd.Base.{ℕ, ◌≤◌, ◌<◌, ◌≡◌, sym, ap, ◌∙◌, some, ok, ◌⊎◌, inl, inr, arith, Bool-cases}
use kubsd.Base.Dict
use kubsd.Base.Dict.{
  Dict, Distinct, Distinct-insert, Distinct-remove, Each, Each-insert, Each-remove, get-insert,
  get-remove,
}
use kubsd.Base.Str.{Str, str_eq, str_eq_iff}
use kubsd.Extern.{Float, AddressParser}
use kubsd.Agent.Backoff.{BackoffState}
use kubsd.Agent.Backoff.Gate.{IsPaced}
use kubsd.Agent.Checks.{check_jail}
use kubsd.Agent.Reconciler.{Reconciler, jail_key}
use kubsd.Agent.Record.{JailRecord}

module _ (F : Type 0) ⦃float : Float F⦄ (parse_address : AddressParser) where
  -- a record stands under its name, has passed the guards, and its ordinal was given out before `next`
  abbrev pub IsRecord : ℕ → Str → JailRecord → Type 0
  IsRecord next name r =
      (jail_key r ≡ name) × (check_jail F parse_address r.spec ≡ ok tt) × (r.epair_ordinal < next)

  abbrev pub AreSeparate : Dict JailRecord → Type 0
  AreSeparate records =
      (a b : Str) (r q : JailRecord)
      → Dict.get a records ≡ some r
      → Dict.get b records ≡ some q
      → r.epair_ordinal ≡ q.epair_ordinal
      → a ≡ b

  pub record TidyRecords (next : ℕ) (records : Dict JailRecord) : Type 0 where
    pub distinct : Distinct records
    pub sound : Each (IsRecord next) records
    pub separate : AreSeparate records

  weaken-IsRecord :
      (n m : ℕ) → n ≤ m → (name : Str) (r : JailRecord) → IsRecord n name r → IsRecord m name r
  weaken-IsRecord n m h name r (e, c, l) = (e, c, omega arith)

  pub weaken :
      (n m : ℕ) (records : Dict JailRecord) → n ≤ m → TidyRecords n records → TidyRecords m records
  weaken n m records h t = record {
    distinct = t.distinct;
    sound = λ k v g. weaken-IsRecord n m h k v (t.sound k v g);
    separate = t.separate;
  }

  -- an entry is the new one, or an old one under another key
  insert-cases :
      (name a : Str) (r q : JailRecord) (records : Dict JailRecord)
      → Dict.get a (Dict.insert name r records) ≡ some q
      → ((name ≡ a) × (r ≡ q)) ⊎ (Dict.get a records ≡ some q)
  insert-cases name a r q records h = elim (Bool-cases (str_eq name a)) [
    | inl e ↦ inl ((str_eq_iff name a).0 e, ground (arith, get-insert name a r records))
    | inr e ↦ inr (ground (arith, get-insert name a r records))
  ]

  -- a record whose ordinal no other key has
  pub insert-TidyRecords :
      (next : ℕ) (name : Str) (r : JailRecord) (records : Dict JailRecord)
      → TidyRecords next records
      → IsRecord next name r
      → ((a : Str) (q : JailRecord)
          → Dict.get a records ≡ some q
          → q.epair_ordinal ≡ r.epair_ordinal
          → a ≡ name)
      → TidyRecords next (Dict.insert name r records)
  insert-TidyRecords next name r records t i fresh = record {
    distinct = Distinct-insert name r records t.distinct;
    sound = Each-insert (IsRecord next) name r records i t.sound;
    separate = λ a b x y g h e. elim (insert-cases name a r x records g) [
      | inl (p, p') ↦ elim (insert-cases name b r y records h) [
        | inl (q, q') ↦ sym p ∙ q
        | inr q ↦
            sym p ∙ sym (fresh b y q (sym e ∙ ap (λ (u : JailRecord). u.epair_ordinal) (sym p')))
      ]
      | inr p ↦ elim (insert-cases name b r y records h) [
        | inl (q, q') ↦ fresh a x p (e ∙ ap (λ (u : JailRecord). u.epair_ordinal) (sym q')) ∙ q
        | inr q ↦ t.separate a b x y p q e
      ]
    ];
  }

  kept-by-remove :
      (name a : Str) (q : JailRecord) (records : Dict JailRecord)
      → Dict.get a (Dict.remove name records) ≡ some q
      → Dict.get a records ≡ some q
  kept-by-remove name a q records h = ground (arith, get-remove name a records)

  pub remove-TidyRecords :
      (next : ℕ) (name : Str) (records : Dict JailRecord)
      → TidyRecords next records
      → TidyRecords next (Dict.remove name records)
  remove-TidyRecords next name records t = record {
    distinct = Distinct-remove name records t.distinct;
    sound = Each-remove (IsRecord next) name records t.sound;
    separate = λ a b x y g h.
        t.separate a b x y (kept-by-remove name a x records g) (kept-by-remove name b y records h);
  }

  -- Below, `bound` is a number that no ordinal has passed.
  pub record Tidy (bound next : ℕ) (records : Dict JailRecord) (backoff : Dict BackoffState)
      : Type 0 where
    pub tidy_records : TidyRecords next records
    pub paced : Each (λ name b. IsPaced b) backoff
    pub bounded : next ≤ bound

  abbrev pub IsTidy : {W : Type 0} → ℕ → Reconciler W → Type 0
  IsTidy bound s = Tidy bound s.next_epair_ordinal s.records s.backoff
