-- ===== src/Agent/Store/Restart.antt =====
-- keel-agentd/src/store.rs with the two maps that Reconciler::new collects: what a new start loads.
use kubsd.Base.{
  ◌≡◌, refl, sym, ap, ◌∙◌, Bool-cases, List, [], ◌∷◌, some, Option-cases, ok, inl, inr, ◌⊎◌, arith,
  All, Occurs,
}
use mathlib.Core.Option
use mathlib.Core.Path.{subst}
use kubsd.Base.Dict
use kubsd.Base.Dict.{
  Dict, Each, Each-insert, Each-remove, All-insert, All-remove, Occurs-get, get-insert, keys-Has,
}
use kubsd.Base.Effects.{>>=-step}
use kubsd.Base.Str.{Str, str_eq, str_eq_iff, ne_of_str_eq}
use kubsd.Agent.Files.{Files}
use kubsd.Agent.Files.Memory.{memory}
use kubsd.Agent.Reconciler.{collect}
use kubsd.Agent.Store.{Codec, record_path, tmp_path, load_all, load_entries}
use kubsd.Agent.Store.Durable.{
  Holds, StoreStep, saved, removed, cut_off, step_files, step_map, run_files, run_map, step-Holds,
  renamed, save_lem, remove_lem,
}
use kubsd.Agent.Store.Loaded.{IsOurs, load_entries_ours, listed_ours}
use kubsd.Agent.Store.Simulated.{IsDirectory, run_on, run_on-Shows, load_all-Shows}
use kubsd.Agent.Store.Paths.{IsFileName}

-- A map that is collected from the values of another has its lookups.
module _ {R : Type 0} (key : R → Str) (whole : Dict R) (keyed : Each (λ k r. key r ≡ k) whole)
    (name : Str) where
  -- what the insertion of one of its values leaves
  insert_complete :
      (r q : R) (rs : List R) (acc : Dict R)
      → Dict.get (key r) whole ≡ some r
      → Dict.get name whole ≡ some q
      → Occurs q (r ∷ rs) ⊎ (Dict.get name acc ≡ some q)
      → Occurs q rs ⊎ (Dict.get name (Dict.insert (key r) r acc) ≡ some q)
  insert_complete r q rs acc found w c = elim (Bool-cases (str_eq (key r) name)) [
    | inl s ↦
        let same : key r ≡ name = (str_eq_iff (key r) name).0 s in
        let r_q : some r ≡ some q = sym found ∙ ap (λ t. Dict.get t whole) same ∙ w in
        inr (rw (get-insert (key r) name r acc, s) r_q)
    | inr s ↦ elim c [
      | inl (inl q_r) ↦ absurd (ne_of_str_eq (key r) name s (ap key (sym q_r) ∙ keyed name q w))
      | inl (inr later) ↦ inl later
      | inr e ↦ inr (rw (get-insert (key r) name r acc, s) e)
    ]
  ]

  insert_within :
      (r q : R) (acc : Dict R)
      → Dict.get (key r) whole ≡ some r
      → ((v : R) → Dict.get name acc ≡ some v → Dict.get name whole ≡ some v)
      → Dict.get name (Dict.insert (key r) r acc) ≡ some q
      → Dict.get name whole ≡ some q
  insert_within r q acc found within g = elim (Bool-cases (str_eq (key r) name)) [
    | inl s ↦
        let same : key r ≡ name = (str_eq_iff (key r) name).0 s in
        let r_q : some r ≡ some q = ground (arith, get-insert (key r) name r acc) in
        ap (λ t. Dict.get t whole) (sym same) ∙ found ∙ r_q
    | inr s ↦ within q (ground (arith, get-insert (key r) name r acc))
  ]

  pub get-collect :
      (rs : List R) (acc : Dict R)
      → All (λ r. (k : Str) × (Dict.get k whole ≡ some r)) rs
      → ((r : R) → Dict.get name whole ≡ some r → Occurs r rs ⊎ (Dict.get name acc ≡ some r))
      → ((r : R) → Dict.get name acc ≡ some r → Dict.get name whole ≡ some r)
      → Dict.get name (collect key rs acc) ≡ Dict.get name whole
  get-collect [] acc sound complete within = elim (Option-cases (Dict.get name whole)) [
    | inl e ↦ elim (Option-cases (Dict.get name acc)) [
      | inl e' ↦ cc
      | inr (r, e') ↦ let w = within r e' in cc
    ]
    | inr (r, e) ↦ elim (complete r e) [ inl o ↦ absurd o | inr e' ↦ cc ]
  ]
  get-collect (r ∷ rs) acc ((k, found), sound) complete within =
      let found' : Dict.get (key r) whole ≡ some r = rw (keyed k r found) found in
      get-collect rs (Dict.insert (key r) r acc) sound
        (λ q w. insert_complete r q rs acc found' w (complete q w))
        (λ q g. insert_within r q acc found' within g)

module _ {R : Type 0} (codec : Codec R) (dir : Str) (key : R → Str) where
  -- a step under a name that a file can have, and that is the record's
  abbrev pub IsNamed : StoreStep codec dir → Type 0
  IsNamed (saved name r) = IsFileName name × (key r ≡ name)
  IsNamed (removed name) = Unit
  IsNamed (cut_off name r) = IsFileName name

  step-IsOurs :
      (step : StoreStep codec dir) (fs after : Dict Str)
      → IsNamed step
      → All (IsOurs dir) fs
      → step_files codec dir step fs ≡ (after, ok tt)
      → All (IsOurs dir) after
  unfolding renamed
  step-IsOurs (saved name r) fs after (f, k) ours e =
      let is_after : renamed codec dir name r fs ≡ after =
        ap (λ t. t.0) (sym (save_lem codec dir name r fs) ∙ e) in
      subst (All (IsOurs dir)) is_after (
        All-insert (IsOurs dir) (record_path dir name) (codec.print r) _ (name, f, inl refl)
          (All-remove (IsOurs dir) (tmp_path dir name) _ (
            All-insert (IsOurs dir) (tmp_path dir name) (codec.print r) fs (name, f, inr refl)
              ours)))
  step-IsOurs (removed name) fs after f ours e =
      let is_after =
        ap (λ t. t.0)
          (sym (remove_lem codec dir name fs (Dict.get (record_path dir name) fs) refl) ∙ e) in
      subst (All (IsOurs dir)) is_after (All-remove (IsOurs dir) (record_path dir name) fs ours)
  step-IsOurs (cut_off name r) fs after f ours e =
      subst (All (IsOurs dir)) (ap (λ t. t.0) e)
        (All-insert (IsOurs dir) (tmp_path dir name) (codec.print r) fs (name, f, inr refl) ours)

  step_keyed :
      (step : StoreStep codec dir) (m : Dict R)
      → IsNamed step
      → Each (λ k r. key r ≡ k) m
      → Each (λ k r. key r ≡ k) (step_map codec dir step m)
  step_keyed (saved name r) m n each = Each-insert (λ k r. key r ≡ k) name r m n.1 each
  step_keyed (removed name) m n each = Each-remove (λ k r. key r ≡ k) name m each
  step_keyed (cut_off name r) m n each = each

  -- what the steps keep of a directory and its map
  abbrev IsStored : Dict Str → Dict R → Type 0
  IsStored fs m = Holds codec dir fs m × All (IsOurs dir) fs × Each (λ k r. key r ≡ k) m

  run-IsStored :
      (steps : List (StoreStep codec dir)) (fs : Dict Str) (m : Dict R)
      → All IsNamed steps
      → IsStored fs m
      → (after : Dict Str) × (run_files codec dir steps fs ≡ (after, ok tt))
        × IsStored after (run_map codec dir steps m)
  unfolding run_files run_map
  run-IsStored [] fs m n i = (fs, refl, i)
  run-IsStored (step ∷ steps) fs m (n, ns) (h, ours, keyed) =
      let (next, e, h') = step-Holds codec dir step fs m h in
      let (after, e', j) =
        run-IsStored steps next (step_map codec dir step m) ns
          (h', step-IsOurs step fs next n ours e, step_keyed step m n keyed) in
      (after, >>=-step (step_files codec dir step) (λ _. run_files codec dir steps) fs e ∙ e', j)

  module _ (reads : (r : R) → codec.read (codec.print r) ≡ ok r) where
    load_stored :
        (fs : Dict Str) (m : Dict R)
        → IsStored fs m
        → (rs : List R) × (load_all memory codec dir fs ≡ (fs, ok rs))
          × ((name : Str) → Dict.get name (collect key rs []) ≡ Dict.get name m)
    unfolding load_all Dict.get
    load_stored fs m (h, ours, keyed) =
        let (rs, loaded, (sound, complete)) =
          load_entries_ours codec dir reads fs m fs h ours (keys-Has fs) in
        (
          rs,
          ap (λ es. load_entries memory codec dir es fs) (listed_ours dir fs ours) ∙ loaded,
          λ name.
              get-collect key m keyed name rs [] sound
                (λ r g. inl (
                  complete name (codec.print r) r
                    (Occurs-get (record_path dir name) (codec.print r) fs
                      (h name ∙ ap (Option.map codec.print) g))
                    g))
                (λ r g. absurd (cc g)),
        )

    -- From an empty directory, on files of which no step fails, saves, removals and saves that are cut
    -- off before their rename, in any number and order, all succeed, and load_all then succeeds: the
    -- map that is collected from what it loads has the lookups of the map on which each completed save
    -- was an insertion and each removal a removal, when the names are ones a file can have, each record
    -- is saved under its own name, and what is printed of a record reads back.
    pub run_on-load_all :
        {W : Type 0} (files : Files W) (view : W → Dict Str) (directory : IsDirectory files view)
        (empty : W)
        → view empty ≡ []
        → (steps : List (StoreStep codec dir)) → All IsNamed steps
        → (w : W) × (after : W) × (rs : List R) × (run_on files view codec dir steps empty
            ≡ (w, ok tt))
          × (load_all files codec dir w ≡ (after, ok rs))
          × ((name : Str)
              → Dict.get name (collect key rs []) ≡ Dict.get name (run_map codec dir steps []))
    unfolding Dict.get
    run_on-load_all files view directory empty none_yet steps named =
        let (fs, ran, stored) =
          run-IsStored steps [] [] named ((λ name. refl), tt, λ k r g. absurd (cc g)) in
        let (rs, loaded, same) = load_stored fs (run_map codec dir steps []) stored in
        let ran_on = run_on files view codec dir steps empty in
        let shown : (view ran_on.0, ran_on.1) ≡ (fs, ok tt) =
          (run_on-Shows files view codec dir directory steps).shows empty
          ∙ ap (run_files codec dir steps) none_yet
          ∙ ran in
        let again = load_all files codec dir ran_on.0 in
        let shown' : (view again.0, again.1) ≡ (fs, ok rs) =
          (load_all-Shows files view codec dir directory).shows ran_on.0
          ∙ ap (load_all memory codec dir) (ap (λ t. t.0) shown)
          ∙ loaded in
        (
          ran_on.0,
          again.0,
          rs,
          ap (λ r. (ran_on.0, r)) (ap (λ t. t.1) shown),
          ap (λ r. (again.0, r)) (ap (λ t. t.1) shown'),
          same,
        )
