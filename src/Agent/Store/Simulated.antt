-- ===== src/Agent/Store/Simulated.antt =====
-- keel-agentd/src/store.rs over std::fs: on files of which no step fails, the stores do what they do
-- on files in memory.
use kubsd.Base.{
  ◌≡◌, refl, ap, ◌∙◌, Bool, true, false, List, [], ◌∷◌, ◌++◌, Result, ok, err, map_err,
  if◌then◌else◌,
}
use kubsd.Base.Dict.{Dict}
use kubsd.Base.Effects.{Step, return, lift, wrap, unless, continue, relabel, excuse, ◌>>=◌, ◌>>◌}
use kubsd.Base.Str.{Str}
use kubsd.Agent.Files.{Files, IoError, is_yaml, is_io_not_found}
use kubsd.Agent.Files.Memory.{memory}
use kubsd.Agent.Store.{
  Codec, StoreError, io, parse, record_path, tmp_path, save, remove, load_all, load_entries,
  load_entry,
}
use kubsd.Agent.Store.Durable.{StoreStep, saved, removed, cut_off, step_files, run_files}

module _ {W V : Type 0} (view : W → V) where
  abbrev seen : {A : Type 0} → W × A → V × A
  seen (w, a) = (view w, a)

  -- Through the view a step is another.
  pub record Shows {A E : Type 0} (m : Step W A E) (n : Step V A E) : Type 0 where
    pub shows : (w : W) → seen (m w) ≡ n (view w)

  seen-continue :
      {A B E : Type 0} (out : W × Result A E) (out' : V × Result A E) (next : A → Step W B E)
      (next' : A → Step V B E)
      → seen out ≡ out'
      → ((a : A) (w : W) → seen (next a w) ≡ next' a (view w))
      → seen (continue out next) ≡ continue out' next'
  seen-continue (w, ok a) out' next next' h k = k a w ∙ ap (λ o. continue o next') h
  seen-continue (w, err e) out' next next' h k = ap (λ o. continue o next') h

  seen-relabel :
      {A E E' : Type 0} (f : E → E') (out : W × Result A E) (out' : V × Result A E)
      → seen out ≡ out'
      → seen (relabel f out) ≡ relabel f out'
  seen-relabel f (w, ok a) out' h = ap (relabel f) h
  seen-relabel f (w, err e) out' h = ap (relabel f) h

  excused_seen :
      {E : Type 0} (b : Bool) (w : W) (e : E)
      → seen (if b then (w, ok tt) else (w, err e))
        ≡ (if b then (view w, ok tt) else (view w, err e))
  excused_seen true w e = refl
  excused_seen false w e = refl

  seen-excuse :
      {E : Type 0} (absent : E → Bool) (out : W × Result (Unit {0}) E)
      (out' : V × Result (Unit {0}) E)
      → seen out ≡ out'
      → seen (excuse absent out) ≡ excuse absent out'
  seen-excuse absent (w, ok a) out' h = ap (excuse absent) h
  seen-excuse absent (w, err e) out' h = excused_seen (absent e) w e ∙ ap (excuse absent) h

  excused :
      {E : Type 0} (absent : E → Bool) (m : Step W (Unit {0}) E) (n : Step V (Unit {0}) E)
      → Shows m n
      → Shows (unless absent m) (unless absent n)
  excused absent m n h = record { shows = λ w. seen-excuse absent (m w) (n (view w)) (h.shows w) }

  same : {A E : Type 0} (r : Result A E) → Shows (lift r) (lift r)
  same r = record { shows = λ w. refl }

  wrapped :
      {A E E' : Type 0} (f : E → E') (m : Step W A E) (n : Step V A E)
      → Shows m n
      → Shows (wrap f m) (wrap f n)
  wrapped f m n h = record { shows = λ w. seen-relabel f (m w) (n (view w)) (h.shows w) }

  chained :
      {A B E : Type 0} (m : Step W A E) (n : Step V A E) (next : A → Step W B E)
      (next' : A → Step V B E)
      → Shows m n
      → ((a : A) → Shows (next a) (next' a))
      → Shows (m >>= next) (n >>= next')
  chained m n next next' h k = record {
    shows = λ w. seen-continue (m w) (n (view w)) next next' (h.shows w) (λ a. (k a).shows);
  }

-- what the stores rely on: no step fails, but on a file that is missing
pub record IsDirectory {W : Type 0} (files : Files W) (view : W → Dict Str) : Type 0 where
  pub creates : (dir : Str) → Shows view (files.create_dir_all dir) (memory.create_dir_all dir)
  pub writes :
      (path content : Str)
      → Shows view (files.write_file path content) (memory.write_file path content)
  pub renames : (from to : Str) → Shows view (files.rename from to) (memory.rename from to)
  pub lists : (dir : Str) → Shows view (files.read_dir dir) (memory.read_dir dir)
  pub reads_file :
      (path : Str) → Shows view (files.read_to_string path) (memory.read_to_string path)
  pub removes : (path : Str) → Shows view (files.remove_file path) (memory.remove_file path)

module _ {W R : Type 0} (files : Files W) (view : W → Dict Str) (codec : Codec R) (dir : Str) where
  -- the steps in turn, on any files
  abbrev pub step_on : StoreStep codec dir → Step W (Unit {0}) StoreError
  step_on (saved name r) = save files codec dir name r
  step_on (removed name) = remove files codec dir name
  step_on (cut_off name r) =
      wrap (io (tmp_path dir name)) (files.write_file (tmp_path dir name) (codec.print r))

  unfoldable pub run_on : List (StoreStep codec dir) → Step W (Unit {0}) StoreError
  run_on [] = return tt
  run_on (step ∷ steps) = step_on step >> run_on steps

  module _ (directory : IsDirectory files view) where
    save-Shows :
        (name : Str) (r : R)
        → Shows view (save files codec dir name r) (save memory codec dir name r)
    unfolding save
    save-Shows name r =
        chained view _ _ _ _ (wrapped view (io dir) _ _ (directory.creates dir)) λ _.
          chained view _ _ _ _
            (wrapped view (io (tmp_path dir name)) _ _
              (directory.writes (tmp_path dir name) (codec.print r)))
            λ _.
              wrapped view (io (record_path dir name)) _ _
                (directory.renames (tmp_path dir name) (record_path dir name))

    remove-Shows :
        (name : Str) → Shows view (remove files codec dir name) (remove memory codec dir name)
    unfolding remove
    remove-Shows name =
        wrapped view (io (record_path dir name)) _ _
          (excused view is_io_not_found _ _ (directory.removes (record_path dir name)))

    step_on-Shows :
        (step : StoreStep codec dir) → Shows view (step_on step) (step_files codec dir step)
    step_on-Shows (saved name r) = save-Shows name r
    step_on-Shows (removed name) = remove-Shows name
    step_on-Shows (cut_off name r) =
        wrapped view (io (tmp_path dir name)) _ _
          (directory.writes (tmp_path dir name) (codec.print r))

    pub run_on-Shows :
        (steps : List (StoreStep codec dir)) → Shows view (run_on steps) (run_files codec dir steps)
    unfolding run_on run_files
    run_on-Shows [] = same view (ok _)
    run_on-Shows (step ∷ steps) =
        chained view _ _ _ _ (step_on-Shows step) (λ _. run_on-Shows steps)

    load_yaml-Shows :
        (path : Str) (b : Bool)
        → Shows view
            (if b
              then (do
                content ← wrap (io path) (files.read_to_string path)
                loaded ← lift (map_err (parse path) (codec.read content))
                return (loaded ∷ []))
              else return [])
            (if b
              then (do
                content ← wrap (io path) (memory.read_to_string path)
                loaded ← lift (map_err (parse path) (codec.read content))
                return (loaded ∷ []))
              else return [])
    load_yaml-Shows path true =
        chained view _ _ _ _ (wrapped view (io path) _ _ (directory.reads_file path))
          λ content. chained view _ _ _ _ (same view _) λ loaded. same view (ok (loaded ∷ []))
    load_yaml-Shows path false = same view (ok [])

    load_entry-Shows :
        (entry : Result Str IoError)
        → Shows view (load_entry files codec dir entry) (load_entry memory codec dir entry)
    load_entry-Shows (err e) = same view (err (io dir e))
    load_entry-Shows (ok path) = load_yaml-Shows path (is_yaml path)

    load_entries-Shows :
        (entries : List (Result Str IoError))
        → Shows view (load_entries files codec dir entries) (load_entries memory codec dir entries)
    unfolding load_entries
    load_entries-Shows [] = same view (ok _)
    load_entries-Shows (entry ∷ entries) = chained view _ _ _ _ (load_entry-Shows entry) λ found.
        chained view _ _ _ _ (load_entries-Shows entries) λ rest. same view (ok (found ++ rest))

    pub load_all-Shows : Shows view (load_all files codec dir) (load_all memory codec dir)
    unfolding load_all
    load_all-Shows = chained view _ _ _ _ (wrapped view (io dir) _ _ (directory.creates dir)) λ _.
        chained view _ _ _ _ (wrapped view (io dir) _ _ (directory.lists dir)) load_entries-Shows
