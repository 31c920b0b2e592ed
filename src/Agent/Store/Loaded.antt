-- ===== src/Agent/Store/Loaded.antt =====
-- keel-agentd/src/store.rs over files in memory: what is loaded is what was in its files, temporary ones left out.
use kubsd.Base.{
  ◌≡◌, refl, sym, ap, ◌∙◌, ◌⊎◌, List, [], ◌∷◌, ◌++◌, some, some_inj, Result, ok, inl, inr, All,
  Occurs, filter_map, filter_map_each, All-weaken, map-eq-some, map,
}
use kubsd.Base.Dict
use kubsd.Base.Dict.{
  Dict, Has, insert-Has, keys-Has, All-insert, All-remove, Each, Each-insert, get-insert,
  get-insert_self, Occurs-get,
}
use kubsd.Base.Effects.{return, >>=-step, ◌>>=◌}
use kubsd.Base.Str.{Str, str_eq_refl}
use kubsd.Agent.Files.{IoError, rsplit_once}
use kubsd.Agent.Files.Memory.{memory, entry_in}
use kubsd.Agent.Store.{Codec, record_path, tmp_path, load_entries, load_entry, load_path}
use kubsd.Agent.Store.Durable.{Holds, record_path_injective, tmp_path_apart}
use kubsd.Agent.Store.Paths.{
  IsFileName, record_path_split, tmp_path_split, record_path_yaml, tmp_path_yaml,
}

module _ (dir : Str) where
  -- a file of the store: a record's, or a temporary one
  abbrev pub IsOurs : Str × Str → Type 0
  IsOurs (path, content) =
      (name : Str) × IsFileName name × ((path ≡ record_path dir name) ⊎ (path ≡ tmp_path dir name))

  -- its entry in the directory
  IsOurs-entry :
      (path content : Str)
      → IsOurs (path, content)
      → entry_in dir path (rsplit_once b'/' path) ≡ some (ok path)
  IsOurs-entry path content (name, f, inl e) =
      rw (e, record_path_split dir name f, str_eq_refl dir) refl
  IsOurs-entry path content (name, f, inr e) =
      rw (e, tmp_path_split dir name f, str_eq_refl dir) refl

  -- what `read_dir` lists of the files
  abbrev pub listed : Dict Str → List (Result Str IoError)
  listed l = filter_map (λ (e : Str × Str). entry_in dir e.0 (rsplit_once b'/' e.0)) l

  -- the paths of the files
  abbrev pub paths : Dict Str → List (Result Str IoError)
  paths l = map (λ (e : Str × Str). ok e.0) l

  pub listed_ours : (l : Dict Str) → All IsOurs l → listed l ≡ paths l
  listed_ours l h =
      filter_map_each (λ (e : Str × Str). entry_in dir e.0 (rsplit_once b'/' e.0)) (λ e. ok e.0) l
        (All-weaken IsOurs
          (λ (e : Str × Str). entry_in dir e.0 (rsplit_once b'/' e.0) ≡ some (ok e.0)) l
          (λ e. IsOurs-entry e.0 e.1) h)

-- every record is one that is loaded, and every record whose file is in the list is loaded
abbrev pub IsLoaded : {R : Type 0} → Str → Dict R → Dict Str → List R → Type 0
IsLoaded {R = R} dir m l rs =
    All (λ r. (name : Str) × (Dict.get name m ≡ some r)) rs
    × ((name content : Str) (r : R)
        → Occurs (record_path dir name, content) l
        → Dict.get name m ≡ some r
        → Occurs r rs)

module _ {R : Type 0} (codec : Codec R) (dir : Str)
    (reads : (r : R) → codec.read (codec.print r) ≡ ok r) where
  -- loading a path that is a record's
  load_record :
      (fs : Dict Str) (name : Str) (r : R)
      → IsFileName name
      → Dict.get (record_path dir name) fs ≡ some (codec.print r)
      → load_path memory codec (record_path dir name) fs ≡ (fs, ok (r ∷ []))
  load_record fs name r f g = rw (record_path_yaml dir name f, g, reads r) refl

  load_tmp :
      (fs : Dict Str) (name : Str)
      → IsFileName name
      → load_path memory codec (tmp_path dir name) fs ≡ (fs, ok [])
  load_tmp fs name f = rw (tmp_path_yaml dir name f) refl

  pub load_entries_ours :
      (fs : Dict Str) (m : Dict R) (l : Dict Str)
      → Holds codec dir fs m
      → All (IsOurs dir) l
      → All (λ k. Has k fs) (map (λ (e : Str × Str). e.0) l)
      → (rs : List R) × (load_entries memory codec dir (paths dir l) fs ≡ (fs, ok rs))
        × IsLoaded dir m l rs
  unfolding load_entries
  load_entries_ours fs m [] h ours there = ([], refl, (tt, λ name content r o g. absurd o))
  load_entries_ours fs m ((p, c) ∷ l) h ((name, f, inl e), ours) ((content, g), there) =
      let (rs, loaded, (sound, complete)) = load_entries_ours fs m l h ours there in
      let g' : Dict.get (record_path dir name) fs ≡ some content = rw (sym e) g in
      let (r, found, printed) = map-eq-some codec.print (Dict.get name m) (sym (h name) ∙ g') in
      let one : load_path memory codec p fs ≡ (fs, ok (r ∷ [])) =
        rw e (load_record fs name r f (g' ∙ ap some (sym printed))) in
      (
        r ∷ rs,
        >>=-step (load_entry memory codec dir (ok p))
              (λ found.
                load_entries memory codec dir (paths dir l) >>= λ rest. return (found ++ rest))
              fs one
            ∙ >>=-step (load_entries memory codec dir (paths dir l)) (λ rest. return (r ∷ rest)) fs
                loaded,
        (
          ((name, found), sound),
          λ n k q o same_name. elim o [
            | inl same ↦
                let n_name : n ≡ name =
                  record_path_injective dir n name (ap (λ (t : Str × Str). t.0) same ∙ e) in
                inl (some_inj (sym same_name ∙ ap (λ t. Dict.get t m) n_name ∙ found))
            | inr later ↦ inr (complete n k q later same_name)
          ],
        ),
      )
  load_entries_ours fs m ((p, c) ∷ l) h ((name, f, inr e), ours) (_, there) =
      let (rs, loaded, (sound, complete)) = load_entries_ours fs m l h ours there in
      let skipped : load_path memory codec p fs ≡ (fs, ok []) = rw e (load_tmp fs name f) in
      (
        rs,
        >>=-step (load_entry memory codec dir (ok p))
              (λ found.
                load_entries memory codec dir (paths dir l) >>= λ rest. return (found ++ rest))
              fs skipped
            ∙ >>=-step (load_entries memory codec dir (paths dir l)) (λ rest. return rest) fs
                loaded,
        (
          sound,
          λ n k q o found. elim o [
            | inl same ↦
                absurd (tmp_path_apart dir name n (sym (ap (λ (t : Str × Str). t.0) same ∙ e)))
            | inr later ↦ complete n k q later found
          ],
        ),
      )
