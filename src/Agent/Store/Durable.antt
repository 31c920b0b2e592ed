-- ===== src/Agent/Store/Durable.antt =====
-- keel-agentd/src/store.rs over files in memory: the directory holds what was saved and not removed,
-- also when a save is cut off between its two steps.
use kubsd.Base.{
  ℕ, ◌≡◌, ◌≢◌, refl, sym, ap, ◌∙◌, Bool, true, false, List, [], ◌∷◌, ◌++◌, Option, none, some, ok,
  inl, inr, arith, Bool-cases, ◌==◌,
}
use mathlib.Core.List.{append_cancel_left, append_cancel_right}
use mathlib.Core.Option
use kubsd.Base.Dict
use kubsd.Base.Dict.{Dict, get-insert_self, get-insert, get-remove}
use kubsd.Base.Effects.{Step, return, wrap, ◌>>◌, >>=-step}
use kubsd.Base.Str.{Str, bytes, str_eq, str_eq_iff, str_eq_refl, str_eq_of_ne, ne_of_str_eq}
use kubsd.Agent.Files.Memory.{memory}
use kubsd.Agent.Host.Fake.Sets.{remove_absent}
use kubsd.Agent.Store.{Codec, StoreError, io, record_path, tmp_path, save, remove}

-- the last byte
abbrev ends : Str → ℕ → Bool
ends [] c = false
ends (d ∷ []) c = d == c
ends (d ∷ e ∷ s) c = ends (e ∷ s) c

ends-append : (s : Str) (d : ℕ) (t : Str) (c : ℕ) → ends (s ++ (d ∷ t)) c ≡ ends (d ∷ t) c
ends-append [] d t c = refl
ends-append (x ∷ []) d t c = refl
ends-append (x ∷ y ∷ s) d t c = ends-append (y ∷ s) d t c

-- a record's file is another's only under the same name, and no record's file is a temporary one
pub record_path_injective : (dir a b : Str) → record_path dir a ≡ record_path dir b → a ≡ b
unfolding record_path
record_path_injective dir a b h = append_cancel_right a b (bytes ".yaml") (
    append_cancel_left (b'/' ∷ []) (a ++ bytes ".yaml") (b ++ bytes ".yaml")
      (append_cancel_left dir (b'/' ∷ (a ++ bytes ".yaml")) (b'/' ∷ (b ++ bytes ".yaml")) h))

same_path : (dir a b : Str) → str_eq (record_path dir a) (record_path dir b) ≡ str_eq a b
same_path dir a b = elim (Bool-cases (str_eq a b)) [
  | inl e ↦ rw (e, (str_eq_iff a b).0 e) (str_eq_refl (record_path dir b))
  | inr e ↦ rw e (
      str_eq_of_ne (record_path dir a) (record_path dir b)
        (λ p. ne_of_str_eq a b e (record_path_injective dir a b p)))
]

pub tmp_path_apart : (dir a b : Str) → tmp_path dir a ≢ record_path dir b
unfolding record_path tmp_path
tmp_path_apart dir a b h =
    let same : a ++ bytes ".yaml.tmp" ≡ b ++ bytes ".yaml" =
      append_cancel_left (b'/' ∷ []) (a ++ bytes ".yaml.tmp") (b ++ bytes ".yaml") (
        append_cancel_left dir (b'/' ∷ (a ++ bytes ".yaml.tmp")) (b'/' ∷ (b ++ bytes ".yaml")) h) in
    let last : ends (a ++ bytes ".yaml.tmp") b'p' ≡ ends (b ++ bytes ".yaml") b'p' =
      ap (λ s. ends s b'p') same in
    let p : ends (a ++ bytes ".yaml.tmp") b'p' ≡ true =
      ends-append a b'.' (bytes "yaml.tmp") b'p' in
    let l : ends (b ++ bytes ".yaml") b'p' ≡ false = ends-append b b'.' (bytes "yaml") b'p' in cc

module _ {R : Type 0} (codec : Codec R) (dir : Str) where
  -- what the directory holds is what the map has
  abbrev pub Holds : Dict Str → Dict R → Type 0
  Holds fs m =
      (name : Str) → Dict.get (record_path dir name) fs ≡ Option.map codec.print (Dict.get name m)

  -- the steps that are taken on the directory: the last is a save whose rename does not happen
  pub data StoreStep : Type 0 where
    saved : Str → R → StoreStep
    removed : Str → StoreStep
    cut_off : Str → R → StoreStep

  abbrev pub step_files : StoreStep → Step (Dict Str) (Unit {0}) StoreError
  step_files (saved name r) = save memory codec dir name r
  step_files (removed name) = remove memory codec dir name
  step_files (cut_off name r) =
      wrap (io (tmp_path dir name)) (memory.write_file (tmp_path dir name) (codec.print r))

  abbrev pub step_map : StoreStep → Dict R → Dict R
  step_map (saved name r) m = Dict.insert name r m
  step_map (removed name) m = Dict.remove name m
  step_map (cut_off name r) m = m

  -- a file that is no record's
  tmp-Holds :
      (name content : Str) (fs : Dict Str) (m : Dict R)
      → Holds fs m
      → Holds (Dict.insert (tmp_path dir name) content fs) m
  tmp-Holds name content fs m h other =
      let apart =
        str_eq_of_ne (tmp_path dir name) (record_path dir other) (tmp_path_apart dir name other) in
      ground (arith, get-insert (tmp_path dir name) (record_path dir other) content fs, h other)

  insert-Holds :
      (name : Str) (r : R) (fs : Dict Str) (m : Dict R)
      → Holds fs m
      → Holds (Dict.insert (record_path dir name) (codec.print r) fs) (Dict.insert name r m)
  insert-Holds name r fs m h other =
      rw
        (
          get-insert (record_path dir name) (record_path dir other) (codec.print r) fs,
          get-insert name other r m,
          same_path dir name other,
        )
        (elim (Bool-cases (str_eq name other)) [ inl e ↦ rw e refl | inr e ↦ rw e (h other) ])

  remove-Holds :
      (name : Str) (fs : Dict Str) (m : Dict R)
      → Holds fs m
      → Holds (Dict.remove (record_path dir name) fs) (Dict.remove name m)
  remove-Holds name fs m h other =
      rw
        (
          get-remove (record_path dir name) (record_path dir other) fs,
          get-remove name other m,
          same_path dir name other,
        )
        (elim (Bool-cases (str_eq name other)) [ inl e ↦ rw e refl | inr e ↦ rw e (h other) ])

  -- the file of a save that is complete
  unfoldable pub renamed : Str → R → Dict Str → Dict Str
  renamed name r fs =
      Dict.insert (record_path dir name) (codec.print r)
        (Dict.remove (tmp_path dir name) (Dict.insert (tmp_path dir name) (codec.print r) fs))

  pub save_lem :
      (name : Str) (r : R) (fs : Dict Str)
      → save memory codec dir name r fs ≡ (renamed name r fs, ok tt)
  unfolding save renamed
  save_lem name r fs = rw (get-insert_self (tmp_path dir name) (codec.print r) fs) refl

  untmp-Holds :
      (name : Str) (fs : Dict Str) (m : Dict R)
      → Holds fs m
      → Holds (Dict.remove (tmp_path dir name) fs) m
  untmp-Holds name fs m h other =
      let apart =
        str_eq_of_ne (tmp_path dir name) (record_path dir other) (tmp_path_apart dir name other) in
      ground (arith, get-remove (tmp_path dir name) (record_path dir other) fs, h other)

  pub remove_lem :
      (name : Str) (fs : Dict Str) (o : Option Str)
      → Dict.get (record_path dir name) fs ≡ o
      → remove memory codec dir name fs ≡ (Dict.remove (record_path dir name) fs, ok tt)
  unfolding remove
  remove_lem name fs none e =
      rw e (ap (λ t. (t, ok tt)) (sym (remove_absent (record_path dir name) fs e)))
  remove_lem name fs (some content) e = rw e refl

  -- Each step on the directory succeeds, and keeps it in agreement with the map.
  pub step-Holds :
      (step : StoreStep) (fs : Dict Str) (m : Dict R)
      → Holds fs m
      → (after : Dict Str) × (step_files step fs ≡ (after, ok tt)) × Holds after (step_map step m)
  unfolding renamed
  step-Holds (saved name r) fs m h = (
    renamed name r fs,
    save_lem name r fs,
    insert-Holds name r _ m (untmp-Holds name _ m (tmp-Holds name (codec.print r) fs m h)),
  )
  step-Holds (removed name) fs m h = (
    Dict.remove (record_path dir name) fs,
    remove_lem name fs (Dict.get (record_path dir name) fs) refl,
    remove-Holds name fs m h,
  )
  step-Holds (cut_off name r) fs m h = (
    Dict.insert (tmp_path dir name) (codec.print r) fs,
    refl,
    tmp-Holds name (codec.print r) fs m h,
  )

  -- the steps in turn, on the directory and on the map
  unfoldable pub run_files : List StoreStep → Step (Dict Str) (Unit {0}) StoreError
  run_files [] = return tt
  run_files (step ∷ steps) = step_files step >> run_files steps

  unfoldable pub run_map : List StoreStep → Dict R → Dict R
  run_map [] m = m
  run_map (step ∷ steps) m = run_map steps (step_map step m)

  pub run-Holds :
      (steps : List StoreStep) (fs : Dict Str) (m : Dict R)
      → Holds fs m
      → (after : Dict Str) × (run_files steps fs ≡ (after, ok tt)) × Holds after (run_map steps m)
  unfolding run_files run_map
  run-Holds [] fs m h = (fs, refl, h)
  run-Holds (step ∷ steps) fs m h =
      let (next, e, i) = step-Holds step fs m h in
      let (after, e', j) = run-Holds steps next (step_map step m) i in
      (after, >>=-step (step_files step) (λ _. run_files steps) fs e ∙ e', j)
