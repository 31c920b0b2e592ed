-- ===== src/Agent/Store.antt =====
-- keel-agentd/src/store.rs, ingress_store.rs and ingress_record.rs: one file per record, written under
-- another name and renamed. The crate serde_yaml is a parameter, a reader and a printer. The two stores
-- are the same code on two types of records and two directories.

pub mod Durable
pub mod Paths
pub mod Loaded
pub mod Simulated
pub mod Restart
use kubsd.Base.{ℕ, List, [], ◌∷◌, ◌++◌, Option, Result, ok, err, map_err, if◌then◌else◌}
use kubsd.Base.Effects.{Step, return, lift, wrap, unless, ◌>>=◌, ◌>>◌}
use kubsd.Base.Str.{Str, bytes}
use kubsd.Spec.Types.{IngressSpec}
use kubsd.Agent.Files.{IoError, is_io_not_found, Files, join_path, is_yaml}

pub record IngressRecord : Type 0 where
  pub spec : IngressSpec
  -- an i64, as its two's complement
  pub cert_expires_at_unix : Option ℕ

pub data StoreError : Type 0 where
  io : Str → IoError → StoreError
  parse : Str → Str → StoreError

-- `serde_yaml::to_string` and `serde_yaml::from_str` of a type of records
pub record Codec (R : Type 0) : Type 0 where
  pub print : R → Str
  pub read : Str → Result R Str

-- `format!("{name}.yaml")` and `format!("{name}.yaml.tmp")` in the directory
unfoldable pub record_path : Str → Str → Str
record_path dir name = join_path dir (name ++ bytes ".yaml")

unfoldable pub tmp_path : Str → Str → Str
tmp_path dir name = join_path dir (name ++ bytes ".yaml.tmp")

-- `state_dir.join("ingress")`
abbrev pub ingress_dir : Str → Str
ingress_dir state_dir = join_path state_dir (bytes "ingress")

module _ {W R : Type 0} (files : Files W) (codec : Codec R) where
  -- what the loop adds for one entry
  abbrev load_path : Str → Step W (List R) StoreError
  load_path path =
      if is_yaml path
      then (do
        content ← wrap (io path) (files.read_to_string path)
        loaded ← lift (map_err (parse path) (codec.read content))
        return (loaded ∷ []))
      else return []

  abbrev load_entry : Str → Result Str IoError → Step W (List R) StoreError
  load_entry dir (err e) w = (w, err (io dir e))
  load_entry dir (ok path) w = load_path path w

  unfoldable pub load_entries : Str → List (Result Str IoError) → Step W (List R) StoreError
  load_entries dir [] = return []
  load_entries dir (entry ∷ entries) = do
    found ← load_entry dir entry
    rest ← load_entries dir entries
    return (found ++ rest)

  unfoldable pub load_all : Str → Step W (List R) StoreError
  unfolding load_entries
  load_all dir = do
    wrap (io dir) (files.create_dir_all dir)
    entries ← wrap (io dir) (files.read_dir dir)
    load_entries dir entries

  unfoldable pub save : Str → Str → R → Step W (Unit {0}) StoreError
  unfolding record_path tmp_path
  save dir name record_value = do
    wrap (io dir) (files.create_dir_all dir)
    wrap (io (tmp_path dir name)) (files.write_file (tmp_path dir name) (codec.print record_value))
    wrap (io (record_path dir name)) (files.rename (tmp_path dir name) (record_path dir name))

  unfoldable pub remove : Str → Str → Step W (Unit {0}) StoreError
  unfolding record_path
  remove dir name =
      wrap (io (record_path dir name))
        (unless is_io_not_found (files.remove_file (record_path dir name)))
