-- ===== src/Agent/Files.antt =====
-- What keel-agentd uses of std::fs and std::path: a step changes the files of the node, and a path is
-- its bytes. An entry of a directory is its path, or the error with which it could not be read.
pub mod Memory
use kubsd.Base.{
  ℕ, ◌≡◌, Bool, true, false, ◌&&◌, not, List, [], ◌∷◌, ◌++◌, Option, none, some, Result,
  if◌then◌else◌, ◌==◌, is_empty,
}
use kubsd.Base.Effects.{Step}
use kubsd.Base.Str.{Str, bytes, str_eq}

pub data IoError : Type 0 where
  io_not_found : IoError
  io_failed : Str → IoError

-- `e.kind() == NotFound`
abbrev pub is_io_not_found : IoError → Bool
is_io_not_found io_not_found = true
is_io_not_found (io_failed text) = false

pub record Files (W : Type 0) : Type 0 where
  pub create_dir_all : Str → Step W (Unit {0}) IoError
  pub write_file : Str → Str → Step W (Unit {0}) IoError
  pub rename : Str → Str → Step W (Unit {0}) IoError
  pub read_dir : Str → Step W (List (Result Str IoError)) IoError
  pub read_to_string : Str → Step W Str IoError
  pub remove_file : Str → Step W (Unit {0}) IoError
  pub is_file : Str → W → Bool

-- `Path::join` with a name that does not begin with a slash, to a path that does not end in one
abbrev pub join_path : Str → Str → Str
join_path dir name = dir ++ (b'/' ∷ name)

-- what follows the last `sep`, and what precedes it
unfoldable pub rsplit_once : ℕ → Str → Option (Str × Str)
rsplit_once sep [] = none
rsplit_once sep (c ∷ s) = elim (rsplit_once sep s) [
  | some (before, after) ↦ some (c ∷ before, after)
  | none ↦ if c == sep then some ([], s) else none
]

abbrev file_name_part : Str → Option (Str × Str) → Str
file_name_part path none = path
file_name_part path (some (before, after)) = after

abbrev extension_part : Option (Str × Str) → Option Str
extension_part none = none
extension_part (some (before, after)) = if is_empty before then none else some after

-- `Path::extension`
unfoldable pub extension : Str → Option Str
unfolding rsplit_once
extension path = extension_part (rsplit_once b'.' (file_name_part path (rsplit_once b'/' path)))

abbrev is_some_str : Str → Option Str → Bool
is_some_str s none = false
is_some_str s (some t) = str_eq t s

-- `path.extension().and_then(|e| e.to_str()) == Some("yaml")`
unfoldable pub is_yaml : Str → Bool
unfolding extension
is_yaml path = is_some_str (bytes "yaml") (extension path)
