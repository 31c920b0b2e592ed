-- ===== src/Agent/Files/Memory.antt =====
-- std::fs as a map from paths to contents, on which no step fails but the ones whose file is missing:
-- a model of the interface to run the stores on.
use kubsd.Base.{Bool, true, false, Option, none, some, Result, ok, err, filter_map, if◌then◌else◌}
use kubsd.Base.Dict
use kubsd.Base.Dict.{Dict}
use kubsd.Base.Str.{Str, str_eq}
use kubsd.Agent.Files.{IoError, io_not_found, Files, rsplit_once}

abbrev pub entry_in : Str → Str → Option (Str × Str) → Option (Result Str IoError)
entry_in dir path none = none
entry_in dir path (some (before, after)) = if str_eq before dir then some (ok path) else none

abbrev read_content : Dict Str → Option Str → Dict Str × Result Str IoError
read_content fs none = (fs, err io_not_found)
read_content fs (some content) = (fs, ok content)

abbrev rename_content : Str → Str → Dict Str → Option Str → Dict Str × Result (Unit {0}) IoError
rename_content from to fs none = (fs, err io_not_found)
rename_content from to fs (some content) = (Dict.insert to content (Dict.remove from fs), ok tt)

abbrev remove_content : Str → Dict Str → Option Str → Dict Str × Result (Unit {0}) IoError
remove_content path fs none = (fs, err io_not_found)
remove_content path fs (some content) = (Dict.remove path fs, ok tt)

abbrev is_content : Option Str → Bool
is_content none = false
is_content (some content) = true

abbrev pub memory : Files (Dict Str)
memory = record {
  create_dir_all = λ dir fs. (fs, ok tt);
  write_file = λ path content fs. (Dict.insert path content fs, ok tt);
  rename = λ from to fs. rename_content from to fs (Dict.get from fs);
  read_dir = λ dir fs.
      (fs, ok (filter_map (λ (e : Str × Str). entry_in dir e.0 (rsplit_once b'/' e.0)) fs));
  read_to_string = λ path fs. read_content fs (Dict.get path fs);
  remove_file = λ path fs. remove_content path fs (Dict.get path fs);
  is_file = λ path fs. is_content (Dict.get path fs);
}
