-- ===== src/Samples/Runs/Specs.antt =====
-- Samples for keel-spec.
use kubsd.Base.{◌*◌, ◌≡◌, ◌↔◌, ◌++◌, [], ◌∷◌, ok, err, true, false, if◌then◌else◌, ltb, arith, none}
use kubsd.Base.Decimal.{to_string}
use kubsd.Base.Str.{bytes}
use kubsd.Samples.{number}
use kubsd.Extern.{AddressParser, YamlReader}
use kubsd.Spec.Types.{JailSpec, VolumeMount, on_failure, invalid_memory}
use kubsd.Spec.Names.{validate_name, IsName, validate_name_iff}
use kubsd.Spec.Hosts.{validate_host, IsHost, validate_host_iff}
use kubsd.Spec.Resources.{
  parse_memory_bytes, parse_memory_bytes-print, parse_memory_bytes_bounds, Size, suffix_of,
  multiplier_of, u64_bound,
}
use kubsd.Spec.Resources
use kubsd.Spec.Parse.{parse_and_validate, IsAccepted, parse_and_validate_iff}

validate_name_iff_example : (validate_name (bytes "web-1") ≡ ok tt) ↔ IsName (bytes "web-1")
validate_name_iff_example = validate_name_iff (bytes "web-1")

abbrev volume : VolumeMount
volume = record { name = bytes "data"; mount_path = bytes "/data"; size = bytes "10G" }

abbrev jail : JailSpec
jail = record {
  api_version = bytes "keel/v1";
  kind = bytes "Jail";
  metadata = record { name = bytes "web-1" };
  spec = record {
    image = bytes "base@14";
    command = bytes "/bin/sh" ∷ [];
    network = record { vnet = true; bridge = bytes "keel0"; address = bytes "10.0.0.2/24" };
    resources = record { cpu = bytes "2"; memory = bytes "512M" };
    restart_policy = on_failure;
    volumes = volume ∷ [];
    replicate_to = none;
  };
}

validate_host_iff_example :
    (validate_host (bytes "a.example.org") ≡ ok tt) ↔ IsHost (bytes "a.example.org")
validate_host_iff_example = validate_host_iff (bytes "a.example.org")

abbrev addresses : AddressParser
addresses s = ok tt

abbrev reader : YamlReader JailSpec
reader text = ok jail

parse_and_validate_iff_example :
    (parse_and_validate number addresses reader (bytes "kind: Jail") ≡ ok jail)
    ↔ ((reader (bytes "kind: Jail") ≡ ok jail) × IsAccepted number addresses jail)
parse_and_validate_iff_example =
    parse_and_validate_iff number addresses reader (bytes "kind: Jail") jail

parse_memory_bytes-print_example :
    parse_memory_bytes (to_string 512 ++ suffix_of Resources.mega false) ≡ (
      if ltb (512 * multiplier_of Resources.mega) u64_bound
      then ok (512 * multiplier_of Resources.mega)
      else err (invalid_memory (to_string 512 ++ suffix_of Resources.mega false)))
parse_memory_bytes-print_example =
    parse_memory_bytes-print 512 Resources.mega false (omega arith) (omega arith)
