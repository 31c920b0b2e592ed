-- ===== src/Spec/Parse.antt =====
-- keel-spec/src/lib.rs: reading a document and validating what it says. The YAML reader and the
-- address parser are parameters.
pub mod Service
use kubsd.Base.{
  ℕ, ◌≡◌, ap, ◌∙◌, map_err-eq-ok, [], ◌↔◌, ◌==◌, if◌then◌else◌, Result, ok, err, map_err, ◌>>=◌,
  ◌>>◌, >>=-eq-ok,
}
use mathlib.Core.Path.{subst}
use kubsd.Base.Str.{Str}
use kubsd.Extern.{Float, AddressParser, YamlReader}
use kubsd.Spec.Types.{SpecError, yaml, invalid_port, JailSpec, ServiceSpec, IngressSpec}
use kubsd.Spec.Names.{validate_name, validate_address, IsName, validate_name_iff}
use kubsd.Spec.Hosts.{validate_host, validate_email}
use kubsd.Spec.Resources.{parse_cpu_cores, parse_memory_bytes}
use kubsd.Spec.Volumes.{validate_volumes, IsVolumeList, validate_volumes_iff}

-- `if port == 0 { return Err(InvalidPort(0)) }`
abbrev pub check_port : ℕ → Result (Unit {0}) SpecError
check_port port = if port == 0 then err (invalid_port 0) else ok tt

unfoldable pub parse_and_validate_ingress :
    YamlReader IngressSpec → Str → Result IngressSpec SpecError
parse_and_validate_ingress read text = do
  spec ← map_err yaml (read text)
  validate_name spec.metadata.name
  validate_host spec.spec.host
  validate_email spec.spec.tls.email
  check_port spec.spec.backend.port
  ok spec

module _ {F : Type 0} (fl : Float F) where
  unfoldable pub parse_and_validate :
      AddressParser → YamlReader JailSpec → Str → Result JailSpec SpecError
  parse_and_validate addresses read text = do
    spec ← map_err yaml (read text)
    validate_name spec.metadata.name
    validate_address addresses spec.spec.network.address
    cores ← parse_cpu_cores ⦃fl = fl⦄ spec.spec.resources.cpu
    size ← parse_memory_bytes spec.spec.resources.memory
    validate_volumes spec.spec.volumes
    ok spec

  unfoldable pub parse_and_validate_service :
      YamlReader ServiceSpec → Str → Result ServiceSpec SpecError
  parse_and_validate_service read text = do
    spec ← map_err yaml (read text)
    validate_name spec.metadata.name
    cores ← parse_cpu_cores ⦃fl = fl⦄ spec.spec.template.resources.cpu
    size ← parse_memory_bytes spec.spec.template.resources.memory
    validate_volumes spec.spec.template.volumes
    check_port spec.spec.port
    ok spec

  -- a jail's specification that passes every check
  pub record IsAccepted (addresses : AddressParser) (s : JailSpec) : Type 0 where
    pub named : IsName s.metadata.name
    pub addressed : addresses s.spec.network.address ≡ ok tt
    pub cpu : (x : F) × (parse_cpu_cores ⦃fl = fl⦄ s.spec.resources.cpu ≡ ok x)
    pub memory : (n : ℕ) × (parse_memory_bytes s.spec.resources.memory ≡ ok n)
    pub volumes : IsVolumeList [] s.spec.volumes

  parse_and_validate-IsAccepted :
      (addresses : AddressParser) (read : YamlReader JailSpec) (text : Str) (s : JailSpec)
      → parse_and_validate addresses read text ≡ ok s
      → (read text ≡ ok s) × IsAccepted addresses s
  unfolding parse_and_validate validate_address
  parse_and_validate-IsAccepted addresses read text s h =
      let (x, a, h1) = >>=-eq-ok (map_err yaml (read text)) _ h in
      let (u, n, h2) = >>=-eq-ok (validate_name x.metadata.name) _ h1 in
      let (v, d, h3) = >>=-eq-ok (validate_address addresses x.spec.network.address) _ h2 in
      let (c, cp, h4) = >>=-eq-ok (parse_cpu_cores ⦃fl = fl⦄ x.spec.resources.cpu) _ h3 in
      let (m, mp, h5) = >>=-eq-ok (parse_memory_bytes x.spec.resources.memory) _ h4 in
      let (w, vp, h6) = >>=-eq-ok (validate_volumes x.spec.volumes) _ h5 in
      let e : x ≡ s = cc h6 in
      (
        map_err-eq-ok yaml (read text) a ∙ ap ok e,
        subst (IsAccepted addresses) e (record {
          named = (validate_name_iff x.metadata.name).0 n;
          addressed = map_err-eq-ok _ (addresses x.spec.network.address) d;
          cpu = (c, cp);
          memory = (m, mp);
          volumes = (validate_volumes_iff x.spec.volumes).0 vp;
        }),
      )

  IsAccepted-parse_and_validate :
      (addresses : AddressParser) (read : YamlReader JailSpec) (text : Str) (s : JailSpec)
      → (read text ≡ ok s) × IsAccepted addresses s
      → parse_and_validate addresses read text ≡ ok s
  unfolding parse_and_validate validate_address
  IsAccepted-parse_and_validate addresses read text s (r, a) = rw (
    r,
    (validate_name_iff s.metadata.name).1 a.named,
    a.addressed,
    a.cpu.1,
    a.memory.1,
    (validate_volumes_iff s.spec.volumes).1 a.volumes,
  )

  -- `parse_and_validate` returns a specification exactly when the document reads as it, its name
  -- and its volumes are well formed, and its address, CPU and memory values are accepted.
  pub parse_and_validate_iff :
      (addresses : AddressParser) (read : YamlReader JailSpec) (text : Str) (s : JailSpec)
      → (parse_and_validate addresses read text ≡ ok s)
        ↔ ((read text ≡ ok s) × IsAccepted addresses s)
  parse_and_validate_iff addresses read text s = (
    parse_and_validate-IsAccepted addresses read text s,
    IsAccepted-parse_and_validate addresses read text s,
  )
