-- ===== src/Spec/Parse/Service.antt =====
-- keel-spec/src/lib.rs: which documents are read as services.
use kubsd.Base.{
  ℕ, ◌≡◌, ◌≢◌, refl, ap, ◌∙◌, map_err-eq-ok, [], ◌↔◌, ok, map_err, >>=-eq-ok, Bool-cases, inl, inr,
  ◌==◌, arith,
}
use mathlib.Core.Path.{subst}
use kubsd.Base.Str.{Str}
use kubsd.Extern.{Float, YamlReader}
use kubsd.Spec.Types.{yaml, ServiceSpec}
use kubsd.Spec.Names.{validate_name, IsName, validate_name_iff}
use kubsd.Spec.Resources.{parse_cpu_cores, parse_memory_bytes}
use kubsd.Spec.Volumes.{validate_volumes, IsVolumeList, validate_volumes_iff}
use kubsd.Spec.Parse.{check_port, parse_and_validate_service}

check_port_iff : (port : ℕ) → (check_port port ≡ ok tt) ↔ (port ≢ 0)
check_port_iff port = elim (Bool-cases (port == 0)) [
  | inl e ↦ (λ h. cc (rw e at h), λ n. absurd (n (ground arith)))
  | inr e ↦ (λ h z. ground arith, λ n. rw e refl)
]

module _ {F : Type 0} (fl : Float F) where
  -- a service's specification that passes every check
  pub record IsAccepted (s : ServiceSpec) : Type 0 where
    pub named : IsName s.metadata.name
    pub cpu : (x : F) × (parse_cpu_cores ⦃fl = fl⦄ s.spec.template.resources.cpu ≡ ok x)
    pub memory : (n : ℕ) × (parse_memory_bytes s.spec.template.resources.memory ≡ ok n)
    pub volumes : IsVolumeList [] s.spec.template.volumes
    pub port : s.spec.port ≢ 0

  parse_and_validate_service-IsAccepted :
      (read : YamlReader ServiceSpec) (text : Str) (s : ServiceSpec)
      → parse_and_validate_service fl read text ≡ ok s
      → (read text ≡ ok s) × IsAccepted s
  unfolding parse_and_validate_service
  parse_and_validate_service-IsAccepted read text s h =
      let (x, a, h1) = >>=-eq-ok (map_err yaml (read text)) _ h in
      let (u, n, h2) = >>=-eq-ok (validate_name x.metadata.name) _ h1 in
      let (c, cp, h3) = >>=-eq-ok (parse_cpu_cores ⦃fl = fl⦄ x.spec.template.resources.cpu) _ h2 in
      let (m, mp, h4) = >>=-eq-ok (parse_memory_bytes x.spec.template.resources.memory) _ h3 in
      let (w, vp, h5) = >>=-eq-ok (validate_volumes x.spec.template.volumes) _ h4 in
      let (v, pp, h6) = >>=-eq-ok (check_port x.spec.port) _ h5 in
      let e : x ≡ s = cc h6 in
      (
        map_err-eq-ok yaml (read text) a ∙ ap ok e,
        subst IsAccepted e (record {
          named = (validate_name_iff x.metadata.name).0 n;
          cpu = (c, cp);
          memory = (m, mp);
          volumes = (validate_volumes_iff x.spec.template.volumes).0 vp;
          port = (check_port_iff x.spec.port).0 pp;
        }),
      )

  IsAccepted-parse_and_validate_service :
      (read : YamlReader ServiceSpec) (text : Str) (s : ServiceSpec)
      → (read text ≡ ok s) × IsAccepted s
      → parse_and_validate_service fl read text ≡ ok s
  unfolding parse_and_validate_service
  IsAccepted-parse_and_validate_service read text s (r, a) = rw (
    r,
    (validate_name_iff s.metadata.name).1 a.named,
    a.cpu.1,
    a.memory.1,
    (validate_volumes_iff s.spec.template.volumes).1 a.volumes,
    (check_port_iff s.spec.port).1 a.port,
  )

  -- A service is returned exactly when the document reads as it, its name and its volumes are well
  -- formed, its port is not zero, and its CPU and memory values are accepted.
  pub parse_and_validate_service_iff :
      (read : YamlReader ServiceSpec) (text : Str) (s : ServiceSpec)
      → (parse_and_validate_service fl read text ≡ ok s) ↔ ((read text ≡ ok s) × IsAccepted s)
  parse_and_validate_service_iff read text s = (
    parse_and_validate_service-IsAccepted read text s,
    IsAccepted-parse_and_validate_service read text s,
  )
