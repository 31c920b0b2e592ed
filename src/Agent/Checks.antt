-- ===== src/Agent/Checks.antt =====
-- keel-agentd/src/reconciler.rs: the guards with which `apply` and `apply_ingress` begin.
use kubsd.Base.{Result, ok, ◌>>=◌, ◌>>◌}
use kubsd.Extern.{Float, AddressParser}
use kubsd.Spec.Types.{JailSpec, IngressSpec, SpecError}
use kubsd.Spec.Names.{validate_name, validate_address}
use kubsd.Spec.Hosts.{validate_host, validate_email}
use kubsd.Spec.Parse.{check_port}
use kubsd.Spec.Resources.{parse_cpu_cores, parse_memory_bytes}

module _ (F : Type 0) ⦃float : Float F⦄ where
  unfoldable pub check_jail : AddressParser → JailSpec → Result (Unit {0}) SpecError
  check_jail parse_address spec = do
    validate_name spec.metadata.name
    validate_address parse_address spec.spec.network.address
    cores ← parse_cpu_cores {F = F} spec.spec.resources.cpu
    memory_bytes ← parse_memory_bytes spec.spec.resources.memory
    ok tt

unfoldable pub check_ingress : IngressSpec → Result (Unit {0}) SpecError
check_ingress spec = do
  validate_name spec.metadata.name
  validate_host spec.spec.host
  validate_email spec.spec.tls.email
  check_port spec.spec.backend.port
