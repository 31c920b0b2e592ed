-- ===== src/Agent/Site.antt =====
-- What the reconciler is built on: the node, its files, the two codecs, the issuer of certificates,
-- nginx and the two clocks, all changing one state. `ReconcileError` is of keel-agentd/src/reconciler.rs.
use kubsd.Base.{ℕ}
use kubsd.Base.Str.{Str}
use kubsd.Extern.{AddressParser}
use kubsd.Spec.Types.{SpecError}
use kubsd.Agent.Files.{Files}
use kubsd.Agent.Host.{Host, JailError, ZfsError, NetError, MountError}
use kubsd.Agent.Ingress.{AcmeClient, DnsProvider, NginxController}
use kubsd.Agent.Record.{JailRecord}
use kubsd.Agent.Store.{Codec, IngressRecord, StoreError}

pub data ReconcileError : Type 0 where
  invalid_spec : SpecError → ReconcileError
  store : StoreError → ReconcileError
  jail : JailError → ReconcileError
  zfs : ZfsError → ReconcileError
  net : NetError → ReconcileError
  mount : MountError → ReconcileError
  not_found base_image_not_found : Str → ReconcileError

-- An instant is in nanoseconds, the wall clock in seconds.
pub record Site (W : Type 0) : Type 0 where
  pub host : Host W
  pub files : Files W
  pub jail_codec : Codec JailRecord
  pub ingress_codec : Codec IngressRecord
  pub parse_address : AddressParser
  pub acme : AcmeClient W
  pub dns : DnsProvider W
  pub nginx : NginxController W
  pub instant : W → W × ℕ
  pub unix_time : W → W × ℕ
