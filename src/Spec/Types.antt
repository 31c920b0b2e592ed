-- ===== src/Spec/Types.antt =====
-- keel-spec/src/types.rs and error.rs: the specifications as records. A string is its bytes.
use kubsd.Base.{ℕ, Bool, Option, none, List, ◌++◌, map}
use kubsd.Base.Str.{Str, bytes}

pub data SpecError : Type 0 where
  yaml invalid_name invalid_cpu invalid_memory duplicate_volume_name invalid_host invalid_email :
      Str → SpecError
  invalid_address : Str → Str → SpecError
  invalid_port : ℕ → SpecError
  immutable_field : Str → SpecError

pub record Metadata : Type 0 where
  pub name : Str

pub record VolumeMount : Type 0 where
  pub name : Str
  pub mount_path : Str
  pub size : Str

pub record NetworkSpec : Type 0 where
  pub vnet : Bool
  pub bridge : Str
  pub address : Str

pub record ResourcesSpec : Type 0 where
  pub cpu : Str
  pub memory : Str

pub data RestartPolicy : Type 0 where
  always on_failure never : RestartPolicy

pub record Spec : Type 0 where
  pub image : Str
  pub command : List Str
  pub network : NetworkSpec
  pub resources : ResourcesSpec
  pub restart_policy : RestartPolicy
  pub volumes : List VolumeMount
  pub replicate_to : Option Str

pub record JailSpec : Type 0 where
  pub api_version : Str
  pub kind : Str
  pub metadata : Metadata
  pub spec : Spec

pub record TemplateNetworkSpec : Type 0 where
  pub vnet : Bool
  pub bridge : Str

pub record JailTemplate : Type 0 where
  pub image : Str
  pub command : List Str
  pub network : TemplateNetworkSpec
  pub resources : ResourcesSpec
  pub restart_policy : RestartPolicy
  pub volumes : List VolumeMount

pub record ServiceSpecBody : Type 0 where
  pub replicas : ℕ
  pub port : ℕ
  pub template : JailTemplate

pub record ServiceSpec : Type 0 where
  pub api_version : Str
  pub kind : Str
  pub metadata : Metadata
  pub spec : ServiceSpecBody

pub record IngressBackend : Type 0 where
  pub service : Str
  pub port : ℕ

pub record IngressTls : Type 0 where
  pub email : Str

pub record IngressSpecBody : Type 0 where
  pub host : Str
  pub backend : IngressBackend
  pub tls : IngressTls

pub record IngressSpec : Type 0 where
  pub api_version : Str
  pub kind : Str
  pub metadata : Metadata
  pub spec : IngressSpecBody

-- `format!("{name}-{}", v.name)`
abbrev pub replica_volume : Str → VolumeMount → VolumeMount
replica_volume name v = record v { name = name ++ (bytes "-" ++ v.name) }

-- `JailTemplate::to_jail_spec`
unfoldable pub to_jail_spec : JailTemplate → Str → Str → JailSpec
to_jail_spec template name address = record {
  api_version = bytes "keel/v1";
  kind = bytes "Jail";
  metadata = record { name = name };
  spec = record {
    image = template.image;
    command = template.command;
    network = record {
      vnet = template.network.vnet;
      bridge = template.network.bridge;
      address = address;
    };
    resources = template.resources;
    restart_policy = template.restart_policy;
    volumes = map (replica_volume name) template.volumes;
    replicate_to = none;
  };
}
