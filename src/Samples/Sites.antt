-- ===== src/Samples/Sites.antt =====
-- A node in memory with an agent on it: its files are written nowhere, its clock stands still, and its
-- certificates are refused.
use kubsd.Base.{ℕ, true, false, [], ◌∷◌, none, ok, err}
use kubsd.Base.Str.{Str, bytes}
use kubsd.Spec.Types.{JailSpec, VolumeMount, always}
use kubsd.Agent.Files.{Files, io_not_found}
use kubsd.Agent.Host.Fake.{Node, fake}
use kubsd.Agent.Ingress.{DnsProvider, NginxController, acme_request}
use kubsd.Agent.Reconciler.{Reconciler, empty_reconciler}
use kubsd.Agent.Record.{JailRecord}
use kubsd.Agent.Site.{Site}
use kubsd.Agent.Store.{Codec}
use kubsd.Agent.Worker.{Server}

abbrev no_files : Files Node
no_files = record {
  create_dir_all = λ dir w. (w, ok tt);
  write_file = λ path content w. (w, ok tt);
  rename = λ from to w. (w, ok tt);
  read_dir = λ dir w. (w, ok []);
  read_to_string = λ path w. (w, err io_not_found);
  remove_file = λ path w. (w, ok tt);
  is_file = λ path w. false;
}

abbrev no_codec : {R : Type 0} → Codec R
no_codec = record { print = λ r. []; read = λ s. err [] }

abbrev no_dns : DnsProvider Node
no_dns = record {
  create_txt_record = λ name value w. (w, ok tt);
  delete_txt_record = λ name w. (w, ok tt);
  wait_for_propagation = λ name value w. (w, ok tt);
}

abbrev no_nginx : NginxController Node
no_nginx = record {
  write_config = λ name config w. (w, ok tt);
  test_config = λ name w. (w, ok tt);
  reload = λ name w. (w, ok tt);
}

abbrev pub gateway : Str → Str
gateway address = bytes "10.0.0.1/24"

abbrev pub site : Site Node
site = record {
  host = fake gateway;
  files = no_files;
  jail_codec = no_codec;
  ingress_codec = no_codec;
  parse_address = λ address. ok tt;
  acme = record { request_certificate = λ domain email dns w. (w, err (acme_request [])) };
  dns = no_dns;
  nginx = no_nginx;
  instant = λ w. (w, 0);
  unix_time = λ w. (w, 0);
}

-- with one base image
abbrev pub node : Node
node = record {
  jails = [];
  mounted = [];
  datasets = bytes "tank/keel/base/web" ∷ [];
  busy = [];
  bridges = [];
  bridge_addresses = [];
  attachments = [];
  routes = [];
  aliases = [];
}

abbrev pub volume : VolumeMount
volume = record { name = bytes "web-data"; mount_path = bytes "/data"; size = bytes "1G" }

-- a jail of the name, with one volume
abbrev pub jail_named : Str → JailSpec
jail_named name = record {
  api_version = bytes "keel/v1";
  kind = bytes "Jail";
  metadata = record { name = name };
  spec = record {
    image = bytes "base/web";
    command = bytes "/bin/web" ∷ [];
    network = record { vnet = true; bridge = bytes "keel0"; address = bytes "10.0.0.5/24" };
    resources = record { cpu = bytes "2"; memory = bytes "512M" };
    restart_policy = always;
    volumes = volume ∷ [];
    replicate_to = none;
  };
}

abbrev pub record_numbered : ℕ → Str → JailRecord
record_numbered n name = record { spec = jail_named name; epair_ordinal = n }

abbrev pub reconciler : Reconciler Node
reconciler = empty_reconciler site (bytes "tank") (bytes "/var/db/keel") [] node

-- with one record
abbrev pub wanting : Reconciler Node
wanting = record reconciler { records = (bytes "web", record_numbered 1 (bytes "web")) ∷ [] }

abbrev pub server : Server Node
server = record { reconciler = reconciler; replicating = []; spawned = [] }
