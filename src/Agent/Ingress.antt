-- ===== src/Agent/Ingress.antt =====
-- keel-ingress/src (acme.rs, dns.rs, config.rs) and keel-agentd/src/nginx.rs: certificates, the traits
-- that they are issued through, the text of nginx's configuration and the trait that controls nginx.
pub mod Fake
use kubsd.Base.{ℕ, List, [], ◌∷◌, ◌++◌, map}
use kubsd.Base.Decimal.{to_string}
use kubsd.Base.Effects.{Step}
use kubsd.Base.Str.{Str, bytes}

pub data DnsError : Type 0 where
  record_not_found dns_request propagation_timeout : Str → DnsError

pub record Cert : Type 0 where
  pub cert_pem : Str
  pub key_pem : Str

pub data AcmeError : Type 0 where
  dns_failed : DnsError → AcmeError
  acme_request : Str → AcmeError

pub data NginxError : Type 0 where
  write_failed validation_failed reload_failed : Str → NginxError

-- `DnsProvider`
pub record DnsProvider (W : Type 0) : Type 0 where
  pub create_txt_record : Str → Str → Step W (Unit {0}) DnsError
  pub delete_txt_record : Str → Step W (Unit {0}) DnsError
  pub wait_for_propagation : Str → Str → Step W (Unit {0}) DnsError

-- `AcmeClient`
pub record AcmeClient (W : Type 0) : Type 0 where
  pub request_certificate : Str → Str → DnsProvider W → Step W Cert AcmeError

-- `NginxController`
pub record NginxController (W : Type 0) : Type 0 where
  pub write_config : Str → Str → Step W (Unit {0}) NginxError
  pub test_config : Str → Step W (Unit {0}) NginxError
  pub reload : Str → Step W (Unit {0}) NginxError

-- `NGINX_CONF_PATH`
abbrev pub nginx_conf_path : Str
nginx_conf_path = bytes "/usr/local/etc/nginx/nginx.conf"

pub record IngressBackendConfig : Type 0 where
  pub host : Str
  pub vip : Str
  pub port : ℕ
  pub cert_path : Str
  pub key_path : Str

abbrev pub preamble : Str
preamble =
    bytes "user www; worker_processes 1;\nevents { worker_connections 1024; }\nhttp {\n"
    ++ bytes "    server {\n        listen 80 default_server;\n"
    ++ bytes "        return 301 https://$host$request_uri;\n    }\n"

unfoldable pub server_block : IngressBackendConfig → Str
server_block b =
    bytes "    server {\n        listen 443 ssl;\n        server_name "
    ++ (b.host
        ++ (bytes ";\n        ssl_certificate "
            ++ (b.cert_path
                ++ (bytes ";\n        ssl_certificate_key "
                    ++ (b.key_path
                        ++ (bytes ";\n        location / {\n            proxy_pass http://"
                            ++ (b.vip
                                ++ (b':' ∷ to_string b.port)
                                ++ bytes ";\n        }\n    }\n")))))))

abbrev pub server_blocks : List IngressBackendConfig → Str
server_blocks [] = []
server_blocks (b ∷ bs) = server_block b ++ server_blocks bs

unfoldable pub render_nginx_config : List IngressBackendConfig → Str
unfolding server_block
render_nginx_config backends = preamble ++ (server_blocks backends ++ bytes "}\n")
