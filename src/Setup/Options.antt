-- ===== src/Setup/Options.antt =====
-- The flags of cmd/main.go and the options that `main` makes of them. Parsing the command line is
-- the `flag` package's; `Flags` holds the values behind it.
use bigbang_operator.Base.{
  String, Bool, true, false, not, Option, none, some, List, [], ◌∷◌, ◌==◌, if◌then◌else◌,
}
use bigbang_operator.Base.Dict.{Dict}

-- A directory and the file names of a certificate and its key.
pub record CertFiles : Type 0 where
  pub cert_path : String
  pub cert_name : String
  pub cert_key : String

pub record Flags : Type 0 where
  pub metrics_addr : String
  pub probe_addr : String
  pub enable_leader_election : Bool
  pub secure_metrics : Bool
  pub webhook_cert : CertFiles
  pub metrics_cert : CertFiles
  pub enable_http2 : Bool
  pub global_config_name : String
  pub global_config_namespace : String

-- The defaults of the flags; `pod_namespace` is `os.Getenv("POD_NAMESPACE")`.
unfoldable pub default_flags : String → Flags
default_flags pod_namespace = record {
  metrics_addr = "0";
  probe_addr = ":8081";
  enable_leader_election = false;
  secure_metrics = true;
  webhook_cert = record { cert_path = ""; cert_name = "tls.crt"; cert_key = "tls.key" };
  metrics_cert = record { cert_path = ""; cert_name = "tls.crt"; cert_key = "tls.key" };
  enable_http2 = false;
  global_config_name = "bigbang-operator-global";
  global_config_namespace = pod_namespace;
}

-- `tls.Config`, with the field that an option sets.
pub record TlsConfig : Type 0 where
  pub next_protos : List String

-- `func(*tls.Config)`, as the change that it makes.
abbrev pub TlsOpt : Type 0
TlsOpt = TlsConfig → TlsConfig

unfoldable pub disable_http2 : TlsOpt
disable_http2 c = record c { next_protos = "http/1.1" ∷ [] }

unfoldable pub tls_opts : Flags → List TlsOpt
unfolding disable_http2
tls_opts flags = if not flags.enable_http2 then disable_http2 ∷ [] else []

-- `webhook.Options`. The zero value of a text field is the empty text.
pub record WebhookOptions : Type 0 where
  pub tls_opts : List TlsOpt
  pub cert_dir : String
  pub cert_name : String
  pub key_name : String

unfoldable pub webhook_server_options : Flags → WebhookOptions
unfolding tls_opts
webhook_server_options flags =
    let options : WebhookOptions = record {
      tls_opts = tls_opts flags;
      cert_dir = "";
      cert_name = "";
      key_name = "";
    } in
    if not (flags.webhook_cert.cert_path == "")
    then record options {
      cert_dir = flags.webhook_cert.cert_path;
      cert_name = flags.webhook_cert.cert_name;
      key_name = flags.webhook_cert.cert_key;
    }
    else options

-- `filters.WithAuthenticationAndAuthorization`
pub data FilterProvider : Type 0 where
  with_authentication_and_authorization : FilterProvider

-- `metricsserver.Options`
pub record MetricsOptions : Type 0 where
  pub bind_address : String
  pub secure_serving : Bool
  pub tls_opts : List TlsOpt
  pub filter_provider : Option FilterProvider
  pub cert_dir : String
  pub cert_name : String
  pub key_name : String

metrics_filter : Flags → Option FilterProvider
metrics_filter flags =
    if flags.secure_metrics then some with_authentication_and_authorization else none

unfoldable pub metrics_server_options : Flags → MetricsOptions
unfolding tls_opts metrics_filter
metrics_server_options flags =
    let options : MetricsOptions = record {
      bind_address = flags.metrics_addr;
      secure_serving = flags.secure_metrics;
      tls_opts = tls_opts flags;
      filter_provider = metrics_filter flags;
      cert_dir = "";
      cert_name = "";
      key_name = "";
    } in
    if not (flags.metrics_cert.cert_path == "")
    then record options {
      cert_dir = flags.metrics_cert.cert_path;
      cert_name = flags.metrics_cert.cert_name;
      key_name = flags.metrics_cert.cert_key;
    }
    else options

-- `cache.Options` for ConfigMaps: a namespace with the name that the field selector on
-- `metadata.name` picks. The empty dictionary does not restrict the cache.
unfoldable pub cache_options : Flags → Dict String
cache_options flags =
    if not (flags.global_config_namespace == "")
    then (flags.global_config_namespace, flags.global_config_name) ∷ []
    else []

-- `ctrl.Options`, less the scheme and the webhook server made of its options.
pub record ManagerOptions : Type 0 where
  pub cache : Dict String
  pub metrics : MetricsOptions
  pub webhook : WebhookOptions
  pub health_probe_bind_address : String
  pub leader_election : Bool
  pub leader_election_id : String

unfoldable pub manager_options : Flags → ManagerOptions
unfolding cache_options metrics_server_options webhook_server_options
manager_options flags = record {
  cache = cache_options flags;
  metrics = metrics_server_options flags;
  webhook = webhook_server_options flags;
  health_probe_bind_address = flags.probe_addr;
  leader_election = flags.enable_leader_election;
  leader_election_id = "d512971f.bigbang.dev";
}
