-- ===== src/Tests/Fixtures.antt =====
-- A small package, and decoders and validators to run it with.
use bigbang_operator.Base.{String, true, false, none, some, List, [], ◌∷◌, message, Result, ok, err}
use bigbang_operator.Api.Common.{int}
use bigbang_operator.Api.Netpol.{NetworkPolicies, NetworkPoliciesEgress, NetworkPoliciesIngress}
use bigbang_operator.Api.Routes.{InboundRoute, Routes}
use bigbang_operator.Api.Package.{Package, Condition}
use bigbang_operator.Object.{Object, fresh, sidecar, allow_any}
use bigbang_operator.Generator.Codec.{Codec}
use bigbang_operator.Generator.Values.{Value, RawSource, TargetJson}
use bigbang_operator.Generator.Input.{Input, Kube, Scheme}
use bigbang_operator.Generator.Metadata.{label_package}
use bigbang_operator.Generator.Definitions.{DefsEnv}
use bigbang_operator.Controller.Config.{found, missing, empty_input}
use bigbang_operator.Controller.Cluster.{Server}
use bigbang_operator.Controller.Reconcile.{Environment, World}

abbrev bad {ℓ} : {A : Type ℓ} → String → Result A
bad text = err (message text [])

-- The value `to-db` allows one namespace, `from-db` too in the other direction.
abbrev pub source_json : RawSource
source_json = record {
  pod_selector = none;
  metadata = none;
  to = some (record {
    k8s = ("tcp://db:5432", TargetJson.flag true) ∷ [];
    definition = ("kubeAPI", TargetJson.flag true) ∷ [];
    cidr = ("0.0.0.0/0", TargetJson.flag true) ∷ [];
    literal = [];
  });
  from = some (record {
    k8s = ("db", TargetJson.flag true) ∷ [];
    definition = [];
    cidr = [];
    literal = [];
  });
}

abbrev pub inbound_json : InboundRoute
inbound_json = record {
  enabled = true;
  gateways = some ("istio-gateway/public" ∷ []);
  hosts = "web.example.com" ∷ [];
  service = "web.web.svc";
  port = some (int 8080);
  container_port = none;
  selector = [];
  http = [];
  passthrough = none;
  resolution = "";
  labels = [];
  annotations = [];
}

abbrev pub codec : Codec
codec = record {
  source = λ raw. ok source_json;
  selector_value = λ raw. ok (Value.text raw);
  marshal_route = λ raw. ok raw;
  inbound = λ raw. ok inbound_json;
  outbound = λ raw. bad "outbound";
  rules = λ raw. bad "rules";
  json_to_yaml = λ raw. ok raw;
  network_policy = λ raw. bad "policy";
  service_entry = λ raw. bad "entry";
  authorization_policy = λ raw. bad "authorization";
  additional_authorization_policy = λ raw. bad "authorization";
  http_route = λ raw. ok raw;
}

abbrev pub kube : Kube
kube = record {
  is_dns1123_label = λ s. [];
  is_dns1123_subdomain = λ s. [];
  label_selector_as_selector = λ s. none;
  unmarshal_egress = λ s. bad "egress";
  unmarshal_ingress = λ s. bad "ingress";
  unmarshal_routes = λ s. ok (record { defaults = none });
  unmarshal_gateways = λ s. ok [];
}

abbrev pub scheme : Scheme
scheme kind =
    ok (record { group = "networking.k8s.io"; version = "v1"; kind = "NetworkPolicy" } ∷ [])

abbrev pub egress : NetworkPoliciesEgress
egress = record {
  defaults = none;
  definitions = [];
  exclude_cidrs = none;
  from = ("web", "to-db") ∷ ("api", "to-db") ∷ [];
}

abbrev pub ingress : NetworkPoliciesIngress
ingress = record { defaults = none; definitions = []; to = ("web:8080", "from-db") ∷ [] }

abbrev pub policies : NetworkPolicies
policies = record {
  additional = [];
  additional_policies = [];
  defaults_as_hooks = none;
  egress = some egress;
  enabled = true;
  hbone_port_injection = some (record { enabled = true });
  ingress = some ingress;
  prepend_release_name = false;
}

abbrev pub routes : Routes
routes = record {
  defaults = none;
  inbound = ("web", "{}") ∷ ("api", "{}") ∷ [];
  outbound = [];
  prepend_release_name = false;
}

abbrev pub old_conditions : List Condition
old_conditions =
    record {
      type = "Reconciling";
      status = true;
      reason = "Progressing";
      message = "";
      observed_generation = 1;
      last_transition_time = 5;
    }
    ∷ record {
      type = "Stalled";
      status = true;
      reason = "ApplyFailed";
      message = "";
      observed_generation = 1;
      last_transition_time = 4;
    }
    ∷ []

abbrev pub pkg : Package
pkg = record {
  name = "demo";
  namespace = "apps";
  uid = "1234";
  generation = 2;
  deleted = false;
  spec = record { istio = none; network_policies = some policies; routes = some routes };
  status = record { observed_generation = 1; conditions = old_conditions; applied_resources = [] };
}

abbrev pub defs : DefsEnv
defs = record {
  kube_api_ports = int 6443 ∷ [];
  shared_egress = [];
  shared_ingress = [];
  shared_err = none;
}

abbrev pub input : Input
input = record empty_input { pkg = some pkg; scheme = some scheme; kube_api_ports = int 6443 ∷ [] }

-- Two objects with the package's label and one without.
abbrev pub owned : String → Object
owned name = record (fresh name ((label_package, "demo") ∷ []) [] (sidecar allow_any)) {
  namespace = "apps";
}

abbrev pub foreign : Object
foreign = record (fresh "other" [] [] (sidecar allow_any)) { namespace = "apps" }

abbrev pub present : List Object
present = owned "stale" ∷ foreign ∷ owned "wanted" ∷ []

abbrev pub wanted : List Object
wanted = owned "wanted" ∷ owned "new" ∷ []

abbrev pub server : Server
server = record {
  merge = λ old new. new;
  patch_error = λ o. none;
  list_error = λ k. none;
  delete_error = λ o. none;
  update_error = λ s. none;
}

abbrev pub env : Environment
env = record {
  codec = codec;
  kube = kube;
  server = server;
  scheme = some scheme;
  render = λ e. "error";
  has_recorder = true;
  global_namespace = "";
  global_name = "";
  config_map = missing;
  kubernetes_service = found (int 6443 ∷ []);
  now = 10;
}

abbrev pub world : World
world = record {
  objects = present;
  status = pkg.status;
  outcomes = [];
  applied_resources = none;
  events = [];
}
