-- ===== src/Generator/Definitions.antt =====
-- pkg/generator/definitions.go: named peers and ports, from the package, from the global
-- configuration, or built in.
use bigbang_operator.Base.{
  ℕ, ◌-◌, ◌^◌, String, Option, none, some, List, [], ◌∷◌, map, ◌==◌, leb, if◌then◌else◌, Error,
  message, Result, ok, err, ◌>>=◌, within, get_or,
}
use bigbang_operator.Base.Dict.{Dict}
use mathlib.Core.Option
use bigbang_operator.Api.Common.{RawJson, IntOrString, LabelSelector}
use bigbang_operator.Api.Netpol.{
  DefinitionsValuePortsElem, DefinitionsValuePeerElem, DefinitionsValueIpBlock,
  NetworkPoliciesEgressDefinitionsValue, NetworkPoliciesIngressDefinitionsValue,
}
use bigbang_operator.Object.{IpBlock, NetworkPolicyPeer, NetworkPolicyPort}
use bigbang_operator.Generator.Values.{Value, flatten_match_labels}
use bigbang_operator.Generator.Selectors.{match_labels, selector_of, namespace_label, name_label}
use bigbang_operator.Generator.Codec.{Codec}

pub record ResolvedDefinition : Type 0 where
  pub peers : List NetworkPolicyPeer
  pub ports : List NetworkPolicyPort

abbrev pub ip_peer : String → NetworkPolicyPeer
ip_peer cidr = record {
  ip_block = some (record { cidr = cidr; except = [] });
  namespace_selector = none;
  pod_selector = none;
}

abbrev pub pod_peer : LabelSelector → LabelSelector → NetworkPolicyPeer
pod_peer ns pod = record { ip_block = none; namespace_selector = some ns; pod_selector = some pod }

abbrev tcp_port : IntOrString → NetworkPolicyPort
tcp_port p = record { protocol = some "TCP"; port = some p; end_port = none }

unfoldable pub built_in_egress_definitions : List IntOrString → Dict ResolvedDefinition
built_in_egress_definitions kube_api_ports =
    (
      "kubeAPI",
      record {
        peers = ip_peer "10.0.0.0/8" ∷ ip_peer "172.16.0.0/12" ∷ ip_peer "192.168.0.0/16" ∷ [];
        ports = map tcp_port kube_api_ports;
      },
    )
    ∷ []

unfoldable pub built_in_ingress_definitions : Dict ResolvedDefinition
unfolding match_labels
built_in_ingress_definitions =
    (
      "gateway",
      record {
        peers =
            pod_peer (match_labels namespace_label "istio-gateway")
              (match_labels "istio" "ingressgateway")
            ∷ [];
        ports = [];
      },
    )
    ∷ (
      "monitoring",
      record {
        peers =
            pod_peer (match_labels namespace_label "monitoring")
              (match_labels name_label "prometheus")
            ∷ [];
        ports = [];
      },
    )
    ∷ []

pub record DefsEnv : Type 0 where
  pub kube_api_ports : List IntOrString
  pub shared_egress : Dict NetworkPoliciesEgressDefinitionsValue
  pub shared_ingress : Dict NetworkPoliciesIngressDefinitionsValue
  pub shared_err : Option Error

-- An absent selector is `none`; an empty one is `some []`, which matches all.
pub record DefinitionPeer : Type 0 where
  pub ip_block : Option IpBlock
  pub namespace_selector : Option (Dict Value)
  pub pod_selector : Option (Dict Value)

-- An absent protocol is the empty text.
pub record DefinitionPort : Type 0 where
  pub port : Option IntOrString
  pub end_port : Option ℕ
  pub protocol : String

abbrev block_of : Option DefinitionsValueIpBlock → Option IpBlock
block_of none = none
block_of (some b) = elim (b.cidr) [
  | some cidr ↦ some (record { cidr = cidr; except = get_or b.except [] })
  | none ↦ Option.map (λ except. record { cidr = ""; except = except }) b.except
]

build_peer : DefinitionPeer → NetworkPolicyPeer
unfolding flatten_match_labels
build_peer p = record {
  ip_block = p.ip_block;
  namespace_selector = Option.map (λ m. selector_of (flatten_match_labels m)) p.namespace_selector;
  pod_selector = Option.map (λ m. selector_of (flatten_match_labels m)) p.pod_selector;
}

build_port : DefinitionPort → NetworkPolicyPort
build_port p = record {
  protocol = if p.protocol == "" then none else some p.protocol;
  port = p.port;
  end_port = p.end_port;
}

unfoldable pub build_definition : List DefinitionPeer → List DefinitionPort → ResolvedDefinition
unfolding build_peer build_port
build_definition peers ports = record { peers = map build_peer peers; ports = map build_port ports }

-- The round trip through JSON: `endPort` goes from an int to an int32.
to_int32 : Option ℕ → Result (Option ℕ)
to_int32 none = ok none
to_int32 (some e) =
    if leb e (2 ^ 31 - 1)
    then ok (some e)
    else err (message "json: cannot unmarshal number into Go value of type int32" [])

unfoldable pub parse_definition_ports :
    List DefinitionsValuePortsElem → Result (List DefinitionPort)
unfolding to_int32
parse_definition_ports [] = ok []
parse_definition_ports (p ∷ ports) = do
  end ← to_int32 p.end_port
  rest ← parse_definition_ports ports
  ok (record { port = p.port; end_port = end; protocol = get_or p.protocol "" } ∷ rest)

module _ (codec : Codec) where
  selector_entries : Dict RawJson → Result (Dict Value)
  selector_entries [] = ok []
  selector_entries ((k, v) ∷ m) = do
    value ← within "selector key %s: %w" (k ∷ []) (codec.selector_value v)
    rest ← selector_entries m
    ok ((k, value) ∷ rest)

  unfoldable pub selector_from_typed : Option (Dict RawJson) → Result (Option (Dict Value))
  unfolding selector_entries
  selector_from_typed none = ok none
  selector_from_typed (some m) = do values ← selector_entries m; ok (some values)

  unfoldable pub typed_peer : DefinitionsValuePeerElem → Result DefinitionPeer
  unfolding selector_from_typed
  typed_peer e = do
    ns ← selector_from_typed e.namespace_selector
    pod ← selector_from_typed e.pod_selector
    ok (record { ip_block = block_of e.ip_block; namespace_selector = ns; pod_selector = pod })

  typed_peers : List DefinitionsValuePeerElem → Result (List DefinitionPeer)
  typed_peers [] = ok []
  typed_peers (e ∷ es) = do p ← typed_peer e; ps ← typed_peers es; ok (p ∷ ps)

  unfoldable pub parse_egress_definition :
      NetworkPoliciesEgressDefinitionsValue → Result ResolvedDefinition
  unfolding typed_peers typed_peer parse_definition_ports build_definition
  parse_egress_definition raw = do
    peers ← typed_peers raw.to
    ports ← parse_definition_ports raw.ports
    ok (build_definition peers ports)

  unfoldable pub parse_ingress_definition :
      NetworkPoliciesIngressDefinitionsValue → Result ResolvedDefinition
  unfolding typed_peers typed_peer parse_definition_ports build_definition
  parse_ingress_definition raw = do
    peers ← typed_peers raw.from
    ports ← parse_definition_ports raw.ports
    ok (build_definition peers ports)
