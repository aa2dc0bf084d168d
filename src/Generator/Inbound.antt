-- ===== src/Generator/Inbound.antt =====
-- pkg/generator/ingressconfig.go with `splitGateway` and `validateInbound` of routes.go: the global
-- ingress configuration, and the inbound routes with their gateways.
pub mod Laws
use bigbang_operator.Base.{
  String, not, ◌&&◌, ◌||◌, Option, none, some, List, [], ◌∷◌, map, ◌==◌, if◌then◌else◌, Error,
  message, wrap, Result, ok, err, ◌>>=◌, ◌>>◌, guard, within, get_or, is_some,
}
use bigbang_operator.Base.Dict.{Dict, is_empty, lookup, sorted_entries}
use bigbang_operator.Base.Lists.{collect}
use bigbang_operator.Base.Text.{cut, strip_prefix, concat, trim_space}
use bigbang_operator.Api.Common.{RawJson}
use bigbang_operator.Api.Netpol.{
  NetworkPoliciesEgressDefinitionsValue, NetworkPoliciesIngressDefinitionsValue,
}
use bigbang_operator.Api.Routes.{RouteDefaults, InboundRoute, Routes}
use bigbang_operator.Generator.Selectors.{selector_of, name_label}
use bigbang_operator.Generator.Codec.{Codec}
use bigbang_operator.Generator.Input.{
  GatewayDefinition, IngressConfig, ResolvedGateway, ResolvedInbound, Kube,
}

unfoldable pub decode_inbound : Codec → RawJson → Result InboundRoute
decode_inbound codec raw = codec.marshal_route raw >>= codec.inbound

module _ (kube : Kube) where
  -- `strings.TrimSpace(data) == ""` gives a nil map; otherwise strict YAML.
  unfoldable pub parse_shared_egress_definitions :
      String → Result (Dict NetworkPoliciesEgressDefinitionsValue)
  unfolding trim_space
  parse_shared_egress_definitions text =
      if trim_space text == ""
      then ok []
      else within "egressDefinitions: %w" [] (kube.unmarshal_egress text)

  unfoldable pub parse_shared_ingress_definitions :
      String → Result (Dict NetworkPoliciesIngressDefinitionsValue)
  unfolding trim_space
  parse_shared_ingress_definitions text =
      if trim_space text == ""
      then ok []
      else within "ingressDefinitions: %w" [] (kube.unmarshal_ingress text)

  -- The namespace and the name of a gateway reference.
  unfoldable pub split_gateway : String → Option (String × String)
  unfolding cut strip_prefix
  split_gateway s = elim (cut "/" s) [
    | none ↦ none
    | some (ns, name) ↦
        if ns == "" || name == ""
        then none
        else if is_empty (kube.is_dns1123_label ns) && is_empty (kube.is_dns1123_subdomain name)
        then some (ns, name)
        else none
  ]

  -- The checks of one gateway definition; it emits nothing.
  check_gateway : String × GatewayDefinition → Result (List Error)
  unfolding split_gateway
  check_gateway (ref, def) = do
    guard (is_some (split_gateway ref))
        (message "gateways.%s: reference must be <namespace>/<name>" (ref ∷ []))
    elim (def.pod_selector) [
      | none ↦ err (message "gateways.%s: podSelector is required" (ref ∷ []))
      | some selector ↦ elim (kube.label_selector_as_selector selector) [
        | some e ↦ err (wrap "gateways.%s.podSelector: %w" (ref ∷ []) e)
        | none ↦ elim (kube.is_dns1123_subdomain def.service_account_name) [
          | [] ↦ ok []
          | ◌∷◌ e es ↦ err (message "gateways.%s.serviceAccountName: %s" (ref ∷ e ∷ es))
        ]
      ]
    ]

  unfoldable pub parse_ingress_config : String → String → Result IngressConfig
  unfolding collect sorted_entries check_gateway
  parse_ingress_config routes gateways = do
    shared ← within "routes: %w" [] (kube.unmarshal_routes routes)
    defs ← within "gateways: %w" [] (kube.unmarshal_gateways gateways)
    checked ← collect check_gateway (sorted_entries defs)
    ok (record { routes = shared; gateways = defs })

  all_gateways_split : List String → Option String
  unfolding split_gateway
  all_gateways_split [] = none
  all_gateways_split (gw ∷ gateways) =
      let rest = all_gateways_split gateways in if is_some (split_gateway gw) then rest else some gw

  unfoldable pub validate_inbound : String → InboundRoute → Result (Unit {0})
  unfolding all_gateways_split
  validate_inbound name r = do
    guard (not (is_empty (get_or r.gateways [])))
        (message "routes.inbound.%s: gateways[] must be non-empty when enabled" (name ∷ []))
    elim (all_gateways_split (get_or r.gateways [])) [
      | none ↦ ok tt
      | some gw ↦
          err (message "routes.inbound.%s: gateway %q must be <namespace>/<name>" (name ∷ gw ∷ []))
    ]
    guard (not (r.service == ""))
        (message "routes.inbound.%s: service is required when enabled" (name ∷ []))
    guard (is_some r.port) (message "routes.inbound.%s: port is required when enabled" (name ∷ []))

  unfoldable pub default_gateways : Option RouteDefaults → Option (List String)
  default_gateways none = none
  default_gateways (some d) = elim (d.inbound) [ none ↦ none | some i ↦ i.gateways ]

  abbrev or_else : Option (List String) → Option (List String) → Option (List String)
  or_else none b = b
  or_else (some a) b = some a

  abbrev shared_gateways : Option IngressConfig → Option (List String)
  unfolding default_gateways
  shared_gateways none = none
  shared_gateways (some config) = default_gateways config.routes.defaults

  -- A route with its gateways and its selector filled in: the route's own list, then the package's
  -- default, then the global one; a list that is given counts though it be empty.
  unfoldable pub with_defaults :
      String → Option RouteDefaults → Option IngressConfig → InboundRoute → InboundRoute
  unfolding default_gateways
  with_defaults name defaults config route = record route {
    gateways =
        or_else route.gateways (or_else (default_gateways defaults) (shared_gateways config));
    selector = if is_empty route.selector then (name_label, name) ∷ [] else route.selector;
  }

  abbrev conventional : String → GatewayDefinition
  unfolding concat
  conventional gw = record {
    pod_selector = some (selector_of ((name_label, gw) ∷ []));
    service_account_name = concat (gw ∷ "-ingressgateway-service-account" ∷ []);
  }

  abbrev configured : Option IngressConfig → String → Option GatewayDefinition
  unfolding lookup
  configured none ref = none
  configured (some config) ref = lookup ref config.gateways

  unfoldable pub resolve_gateway : Option IngressConfig → String → ResolvedGateway
  unfolding split_gateway concat lookup
  resolve_gateway config ref =
      let (ns, gw) = get_or (split_gateway ref) ("", "") in
      record {
        namespace = ns;
        name = gw;
        definition = get_or (configured config ref) (conventional gw);
      }

  module _ (codec : Codec) (spec : Routes) (config : Option IngressConfig)
      (config_error : Option Error) where
    -- One round of the loop of `resolveInboundRoutes`, behind the decoding.
    unfoldable pub resolve_enabled : String → InboundRoute → Result (List ResolvedInbound)
    unfolding with_defaults validate_inbound resolve_gateway
    resolve_enabled name route = elim config_error [
      | some e ↦ err (wrap "routes.inbound.%s: global config unreadable: %w" (name ∷ []) e)
      | none ↦ do
        let filled = with_defaults name spec.defaults config route
        validate_inbound name filled
        ok (
            record {
              name = name;
              route = filled;
              gateways = map (resolve_gateway config) (get_or filled.gateways []);
            }
            ∷ [])
    ]

    unfoldable pub resolve_inbound : String × RawJson → Result (List ResolvedInbound)
    unfolding resolve_enabled decode_inbound
    resolve_inbound (name, raw) = do
      route ← within "routes.inbound.%s: %w" (name ∷ []) (decode_inbound codec raw)
      if route.enabled then resolve_enabled name route else ok []

    unfoldable pub resolve_inbound_routes : Result (List ResolvedInbound)
    unfolding collect sorted_entries resolve_inbound
    resolve_inbound_routes = collect resolve_inbound (sorted_entries spec.inbound)
