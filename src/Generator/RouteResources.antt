-- ===== src/Generator/RouteResources.antt =====
-- pkg/generator/routes.go: the objects of inbound and outbound routes.
pub mod Bare
use mathlib.Core.Option
use bigbang_operator.Base.{
  ℕ, suc, String, Bool, false, not, Option, none, some, List, [], ◌∷◌, ◌++◌, map, ◌&&◌, ◌==◌,
  if◌then◌else◌, message, Result, ok, ◌>>=◌, ◌>>◌, guard, within, get_or,
}
use bigbang_operator.Base.Dict.{is_empty, sorted_entries}
use bigbang_operator.Base.Lists.{collect, any}
use bigbang_operator.Base.Text.{cut, strip_prefix, contains, concat, to_upper, itoa}
use bigbang_operator.Api.Common.{RawJson, Labels, IntOrString, int, str, from_int, to_u32}
use bigbang_operator.Api.Routes.{InboundRoute, OutboundRoute, OutboundRoutePort, Routes}
use bigbang_operator.Api.Package.{Package}
use bigbang_operator.Object.{
  Object, fresh, network_policy, virtual_service, service_entry, PolicyType, Destination, HttpRoute,
  to_destination, TlsRoute, Location, mesh_external, mesh_internal, Resolution, res_none, static,
  dns, dns_round_robin, ServicePort, entry,
}
use bigbang_operator.Generator.Names.{prepend_name}
use bigbang_operator.Generator.Metadata.{merge_maps, label_netpol_source, label_netpol_source_value}
use bigbang_operator.Generator.Selectors.{selector_of, namespace_label, direction_label}
use bigbang_operator.Generator.Codec.{Codec}
use bigbang_operator.Generator.Input.{ResolvedGateway, ResolvedInbound}

unfoldable pub parse_location : String → Location
unfolding to_upper
parse_location s = if to_upper s == "MESH_INTERNAL" then mesh_internal else mesh_external

abbrev resolution_of : String → Resolution
resolution_of s =
    if s == "STATIC"
    then static
    else if s == "DNS_ROUND_ROBIN"
    then dns_round_robin
    else if s == "NONE"
    then res_none
    else dns

unfoldable pub parse_resolution : String → Resolution
unfolding to_upper
parse_resolution s = resolution_of (to_upper s)

-- The uint32 of an int32 has the same bit pattern.
unfoldable pub port_number : Option IntOrString → ℕ
port_number none = 0
port_number (some (int p)) = p
port_number (some (str s)) = 0

unfoldable pub service_leaf : String → String
unfolding cut strip_prefix
service_leaf s = elim (cut "." s) [ none ↦ s | some (leaf, rest) ↦ if leaf == "" then s else leaf ]

unfoldable pub has_wildcard_host : List String → Bool
unfolding contains
has_wildcard_host hosts = any (contains "*") hosts

unfoldable pub inbound_workload_port : InboundRoute → Option IntOrString
inbound_workload_port r = elim (r.container_port) [ some p ↦ some p | none ↦ r.port ]

abbrev destination : String → Option IntOrString → Destination
unfolding port_number
destination host port = record { host = host; port = Option.map (λ p. port_number (some p)) port }

module _ (codec : Codec) where
  http_routes_from : ℕ → List RawJson → Result (List HttpRoute)
  unfolding itoa
  http_routes_from i [] = ok []
  http_routes_from i (raw ∷ raws) = do
    p ← within "http[%d]: %w" (itoa i ∷ []) (codec.http_route raw)
    rest ← http_routes_from (suc i) raws
    ok (HttpRoute.raw p ∷ rest)

  unfoldable pub build_http_routes : InboundRoute → Result (List HttpRoute)
  unfolding http_routes_from inbound_workload_port port_number
  build_http_routes r =
      if is_empty r.http
      then ok (to_destination (destination r.service (inbound_workload_port r)) ∷ [])
      else http_routes_from 0 r.http

  abbrev is_passthrough : InboundRoute → Bool
  is_passthrough r = elim (r.passthrough) [ none ↦ false | some p ↦ p.enabled ]

  abbrev gateway_port : InboundRoute → ℕ
  gateway_port r = elim (r.passthrough) [
    | none ↦ 8443
    | some p ↦ elim (p.gateway_port) [ none ↦ 8443 | some n ↦ to_u32 n ]
  ]

  unfoldable pub build_virtual_service : Package → Bool → String → InboundRoute → Result Object
  unfolding prepend_name merge_maps build_http_routes port_number
  build_virtual_service pkg prepend name r =
      let object = λ (http : List HttpRoute) (tls : List TlsRoute).
        fresh (prepend_name prepend pkg.name name) (merge_maps r.labels [])
          (merge_maps r.annotations [])
          (virtual_service (record {
            hosts = r.hosts;
            gateways = get_or r.gateways [];
            http = http;
            tls = tls;
          })) in
      let routed = within "routes.inbound.%s.http: %w" (name ∷ []) (build_http_routes r) >>= λ http.
      ok (object http []) in
      if is_passthrough r
      then ok (
          object [] (
            record {
              match_port = gateway_port r;
              sni_hosts = r.hosts;
              destination = destination r.service r.port;
            }
            ∷ []))
      else routed

unfoldable pub build_inbound_service_entry : Package → Bool → String → InboundRoute → Object
unfolding prepend_name merge_maps has_wildcard_host parse_resolution concat
build_inbound_service_entry pkg prepend name r =
    fresh (prepend_name prepend pkg.name (concat (name ∷ "-internal" ∷ [])))
      (merge_maps r.labels []) (merge_maps r.annotations [])
      (service_entry (
        entry r.hosts mesh_external
          (parse_resolution
            (if r.resolution == "" && has_wildcard_host r.hosts then "NONE" else r.resolution))
          (record { number = 443; name = "https"; protocol = "HTTPS" } ∷ [])))

-- One round of the loop of `buildInboundNetpols`.
unfoldable pub build_inbound_netpol : Package → Bool → InboundRoute → ResolvedGateway → Object
unfolding prepend_name merge_maps port_number inbound_workload_port service_leaf concat itoa
build_inbound_netpol pkg prepend r gw =
    let port = port_number (inbound_workload_port r) in
    fresh
      (prepend_name prepend pkg.name (
        concat (
          "allow-ingress-to-"
          ∷ service_leaf r.service
          ∷ "-"
          ∷ itoa port
          ∷ "-from-ns-"
          ∷ gw.namespace
          ∷ "-pod-"
          ∷ gw.name
          ∷ [])))
      (merge_maps r.labels
        ((label_netpol_source, label_netpol_source_value) ∷ (direction_label, "ingress") ∷ []))
      (merge_maps r.annotations [])
      (network_policy (record {
        pod_selector = selector_of r.selector;
        policy_types = PolicyType.ingress ∷ [];
        egress = [];
        ingress =
            record {
              peers =
                  record {
                    ip_block = none;
                    namespace_selector = some (selector_of ((namespace_label, gw.namespace) ∷ []));
                    pod_selector = gw.definition.pod_selector;
                  }
                  ∷ [];
              ports =
                  record { protocol = some "TCP"; port = some (from_int port); end_port = none }
                  ∷ [];
            }
            ∷ [];
      }))

unfoldable pub build_inbound_netpols :
    Package → Bool → InboundRoute → List ResolvedGateway → List Object
unfolding build_inbound_netpol
build_inbound_netpols pkg prepend r gateways = map (build_inbound_netpol pkg prepend r) gateways

abbrev service_ports : List OutboundRoutePort → List ServicePort
service_ports [] = record { number = 443; name = "https"; protocol = "HTTPS" } ∷ []
service_ports (p ∷ ps) =
    map
      (λ (q : OutboundRoutePort). record {
        number = q.number;
        name = q.name;
        protocol = q.protocol;
      })
      (p ∷ ps)

abbrev suffix_of : Location → String
suffix_of mesh_internal = "-internal"
suffix_of mesh_external = "-external"

unfoldable pub build_outbound_service_entry : Package → Bool → String → OutboundRoute → Object
unfolding prepend_name merge_maps parse_location parse_resolution concat
build_outbound_service_entry pkg prepend name r =
    let (labels, annotations) : Labels × Labels = elim (r.metadata) [
      | none ↦ ([], [])
      | some m ↦ (m.labels, m.annotations)
    ] in
    let location = parse_location r.location in
    fresh (prepend_name prepend pkg.name (concat (name ∷ suffix_of location ∷ [])))
      (merge_maps labels []) (merge_maps annotations [])
      (service_entry
        (entry r.hosts location (parse_resolution r.resolution) (service_ports r.ports)))

unfoldable pub validate_outbound : String → OutboundRoute → Result (Unit {0})
validate_outbound name r =
    guard (not (is_empty r.hosts))
      (message "routes.outbound.%s: hosts[] must be non-empty when enabled" (name ∷ []))

unfoldable pub decode_outbound : Codec → RawJson → Result OutboundRoute
decode_outbound codec raw = codec.marshal_route raw >>= codec.outbound

module _ (codec : Codec) (pkg : Package) (spec : Routes) where
  abbrev netpols_enabled : Bool
  netpols_enabled = elim (pkg.spec.network_policies) [ none ↦ false | some np ↦ np.enabled ]

  -- The round of one inbound route, and that of one outbound route.
  unfoldable pub inbound_objects : ResolvedInbound → Result (List Object)
  unfolding build_virtual_service build_inbound_service_entry build_inbound_netpols
  inbound_objects resolved = do
    let prepend = spec.prepend_release_name
    let route = resolved.route
    vs ← build_virtual_service codec pkg prepend resolved.name route
    ok (
        vs
        ∷ build_inbound_service_entry pkg prepend resolved.name route
        ∷ (if netpols_enabled
            then build_inbound_netpols pkg prepend route resolved.gateways
            else []))

  unfoldable pub outbound_objects : String × RawJson → Result (List Object)
  unfolding validate_outbound build_outbound_service_entry decode_outbound
  outbound_objects (name, raw) = do
    route ← within "routes.outbound.%s: %w" (name ∷ []) (decode_outbound codec raw)
    let built =
        validate_outbound name route
        >> ok (build_outbound_service_entry pkg spec.prepend_release_name name route ∷ [])
    if route.enabled then built else ok []

  unfoldable pub generate_routes : List ResolvedInbound → Result (List Object)
  unfolding collect sorted_entries inbound_objects outbound_objects
  generate_routes inbound = do
    ins ← collect inbound_objects inbound
    outs ← collect outbound_objects (sorted_entries spec.outbound)
    ok (ins ++ outs)
