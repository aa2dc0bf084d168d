-- ===== src/Generator/Authz/Routes.antt =====
-- `generateAuthzFromRoutes` and `buildAuthzFromRoute`: one policy for each gateway of each inbound
-- route.
use bigbang_operator.Base.{
  String, Bool, true, ◌++◌, Option, none, some, List, [], ◌∷◌, map, ltb, nat_eq, if◌then◌else◌,
  get_or,
}
use bigbang_operator.Base.Dict.{Dict, lookup, insert}
use bigbang_operator.Base.Lists.{length}
use bigbang_operator.Base.Text.{concat, itoa}
use bigbang_operator.Api.Istio.{Istio}
use bigbang_operator.Api.Routes.{InboundRoute, Routes}
use bigbang_operator.Api.Package.{Package}
use bigbang_operator.Object.{Object, fresh, authorization_policy, allow}
use bigbang_operator.Generator.Names.{prepend_name}
use bigbang_operator.Generator.Metadata.{merge_maps}
use bigbang_operator.Generator.Input.{ResolvedGateway, ResolvedInbound}
use bigbang_operator.Generator.RouteResources.{service_leaf, port_number, inbound_workload_port}
use bigbang_operator.Generator.Authz.Gates.{authz_enabled}
use bigbang_operator.Generator.Authz.Shorthand.{spiffe}

-- The namespaces in which a gateway name occurs, as a set for each name.
abbrev pub Namespaces : Type 0
Namespaces = Dict (Dict Bool)

-- The body of the two loops that collect the namespaces.
unfoldable pub add_gateway : Namespaces → ResolvedGateway → Namespaces
unfolding lookup insert
add_gateway seen gw =
    insert gw.name (insert gw.namespace true (get_or (lookup gw.name seen) [])) seen

unfoldable pub add_gateways : Namespaces → List ResolvedGateway → Namespaces
unfolding add_gateway
add_gateways seen [] = seen
add_gateways seen (gw ∷ gateways) = add_gateways (add_gateway seen gw) gateways

unfoldable pub namespaces_from : Namespaces → List ResolvedInbound → Namespaces
unfolding add_gateways
namespaces_from seen [] = seen
namespaces_from seen (resolved ∷ inbound) =
    namespaces_from (add_gateways seen resolved.gateways) inbound

-- A gateway name that occurs in two namespaces is qualified.
unfoldable pub suffix : Namespaces → ResolvedGateway → String
unfolding lookup concat
suffix seen gw =
    if ltb 1 (length (get_or (lookup gw.name seen) []))
    then concat (gw.namespace ∷ "-" ∷ gw.name ∷ [])
    else gw.name

-- The port of the workload, unless it is named or zero.
unfoldable pub route_ports : InboundRoute → Option (List String)
unfolding port_number inbound_workload_port itoa
route_ports route =
    let n = port_number (inbound_workload_port route) in
    if nat_eq n 0 then none else some (itoa n ∷ [])

unfoldable pub build_authz_from_route :
    Package → Bool → InboundRoute → ResolvedGateway → String → Object
unfolding prepend_name concat service_leaf merge_maps spiffe route_ports
build_authz_from_route pkg prepend route gw suffix =
    fresh
      (prepend_name prepend pkg.name
        (concat (service_leaf route.service ∷ "-" ∷ suffix ∷ "-authz-policy" ∷ [])))
      (merge_maps route.labels []) (merge_maps route.annotations [])
      (authorization_policy (
        allow (some route.selector) (
          record {
            from = record {
              namespaces = [];
              principals = spiffe gw.namespace gw.definition.service_account_name ∷ [];
              ip_blocks = [];
            };
            to = route_ports route;
          }
          ∷ [])))

module _ (pkg : Package) (routes : Routes) (seen : Namespaces) where
  unfoldable pub gateway_policy : InboundRoute → ResolvedGateway → Object
  unfolding build_authz_from_route suffix
  gateway_policy route gw =
      build_authz_from_route pkg routes.prepend_release_name route gw (suffix seen gw)

  unfoldable pub route_policies : List ResolvedInbound → List Object
  unfolding gateway_policy
  route_policies [] = []
  route_policies (resolved ∷ inbound) =
      map (gateway_policy resolved.route) resolved.gateways ++ route_policies inbound

unfoldable pub generate_authz_from_routes :
    Package → Routes → Option Istio → List ResolvedInbound → List Object
unfolding authz_enabled namespaces_from route_policies
generate_authz_from_routes pkg routes istio inbound =
    if authz_enabled istio
    then route_policies pkg routes (namespaces_from [] inbound) inbound
    else []
