-- ===== src/Generator/Authz/Bare.antt =====
-- The default policies and the route policies of authorizationpolicies.go before they are stamped.
use bigbang_operator.Base.{not, Option, List, [], ◌∷◌, refl}
use bigbang_operator.Base.Lists.{All, All-append}
use bigbang_operator.Api.Istio.{Istio}
use bigbang_operator.Api.Netpol.{NetworkPolicies}
use bigbang_operator.Api.Routes.{Routes}
use bigbang_operator.Api.Package.{Package}
use bigbang_operator.Generator.Input.{ResolvedInbound}
use bigbang_operator.Generator.Bare.{IsBare}
use bigbang_operator.Generator.Made.{All-if, All-else, All-when, All-mapped}
use bigbang_operator.Generator.Authz.Gates.{
  authz_enabled, authz_allow_nothing, authz_allow_all_in_ns, netpol_ingress_on,
  generate_default_authz_policies,
}
use bigbang_operator.Generator.Authz.Routes.{
  Namespaces, namespaces_from, build_authz_from_route, gateway_policy, route_policies,
  generate_authz_from_routes,
}

pub default_authz-IsBare :
    (pkg : Package) (istio : Option Istio) (spec : Option NetworkPolicies)
    → All IsBare (generate_default_authz_policies pkg istio spec)
unfolding generate_default_authz_policies
default_authz-IsBare pkg istio spec = All-else IsBare (not (authz_enabled istio)) _ (
    All-else IsBare (not (netpol_ingress_on spec)) _ (
      All-when IsBare (authz_allow_nothing istio) _ _ (refl, refl)
        (All-if IsBare (authz_allow_all_in_ns istio) _ ((refl, refl), tt))))

route_policies-IsBare :
    (pkg : Package) (routes : Routes) (seen : Namespaces) (inbound : List ResolvedInbound)
    → All IsBare (route_policies pkg routes seen inbound)
unfolding route_policies gateway_policy build_authz_from_route
route_policies-IsBare pkg routes seen [] = tt
route_policies-IsBare pkg routes seen (resolved ∷ inbound) =
    All-append IsBare _ (route_policies pkg routes seen inbound)
      (All-mapped IsBare (gateway_policy pkg routes seen resolved.route) (λ gw. (refl, refl))
        resolved.gateways)
      (route_policies-IsBare pkg routes seen inbound)

pub authz_from_routes-IsBare :
    (pkg : Package) (routes : Routes) (istio : Option Istio) (inbound : List ResolvedInbound)
    → All IsBare (generate_authz_from_routes pkg routes istio inbound)
unfolding generate_authz_from_routes
authz_from_routes-IsBare pkg routes istio inbound =
    All-if IsBare (authz_enabled istio) _
      (route_policies-IsBare pkg routes (namespaces_from [] inbound) inbound)
