-- ===== src/Generator/Generate.antt =====
-- pkg/generator/generator.go: `Warnings`, `Generate` and `setGVK`.
pub mod Bare
pub mod Laws
pub mod Accepts
use bigbang_operator.Base.{
  String, Bool, true, false, Option, none, some, List, [], ◌∷◌, ◌++◌, if◌then◌else◌, message,
  Result, ok, err, ◌>>=◌, within,
}
use bigbang_operator.Base.Dict.{Dict}
use bigbang_operator.Api.Istio.{Istio}
use bigbang_operator.Api.Netpol.{NetworkPolicies}
use bigbang_operator.Api.Routes.{Routes}
use bigbang_operator.Api.Package.{Package}
use bigbang_operator.Object.{Object, Gvk, Kind, kind_of}
use bigbang_operator.Generator.Codec.{Codec}
use bigbang_operator.Generator.Input.{Input, Kube, Scheme, ResolvedInbound}
use bigbang_operator.Generator.Definitions.{DefsEnv}
use bigbang_operator.Generator.Metadata.{stamp_metadata}
use bigbang_operator.Generator.Hbone.{hbone_enabled, inject_hbone_ports}
use bigbang_operator.Generator.Inbound.{resolve_inbound_routes}
use bigbang_operator.Generator.IstioResources.{generate_istio}
use bigbang_operator.Generator.Netpol.All.{generate_network_policies}
use bigbang_operator.Generator.RouteResources.{generate_routes}
use bigbang_operator.Generator.Authz.Gates.{generate_default_authz_policies}
use bigbang_operator.Generator.Authz.Shorthand.{generate_authz_from_ingress_shorthand}
use bigbang_operator.Generator.Authz.Routes.{generate_authz_from_routes}
use bigbang_operator.Generator.Authz.Custom.{generate_custom_authz_policies}

unfoldable pub warnings : Package → List String
warnings pkg = elim (pkg.spec.network_policies) [
  | none ↦ []
  | some np ↦ elim (np.defaults_as_hooks) [
    | none ↦ []
    | some hooks ↦ elim (hooks.enabled) [
      | some true ↦
          "networkPolicies.defaultsAsHooks is ignored: the operator only reconciles persistent policies and does not manage Helm hooks"
          ∷ []
      | _ ↦ []
    ]
  ]
]

unfoldable pub set_gvk : Scheme → Object → Result Object
set_gvk scheme obj = do
  gvks ← within "gvk for %T: %w" [] (scheme (kind_of obj.spec))
  elim gvks [ [] ↦ err (message "no GVK for %T" []) | ◌∷◌ gvk more ↦ ok (record obj { gvk = gvk }) ]

-- The last loop of `Generate`.
unfoldable pub finish : Package → Scheme → List Object → Result (List Object)
unfolding stamp_metadata set_gvk
finish pkg scheme [] = ok []
finish pkg scheme (o ∷ objs) = do
  done ← set_gvk scheme (stamp_metadata pkg o)
  rest ← finish pkg scheme objs
  ok (done ∷ rest)

module _ (codec : Codec) (kube : Kube) where
  -- `resolveInboundRoutes`, with its test of `spec == nil`.
  inbound_of : Input → Option Routes → Result (List ResolvedInbound)
  unfolding resolve_inbound_routes
  inbound_of input none = ok []
  inbound_of input (some spec) =
      resolve_inbound_routes kube codec spec input.shared_ingress_config
        input.shared_ingress_config_error

  abbrev env_of : Input → DefsEnv
  env_of input = record {
    kube_api_ports = input.kube_api_ports;
    shared_egress = input.shared_egress_definitions;
    shared_ingress = input.shared_ingress_definitions;
    shared_err = input.shared_definitions_error;
  }

  istio_part : Package → Option Istio → Result (List Object)
  unfolding generate_istio
  istio_part pkg none = ok []
  istio_part pkg (some istio) =
      let objs = within "istio: %w" [] (generate_istio codec pkg istio) in
      if istio.enabled then objs else ok []

  netpol_part : Package → Option Istio → DefsEnv → Option NetworkPolicies → Result (List Object)
  unfolding generate_network_policies
  netpol_part pkg istio env none = ok []
  netpol_part pkg istio env (some spec) =
      let objs =
        within "networkPolicies: %w" [] (generate_network_policies codec pkg spec istio env) in
      if spec.enabled then objs else ok []

  routes_part : Package → List ResolvedInbound → Option Routes → Result (List Object)
  unfolding generate_routes
  routes_part pkg inbound none = ok []
  routes_part pkg inbound (some spec) =
      within "routes: %w" [] (generate_routes codec pkg spec inbound)

  shorthand_part : Package → Option Istio → Option NetworkPolicies → Result (List Object)
  unfolding generate_authz_from_ingress_shorthand
  shorthand_part pkg istio none = ok []
  shorthand_part pkg istio (some spec) =
      within "authorizationPolicies: %w" []
        (generate_authz_from_ingress_shorthand codec pkg spec istio)

  route_authz_part : Package → Option Istio → List ResolvedInbound → Option Routes → List Object
  unfolding generate_authz_from_routes
  route_authz_part pkg istio inbound none = []
  route_authz_part pkg istio inbound (some spec) = generate_authz_from_routes pkg spec istio inbound

  -- The objects before stamping, in their order.
  unfoldable pub unstamped : Package → Input → Result (List Object)
  unfolding inbound_of istio_part netpol_part routes_part shorthand_part route_authz_part
      generate_default_authz_policies generate_custom_authz_policies hbone_enabled
      inject_hbone_ports
  unstamped pkg input = do
    let spec = pkg.spec
    inbound ← inbound_of input spec.routes
    istio ← istio_part pkg spec.istio
    netpols ← netpol_part pkg spec.istio (env_of input) spec.network_policies
    routes ← routes_part pkg inbound spec.routes
    shorthand ← shorthand_part pkg spec.istio spec.network_policies
    custom ← within "authorizationPolicies: %w" [] (generate_custom_authz_policies codec spec.istio)
    let out =
        istio
        ++ (netpols
            ++ (routes
                ++ (generate_default_authz_policies pkg spec.istio spec.network_policies
                    ++ (shorthand
                        ++ (route_authz_part pkg spec.istio inbound spec.routes ++ custom)))))
    ok (if hbone_enabled spec.network_policies spec.istio then inject_hbone_ports out else out)

  unfoldable pub generate : Input → Result (List Object)
  unfolding unstamped finish
  generate input = elim (input.pkg) [
    | none ↦ err (message "generator: Package is nil" [])
    | some pkg ↦ elim (input.scheme) [
      | none ↦ err (message "generator: Scheme is nil" [])
      | some scheme ↦ unstamped pkg input >>= λ out. finish pkg scheme out
    ]
  ]
