-- ===== src/Generator/Generate/Bare.antt =====
-- All objects that `Generate` of generator.go is about to stamp.
use bigbang_operator.Base.{
  Bool, true, false, Option, none, some, List, [], ◌++◌, Result, ok, err, ◌>>=◌, within,
  if◌then◌else◌,
}
use bigbang_operator.Base.Lists.{All, All-append}
use bigbang_operator.Api.Istio.{Istio}
use bigbang_operator.Api.Netpol.{NetworkPolicies}
use bigbang_operator.Api.Routes.{Routes}
use bigbang_operator.Api.Package.{Package}
use bigbang_operator.Object.{Object}
use bigbang_operator.Generator.Codec.{Codec}
use bigbang_operator.Generator.Input.{Input, Kube, ResolvedInbound}
use bigbang_operator.Generator.Definitions.{DefsEnv}
use bigbang_operator.Generator.Hbone.{hbone_enabled, inject_hbone_ports}
use bigbang_operator.Generator.Bare.{IsBare, AreBare, inject_hbone_ports-IsBare}
use bigbang_operator.Generator.Made.{AllMade-bind, AllMade-if, AllMade-within}
use bigbang_operator.Generator.IstioResources.Bare.{generate_istio-AreBare}
use bigbang_operator.Generator.Netpol.All.Bare.{generate_network_policies-AreBare}
use bigbang_operator.Generator.RouteResources.Bare.{generate_routes-AreBare}
use bigbang_operator.Generator.Authz.Bare.{default_authz-IsBare, authz_from_routes-IsBare}
use bigbang_operator.Generator.Authz.Gates.{generate_default_authz_policies}
use bigbang_operator.Generator.Authz.Shorthand.Bare.{authz_from_ingress-AreBare}
use bigbang_operator.Generator.Authz.Custom.Bare.{custom_authz-AreBare}
use bigbang_operator.Generator.Authz.Custom.{generate_custom_authz_policies}
use bigbang_operator.Generator.Generate.{
  inbound_of, env_of, istio_part, netpol_part, routes_part, shorthand_part, route_authz_part,
  unstamped,
}

hbone-IsBare :
    (b : Bool) (xs : List Object)
    → All IsBare xs
    → All IsBare (if b then inject_hbone_ports xs else xs)
hbone-IsBare true xs h = inject_hbone_ports-IsBare xs h
hbone-IsBare false xs h = h

-- The five calls that may fail, and what they and the other two parts give together.
five-AreBare :
    (b : Bool) (defaults routed : List Object) (m n p q r : Result (List Object))
    → All IsBare defaults
    → All IsBare routed
    → AreBare m
    → AreBare n
    → AreBare p
    → AreBare q
    → AreBare r
    → AreBare (
        m >>= λ istio. n >>= λ netpols. p >>= λ routes. q >>= λ shorthand. r >>= λ custom.
        let out =
          istio ++ (netpols ++ (routes ++ (defaults ++ (shorthand ++ (routed ++ custom))))) in
        ok (if b then inject_hbone_ports out else out))
five-AreBare b defaults routed (ok a) (ok c) (ok d) (ok e) (ok f) g h i j k l z = hbone-IsBare b _ (
    All-append IsBare a _ i (
      All-append IsBare c _ j (
        All-append IsBare d _ k (
          All-append IsBare defaults _ g
            (All-append IsBare e _ l (All-append IsBare routed f h z))))))
five-AreBare b defaults routed (err a) n p q r g h i j k l z = tt
five-AreBare b defaults routed (ok a) (err c) p q r g h i j k l z = tt
five-AreBare b defaults routed (ok a) (ok c) (err d) q r g h i j k l z = tt
five-AreBare b defaults routed (ok a) (ok c) (ok d) (err e) r g h i j k l z = tt
five-AreBare b defaults routed (ok a) (ok c) (ok d) (ok e) (err f) g h i j k l z = tt

module _ (codec : Codec) (kube : Kube) (pkg : Package) where
  istio-AreBare : (istio : Option Istio) → AreBare (istio_part codec kube pkg istio)
  unfolding istio_part
  istio-AreBare none = tt
  istio-AreBare (some istio) =
      AllMade-if IsBare istio.enabled _
        (AllMade-within IsBare _ _ _ (generate_istio-AreBare codec pkg istio))

  netpol-AreBare :
      (istio : Option Istio) (env : DefsEnv) (spec : Option NetworkPolicies)
      → AreBare (netpol_part codec kube pkg istio env spec)
  unfolding netpol_part
  netpol-AreBare istio env none = tt
  netpol-AreBare istio env (some spec) =
      AllMade-if IsBare spec.enabled _
        (AllMade-within IsBare _ _ _ (generate_network_policies-AreBare codec pkg spec env istio))

  routes-AreBare :
      (inbound : List ResolvedInbound) (spec : Option Routes)
      → AreBare (routes_part codec kube pkg inbound spec)
  unfolding routes_part
  routes-AreBare inbound none = tt
  routes-AreBare inbound (some spec) =
      AllMade-within IsBare _ _ _ (generate_routes-AreBare codec pkg spec inbound)

  shorthand-AreBare :
      (istio : Option Istio) (spec : Option NetworkPolicies)
      → AreBare (shorthand_part codec kube pkg istio spec)
  unfolding shorthand_part
  shorthand-AreBare istio none = tt
  shorthand-AreBare istio (some spec) =
      AllMade-within IsBare _ _ _ (authz_from_ingress-AreBare codec pkg spec istio)

  route_authz-IsBare :
      (istio : Option Istio) (inbound : List ResolvedInbound) (spec : Option Routes)
      → All IsBare (route_authz_part codec kube pkg istio inbound spec)
  unfolding route_authz_part
  route_authz-IsBare istio inbound none = tt
  route_authz-IsBare istio inbound (some spec) = authz_from_routes-IsBare pkg spec istio inbound

  pub unstamped-AreBare : (input : Input) → AreBare (unstamped codec kube pkg input)
  unfolding unstamped
  unstamped-AreBare input =
      let spec = pkg.spec in
      AllMade-bind IsBare (inbound_of codec kube input spec.routes) _ λ inbound.
        five-AreBare (hbone_enabled spec.network_policies spec.istio)
          (generate_default_authz_policies pkg spec.istio spec.network_policies)
          (route_authz_part codec kube pkg spec.istio inbound spec.routes)
          (istio_part codec kube pkg spec.istio)
          (netpol_part codec kube pkg spec.istio (env_of codec kube input) spec.network_policies)
          (routes_part codec kube pkg inbound spec.routes)
          (shorthand_part codec kube pkg spec.istio spec.network_policies)
          (within "authorizationPolicies: %w" [] (generate_custom_authz_policies codec spec.istio))
          (default_authz-IsBare pkg spec.istio spec.network_policies)
          (route_authz-IsBare spec.istio inbound spec.routes) (istio-AreBare spec.istio)
          (netpol-AreBare spec.istio (env_of codec kube input) spec.network_policies)
          (routes-AreBare inbound spec.routes) (shorthand-AreBare spec.istio spec.network_policies)
          (AllMade-within IsBare _ _ _ (custom_authz-AreBare codec spec.istio))
