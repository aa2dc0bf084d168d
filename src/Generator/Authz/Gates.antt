-- ===== src/Generator/Authz/Gates.antt =====
-- When authorization policies are generated, and the two baseline policies.
use bigbang_operator.Base.{
  Bool, true, false, not, Option, none, some, List, [], ◌∷◌, ◌++◌, if◌then◌else◌,
}
use bigbang_operator.Api.Istio.{
  Istio, IstioAuthorizationPolicies, IstioAuthorizationPoliciesDefaults,
}
use bigbang_operator.Api.Common.{Toggle}
use bigbang_operator.Api.Netpol.{NetworkPolicies}
use bigbang_operator.Api.Package.{Package}
use bigbang_operator.Object.{Object, fresh, authorization_policy, allow}
use bigbang_operator.Generator.Names.{prepend_name}
use bigbang_operator.Generator.Hbone.{istio_ambient}
use bigbang_operator.Generator.Defaults.{default_enabled, ingress_side_enabled}

abbrev policies_of : Option Istio → Option IstioAuthorizationPolicies
policies_of none = none
policies_of (some istio) = istio.authorization_policies

abbrev defaults_of : Option Istio → Option IstioAuthorizationPoliciesDefaults
defaults_of istio = elim (policies_of istio) [ none ↦ none | some ap ↦ ap.defaults ]

unfoldable pub authz_enabled : Option Istio → Bool
unfolding istio_ambient
authz_enabled istio =
    if istio_ambient istio
    then true
    else elim (policies_of istio) [ none ↦ false | some ap ↦ ap.enabled ]

unfoldable pub generate_from_netpol : Option Istio → Bool
generate_from_netpol istio = elim (policies_of istio) [
  | none ↦ true
  | some ap ↦ elim (ap.generate_from_netpol) [ none ↦ true | some b ↦ b ]
]

unfoldable pub authz_defaults_enabled : Option Istio → Bool
unfolding default_enabled
authz_defaults_enabled istio = elim (defaults_of istio) [
  | none ↦ true
  | some d ↦ default_enabled d.enabled
]

abbrev default_by : Option Istio → (IstioAuthorizationPoliciesDefaults → Option Toggle) → Bool
unfolding default_enabled
default_by istio field = elim (defaults_of istio) [
  | none ↦ true
  | some d ↦ elim (field d) [ none ↦ true | some t ↦ default_enabled t.enabled ]
]

unfoldable pub authz_allow_nothing : Option Istio → Bool
unfolding authz_defaults_enabled
authz_allow_nothing istio =
    if authz_defaults_enabled istio then default_by istio (λ d. d.deny_all) else false

unfoldable pub authz_allow_all_in_ns : Option Istio → Bool
unfolding authz_defaults_enabled
authz_allow_all_in_ns istio =
    if authz_defaults_enabled istio then default_by istio (λ d. d.allow_in_namespace) else false

abbrev prepend_of : Option Istio → Bool
prepend_of none = false
prepend_of (some istio) = istio.prepend_release_name

abbrev pub netpol_ingress_on : Option NetworkPolicies → Bool
unfolding ingress_side_enabled
netpol_ingress_on none = true
netpol_ingress_on (some spec) = ingress_side_enabled spec

unfoldable pub generate_default_authz_policies :
    Package → Option Istio → Option NetworkPolicies → List Object
unfolding authz_enabled authz_allow_nothing authz_allow_all_in_ns prepend_name ingress_side_enabled
generate_default_authz_policies pkg istio spec =
    if not (authz_enabled istio)
    then []
    else if not (netpol_ingress_on spec)
    then []
    else (if authz_allow_nothing istio
        then fresh (prepend_name (prepend_of istio) pkg.name "default-authz-allow-nothing") [] []
            (authorization_policy (allow none []))
          ∷ []
        else [])
      ++ (if authz_allow_all_in_ns istio
          then fresh (prepend_name (prepend_of istio) pkg.name "default-authz-allow-all-in-ns") []
              []
              (authorization_policy (
                allow none (
                  record {
                    from = record {
                      namespaces = pkg.namespace ∷ [];
                      principals = [];
                      ip_blocks = [];
                    };
                    to = none;
                  }
                  ∷ [])))
            ∷ []
          else [])
