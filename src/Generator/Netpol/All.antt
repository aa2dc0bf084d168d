-- ===== src/Generator/Netpol/All.antt =====
-- `generateNetworkPolicies` and `buildAdditionalPolicy` (networkpolicies.go).
pub mod Bare
use bigbang_operator.Base.{
  Option, none, some, List, [], ◌∷◌, ◌++◌, Result, ok, ◌>>=◌, if◌then◌else◌,
}
use bigbang_operator.Base.Dict.{is_empty}
use bigbang_operator.Base.Lists.{collect}
use bigbang_operator.Api.Istio.{Istio}
use bigbang_operator.Api.Netpol.{NetworkPolicies, AdditionalPolicy}
use bigbang_operator.Api.Package.{Package}
use bigbang_operator.Object.{Object, fresh, network_policy, NetworkPolicySpec}
use bigbang_operator.Generator.Names.{prepend_name}
use bigbang_operator.Generator.Selectors.{selector_of}
use bigbang_operator.Generator.Codec.{Codec}
use bigbang_operator.Generator.Definitions.{DefsEnv}
use bigbang_operator.Generator.Defaults.{default_egress_policies, default_ingress_policies}
use bigbang_operator.Generator.Netpol.Egress.{expand_shorthand_egress}
use bigbang_operator.Generator.Netpol.Ingress.{expand_shorthand_ingress}

-- The zero value of `NetworkPolicySpec`.
abbrev no_spec : NetworkPolicySpec
no_spec = record { pod_selector = selector_of []; policy_types = []; egress = []; ingress = [] }

module _ (codec : Codec) (pkg : Package) (spec : NetworkPolicies) where
  unfoldable pub build_additional_policy : AdditionalPolicy → Result (List Object)
  unfolding prepend_name
  build_additional_policy raw = do
    np ← if is_empty raw.spec then ok no_spec else codec.network_policy raw.spec
    ok (
        fresh (prepend_name spec.prepend_release_name pkg.name raw.name) raw.labels raw.annotations
          (network_policy np)
        ∷ [])

  unfoldable pub generate_network_policies : Option Istio → DefsEnv → Result (List Object)
  unfolding default_egress_policies default_ingress_policies expand_shorthand_egress
      expand_shorthand_ingress collect build_additional_policy
  generate_network_policies istio env = do
    egress ← elim (spec.egress) [
      | none ↦ ok []
      | some e ↦ expand_shorthand_egress codec pkg spec env e
    ]
    ingress ← elim (spec.ingress) [
      | none ↦ ok []
      | some i ↦ expand_shorthand_ingress codec pkg spec env i
    ]
    additional_policies ← collect build_additional_policy spec.additional_policies
    additional ← collect build_additional_policy spec.additional
    ok (
        default_egress_policies pkg spec istio
        ++ (default_ingress_policies pkg spec istio
            ++ (egress ++ (ingress ++ (additional_policies ++ additional)))))
