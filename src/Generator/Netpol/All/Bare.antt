-- ===== src/Generator/Netpol/All/Bare.antt =====
-- All network policies (networkpolicies.go, networkpolicies_defaults.go) before they are stamped.
use bigbang_operator.Base.{Option, none, some, [], ok, if◌then◌else◌, refl}
use bigbang_operator.Base.Dict.{is_empty}
use bigbang_operator.Base.Lists.{collect-All}
use bigbang_operator.Api.Istio.{Istio}
use bigbang_operator.Api.Netpol.{
  NetworkPolicies, NetworkPoliciesEgress, NetworkPoliciesIngress, AdditionalPolicy,
}
use bigbang_operator.Api.Package.{Package}
use bigbang_operator.Generator.Codec.{Codec}
use bigbang_operator.Generator.Definitions.{DefsEnv}
use bigbang_operator.Generator.Bare.{IsBare, AreBare, apply_shorthand_metadata-IsBare}
use bigbang_operator.Generator.Made.{AllMade-one, AllMade-behind_four}
use bigbang_operator.Generator.Defaults.Made.{default_egress-All, default_ingress-All}
use bigbang_operator.Generator.Netpol.Egress.Made.{expand_shorthand_egress-AllMade}
use bigbang_operator.Generator.Netpol.Ingress.Made.{expand_shorthand_ingress-AllMade}
use bigbang_operator.Generator.Netpol.Egress.{egress_policy, expand_shorthand_egress}
use bigbang_operator.Generator.Netpol.Ingress.{ingress_policy, expand_shorthand_ingress}
use bigbang_operator.Generator.Netpol.All.{
  build_additional_policy, generate_network_policies, no_spec,
}

module _ (codec : Codec) (pkg : Package) (spec : NetworkPolicies) where
  additional-AreBare :
      (raw : AdditionalPolicy) → AreBare (build_additional_policy codec pkg spec raw)
  unfolding build_additional_policy
  additional-AreBare raw =
      AllMade-one IsBare (if is_empty raw.spec then ok no_spec else codec.network_policy raw.spec) _
        λ np. (refl, refl)

  module _ (env : DefsEnv) where
    egress-AreBare :
        (o : Option NetworkPoliciesEgress)
        → AreBare (elim o [ none ↦ ok [] | some e ↦ expand_shorthand_egress codec pkg spec env e ])
    unfolding egress_policy
    egress-AreBare none = tt
    egress-AreBare (some e) =
        expand_shorthand_egress-AllMade codec IsBare (λ c name annotations rules. (refl, refl))
          apply_shorthand_metadata-IsBare pkg spec env e

    ingress-AreBare :
        (o : Option NetworkPoliciesIngress)
        → AreBare (elim o [ none ↦ ok [] | some i ↦ expand_shorthand_ingress codec pkg spec env i ])
    unfolding ingress_policy
    ingress-AreBare none = tt
    ingress-AreBare (some i) =
        expand_shorthand_ingress-AllMade codec IsBare (λ c name annotations rules. (refl, refl))
          apply_shorthand_metadata-IsBare pkg spec env i

    pub generate_network_policies-AreBare :
        (istio : Option Istio) → AreBare (generate_network_policies codec pkg spec istio env)
    unfolding generate_network_policies
    generate_network_policies-AreBare istio =
        AllMade-behind_four IsBare _ _ _ _ _ _
          (default_egress-All IsBare (λ name labels rules. (refl, refl)) pkg spec istio)
          (default_ingress-All IsBare (λ name labels rules. (refl, refl)) pkg spec istio)
          (egress-AreBare spec.egress) (ingress-AreBare spec.ingress)
          (collect-All IsBare _ additional-AreBare spec.additional_policies)
          (collect-All IsBare _ additional-AreBare spec.additional)
