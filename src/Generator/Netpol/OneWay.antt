-- ===== src/Generator/Netpol/OneWay.antt =====
-- The direction of the network policies of networkpolicies_shorthand.go and
-- networkpolicies_defaults.go.
use bigbang_operator.Base.{Option, none, some, [], ◌∷◌, ◌≡◌, refl}
use bigbang_operator.Base.Lists.{All}
use bigbang_operator.Object.{Object, NetworkPolicySpec, network_policy, PolicyType}
use bigbang_operator.Api.Istio.{Istio}
use bigbang_operator.Api.Netpol.{NetworkPolicies, NetworkPoliciesEgress, NetworkPoliciesIngress}
use bigbang_operator.Api.Package.{Package}
use bigbang_operator.Generator.Codec.{Codec}
use bigbang_operator.Generator.Definitions.{DefsEnv}
use bigbang_operator.Generator.Values.{ShorthandMetadata, apply_shorthand_metadata}
use bigbang_operator.Generator.Made.{AllMade}
use bigbang_operator.Generator.Defaults.{default_egress_policies, default_ingress_policies}
use bigbang_operator.Generator.Defaults.Made.{default_egress-All, default_ingress-All}
use bigbang_operator.Generator.Netpol.Egress.{egress_policy, expand_shorthand_egress}
use bigbang_operator.Generator.Netpol.Egress.Made.{expand_shorthand_egress-AllMade}
use bigbang_operator.Generator.Netpol.Ingress.{ingress_policy, expand_shorthand_ingress}
use bigbang_operator.Generator.Netpol.Ingress.Made.{expand_shorthand_ingress-AllMade}

-- A network policy that isolates its pods in one direction, and has no rule for the other.
abbrev pub IsEgressOnly : Object → Type 0
IsEgressOnly o =
    (np : NetworkPolicySpec) × (o.spec ≡ network_policy np)
    × (np.policy_types ≡ PolicyType.egress ∷ [])
    × (np.ingress ≡ [])

abbrev pub IsIngressOnly : Object → Type 0
IsIngressOnly o =
    (np : NetworkPolicySpec) × (o.spec ≡ network_policy np)
    × (np.policy_types ≡ PolicyType.ingress ∷ [])
    × (np.egress ≡ [])

metadata-IsEgressOnly :
    (o : Object) (metadata : Option ShorthandMetadata)
    → IsEgressOnly o
    → IsEgressOnly (apply_shorthand_metadata o metadata)
unfolding apply_shorthand_metadata
metadata-IsEgressOnly o none h = h
metadata-IsEgressOnly o (some m) h = h

metadata-IsIngressOnly :
    (o : Object) (metadata : Option ShorthandMetadata)
    → IsIngressOnly o
    → IsIngressOnly (apply_shorthand_metadata o metadata)
unfolding apply_shorthand_metadata
metadata-IsIngressOnly o none h = h
metadata-IsIngressOnly o (some m) h = h

-- The default policies and the expanded shorthands of `egress` are network policies of the type
-- Egress only, without a rule for ingress, whatever the target and its metadata are; those of
-- `ingress` are of the type Ingress only, without a rule for egress.
pub expand_shorthand-OneWay :
    (codec : Codec) (pkg : Package) (spec : NetworkPolicies) (env : DefsEnv) (istio : Option Istio)
    (egress : NetworkPoliciesEgress) (ingress : NetworkPoliciesIngress)
    → (All IsEgressOnly (default_egress_policies pkg spec istio)
        × AllMade IsEgressOnly (expand_shorthand_egress codec pkg spec env egress))
      × (All IsIngressOnly (default_ingress_policies pkg spec istio)
          × AllMade IsIngressOnly (expand_shorthand_ingress codec pkg spec env ingress))
unfolding egress_policy ingress_policy
expand_shorthand-OneWay codec pkg spec env istio egress ingress = (
  (
    default_egress-All IsEgressOnly (λ name labels rules. (_, refl, refl, refl)) pkg spec istio,
    expand_shorthand_egress-AllMade codec IsEgressOnly
        (λ c name annotations rules. (_, refl, refl, refl)) metadata-IsEgressOnly pkg spec env
        egress,
  ),
  (
    default_ingress-All IsIngressOnly (λ name labels rules. (_, refl, refl, refl)) pkg spec istio,
    expand_shorthand_ingress-AllMade codec IsIngressOnly
        (λ c name annotations rules. (_, refl, refl, refl)) metadata-IsIngressOnly pkg spec env
        ingress,
  ),
)
