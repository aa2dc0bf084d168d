-- ===== src/Generator/Defaults/Made.antt =====
-- What holds of every default policy of networkpolicies_defaults.go, if it holds of each policy in
-- its direction.
use bigbang_operator.Base.{◌&&◌, not, Option, String, List, []}
use bigbang_operator.Base.Lists.{All}
use bigbang_operator.Api.Common.{Labels}
use bigbang_operator.Object.{Object, Rule, fresh}
use bigbang_operator.Api.Istio.{Istio}
use bigbang_operator.Api.Netpol.{NetworkPolicies}
use bigbang_operator.Api.Package.{Package}
use bigbang_operator.Generator.Made.{All-if, All-when}
use bigbang_operator.Generator.Defaults.{
  egress_spec, ingress_spec, default_egress_policies, default_ingress_policies, egress_deny_all,
  egress_allow_in_ns, egress_allow_kube_dns, egress_allow_istiod, ingress_deny_all,
  ingress_allow_in_ns, ingress_allow_prom_to_sidecar, ingress_side_enabled,
}
use bigbang_operator.Generator.Hbone.{istio_ambient}

pub default_egress-All :
    (P : Object → Type 0)
    (made : (name : String) (labels : Labels) (rules : List Rule)
      → P (fresh name labels [] (egress_spec rules)))
    (pkg : Package) (spec : NetworkPolicies) (istio : Option Istio)
    → All P (default_egress_policies pkg spec istio)
unfolding default_egress_policies
default_egress-All P made pkg spec istio = All-when P (egress_deny_all spec) _ _ (made _ _ _) (
    All-when P (egress_allow_in_ns spec) _ _ (made _ _ _) (
      All-when P (egress_allow_kube_dns spec) _ _ (made _ _ _)
        (All-if P (egress_allow_istiod spec && not (istio_ambient istio)) _ (made _ _ _, tt))))

pub default_ingress-All :
    (P : Object → Type 0)
    (made : (name : String) (labels : Labels) (rules : List Rule)
      → P (fresh name labels [] (ingress_spec rules)))
    (pkg : Package) (spec : NetworkPolicies) (istio : Option Istio)
    → All P (default_ingress_policies pkg spec istio)
unfolding default_ingress_policies
default_ingress-All P made pkg spec istio = All-when P (ingress_deny_all spec) _ _ (made _ _ _) (
    All-when P (ingress_allow_in_ns spec) _ _ (made _ _ _) (
      All-when P (ingress_allow_prom_to_sidecar spec && not (istio_ambient istio)) _ _ (made _ _ _)
        (All-if P (istio_ambient istio && ingress_side_enabled spec) _ (made _ _ _, tt))))
