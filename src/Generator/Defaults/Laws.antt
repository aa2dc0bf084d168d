-- ===== src/Generator/Defaults/Laws.antt =====
-- When pkg/generator/networkpolicies_defaults.go emits nothing.
use bigbang_operator.Base.{
  Bool, true, false, Option, none, some, [], ◌≡◌, refl, if◌then◌else◌, Bool-cases, inl, inr,
}
use bigbang_operator.Api.Common.{Toggle}
use bigbang_operator.Api.Istio.{Istio}
use bigbang_operator.Api.Netpol.{
  NetworkPolicies, NetworkPoliciesEgressDefaults, NetworkPoliciesIngressDefaults,
}
use bigbang_operator.Api.Package.{Package}
use bigbang_operator.Generator.Hbone.{istio_ambient}
use bigbang_operator.Generator.Defaults.{
  default_enabled, egress_side_enabled, ingress_side_enabled, per_default, default_egress_policies,
  default_ingress_policies, egress_deny_all, egress_allow_in_ns, egress_allow_kube_dns,
  egress_allow_istiod, ingress_deny_all, ingress_allow_in_ns, ingress_allow_prom_to_sidecar,
  egress_defaults, ingress_defaults,
}
use bigbang_operator.Generator.Authz.Gates.{authz_enabled, generate_default_authz_policies}

per_default_off :
    {D : Type 0} (side : Bool) (d : Option D) (field : D → Option Toggle)
    → side ≡ false
    → per_default side d field ≡ false
unfolding default_enabled
per_default_off side none field h = h
per_default_off side (some d) field h = go (field d)
  where
    go :
        (t : Option Toggle)
        → (elim t [
          | none ↦ side
          | some x ↦ if side then (elim (x.enabled) [ none ↦ true | some b ↦ b ]) else side
        ])
          ≡ false
    go none = h
    go (some x) = rw h refl

-- A package that switches the defaults of both sides off gets no default network policy, whatever
-- the switches of the single policies say, and no default authorization policy either.
pub sides_off :
    (pkg : Package) (spec : NetworkPolicies) (istio : Option Istio)
    → egress_side_enabled spec ≡ false
    → ingress_side_enabled spec ≡ false
    → (default_egress_policies pkg spec istio ≡ [])
      × (default_ingress_policies pkg spec istio ≡ [])
      × (generate_default_authz_policies pkg istio (some spec) ≡ [])
unfolding default_egress_policies default_ingress_policies generate_default_authz_policies
    egress_deny_all egress_allow_in_ns egress_allow_kube_dns egress_allow_istiod ingress_deny_all
    ingress_allow_in_ns ingress_allow_prom_to_sidecar
sides_off pkg spec istio e i =
    let out = λ (field : NetworkPoliciesEgressDefaults → Option Toggle).
      per_default_off (egress_side_enabled spec) (egress_defaults spec) field e in
    let in_ = λ (field : NetworkPoliciesIngressDefaults → Option Toggle).
      per_default_off (ingress_side_enabled spec) (ingress_defaults spec) field i in
    (
      rw
          (
            out (λ d. d.deny_all),
            out (λ d. d.allow_in_namespace),
            out (λ d. d.allow_kube_dns),
            out (λ d. d.allow_istiod),
          )
          refl,
      rw
          (
            in_ (λ d. d.deny_all),
            in_ (λ d. d.allow_in_namespace),
            in_ (λ d. d.allow_prometheus_to_istio_sidecar),
          )
          (rw i
            (elim (Bool-cases (istio_ambient istio)) [ inl h ↦ rw h refl | inr h ↦ rw h refl ])),
      elim (Bool-cases (authz_enabled istio)) [ inl h ↦ rw h (rw i refl) | inr h ↦ rw h refl ],
    )
