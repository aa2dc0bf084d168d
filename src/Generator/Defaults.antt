-- ===== src/Generator/Defaults.antt =====
-- pkg/generator/networkpolicies_defaults.go: the default policies and their gates.
pub mod Made
pub mod Laws
use bigbang_operator.Base.{
  ℕ, String, Bool, true, not, ◌&&◌, Option, none, some, List, [], ◌∷◌, ◌++◌, if◌then◌else◌,
}
use bigbang_operator.Api.Common.{Toggle, from_int}
use bigbang_operator.Api.Istio.{Istio}
use bigbang_operator.Api.Netpol.{
  NetworkPolicies, NetworkPoliciesEgressDefaults, NetworkPoliciesIngressDefaults,
}
use bigbang_operator.Api.Package.{Package}
use bigbang_operator.Object.{
  Object, fresh, Spec, network_policy, Rule, PolicyType, NetworkPolicyPort, NetworkPolicyPeer,
}
use bigbang_operator.Generator.Names.{prepend_name}
use bigbang_operator.Generator.Metadata.{clone_labels}
use bigbang_operator.Generator.Hbone.{istio_ambient}
use bigbang_operator.Generator.Selectors.{
  selector_of, namespace_label, name_label, default_netpol_labels,
}
use bigbang_operator.Generator.Definitions.{ip_peer, pod_peer}

unfoldable pub default_enabled : Option Bool → Bool
default_enabled none = true
default_enabled (some b) = b

abbrev pub egress_defaults : NetworkPolicies → Option NetworkPoliciesEgressDefaults
egress_defaults spec = elim (spec.egress) [ none ↦ none | some e ↦ e.defaults ]

abbrev pub ingress_defaults : NetworkPolicies → Option NetworkPoliciesIngressDefaults
ingress_defaults spec = elim (spec.ingress) [ none ↦ none | some i ↦ i.defaults ]

unfoldable pub egress_side_enabled : NetworkPolicies → Bool
unfolding default_enabled
egress_side_enabled spec = elim (egress_defaults spec) [
  | none ↦ true
  | some d ↦ default_enabled d.enabled
]

unfoldable pub ingress_side_enabled : NetworkPolicies → Bool
unfolding default_enabled
ingress_side_enabled spec = elim (ingress_defaults spec) [
  | none ↦ true
  | some d ↦ default_enabled d.enabled
]

-- The common shape of the per-default getters: side, defaults, and the field of one default.
abbrev per_default : {D : Type 0} → Bool → Option D → (D → Option Toggle) → Bool
per_default side none field = side
per_default side (some d) field = elim (field d) [
  | none ↦ side
  | some t ↦ if side then default_enabled t.enabled else side
]

unfoldable pub egress_deny_all : NetworkPolicies → Bool
unfolding egress_side_enabled
egress_deny_all spec =
    per_default (egress_side_enabled spec) (egress_defaults spec) (λ d. d.deny_all)

unfoldable pub egress_allow_in_ns : NetworkPolicies → Bool
unfolding egress_side_enabled
egress_allow_in_ns spec =
    per_default (egress_side_enabled spec) (egress_defaults spec) (λ d. d.allow_in_namespace)

unfoldable pub egress_allow_kube_dns : NetworkPolicies → Bool
unfolding egress_side_enabled
egress_allow_kube_dns spec =
    per_default (egress_side_enabled spec) (egress_defaults spec) (λ d. d.allow_kube_dns)

unfoldable pub egress_allow_istiod : NetworkPolicies → Bool
unfolding egress_side_enabled
egress_allow_istiod spec =
    per_default (egress_side_enabled spec) (egress_defaults spec) (λ d. d.allow_istiod)

unfoldable pub ingress_deny_all : NetworkPolicies → Bool
unfolding ingress_side_enabled
ingress_deny_all spec =
    per_default (ingress_side_enabled spec) (ingress_defaults spec) (λ d. d.deny_all)

unfoldable pub ingress_allow_in_ns : NetworkPolicies → Bool
unfolding ingress_side_enabled
ingress_allow_in_ns spec =
    per_default (ingress_side_enabled spec) (ingress_defaults spec) (λ d. d.allow_in_namespace)

unfoldable pub ingress_allow_prom_to_sidecar : NetworkPolicies → Bool
unfolding ingress_side_enabled
ingress_allow_prom_to_sidecar spec =
    per_default (ingress_side_enabled spec) (ingress_defaults spec)
      (λ d. d.allow_prometheus_to_istio_sidecar)

-- A policy on every pod of the namespace, in one direction.
abbrev pub egress_spec : List Rule → Spec
egress_spec rules = network_policy (record {
  pod_selector = selector_of [];
  policy_types = PolicyType.egress ∷ [];
  egress = rules;
  ingress = [];
})

abbrev pub ingress_spec : List Rule → Spec
ingress_spec rules = network_policy (record {
  pod_selector = selector_of [];
  policy_types = PolicyType.ingress ∷ [];
  egress = [];
  ingress = rules;
})

abbrev own_pods : NetworkPolicyPeer
own_pods = record {
  ip_block = none;
  namespace_selector = none;
  pod_selector = some (selector_of []);
}

abbrev pods_of : String → String → String → NetworkPolicyPeer
pods_of ns label value =
    pod_peer (selector_of ((namespace_label, ns) ∷ [])) (selector_of ((label, value) ∷ []))

abbrev port_entry : String → ℕ → NetworkPolicyPort
port_entry proto n = record { protocol = some proto; port = some (from_int n); end_port = none }

abbrev when : Bool → Object → List Object
when b o = if b then o ∷ [] else []

unfoldable pub default_egress_policies : Package → NetworkPolicies → Option Istio → List Object
unfolding prepend_name clone_labels default_netpol_labels istio_ambient egress_deny_all
    egress_allow_in_ns egress_allow_kube_dns egress_allow_istiod
default_egress_policies pkg spec istio =
    let policy = λ (name : String) (rules : List Rule).
      fresh (prepend_name spec.prepend_release_name pkg.name name)
        (clone_labels (default_netpol_labels "egress")) [] (egress_spec rules) in
    when (egress_deny_all spec) (policy "default-egress-deny-all" [])
    ++ (when (egress_allow_in_ns spec) (
          policy "default-egress-allow-all-in-ns"
            (record { peers = own_pods ∷ []; ports = [] } ∷ []))
        ++ (when (egress_allow_kube_dns spec) (
              policy "default-egress-allow-kube-dns" (
                record {
                  peers = pods_of "kube-system" "k8s-app" "kube-dns" ∷ [];
                  ports = port_entry "UDP" 53 ∷ port_entry "TCP" 53 ∷ [];
                }
                ∷ []))
            ++ when (egress_allow_istiod spec && not (istio_ambient istio)) (
                policy "default-egress-allow-istiod" (
                  record {
                    peers = pods_of "istio-system" "app" "istiod" ∷ [];
                    ports = port_entry "TCP" 15012 ∷ [];
                  }
                  ∷ []))))

unfoldable pub default_ingress_policies : Package → NetworkPolicies → Option Istio → List Object
unfolding prepend_name clone_labels default_netpol_labels istio_ambient ingress_side_enabled
    ingress_deny_all ingress_allow_in_ns ingress_allow_prom_to_sidecar
default_ingress_policies pkg spec istio =
    let policy = λ (name : String) (rules : List Rule).
      fresh (prepend_name spec.prepend_release_name pkg.name name)
        (clone_labels (default_netpol_labels "ingress")) [] (ingress_spec rules) in
    when (ingress_deny_all spec) (policy "default-ingress-deny-all" [])
    ++ (when (ingress_allow_in_ns spec) (
          policy "default-ingress-allow-all-in-ns"
            (record { peers = own_pods ∷ []; ports = [] } ∷ []))
        ++ (when (ingress_allow_prom_to_sidecar spec && not (istio_ambient istio)) (
              policy "default-ingress-allow-prometheus-to-istio-sidecar" (
                record {
                  peers = pods_of "monitoring" name_label "prometheus" ∷ [];
                  ports = port_entry "TCP" 15020 ∷ [];
                }
                ∷ []))
            ++ when (istio_ambient istio && ingress_side_enabled spec) (
                policy "default-ingress-allow-ambient-kubelet"
                  (record { peers = ip_peer "169.254.7.127/32" ∷ []; ports = [] } ∷ []))))
