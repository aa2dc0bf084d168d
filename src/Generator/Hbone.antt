-- ===== src/Generator/Hbone.antt =====
-- pkg/generator/hbone.go: TCP port 15008 is added to the rules that name ports and pods.
pub mod Laws
pub mod Rules
use bigbang_operator.Base.{
  ℕ, String, Bool, true, false, ◌&&◌, ◌||◌, not, Option, none, some, List, [], ◌∷◌, ◌++◌, map, ◌==◌,
  nat_eq, if◌then◌else◌, is_some,
}
use bigbang_operator.Base.Dict.{insert, is_empty}
use bigbang_operator.Api.Common.{IntOrString, int, str, from_int}
use bigbang_operator.Api.Istio.{Istio}
use bigbang_operator.Api.Netpol.{NetworkPolicies}
use bigbang_operator.Object.{
  NetworkPolicyPeer, NetworkPolicyPort, Rule, NetworkPolicySpec, Object, Spec, network_policy,
}

abbrev pub hbone_port : ℕ
hbone_port = 15008

abbrev pub hbone_label : String
hbone_label = "ambient.istio.network-policies.bigbang.dev/hbone-injected"

-- `istioAmbient` of networkpolicies_defaults.go.
unfoldable pub istio_ambient : Option Istio → Bool
istio_ambient none = false
istio_ambient (some istio) = elim (istio.ambient) [ none ↦ false | some a ↦ a.enabled ]

unfoldable pub hbone_enabled : Option NetworkPolicies → Option Istio → Bool
unfolding istio_ambient
hbone_enabled none istio = istio_ambient istio
hbone_enabled (some spec) istio =
    if istio_ambient istio
    then true
    else elim (spec.hbone_port_injection) [ none ↦ false | some h ↦ h.enabled ]

unfoldable pub peer_has_k8s_selector : List NetworkPolicyPeer → Bool
peer_has_k8s_selector [] = false
peer_has_k8s_selector (p ∷ peers) =
    is_some p.namespace_selector || is_some p.pod_selector || peer_has_k8s_selector peers

abbrev is_port : Option IntOrString → ℕ → Bool
is_port none n = false
is_port (some (int p)) n = nat_eq p n
is_port (some (str s)) n = false

abbrev is_protocol : Option String → String → Bool
is_protocol none proto = false
is_protocol (some p) proto = p == proto

-- The test of the loop in `injectIntoPorts`.
unfoldable pub is_hbone : NetworkPolicyPort → Bool
is_hbone p = is_protocol p.protocol "TCP" && is_port p.port hbone_port

unfoldable pub has_hbone : List NetworkPolicyPort → Bool
has_hbone [] = false
has_hbone (p ∷ ports) = is_hbone p || has_hbone ports

abbrev pub hbone_entry : NetworkPolicyPort
hbone_entry = record { protocol = some "TCP"; port = some (from_int hbone_port); end_port = none }

-- The new ports, and whether the port was added.
unfoldable pub inject_into_ports : List NetworkPolicyPort → Bool → List NetworkPolicyPort × Bool
unfolding has_hbone is_hbone
inject_into_ports ports eligible =
    if not eligible || is_empty ports
    then (ports, false)
    else if has_hbone ports
    then (ports, false)
    else (ports ++ hbone_entry ∷ [], true)

unfoldable pub inject_rule : Rule → Rule × Bool
unfolding inject_into_ports peer_has_k8s_selector
inject_rule r =
    let (ports, added) = inject_into_ports r.ports (peer_has_k8s_selector r.peers) in
    (record r { ports = ports }, added)

-- The loop over the rules of one direction.
unfoldable pub inject_rules : List Rule → List Rule × Bool
unfolding inject_rule
inject_rules [] = ([], false)
inject_rules (r ∷ rules) =
    let (r', added) = inject_rule r in
    let (rules', more) = inject_rules rules in (r' ∷ rules', added || more)

unfoldable pub inject_object : Object → Spec → Object
unfolding inject_rules insert
inject_object o (network_policy np) =
    let (egress, out) = inject_rules np.egress in
    let (ingress, in_) = inject_rules np.ingress in
    record o {
      labels = if out || in_ then insert hbone_label "true" o.labels else o.labels;
      spec = network_policy (record np { egress = egress; ingress = ingress });
    }
inject_object o other = o

unfoldable pub inject_hbone_ports : List Object → List Object
unfolding inject_object
inject_hbone_ports [] = []
inject_hbone_ports (o ∷ objs) = inject_object o o.spec ∷ inject_hbone_ports objs
