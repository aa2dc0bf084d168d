-- ===== src/Generator/Keys/Parse.antt =====
-- The parsers of the keys of `to.k8s`, `from.k8s`, `ingress.to`, `to.cidr` and `from.cidr`.
pub mod Peer
pub mod Written
pub mod RoundTrip
pub mod Ingress
use bigbang_operator.Base.{
  ℕ, String, ◌≡◌, refl, Bool, false, none, some, List, [], ◌∷◌, message, Result, ok, ◌>>=◌, ◌>>◌,
  guard, if◌then◌else◌,
}
use bigbang_operator.Base.Text.{strip_prefix, cut, cut_last, contains, to_upper}
use bigbang_operator.Regexp.{match_string}
use bigbang_operator.Generator.Keys.Patterns.{
  egress_remote_key_re, ingress_remote_key_re, ingress_local_key_re, egress_cidr_key_re,
  ingress_cidr_key_re,
}
use bigbang_operator.Generator.Keys.Ports.{PortSpec, parse_port_spec}

abbrev pub proto_tcp : String
proto_tcp = "TCP"

pub record ParsedK8sRemote : Type 0 where
  pub namespace : String
  pub pod : String
  pub identity : String
  pub protocol : String
  pub ports : List ℕ
  pub has_port_range : Bool

pub record ParsedLocalIngressKey : Type 0 where
  pub pod : String
  pub protocol : String
  pub ports : List ℕ
  pub has_port_range : Bool

pub record ParsedCidr : Type 0 where
  pub cidr : String
  pub protocol : String
  pub ports : List ℕ
  pub has_port_range : Bool

-- `if i := strings.Index(rest, "://"); i >= 0 { … }`: the protocol and what follows it.
unfoldable pub take_protocol : String → String × String
unfolding cut strip_prefix to_upper
take_protocol rest = elim (cut "://" rest) [
  | none ↦ (proto_tcp, rest)
  | some (scheme, rest') ↦ (to_upper scheme, rest')
]

-- `if i := strings.Index(rest, ":"); i >= 0 { … }`: what stands before the ports, and the ports.
unfoldable pub take_ports : String → Result (String × PortSpec)
unfolding cut strip_prefix parse_port_spec
take_ports rest = elim (cut ":" rest) [
  | none ↦ ok (rest, ([], false))
  | some (before, spec) ↦ do ports ← parse_port_spec spec; ok (before, ports)
]

-- `if i := strings.Index(rest, "/"); i >= 0 { … } else { … }`: namespace and pod.
unfoldable pub take_pod : String → String × String
unfolding cut strip_prefix
take_pod rest = elim (cut "/" rest) [ none ↦ (rest, "") | some p ↦ p ]

unfoldable pub parse_egress_remote_key : String → Result ParsedK8sRemote
unfolding match_string egress_remote_key_re take_protocol take_ports take_pod
parse_egress_remote_key key = do
  guard (match_string egress_remote_key_re key)
      (message "egress k8s key %q does not match `[<tcp|udp>://]<ns>[/<pod>][:<ports>]`" (key ∷ []))
  let (protocol, rest) = take_protocol key
  (rest', (ports, has_range)) ← take_ports rest
  let (namespace, pod) = take_pod rest'
  ok (record {
    namespace = namespace;
    pod = pod;
    identity = "";
    protocol = protocol;
    ports = ports;
    has_port_range = has_range;
  })

-- `if i := strings.Index(rest, "@"); i >= 0 { … }`
unfoldable pub take_identity : String → String × String
unfolding cut strip_prefix
take_identity rest = elim (cut "@" rest) [ none ↦ ("", rest) | some p ↦ p ]

unfoldable pub parse_ingress_remote_key : String → Result ParsedK8sRemote
unfolding match_string ingress_remote_key_re take_identity take_pod
parse_ingress_remote_key key = do
  guard (match_string ingress_remote_key_re key)
      (message "ingress k8s key %q does not match `[<identity>@]<ns>[/<pod>]`" (key ∷ []))
  let (identity, rest) = take_identity key
  let (namespace, pod) = take_pod rest
  ok (record {
    namespace = namespace;
    pod = pod;
    identity = identity;
    protocol = proto_tcp;
    ports = [];
    has_port_range = false;
  })

unfoldable pub parse_ingress_local_key : String → Result ParsedLocalIngressKey
unfolding match_string ingress_local_key_re take_protocol take_ports
parse_ingress_local_key key = do
  guard (match_string ingress_local_key_re key) (
      message "ingress local key %q does not match `[<udp|tcp>://]<pod-name>[:<ports>]`" (key ∷ []))
  let (protocol, rest) = take_protocol key
  (pod, (ports, has_range)) ← take_ports rest
  ok (record { pod = pod; protocol = protocol; ports = ports; has_port_range = has_range })

-- `if i := strings.LastIndex(rest, ":"); i > strings.LastIndex(rest, "/") { … }`: the last colon
-- counts if no slash follows it.
unfoldable pub take_cidr_ports : String → Result (String × PortSpec)
unfolding cut_last contains strip_prefix parse_port_spec
take_cidr_ports rest = elim (cut_last ":" rest) [
  | none ↦ ok (rest, ([], false))
  | some (before, spec) ↦
      let ports = parse_port_spec spec >>= λ p. ok (before, p) in
      if contains "/" spec then ok (rest, ([], false)) else ports
]

unfoldable pub parse_egress_cidr_key : String → Result ParsedCidr
unfolding match_string egress_cidr_key_re take_protocol take_cidr_ports
parse_egress_cidr_key key = do
  guard (match_string egress_cidr_key_re key)
      (message "egress cidr key %q does not match `[<tcp|udp>://]<cidr>[:<ports>]`" (key ∷ []))
  let (protocol, rest) = take_protocol key
  (cidr, (ports, has_range)) ← take_cidr_ports rest
  ok (record { cidr = cidr; protocol = protocol; ports = ports; has_port_range = has_range })

unfoldable pub parse_ingress_cidr_key : String → Result ParsedCidr
unfolding match_string ingress_cidr_key_re
parse_ingress_cidr_key key = do
  guard (match_string ingress_cidr_key_re key)
      (message "ingress cidr key %q does not match `<cidr>`" (key ∷ []))
  ok (record { cidr = key; protocol = proto_tcp; ports = []; has_port_range = false })

egress_test :
    parse_egress_remote_key "udp://monitoring/loki:[80,443]"
    ≡ ok (record {
      namespace = "monitoring";
      pod = "loki";
      identity = "";
      protocol = "UDP";
      ports = 80 ∷ 443 ∷ [];
      has_port_range = false;
    })
unfolding parse_egress_remote_key
egress_test = refl

cidr_test :
    parse_egress_cidr_key "10.0.0.0/8:443"
    ≡ ok
        (record { cidr = "10.0.0.0/8"; protocol = "TCP"; ports = 443 ∷ []; has_port_range = false })
unfolding parse_egress_cidr_key
cidr_test = refl
