-- ===== src/Generator/Keys/Parse/RoundTrip.antt =====
-- `parseEgressRemoteKey` (pkg/generator/shorthand.go) on keys as they are written.
use Prim.Native.Char.{code}
use Prim.Native.String
use package.text.Mathlib.TextLemmas.{nil-append, cons-append, append-nil, append_assoc}
use bigbang_operator.Base.{
  String, false, not, Option, none, some, [], nat_eq, ok, ◌≡◌, refl, ap, ◌∙◌, arith, inl, inr,
  Bool-cases,
}
use bigbang_operator.Base.Text.{strip_prefix, cut, to_upper}
use bigbang_operator.Base.Text.Laws.{every, Lacks, cut-Lacks, cut-append}
use bigbang_operator.Regexp.{text}
use bigbang_operator.Generator.Keys.Patterns.{ports}
use bigbang_operator.Generator.Keys.Ports.{PortSpec, parse_port_spec}
use bigbang_operator.Generator.Keys.Ports.RoundTrip.{
  PortText, print, spec_of, Fits, every-print, parse_port_spec-print,
}
use bigbang_operator.Generator.Keys.Parse.{
  take_protocol, take_ports, parse_egress_remote_key, ParsedK8sRemote,
}
use bigbang_operator.Generator.Keys.Parse.Peer.{
  name_text, slash, peer_text, peer-Lacks, take_pod-peer, pod_of,
}
use bigbang_operator.Generator.Keys.Parse.Written.{
  Transport, RemoteKey, colon, ports_text, scheme_text, rest_text, key_text, key-match, tcp, udp,
}

-- Only a colon in front of two slashes ends a transport.
no_slash : (s : String) → Lacks 47 s → strip_prefix "//" s ≡ none
unfolding strip_prefix every
no_slash String.[] h = refl
no_slash (String.◌∷◌ c s) h =
    let other : nat_eq 47 (code c) ≡ false = ground arith in rw (other, strip_prefix) refl

no_scheme : (s : String) → Lacks 47 s → cut "://" s ≡ none
unfolding cut strip_prefix every
no_scheme String.[] h = refl
no_scheme (String.◌∷◌ c s) h = elim (Bool-cases (nat_eq 58 (code c))) [
  | inl same ↦
      rw (same, cut, strip_prefix)
        (rw (no_slash s (ground arith)) (rw (no_scheme s (ground arith)) refl))
  | inr other ↦ rw (other, cut, strip_prefix) (rw (no_scheme s (ground arith)) refl)
]

no_scheme-append :
    (a t : String) → Lacks 58 a → cut "://" t ≡ none → cut "://" (String.◌++◌ a t) ≡ none
unfolding cut strip_prefix every
no_scheme-append String.[] t h e = rw (nil-append t) e
no_scheme-append (String.◌∷◌ c a) t h e =
    let other : nat_eq 58 (code c) ≡ false = ground arith in
    rw (cons-append c a t, other, cut, strip_prefix)
      (rw (no_scheme-append a t (ground arith) e) refl)

scheme-append :
    (a t : String) → Lacks 58 a → cut "://" (String.◌++◌ a (String.◌++◌ "://" t)) ≡ some (a, t)
unfolding cut strip_prefix every
scheme-append String.[] t h =
    rw
      (
        nil-append (String.◌++◌ "://" t),
        cons-append colon "//" t,
        cons-append slash "/" t,
        cons-append slash "" t,
        nil-append t,
      )
      refl
scheme-append (String.◌∷◌ c a) t h =
    let other : nat_eq 58 (code c) ≡ false = ground arith in
    rw (cons-append c a (String.◌++◌ "://" t), other, cut, strip_prefix)
      (rw (scheme-append a t (ground arith)) refl)

ports-Lacks-slash : (o : Option PortText) → Lacks 47 (ports_text o)
unfolding ports_text every
ports-Lacks-slash none = refl
ports-Lacks-slash (some t) =
    every-print (λ x. not (nat_eq x 47)) (λ d l. ground arith) refl refl refl refl t

abbrev pub protocol_of : Option Transport → String
protocol_of none = "TCP"
protocol_of (some tcp) = "TCP"
protocol_of (some udp) = "UDP"

take_protocol_step :
    (key before rest : String)
    → cut "://" key ≡ some (before, rest)
    → take_protocol key ≡ (to_upper before, rest)
unfolding take_protocol
take_protocol_step key before rest e = rw (e, take_protocol) refl

take_protocol-none : (key : String) → cut "://" key ≡ none → take_protocol key ≡ ("TCP", key)
unfolding take_protocol
take_protocol-none key e = rw (e, take_protocol) refl

rest-plain : (k : RemoteKey) → cut "://" (rest_text k) ≡ none
unfolding rest_text
rest-plain k =
    no_scheme-append (peer_text k.namespace k.pod) (ports_text k.ports)
      (peer-Lacks 58 refl refl refl k.namespace k.pod)
      (no_scheme (ports_text k.ports) (ports-Lacks-slash k.ports))

take_protocol-key :
    (k : RemoteKey) → take_protocol (key_text k) ≡ (protocol_of k.transport, rest_text k)
unfolding key_text every to_upper
take_protocol-key k = by_transport k.transport
  where
    by_transport :
        (t : Option Transport)
        → take_protocol (String.◌++◌ (scheme_text t) (rest_text k)) ≡ (protocol_of t, rest_text k)
    by_transport none =
        ap take_protocol (nil-append (rest_text k))
        ∙ take_protocol-none (rest_text k) (rest-plain k)
    by_transport (some tcp) =
        ap take_protocol (append_assoc "tcp" "://" (rest_text k))
        ∙ take_protocol_step _ "tcp" (rest_text k) (scheme-append "tcp" (rest_text k) refl)
    by_transport (some udp) =
        ap take_protocol (append_assoc "udp" "://" (rest_text k))
        ∙ take_protocol_step _ "udp" (rest_text k) (scheme-append "udp" (rest_text k) refl)

abbrev pub spec_text : Option PortText → PortSpec
spec_text none = ([], false)
spec_text (some t) = spec_of t

-- The ports of the key, if any, fit Go's int.
abbrev pub PortsFit : Option PortText → Type 0
PortsFit none = Unit
PortsFit (some t) = Fits t

take_ports-none : (s : String) → cut ":" s ≡ none → take_ports s ≡ ok (s, ([], false))
unfolding take_ports
take_ports-none s e = rw (e, take_ports) refl

take_ports_step :
    (s before ports : String) (spec : PortSpec)
    → cut ":" s ≡ some (before, ports)
    → parse_port_spec ports ≡ ok spec
    → take_ports s ≡ ok (before, spec)
unfolding take_ports
take_ports_step s before ports spec e parsed = rw (e, take_ports) (rw parsed refl)

take_ports-key :
    (k : RemoteKey)
    → PortsFit k.ports
    → take_ports (rest_text k) ≡ ok (peer_text k.namespace k.pod, spec_text k.ports)
unfolding rest_text ports_text
take_ports-key k = by_ports k.ports
  where
    by_ports :
        (o : Option PortText)
        → PortsFit o
        → take_ports (String.◌++◌ (peer_text k.namespace k.pod) (ports_text o))
          ≡ ok (peer_text k.namespace k.pod, spec_text o)
    by_ports none f =
        ap take_ports (append-nil (peer_text k.namespace k.pod))
        ∙ take_ports-none (peer_text k.namespace k.pod) (
            cut-Lacks colon (peer_text k.namespace k.pod)
              (peer-Lacks 58 refl refl refl k.namespace k.pod))
    by_ports (some t) f =
        take_ports_step _ (peer_text k.namespace k.pod) (print t) (spec_of t)
          (cut-append colon (peer_text k.namespace k.pod) (print t)
            (peer-Lacks 58 refl refl refl k.namespace k.pod))
          (parse_port_spec-print t f)

-- What a key says.
abbrev pub parsed_of : RemoteKey → ParsedK8sRemote
parsed_of k = record {
  namespace = name_text k.namespace;
  pod = pod_of k.pod;
  identity = "";
  protocol = protocol_of k.transport;
  ports = (spec_text k.ports).0;
  has_port_range = (spec_text k.ports).1;
}

-- Every key that is written of a transport, a namespace, a pod and ports is accepted, and read as
-- these parts, if the ports are below the bound of Go's int: the transport in capitals, TCP if none
-- is given, an empty text or list for a part that is not given, and `*` for a namespace or a pod
-- that is written so.
pub parse_egress_remote_key-text :
    (k : RemoteKey) → PortsFit k.ports → parse_egress_remote_key (key_text k) ≡ ok (parsed_of k)
unfolding parse_egress_remote_key
parse_egress_remote_key-text k f =
    rw (key-match k, parse_egress_remote_key)
      (rw (take_protocol-key k)
        (rw (take_ports-key k f) (rw (take_pod-peer k.namespace k.pod) refl)))
