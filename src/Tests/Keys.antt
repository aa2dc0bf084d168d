-- ===== src/Tests/Keys.antt =====
-- Keys as they are written and read (pkg/generator/shorthand.go), the policies of their targets, and
-- inbound routes, at concrete inputs.
use Prim.Native.String
use bigbang_operator.Base.{true, none, some, ok, ◌≡◌, refl, arith}
use bigbang_operator.Base.Text.Laws.{every}
use bigbang_operator.Generator.Keys.Ports.RoundTrip.{range}
use bigbang_operator.Base.{false, [], ◌∷◌}
use bigbang_operator.Object.{Object}
use bigbang_operator.Generator.Values.{decode_source}
use bigbang_operator.Base.Lists.{All}
use bigbang_operator.Generator.Made.{AllMade}
use bigbang_operator.Generator.Values.{ShorthandTarget}
use bigbang_operator.Generator.Defaults.{default_egress_policies, default_ingress_policies}
use bigbang_operator.Generator.Netpol.Egress.{EgressContext, egress_k8s, expand_shorthand_egress}
use bigbang_operator.Generator.Netpol.Egress.SameName.{egress_k8s-tcp}
use bigbang_operator.Generator.Netpol.Ingress.{expand_shorthand_ingress}
use bigbang_operator.Generator.Netpol.OneWay.{IsEgressOnly, IsIngressOnly, expand_shorthand-OneWay}
use bigbang_operator.Tests.Fixtures.{source_json, codec, pkg, policies, defs, egress, ingress}
use bigbang_operator.Generator.Keys.Parse.{parse_egress_remote_key, parse_ingress_remote_key}
use bigbang_operator.Generator.Keys.Parse.Peer.{Name, anything, named, name_ranges}
use bigbang_operator.Regexp.{in_ranges}
use bigbang_operator.Generator.Keys.Parse.Written.{RemoteKey, tcp, udp, key_text}
use bigbang_operator.Generator.Keys.Parse.RoundTrip.{parsed_of, parse_egress_remote_key-text}
use bigbang_operator.Generator.Keys.Parse.Ingress.{
  IngressKey, ingress_text, ingress_parsed, parse_ingress_remote_key-text,
}

loki : Name
unfolding every
loki = named (String.char_at "l" 0) "oki-0" refl

-- `udp://*/loki-0:80-90`
abbrev outgoing : RemoteKey
outgoing = record {
  transport = some udp;
  namespace = anything;
  pod = some loki;
  ports = some (range 80 90);
}

parse_egress_remote_key-text_example :
    parse_egress_remote_key (key_text outgoing) ≡ ok (parsed_of outgoing)
parse_egress_remote_key-text_example =
    parse_egress_remote_key-text outgoing (omega arith, omega arith)

web-is_word : every (in_ranges name_ranges) "web-1" ≡ true
unfolding every
web-is_word = refl

-- `web-1@loki-0`
abbrev incoming : IngressKey
incoming = record {
  identity = some (record { first = String.char_at "w" 0; rest = "eb-1"; is_word = web-is_word });
  namespace = loki;
  pod = none;
}

parse_ingress_remote_key-text_example :
    parse_ingress_remote_key (ingress_text incoming) ≡ ok (ingress_parsed incoming)
parse_ingress_remote_key-text_example = parse_ingress_remote_key-text incoming

-- `loki-0:80-90`
abbrev plain : RemoteKey
plain = record { transport = none; namespace = loki; pod = none; ports = some (range 80 90) }

abbrev context : EgressContext
context = record {
  pkg = pkg;
  prepend = false;
  labels = [];
  local_key = "web";
  local = decode_source source_json;
}

abbrev target : ShorthandTarget
target = record { enabled = true; pod_selector = []; namespace_selector = []; metadata = none }

egress_k8s-tcp_example :
    (one other : Object) × (egress_k8s codec policies defs context
        (key_text (record plain { transport = some tcp }), target)
      ≡ ok (one ∷ []))
    × (egress_k8s codec policies defs context (key_text plain, target) ≡ ok (other ∷ []))
    × (one.name ≡ other.name)
egress_k8s-tcp_example =
    egress_k8s-tcp codec policies defs context plain target target (omega arith, omega arith) refl
      refl refl

expand_shorthand-OneWay_example :
    (All IsEgressOnly (default_egress_policies pkg policies none)
      × AllMade IsEgressOnly (expand_shorthand_egress codec pkg policies defs egress))
    × (All IsIngressOnly (default_ingress_policies pkg policies none)
        × AllMade IsIngressOnly (expand_shorthand_ingress codec pkg policies defs ingress))
expand_shorthand-OneWay_example =
    expand_shorthand-OneWay codec pkg policies defs none egress ingress
