-- ===== src/Generator/Keys/Parse/Written.antt =====
-- Keys of `to.k8s` (pkg/generator/shorthand.go) as they are written, and that they match their
-- pattern.
use Prim.Native.Char.{Char}
use Prim.Native.String
use package.text.Mathlib.TextLemmas.{append_assoc}
use bigbang_operator.Base.{String, true, Option, none, some, ◌≡◌, refl, sym, subst, inl, inr}
use bigbang_operator.Base.Text.Laws.{}
use bigbang_operator.Regexp.{text, match_string}
use bigbang_operator.Regexp.Language.{Matches, match_string_iff}
use bigbang_operator.Regexp.Texts.{cons-as-append, Matches-text}
use bigbang_operator.Generator.Keys.Patterns.{scheme, ports, egress_remote_key_re}
use bigbang_operator.Generator.Keys.Ports.RoundTrip.{PortText, print}
use bigbang_operator.Generator.Keys.Ports.Matching.{ports-match}
use bigbang_operator.Generator.Keys.Parse.{}
use bigbang_operator.Generator.Keys.Parse.Peer.{
  Name, name_text, pod_text, name-match, pod-match, peer_text,
}

pub data Transport : Type 0 where
  tcp udp : Transport

-- `[<tcp|udp>://]<ns>[/<pod>][:<ports>]`
pub record RemoteKey : Type 0 where
  pub transport : Option Transport
  pub namespace : Name
  pub pod : Option Name
  pub ports : Option PortText

abbrev pub colon : Char
colon = String.char_at ":" 0

unfoldable pub ports_text : Option PortText → String
unfolding print
ports_text none = ""
ports_text (some t) = String.◌∷◌ colon (print t)

abbrev pub scheme_text : Option Transport → String
scheme_text none = ""
scheme_text (some tcp) = "tcp://"
scheme_text (some udp) = "udp://"

-- The key, and the part of it behind the transport.
unfoldable pub rest_text : RemoteKey → String
unfolding name_text pod_text ports_text
rest_text k = String.◌++◌ (peer_text k.namespace k.pod) (ports_text k.ports)

unfoldable pub key_text : RemoteKey → String
unfolding rest_text
key_text k = String.◌++◌ (scheme_text k.transport) (rest_text k)

pub scheme-match : (t : Option Transport) → Matches scheme (scheme_text t)
unfolding scheme
scheme-match none = inr refl
scheme-match (some tcp) = inl ("tcp", "://", refl, inl (Matches-text "tcp"), Matches-text "://")
scheme-match (some udp) = inl ("udp", "://", refl, inr (Matches-text "udp"), Matches-text "://")

pub ports_part-match : (o : Option PortText) → Matches ports (ports_text o)
unfolding ports_text ports
ports_part-match none = inr refl
ports_part-match (some t) =
    subst (Matches ports) (sym (cons-as-append colon (print t))) (ports-match t)

pub key-match : (k : RemoteKey) → match_string egress_remote_key_re (key_text k) ≡ true
unfolding egress_remote_key_re key_text rest_text
key-match k = (match_string_iff egress_remote_key_re (key_text k)).1 (
  scheme_text k.transport,
  rest_text k,
  refl,
  scheme-match k.transport,
  (
    name_text k.namespace,
    String.◌++◌ (pod_text k.pod) (ports_text k.ports),
    append_assoc (name_text k.namespace) (pod_text k.pod) (ports_text k.ports),
    name-match k.namespace,
    (pod_text k.pod, ports_text k.ports, refl, pod-match k.pod, ports_part-match k.ports),
  ),
)
