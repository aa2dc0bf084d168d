-- ===== src/Generator/Keys/Parse/Ingress.antt =====
-- Keys of `from.k8s` (pkg/generator/shorthand.go) as they are written, and `parseIngressRemoteKey` on
-- them.
use Prim.Native.Char.{Char}
use Prim.Native.String
use package.text.Mathlib.TextLemmas.{nil-append, append_assoc}
use bigbang_operator.Base.{
  String, true, false, not, Option, none, some, [], nat_eq, ok, ◌≡◌, refl, sym, ap, ◌∙◌,
  Option-cases, arith, inl, inr,
}
use bigbang_operator.Base.Text.{cut}
use bigbang_operator.Base.Text.Laws.{every, every-weaken, Lacks, cut-Lacks, cut-append}
use bigbang_operator.Regexp.{text, in_ranges, seq, opt}
use bigbang_operator.Regexp.Language.{Matches, match_string_iff}
use bigbang_operator.Regexp.Texts.{cons-as-append, Matches-text, Matches-plus}
use bigbang_operator.Generator.Keys.Patterns.{name_or_star, ingress_remote_key_re}
use bigbang_operator.Generator.Keys.Parse.{
  proto_tcp, take_identity, parse_ingress_remote_key, ParsedK8sRemote,
}
use bigbang_operator.Generator.Keys.Parse.Peer.{
  Name, name_ranges, name_text, pod_text, peer_text, name-match, pod-match, peer-Lacks, pod_of,
  take_pod-peer,
}

-- Letters, digits and dashes, of which there is at least one.
pub record Identity : Type 0 where
  pub first : Char
  pub rest : String
  pub is_word : every (in_ranges name_ranges) (String.◌∷◌ first rest) ≡ true

abbrev pub identity_text : Identity → String
identity_text i = String.◌∷◌ i.first i.rest

-- `[<identity>@]<ns>[/<pod>]`
pub record IngressKey : Type 0 where
  pub identity : Option Identity
  pub namespace : Name
  pub pod : Option Name

abbrev at_sign : Char
at_sign = String.char_at "@" 0

unfoldable pub ingress_text : IngressKey → String
unfolding pod_text name_text
ingress_text k = elim (k.identity) [
  | none ↦ peer_text k.namespace k.pod
  | some i ↦ String.◌++◌ (identity_text i) (String.◌∷◌ at_sign (peer_text k.namespace k.pod))
]

-- What a key says.
abbrev pub identity_of : Option Identity → String
identity_of none = ""
identity_of (some i) = identity_text i

abbrev pub ingress_parsed : IngressKey → ParsedK8sRemote
ingress_parsed k = record {
  namespace = name_text k.namespace;
  pod = pod_of k.pod;
  identity = identity_of k.identity;
  protocol = proto_tcp;
  ports = [];
  has_port_range = false;
}

peer-match :
    (namespace : Name) (pod : Option Name)
    → Matches (seq name_or_star (opt (seq (text "/") name_or_star))) (peer_text namespace pod)
peer-match namespace pod =
    (name_text namespace, pod_text pod, refl, name-match namespace, pod-match pod)

identity-Lacks : (i : Identity) → Lacks 64 (identity_text i)
identity-Lacks i =
    every-weaken (in_ranges name_ranges) (λ k. not (nat_eq k 64)) (λ k e. ground arith)
      (identity_text i) i.is_word

take_identity-none : (s : String) → cut "@" s ≡ none → take_identity s ≡ ("", s)
unfolding take_identity
take_identity-none s e = rw (e, take_identity) refl

take_identity_step : (s : String) (p : String × String) → cut "@" s ≡ some p → take_identity s ≡ p
unfolding take_identity
take_identity_step s p e = rw (e, take_identity) refl

module _ (namespace : Name) (pod : Option Name) where
  with_identity : Option Identity → String
  with_identity none = peer_text namespace pod
  with_identity (some i) =
      String.◌++◌ (identity_text i) (String.◌∷◌ at_sign (peer_text namespace pod))

  identity-match : (o : Option Identity) → Matches ingress_remote_key_re (with_identity o)
  unfolding ingress_remote_key_re with_identity
  identity-match none = (
    "",
    peer_text namespace pod,
    sym (nil-append (peer_text namespace pod)),
    inr refl,
    peer-match namespace pod,
  )
  identity-match (some i) = (
    String.◌++◌ (identity_text i) "@",
    peer_text namespace pod,
    ap (String.◌++◌ (identity_text i)) (cons-as-append at_sign (peer_text namespace pod))
        ∙ sym (append_assoc (identity_text i) "@" (peer_text namespace pod)),
    inl (
      identity_text i,
      "@",
      refl,
      Matches-plus name_ranges i.first i.rest i.is_word,
      Matches-text "@",
    ),
    peer-match namespace pod,
  )

  identity-taken :
      (o : Option Identity)
      → take_identity (with_identity o) ≡ (identity_of o, peer_text namespace pod)
  unfolding with_identity
  identity-taken none =
      take_identity-none (peer_text namespace pod)
        (cut-Lacks at_sign (peer_text namespace pod) (peer-Lacks 64 refl refl refl namespace pod))
  identity-taken (some i) =
      take_identity_step _ (identity_text i, peer_text namespace pod)
        (cut-append at_sign (identity_text i) (peer_text namespace pod) (identity-Lacks i))

ingress_text_lem : (k : IngressKey) → ingress_text k ≡ with_identity k.namespace k.pod k.identity
unfolding ingress_text with_identity
ingress_text_lem k = elim (Option-cases k.identity) [
  | inl e ↦ rw (e, ingress_text, with_identity) refl
  | inr (i, e) ↦ rw (e, ingress_text, with_identity) refl
]

-- Every key that is written of an identity, a namespace and a pod is accepted, and read as these
-- parts: an empty text for one that is not given, `*` for a namespace or a pod that is written so,
-- and TCP without ports.
pub parse_ingress_remote_key-text :
    (k : IngressKey) → parse_ingress_remote_key (ingress_text k) ≡ ok (ingress_parsed k)
unfolding parse_ingress_remote_key
parse_ingress_remote_key-text k =
    let matches =
      (match_string_iff ingress_remote_key_re _).1 (identity-match k.namespace k.pod k.identity) in
    rw (ingress_text_lem k) (
      rw (matches, parse_ingress_remote_key)
        (rw (identity-taken k.namespace k.pod k.identity)
          (rw (take_pod-peer k.namespace k.pod) refl)))
