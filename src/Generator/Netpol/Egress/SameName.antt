-- ===== src/Generator/Netpol/Egress/SameName.antt =====
-- Two entries of a `to.k8s` map whose policies have the same name (pkg/generator/shorthand.go and
-- networkpolicies_shorthand.go).
use bigbang_operator.Base.{String, true, Option, none, some, [], ◌∷◌, ok, ◌≡◌, refl, sym, ◌∙◌}
use bigbang_operator.Object.{Object}
use bigbang_operator.Api.Netpol.{NetworkPolicies}
use bigbang_operator.Generator.Codec.{Codec}
use bigbang_operator.Generator.Definitions.{DefsEnv}
use bigbang_operator.Generator.Values.{
  ShorthandMetadata, ShorthandTarget, apply_shorthand_metadata, merge_shorthand_metadata,
}
use bigbang_operator.Generator.Keys.Parse.{ParsedK8sRemote, parse_egress_remote_key}
use bigbang_operator.Generator.Keys.Parse.Written.{RemoteKey, tcp, key_text}
use bigbang_operator.Generator.Keys.Parse.RoundTrip.{
  PortsFit, parsed_of, parse_egress_remote_key-text,
}
use bigbang_operator.Generator.Netpol.Egress.{
  EgressContext, build_shorthand_egress_netpol, egress_k8s,
}

apply_shorthand_metadata-name :
    (o : Object) (metadata : Option ShorthandMetadata)
    → (apply_shorthand_metadata o metadata).name ≡ o.name
unfolding apply_shorthand_metadata
apply_shorthand_metadata-name o none = refl
apply_shorthand_metadata-name o (some m) = refl

build-name :
    (c : EgressContext) (remote : ParsedK8sRemote) (key key' : String)
    (target target' : ShorthandTarget)
    → (build_shorthand_egress_netpol c key remote target).name
      ≡ (build_shorthand_egress_netpol c key' remote target').name
unfolding build_shorthand_egress_netpol
build-name c remote key key' target target' = refl

module _ (codec : Codec) (spec : NetworkPolicies) (env : DefsEnv) (c : EgressContext) where
  abbrev policy : String → ParsedK8sRemote → ShorthandTarget → Object
  policy key remote target =
      apply_shorthand_metadata (build_shorthand_egress_netpol c key remote target)
        (merge_shorthand_metadata c.local.metadata target.metadata)

  egress_k8s-policy :
      (key : String) (remote : ParsedK8sRemote) (target : ShorthandTarget)
      → target.enabled ≡ true
      → parse_egress_remote_key key ≡ ok remote
      → egress_k8s codec spec env c (key, target) ≡ ok (policy key remote target ∷ [])
  unfolding egress_k8s
  egress_k8s-policy key remote target on parsed = rw (parsed, egress_k8s) (rw on refl)

  -- Two enabled entries of a `to.k8s` map, the key of one being that of the other with `tcp://` in
  -- front of it, and the ports below the bound of Go's int: each gives one policy, and the two
  -- policies have the same name.
  pub egress_k8s-tcp :
      (k : RemoteKey) (first second : ShorthandTarget)
      → PortsFit k.ports
      → k.transport ≡ none
      → first.enabled ≡ true
      → second.enabled ≡ true
      → (one other : Object) × (egress_k8s codec spec env c
            (key_text (record k { transport = some tcp }), first)
          ≡ ok (one ∷ []))
        × (egress_k8s codec spec env c (key_text k, second) ≡ ok (other ∷ []))
        × (one.name ≡ other.name)
  egress_k8s-tcp k first second f plain on on' =
      let with_tcp = record k { transport = some tcp } in
      (
        policy (key_text with_tcp) (parsed_of k) first,
        policy (key_text k) (parsed_of k) second,
        egress_k8s-policy _ (parsed_of k) first on
            (parse_egress_remote_key-text with_tcp f ∙ rw plain refl),
        egress_k8s-policy _ (parsed_of k) second on' (parse_egress_remote_key-text k f),
        apply_shorthand_metadata-name _ _
            ∙ build-name c (parsed_of k) (key_text with_tcp) (key_text k) first second
            ∙ sym (apply_shorthand_metadata-name _ _),
      )
