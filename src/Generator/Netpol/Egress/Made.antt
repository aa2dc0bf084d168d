-- ===== src/Generator/Netpol/Egress/Made.antt =====
-- What holds of every egress policy of networkpolicies_shorthand.go, if it holds of what `egress_policy`
-- makes and the metadata of a shorthand keep it.
use bigbang_operator.Base.{List, String, Option, none, some, [], ◌∷◌, message, guard, within}
use bigbang_operator.Base.Dict.{sorted_entries}
use bigbang_operator.Base.Lists.{collect-All, OnOk, OnOk-within}
use bigbang_operator.Api.Common.{RawJson, Labels}
use bigbang_operator.Object.{Object, Rule}
use bigbang_operator.Api.Netpol.{NetworkPolicies, NetworkPoliciesEgress}
use bigbang_operator.Api.Package.{Package}
use bigbang_operator.Generator.Codec.{Codec}
use bigbang_operator.Generator.Definitions.{DefsEnv}
use bigbang_operator.Generator.Values.{
  ShorthandMetadata, apply_shorthand_metadata, ShorthandTarget, ShorthandPeer, LiteralTarget,
  decode_source,
}
use bigbang_operator.Generator.Made.{
  AllMade, AllMade-if, AllMade-one, AllMade-bind, AllMade-made, AllMade-four, OnOk-bind,
}
use bigbang_operator.Regexp.{match_string}
use bigbang_operator.Generator.Keys.Patterns.{literal_rule_key_re}
use bigbang_operator.Generator.Selectors.{default_netpol_labels}
use bigbang_operator.Generator.Netpol.Local.{decode_literal_rules}
use bigbang_operator.Generator.Netpol.Egress.{
  EgressContext, egress_policy, build_shorthand_egress_netpol, build_egress_definition_netpol,
  build_egress_cidr_netpol, build_egress_literal_netpol, egress_k8s, egress_definition, egress_cidr,
  egress_literal, egress_peer, egress_from, expand_shorthand_egress,
}

module _ (codec : Codec) (P : Object → Type 0)
    (made : (c : EgressContext) (name : String) (annotations : Labels) (rules : List Rule)
      → P (egress_policy c name annotations rules))
    (kept : (o : Object) (metadata : Option ShorthandMetadata)
      → P o
      → P (apply_shorthand_metadata o metadata)) where
  literal-made :
      (c : EgressContext) (rule_key : String) (lit : LiteralTarget)
      → OnOk P (build_egress_literal_netpol codec c rule_key lit)
  unfolding build_egress_literal_netpol
  literal-made c rule_key lit =
      OnOk-bind P
        (guard (match_string literal_rule_key_re rule_key)
          (message "rule key %q cannot combine shorthand syntax with a spec value" (rule_key ∷ [])))
        _
        λ u.
          OnOk-bind P (within "%s: %w" (rule_key ∷ []) (decode_literal_rules codec lit.spec)) _
            λ r. made c _ _ _

  module _ (spec : NetworkPolicies) (env : DefsEnv) (c : EgressContext) where
    egress_k8s-AllMade : (e : String × ShorthandTarget) → AllMade P (egress_k8s codec spec env c e)
    unfolding egress_k8s build_shorthand_egress_netpol
    egress_k8s-AllMade (key, target) =
        AllMade-if P target.enabled _ (AllMade-one P _ _ λ r. kept _ _ (made c _ _ _))

    egress_definition-AllMade :
        (e : String × ShorthandTarget) → AllMade P (egress_definition codec spec env c e)
    unfolding egress_definition build_egress_definition_netpol
    egress_definition-AllMade (key, target) =
        AllMade-if P target.enabled _ (AllMade-one P _ _ λ r. kept _ _ (made c _ _ _))

    egress_cidr-AllMade :
        (e : String × ShorthandTarget) → AllMade P (egress_cidr codec spec env c e)
    unfolding egress_cidr build_egress_cidr_netpol
    egress_cidr-AllMade (key, target) =
        AllMade-if P target.enabled _ (AllMade-one P _ _ λ r. kept _ _ (made c _ _ _))

    egress_literal-AllMade :
        (e : String × LiteralTarget) → AllMade P (egress_literal codec spec env c e)
    unfolding egress_literal
    egress_literal-AllMade (key, lit) =
        AllMade-if P lit.enabled _
          (AllMade-made P _ _ (OnOk-within P _ _ _ (literal-made c key lit)) λ o h. kept o _ h)

    egress_peer-AllMade : (to : Option ShorthandPeer) → AllMade P (egress_peer codec spec env c to)
    unfolding egress_peer
    egress_peer-AllMade none = tt
    egress_peer-AllMade (some to) =
        AllMade-four P _ _ _ _ (collect-All P _ egress_k8s-AllMade (sorted_entries to.k8s))
          (collect-All P _ egress_definition-AllMade (sorted_entries to.definition))
          (collect-All P _ egress_cidr-AllMade (sorted_entries to.cidr))
          (collect-All P _ egress_literal-AllMade (sorted_entries to.literal))

  module _ (pkg : Package) (spec : NetworkPolicies) (env : DefsEnv) where
    egress_from-AllMade : (e : String × RawJson) → AllMade P (egress_from codec pkg spec env e)
    unfolding egress_from
    egress_from-AllMade (local_key, raw) =
        AllMade-bind P
          (within "networkPolicies.egress.from.%s: %w" (local_key ∷ []) (codec.source raw)) _
          λ source.
            egress_peer-AllMade spec env
              (record {
                pkg = pkg;
                prepend = spec.prepend_release_name;
                labels = default_netpol_labels "egress";
                local_key = local_key;
                local = decode_source source;
              })
              (decode_source source).to

    pub expand_shorthand_egress-AllMade :
        (egress : NetworkPoliciesEgress)
        → AllMade P (expand_shorthand_egress codec pkg spec env egress)
    unfolding expand_shorthand_egress
    expand_shorthand_egress-AllMade egress =
        collect-All P _ egress_from-AllMade (sorted_entries egress.from)
