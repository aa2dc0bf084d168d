-- ===== src/Generator/Netpol/Ingress/Made.antt =====
-- What holds of every ingress policy of networkpolicies_shorthand.go, if it holds of what `ingress_policy`
-- makes and the metadata of a shorthand keep it.
use bigbang_operator.Base.{List, String, Option, none, some, [], ◌∷◌, message, guard, within}
use bigbang_operator.Base.Dict.{sorted_entries}
use bigbang_operator.Base.Lists.{collect-All, OnOk, OnOk-within}
use bigbang_operator.Api.Common.{RawJson, Labels}
use bigbang_operator.Object.{Object, Rule}
use bigbang_operator.Api.Netpol.{NetworkPolicies, NetworkPoliciesIngress}
use bigbang_operator.Api.Package.{Package}
use bigbang_operator.Generator.Codec.{Codec}
use bigbang_operator.Generator.Definitions.{DefsEnv}
use bigbang_operator.Generator.Values.{
  ShorthandMetadata, apply_shorthand_metadata, ShorthandSource, ShorthandTarget, ShorthandPeer,
  LiteralTarget, decode_source,
}
use bigbang_operator.Generator.Made.{
  AllMade, AllMade-if, AllMade-one, AllMade-bind, AllMade-made, AllMade-four, OnOk-bind,
}
use bigbang_operator.Regexp.{match_string}
use bigbang_operator.Generator.Keys.Parse.{parse_ingress_local_key}
use bigbang_operator.Generator.Keys.Patterns.{literal_rule_key_re}
use bigbang_operator.Generator.Selectors.{default_netpol_labels}
use bigbang_operator.Generator.Netpol.Local.{decode_literal_rules}
use bigbang_operator.Generator.Netpol.Ingress.{
  IngressContext, ingress_policy, build_shorthand_ingress_netpol, build_ingress_definition_netpol,
  build_ingress_cidr_netpol, build_ingress_literal_netpol, ingress_k8s, ingress_definition,
  ingress_cidr, ingress_literal, ingress_peer, ingress_local, ingress_to, expand_shorthand_ingress,
}

module _ (codec : Codec) (P : Object → Type 0)
    (made : (c : IngressContext) (name : String) (annotations : Labels) (rules : List Rule)
      → P (ingress_policy c name annotations rules))
    (kept : (o : Object) (metadata : Option ShorthandMetadata)
      → P o
      → P (apply_shorthand_metadata o metadata)) where
  literal-made :
      (c : IngressContext) (rule_key : String) (lit : LiteralTarget)
      → OnOk P (build_ingress_literal_netpol codec c rule_key lit)
  unfolding build_ingress_literal_netpol
  literal-made c rule_key lit =
      OnOk-bind P
        (guard (match_string literal_rule_key_re rule_key)
          (message "rule key %q cannot combine shorthand syntax with a spec value" (rule_key ∷ [])))
        _
        λ u.
          OnOk-bind P (within "%s: %w" (rule_key ∷ []) (decode_literal_rules codec lit.spec)) _
            λ r. made c _ _ _

  module _ (spec : NetworkPolicies) (env : DefsEnv) (c : IngressContext) where
    ingress_k8s-AllMade :
        (e : String × ShorthandTarget) → AllMade P (ingress_k8s codec spec env c e)
    unfolding ingress_k8s build_shorthand_ingress_netpol
    ingress_k8s-AllMade (key, target) =
        AllMade-if P target.enabled _ (AllMade-one P _ _ λ r. kept _ _ (made c _ _ _))

    ingress_definition-AllMade :
        (e : String × ShorthandTarget) → AllMade P (ingress_definition codec spec env c e)
    unfolding ingress_definition build_ingress_definition_netpol
    ingress_definition-AllMade (key, target) =
        AllMade-if P target.enabled _ (AllMade-one P _ _ λ r. kept _ _ (made c _ _ _))

    ingress_cidr-AllMade :
        (e : String × ShorthandTarget) → AllMade P (ingress_cidr codec spec env c e)
    unfolding ingress_cidr build_ingress_cidr_netpol
    ingress_cidr-AllMade (key, target) =
        AllMade-if P target.enabled _ (AllMade-one P _ _ λ r. kept _ _ (made c _ _ _))

    ingress_literal-AllMade :
        (e : String × LiteralTarget) → AllMade P (ingress_literal codec spec env c e)
    unfolding ingress_literal
    ingress_literal-AllMade (key, lit) =
        AllMade-if P lit.enabled _
          (AllMade-made P _ _ (OnOk-within P _ _ _ (literal-made c key lit)) λ o h. kept o _ h)

    ingress_peer-AllMade : (from : ShorthandPeer) → AllMade P (ingress_peer codec spec env c from)
    unfolding ingress_peer
    ingress_peer-AllMade from =
        AllMade-four P _ _ _ _ (collect-All P _ ingress_k8s-AllMade (sorted_entries from.k8s))
          (collect-All P _ ingress_definition-AllMade (sorted_entries from.definition))
          (collect-All P _ ingress_cidr-AllMade (sorted_entries from.cidr))
          (collect-All P _ ingress_literal-AllMade (sorted_entries from.literal))

  module _ (pkg : Package) (spec : NetworkPolicies) (env : DefsEnv) where
    ingress_local-AllMade :
        (local_key : String) (local : ShorthandSource) (from : Option ShorthandPeer)
        → AllMade P (ingress_local codec pkg spec env local_key local from)
    unfolding ingress_local
    ingress_local-AllMade local_key local none = tt
    ingress_local-AllMade local_key local (some from) =
        AllMade-bind P
          (within "networkPolicies.ingress.to: %w" [] (parse_ingress_local_key local_key)) _
          λ parsed.
            ingress_peer-AllMade spec env
              (record {
                pkg = pkg;
                prepend = spec.prepend_release_name;
                labels = default_netpol_labels "ingress";
                local_key = local_key;
                parsed = parsed;
                local = local;
              })
              from

    ingress_to-AllMade : (e : String × RawJson) → AllMade P (ingress_to codec pkg spec env e)
    unfolding ingress_to
    ingress_to-AllMade (local_key, raw) =
        AllMade-bind P
          (within "networkPolicies.ingress.to.%s: %w" (local_key ∷ []) (codec.source raw)) _
          λ source.
            ingress_local-AllMade local_key (decode_source source) (decode_source source).from

    pub expand_shorthand_ingress-AllMade :
        (ingress : NetworkPoliciesIngress)
        → AllMade P (expand_shorthand_ingress codec pkg spec env ingress)
    unfolding expand_shorthand_ingress
    expand_shorthand_ingress-AllMade ingress =
        collect-All P _ ingress_to-AllMade (sorted_entries ingress.to)
