-- ===== src/Generator/Authz/Shorthand/Bare.antt =====
-- The policies from the ingress shorthand (authorizationpolicies.go) before they are stamped.
use bigbang_operator.Base.{String, Bool, ◌&&◌, Option, none, some, [], ◌∷◌, ok, within, refl}
use bigbang_operator.Base.Dict.{sorted_entries}
use bigbang_operator.Base.Lists.{collect, collect-All}
use bigbang_operator.Api.Common.{RawJson}
use bigbang_operator.Api.Istio.{Istio}
use bigbang_operator.Api.Netpol.{NetworkPolicies, NetworkPoliciesIngress}
use bigbang_operator.Api.Package.{Package}
use bigbang_operator.Generator.Codec.{Codec}
use bigbang_operator.Generator.Keys.Parse.{ParsedLocalIngressKey, parse_ingress_local_key}
use bigbang_operator.Generator.Values.{
  ShorthandSource, ShorthandTarget, ShorthandPeer, decode_source,
}
use bigbang_operator.Generator.Bare.{IsBare, AreBare, apply_shorthand_metadata-IsBare}
use bigbang_operator.Generator.Made.{
  AllMade-bind, AllMade-if, AllMade-made, AllMade-append, OnOk-bind,
}
use bigbang_operator.Generator.Authz.Gates.{authz_enabled, generate_from_netpol}
use bigbang_operator.Generator.Authz.Shorthand.{
  operation_ports, build_authz_from_cidr, build_authz_from_shorthand, authz_k8s, authz_cidr,
  authz_peer, authz_local, generate_authz_from_ingress_shorthand,
}

module _ (pkg : Package) (prepend : Bool) (key : String) (local : ShorthandSource) where
  module _ (parsed : ParsedLocalIngressKey) where
    k8s-AreBare :
        (e : String × ShorthandTarget) → AreBare (authz_k8s pkg prepend key local parsed e)
    unfolding authz_k8s build_authz_from_shorthand
    k8s-AreBare (remote_key, target) = AllMade-if IsBare target.enabled _ (
        AllMade-bind IsBare _ _ λ r.
          AllMade-made IsBare _ _ (OnOk-bind IsBare (operation_ports parsed) _ λ to. (refl, refl))
            λ o h. apply_shorthand_metadata-IsBare o _ h)

    cidr-AreBare :
        (e : String × ShorthandTarget) → AreBare (authz_cidr pkg prepend key local parsed e)
    unfolding authz_cidr build_authz_from_cidr
    cidr-AreBare (cidr_key, target) = AllMade-if IsBare target.enabled _ (
        AllMade-bind IsBare _ _ λ r.
          AllMade-made IsBare _ _ (OnOk-bind IsBare (operation_ports parsed) _ λ to. (refl, refl))
            λ o h. apply_shorthand_metadata-IsBare o _ h)

  peer-AreBare : (from : Option ShorthandPeer) → AreBare (authz_peer pkg prepend key local from)
  unfolding authz_peer
  peer-AreBare none = tt
  peer-AreBare (some from) =
      AllMade-bind IsBare (within "authz ingress.to: %w" [] (parse_ingress_local_key key)) _
        λ parsed.
          AllMade-append IsBare
            (collect (authz_k8s pkg prepend key local parsed) (sorted_entries from.k8s))
            (collect (authz_cidr pkg prepend key local parsed) (sorted_entries from.cidr))
            (collect-All IsBare _ (k8s-AreBare parsed) (sorted_entries from.k8s))
            (collect-All IsBare _ (cidr-AreBare parsed) (sorted_entries from.cidr))

module _ (codec : Codec) (pkg : Package) (spec : NetworkPolicies) where
  local-AreBare : (e : String × RawJson) → AreBare (authz_local codec pkg spec e)
  unfolding authz_local
  local-AreBare (key, raw) =
      AllMade-bind IsBare (within "authz from ingress.to.%s: %w" (key ∷ []) (codec.source raw)) _
        λ source.
          peer-AreBare pkg spec.prepend_release_name key (decode_source source)
            (decode_source source).from

  side-AreBare :
      (ingress : Option NetworkPoliciesIngress)
      → AreBare (elim ingress [
        | none ↦ ok []
        | some i ↦ collect (authz_local codec pkg spec) (sorted_entries i.to)
      ])
  side-AreBare none = tt
  side-AreBare (some i) = collect-All IsBare _ local-AreBare (sorted_entries i.to)

  pub authz_from_ingress-AreBare :
      (istio : Option Istio) → AreBare (generate_authz_from_ingress_shorthand codec pkg spec istio)
  unfolding generate_authz_from_ingress_shorthand
  authz_from_ingress-AreBare istio =
      AllMade-if IsBare (authz_enabled istio && generate_from_netpol istio) _
        (side-AreBare spec.ingress)
