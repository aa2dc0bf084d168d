-- ===== src/Generator/Authz/Custom/Bare.antt =====
-- The custom and additional policies of authorizationpolicies.go before they are stamped.
use bigbang_operator.Base.{
  ℕ, suc, String, Option, none, some, List, [], ◌∷◌, ◌==◌, within, refl, Bool-cases, Option-cases,
  inl, inr,
}
use bigbang_operator.Base.Dict.{Dict, is_empty, sorted_entries}
use bigbang_operator.Base.Text.{itoa}
use bigbang_operator.Base.Lists.{OnOk, OnOk-within, collect, collect-All}
use bigbang_operator.Api.Common.{RawJson, Labels}
use bigbang_operator.Api.Istio.{
  Istio, IstioAuthorizationPolicies, IstioAuthorizationPoliciesCustomElem,
  IstioAuthorizationPoliciesAdditionalPoliciesValue,
}
use bigbang_operator.Generator.Codec.{Codec}
use bigbang_operator.Generator.Bare.{IsBare, AreBare}
use bigbang_operator.Generator.Made.{
  AllMade-if, AllMade-cons, AllMade-made, AllMade-append, OnOk-bind,
}
use bigbang_operator.Generator.Authz.Custom.{
  build_raw_authz_policy, build_additional_authz_policy, custom_policies_from, additional_policy,
  custom_of, generate_custom_authz_policies,
}

module _ (codec : Codec) where
  raw-IsBare :
      (name : String) (labels annotations : Labels) (spec : Dict RawJson)
      → OnOk IsBare (build_raw_authz_policy codec name labels annotations spec)
  unfolding build_raw_authz_policy
  raw-IsBare name labels annotations spec = elim (Bool-cases (is_empty spec)) [
    | inl e ↦ rw (e, build_raw_authz_policy) (refl, refl)
    | inr e ↦
        rw (e, build_raw_authz_policy)
          (OnOk-bind IsBare (codec.authorization_policy spec) _ λ p. (refl, refl))
  ]

  custom-AreBare :
      (i : ℕ) (elems : List IstioAuthorizationPoliciesCustomElem)
      → AreBare (custom_policies_from codec i elems)
  unfolding custom_policies_from
  custom-AreBare i [] = tt
  custom-AreBare i (elem ∷ elems) = elim (Bool-cases (elem.name == "")) [
    | inl e ↦ rw (e, custom_policies_from) tt
    | inr e ↦
        rw (e, custom_policies_from)
          (AllMade-cons IsBare
            (within "custom[%d] %q: %w" (itoa i ∷ elem.name ∷ [])
              (build_raw_authz_policy codec elem.name elem.labels elem.annotations elem.spec))
            (custom_policies_from codec (suc i) elems)
            (OnOk-within IsBare _ _ _ (raw-IsBare elem.name elem.labels elem.annotations elem.spec))
            (custom-AreBare (suc i) elems))
  ]

  additional-AreBare :
      (e : String × IstioAuthorizationPoliciesAdditionalPoliciesValue)
      → AreBare (additional_policy codec e)
  unfolding additional_policy build_additional_authz_policy
  additional-AreBare (key, elem) = AllMade-if IsBare elem.enabled _ (
      AllMade-made IsBare _ (λ o. o)
        (OnOk-within IsBare _ _ _
          (OnOk-bind IsBare (codec.additional_authorization_policy elem.spec) _ λ p. (refl, refl)))
        λ o h. h)

  custom_of-AreBare : (spec : IstioAuthorizationPolicies) → AreBare (custom_of codec spec)
  unfolding custom_of
  custom_of-AreBare spec =
      AllMade-append IsBare (custom_policies_from codec 0 spec.custom)
        (collect (additional_policy codec) (sorted_entries spec.additional_policies))
        (custom-AreBare 0 spec.custom)
        (collect-All IsBare _ additional-AreBare (sorted_entries spec.additional_policies))

  pub custom_authz-AreBare :
      (istio : Option Istio) → AreBare (generate_custom_authz_policies codec istio)
  unfolding generate_custom_authz_policies
  custom_authz-AreBare none = tt
  custom_authz-AreBare (some istio) = elim (Option-cases istio.authorization_policies) [
    | inl e ↦ rw (e, generate_custom_authz_policies) tt
    | inr (spec, e) ↦
        rw (e, generate_custom_authz_policies)
          (AllMade-if IsBare istio.enabled _ (custom_of-AreBare spec))
  ]
