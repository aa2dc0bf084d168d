-- ===== src/Generator/Authz/Custom.antt =====
-- `generateCustomAuthzPolicies` and its builders.
pub mod Bare
use bigbang_operator.Base.{
  ℕ, suc, String, Option, none, some, List, [], ◌∷◌, ◌++◌, ◌==◌, if◌then◌else◌, message, Result, ok,
  err, ◌>>=◌, within,
}
use bigbang_operator.Base.Dict.{Dict, is_empty, sorted_entries}
use bigbang_operator.Base.Lists.{collect}
use bigbang_operator.Base.Text.{itoa}
use bigbang_operator.Api.Common.{RawJson, Labels}
use bigbang_operator.Api.Istio.{
  Istio, IstioAuthorizationPolicies, IstioAuthorizationPoliciesCustomElem,
  IstioAuthorizationPoliciesAdditionalPoliciesValue,
  IstioAuthorizationPoliciesAdditionalPoliciesValueSpec,
}
use bigbang_operator.Object.{Object, fresh, authorization_policy, AuthorizationPolicySpec, allow}
use bigbang_operator.Generator.Codec.{Codec}

module _ (codec : Codec) where
  -- An empty spec keeps the zero value.
  unfoldable pub build_raw_authz_policy : String → Labels → Labels → Dict RawJson → Result Object
  build_raw_authz_policy name labels annotations raw_spec =
      let decoded = codec.authorization_policy raw_spec >>= λ p.
      ok (fresh name labels annotations (authorization_policy (AuthorizationPolicySpec.raw p))) in
      if is_empty raw_spec
      then ok (fresh name labels annotations (authorization_policy (allow none [])))
      else decoded

  unfoldable pub build_additional_authz_policy :
      String
      → Labels
      → Labels
      → IstioAuthorizationPoliciesAdditionalPoliciesValueSpec
      → Result Object
  build_additional_authz_policy name labels annotations spec = do
    p ← codec.additional_authorization_policy spec
    ok (fresh name labels annotations (authorization_policy (AuthorizationPolicySpec.raw p)))

  custom_policies_from : ℕ → List IstioAuthorizationPoliciesCustomElem → Result (List Object)
  unfolding build_raw_authz_policy itoa
  custom_policies_from i [] = ok []
  custom_policies_from i (elem ∷ elems) =
      let built =
        within "custom[%d] %q: %w" (itoa i ∷ elem.name ∷ [])
          (build_raw_authz_policy elem.name elem.labels elem.annotations elem.spec)
        >>= λ ap. custom_policies_from (suc i) elems >>= λ rest. ok (ap ∷ rest) in
      if elem.name == "" then err (message "custom[%d]: name is required" (itoa i ∷ [])) else built

  abbrev name_of : String → Option String → String
  name_of key none = key
  name_of key (some name) = if name == "" then key else name

  additional_policy :
      String × IstioAuthorizationPoliciesAdditionalPoliciesValue → Result (List Object)
  unfolding build_additional_authz_policy
  additional_policy (key, elem) =
      let built =
        within "additionalPolicies.%s: %w" (key ∷ []) (
          build_additional_authz_policy (name_of key elem.name) elem.labels elem.annotations
            elem.spec)
        >>= λ ap. ok (ap ∷ []) in
      if elem.enabled then built else ok []

  custom_of : IstioAuthorizationPolicies → Result (List Object)
  unfolding custom_policies_from collect additional_policy sorted_entries
  custom_of spec = do
    custom ← custom_policies_from 0 spec.custom
    additional ← collect additional_policy (sorted_entries spec.additional_policies)
    ok (custom ++ additional)

  unfoldable pub generate_custom_authz_policies : Option Istio → Result (List Object)
  unfolding custom_of
  generate_custom_authz_policies none = ok []
  generate_custom_authz_policies (some istio) = elim (istio.authorization_policies) [
    | none ↦ ok []
    | some spec ↦ let policies = custom_of spec in if istio.enabled then policies else ok []
  ]
