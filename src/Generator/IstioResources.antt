-- ===== src/Generator/IstioResources.antt =====
-- pkg/generator/istio.go: PeerAuthentication, Sidecar and the custom ServiceEntries.
pub mod Bare
use bigbang_operator.Base.{
  ℕ, suc, String, none, some, List, [], ◌∷◌, ◌++◌, ◌==◌, message, if◌then◌else◌, Result, ok, err,
  ◌>>=◌, within,
}
use bigbang_operator.Base.Dict.{is_empty}
use bigbang_operator.Base.Text.{to_upper, itoa}
use bigbang_operator.Api.Istio.{Istio, IstioServiceEntriesCustomElem}
use bigbang_operator.Api.Package.{Package}
use bigbang_operator.Object.{
  Object, fresh, MtlsMode, mtls_unset, disable, permissive, strict, OutboundMode, registry_only,
  allow_any, peer_authentication, sidecar, service_entry, ServiceEntrySpec, entry, mesh_external,
  res_none,
}
use bigbang_operator.Generator.Names.{prepend_name}
use bigbang_operator.Generator.Hbone.{istio_ambient}
use bigbang_operator.Generator.Codec.{Codec}

abbrev mode_of : String → MtlsMode
mode_of mode =
    if mode == "STRICT"
    then strict
    else if mode == "PERMISSIVE"
    then permissive
    else if mode == "DISABLE"
    then disable
    else if mode == "UNSET"
    then mtls_unset
    else strict

unfoldable pub mtls_mode : Istio → MtlsMode
unfolding to_upper
mtls_mode spec = elim (spec.mtls) [
  | none ↦ strict
  | some mtls ↦ if mtls.mode == "" then strict else mode_of (to_upper mtls.mode)
]

abbrev outbound_mode : String → OutboundMode
outbound_mode mode = if mode == "ALLOW_ANY" then allow_any else registry_only

unfoldable pub sidecar_resource : Package → Istio → List Object
unfolding to_upper prepend_name istio_ambient
sidecar_resource pkg spec = elim (spec.sidecar) [
  | none ↦ []
  | some sc ↦
      if sc.enabled
      then if istio_ambient (some spec)
        then []
        else fresh (prepend_name spec.prepend_release_name pkg.name "sidecar") [] []
            (sidecar (outbound_mode (to_upper sc.outbound_traffic_policy_mode)))
          ∷ []
      else []
]

module _ (codec : Codec) where
  -- One round of the loop; an entry with an empty spec keeps the zero value.
  custom_service_entry : ℕ → IstioServiceEntriesCustomElem → Result Object
  unfolding itoa
  custom_service_entry i elem =
      if elem.name == "" then err (message "custom[%d]: name is required" (itoa i ∷ [])) else do
        spec ←
            if is_empty elem.spec
            then ok (entry [] mesh_external res_none [])
            else (within "custom[%d] %q: %w" (itoa i ∷ elem.name ∷ [])
                  (codec.service_entry elem.spec)
                >>= λ p. ok (ServiceEntrySpec.raw p))
        ok (fresh elem.name elem.labels elem.annotations (service_entry spec))

  service_entries_from : ℕ → List IstioServiceEntriesCustomElem → Result (List Object)
  unfolding custom_service_entry
  service_entries_from i [] = ok []
  service_entries_from i (elem ∷ elems) = do
    se ← custom_service_entry i elem
    rest ← service_entries_from (suc i) elems
    ok (se ∷ rest)

  unfoldable pub generate_custom_service_entries : Istio → Result (List Object)
  unfolding service_entries_from
  generate_custom_service_entries spec = elim (spec.service_entries) [
    | none ↦ ok []
    | some entries ↦ service_entries_from 0 entries.custom
  ]

  unfoldable pub generate_istio : Package → Istio → Result (List Object)
  unfolding mtls_mode prepend_name sidecar_resource generate_custom_service_entries
  generate_istio pkg spec = do
    ses ← within "istio.serviceEntries: %w" [] (generate_custom_service_entries spec)
    ok (
        fresh (prepend_name spec.prepend_release_name pkg.name "default-peer-auth") [] []
          (peer_authentication (mtls_mode spec))
        ∷ (sidecar_resource pkg spec ++ ses))
