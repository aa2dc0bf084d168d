-- ===== src/Generator/IstioResources/Bare.antt =====
-- The resources of istio.go before they are stamped.
use bigbang_operator.Base.{
  ℕ, suc, some, List, [], ◌∷◌, ◌==◌, ok, ◌>>=◌, within, if◌then◌else◌, refl, Bool-cases,
  Option-cases, inl, inr,
}
use bigbang_operator.Base.Dict.{is_empty}
use bigbang_operator.Base.Text.{itoa}
use bigbang_operator.Base.Lists.{All, OnOk}
use bigbang_operator.Api.Istio.{Istio, IstioServiceEntriesCustomElem}
use bigbang_operator.Api.Package.{Package}
use bigbang_operator.Generator.Names.{prepend_name}
use bigbang_operator.Object.{
  fresh, peer_authentication, ServiceEntrySpec, entry, mesh_external, res_none,
}
use bigbang_operator.Generator.Hbone.{istio_ambient}
use bigbang_operator.Generator.Codec.{Codec}
use bigbang_operator.Generator.Bare.{IsBare, AreBare}
use bigbang_operator.Generator.Made.{
  OnOk-bind, AllMade-within, AllMade-cons, All-if, All-else, AllMade-behind,
}
use bigbang_operator.Generator.IstioResources.{
  mtls_mode, sidecar_resource, custom_service_entry, service_entries_from,
  generate_custom_service_entries, generate_istio,
}

sidecar-IsBare : (pkg : Package) (spec : Istio) → All IsBare (sidecar_resource pkg spec)
unfolding sidecar_resource
sidecar-IsBare pkg spec = elim (Option-cases spec.sidecar) [
  | inl e ↦ rw (e, sidecar_resource) tt
  | inr (sc, e) ↦
      rw (e, sidecar_resource)
        (All-if IsBare sc.enabled _
          (All-else IsBare (istio_ambient (some spec)) _ ((refl, refl), tt)))
]

module _ (codec : Codec) where
  custom_service_entry-IsBare :
      (i : ℕ) (elem : IstioServiceEntriesCustomElem)
      → OnOk IsBare (custom_service_entry codec i elem)
  unfolding custom_service_entry
  custom_service_entry-IsBare i elem = elim (Bool-cases (elem.name == "")) [
    | inl e ↦ rw (e, custom_service_entry) tt
    | inr e ↦
        rw (e, custom_service_entry)
          (OnOk-bind IsBare
            (if is_empty elem.spec
              then ok (entry [] mesh_external res_none [])
              else (within "custom[%d] %q: %w" (itoa i ∷ elem.name ∷ [])
                    (codec.service_entry elem.spec)
                  >>= λ p. ok (ServiceEntrySpec.raw p)))
            _ λ spec. (refl, refl))
  ]

  service_entries_from-AreBare :
      (i : ℕ) (elems : List IstioServiceEntriesCustomElem)
      → AreBare (service_entries_from codec i elems)
  unfolding service_entries_from
  service_entries_from-AreBare i [] = tt
  service_entries_from-AreBare i (elem ∷ elems) =
      AllMade-cons IsBare (custom_service_entry codec i elem)
        (service_entries_from codec (suc i) elems) (custom_service_entry-IsBare i elem)
        (service_entries_from-AreBare (suc i) elems)

  custom_entries-AreBare : (spec : Istio) → AreBare (generate_custom_service_entries codec spec)
  unfolding generate_custom_service_entries
  custom_entries-AreBare spec = elim (Option-cases spec.service_entries) [
    | inl e ↦ rw (e, generate_custom_service_entries) tt
    | inr (entries, e) ↦
        rw (e, generate_custom_service_entries) (service_entries_from-AreBare 0 entries.custom)
  ]

  pub generate_istio-AreBare :
      (pkg : Package) (spec : Istio) → AreBare (generate_istio codec pkg spec)
  unfolding generate_istio
  generate_istio-AreBare pkg spec =
      AllMade-behind IsBare
        (fresh (prepend_name spec.prepend_release_name pkg.name "default-peer-auth") [] []
            (peer_authentication (mtls_mode spec))
          ∷ sidecar_resource pkg spec)
        (within "istio.serviceEntries: %w" [] (generate_custom_service_entries codec spec))
        ((refl, refl), sidecar-IsBare pkg spec)
        (AllMade-within IsBare _ _ _ (custom_entries-AreBare spec))
