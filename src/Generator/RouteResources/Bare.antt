-- ===== src/Generator/RouteResources/Bare.antt =====
-- The resources of routes.go before they are stamped.
use bigbang_operator.Base.{
  String, Bool, List, [], ◌∷◌, within, if◌then◌else◌, refl, Bool-cases, inl, inr,
}
use bigbang_operator.Base.Dict.{sorted_entries}
use bigbang_operator.Base.Lists.{OnOk, collect, collect-All}
use bigbang_operator.Api.Common.{RawJson}
use bigbang_operator.Api.Routes.{Routes, InboundRoute}
use bigbang_operator.Api.Package.{Package}
use bigbang_operator.Generator.Codec.{Codec}
use bigbang_operator.Generator.Input.{ResolvedInbound}
use bigbang_operator.Generator.Bare.{IsBare, AreBare}
use bigbang_operator.Generator.Made.{
  AllMade-bind, AllMade-if, AllMade-first, AllMade-append, OnOk-bind, All-if, All-mapped,
}
use bigbang_operator.Generator.RouteResources.{
  decode_outbound, is_passthrough, build_http_routes, build_virtual_service,
  build_inbound_service_entry, build_inbound_netpol, build_inbound_netpols,
  build_outbound_service_entry, validate_outbound, netpols_enabled, inbound_objects,
  outbound_objects, generate_routes,
}

module _ (codec : Codec) (pkg : Package) where
  virtual_service-IsBare :
      (prepend : Bool) (name : String) (r : InboundRoute)
      → OnOk IsBare (build_virtual_service codec pkg prepend name r)
  unfolding build_virtual_service
  virtual_service-IsBare prepend name r = elim (Bool-cases (is_passthrough codec r)) [
    | inl e ↦ rw (e, build_virtual_service) (refl, refl)
    | inr e ↦
        rw (e, build_virtual_service)
          (OnOk-bind IsBare
            (within "routes.inbound.%s.http: %w" (name ∷ []) (build_http_routes codec r)) _
            λ http. (refl, refl))
  ]

  module _ (spec : Routes) where
    inbound-AreBare :
        (resolved : ResolvedInbound) → AreBare (inbound_objects codec pkg spec resolved)
    unfolding inbound_objects build_inbound_service_entry build_inbound_netpols build_inbound_netpol
    inbound-AreBare resolved =
        let prepend = spec.prepend_release_name in
        AllMade-first IsBare (build_virtual_service codec pkg prepend resolved.name resolved.route)
          (build_inbound_service_entry pkg prepend resolved.name resolved.route
            ∷ (if netpols_enabled codec pkg spec
                then build_inbound_netpols pkg prepend resolved.route resolved.gateways
                else []))
          (virtual_service-IsBare prepend resolved.name resolved.route)
          (
            (refl, refl),
            All-if IsBare (netpols_enabled codec pkg spec) _
                (All-mapped IsBare _ (λ gw. (refl, refl)) resolved.gateways),
          )

    outbound-AreBare : (e : String × RawJson) → AreBare (outbound_objects codec pkg spec e)
    unfolding outbound_objects build_outbound_service_entry
    outbound-AreBare (name, raw) =
        AllMade-bind IsBare
          (within "routes.outbound.%s: %w" (name ∷ []) (decode_outbound codec raw)) _
          λ route.
            AllMade-if IsBare route.enabled _
              (AllMade-bind IsBare (validate_outbound name route) _ λ u. ((refl, refl), tt))

    pub generate_routes-AreBare :
        (inbound : List ResolvedInbound) → AreBare (generate_routes codec pkg spec inbound)
    unfolding generate_routes
    generate_routes-AreBare inbound =
        AllMade-append IsBare (collect (inbound_objects codec pkg spec) inbound)
          (collect (outbound_objects codec pkg spec) (sorted_entries spec.outbound))
          (collect-All IsBare _ inbound-AreBare inbound)
          (collect-All IsBare _ outbound-AreBare (sorted_entries spec.outbound))
