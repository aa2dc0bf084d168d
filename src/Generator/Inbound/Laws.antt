-- ===== src/Generator/Inbound/Laws.antt =====
-- What `resolveInboundRoutes` of pkg/generator/ingressconfig.go guarantees to the code behind it.
use bigbang_operator.Base.{
  String, Bool, true, false, not, Option, none, some, List, [], ◌∷◌, map, ◌==◌, if◌then◌else◌,
  Error, message, ok, err, guard, within, get_or, is_some, ◌≡◌, refl, sym, subst, arith, Bool-cases,
  ◌⊎◌, inl, inr,
}
use bigbang_operator.Base.Dict.{is_empty, sorted_entries}
use bigbang_operator.Base.Lists.{All, OnOk, OnOk-bind, OnOk_use, collect-All, length}
use bigbang_operator.Api.Common.{RawJson, Labels}
use bigbang_operator.Generator.Selectors.{name_label}
use bigbang_operator.Api.Routes.{InboundRoute, Routes}
use bigbang_operator.Generator.Codec.{Codec}
use bigbang_operator.Generator.Input.{Kube, IngressConfig, ResolvedInbound}
use bigbang_operator.Generator.Inbound.{
  decode_inbound, validate_inbound, with_defaults, resolve_enabled, resolve_inbound,
  resolve_inbound_routes, all_gateways_split, resolve_gateway,
}

guard-OnOk : (b : Bool) (e : Error) → OnOk (λ u. b ≡ true) (guard b e)
guard-OnOk true e = refl
guard-OnOk false e = tt

-- What the checks of a route ask.
abbrev pub IsComplete : InboundRoute → Type 0
IsComplete r =
    (is_empty (get_or r.gateways []) ≡ false)
    × ((r.service == "") ≡ false)
    × (is_some r.port ≡ true)

validate_inbound-OnOk :
    (kube : Kube) (name : String) (r : InboundRoute)
    → OnOk (λ u. IsComplete r) (validate_inbound kube name r)
unfolding validate_inbound
validate_inbound-OnOk kube name r =
    OnOk-bind (λ u. IsComplete r) (guard (not (is_empty (get_or r.gateways []))) _) _
      λ u e.
        OnOk-bind (λ v. IsComplete r)
          (elim (all_gateways_split kube (get_or r.gateways [])) [
            | none ↦ ok (tt {0})
            | some gw ↦ err (
                message "routes.inbound.%s: gateway %q must be <namespace>/<name>" (name ∷ gw ∷ []))
          ])
          _
          λ v f.
            OnOk-bind (λ w. IsComplete r) (guard (not (r.service == "")) _) _
              λ w g.
                with_port
                  (ground (
                    arith,
                    OnOk_use (λ x. not (is_empty (get_or r.gateways [])) ≡ true)
                        (guard (not (is_empty (get_or r.gateways []))) _) u
                        (guard-OnOk (not (is_empty (get_or r.gateways []))) _) e,
                  ))
                  (ground (
                    arith,
                    OnOk_use (λ x. not (r.service == "") ≡ true) (guard (not (r.service == "")) _) w
                        (guard-OnOk (not (r.service == "")) _) g,
                  ))
                  (Bool-cases (is_some r.port))
  where
    with_port :
        is_empty (get_or r.gateways []) ≡ false
        → (r.service == "") ≡ false
        → (is_some r.port ≡ true) ⊎ (is_some r.port ≡ false)
        → OnOk
            (λ x. IsComplete r)
            (guard
              (is_some r.port)
              (message "routes.inbound.%s: port is required when enabled" (name ∷ [])))
    with_port a b (inl c) = rw c (a, b, refl)
    with_port a b (inr c) = rw c tt

length-map : {A B : Type 0} (f : A → B) (xs : List A) → length (map f xs) ≡ length xs
length-map f [] = refl
length-map f (x ∷ xs) = omega (arith, length-map f xs)

-- What holds of a resolved route.
abbrev pub IsResolved : ResolvedInbound → Type 0
IsResolved r =
    (r.route.enabled ≡ true)
    × IsComplete r.route
    × (is_empty r.route.selector ≡ false)
    × (length r.gateways ≡ length (get_or r.route.gateways []))

selector_there :
    (l : Labels) (name : String)
    → is_empty (if is_empty l then (name_label, name) ∷ [] else l) ≡ false
selector_there [] name = refl
selector_there (x ∷ l) name = refl

module _ (kube : Kube) (codec : Codec) (spec : Routes) (config : Option IngressConfig) where
  resolve_enabled-OnOk :
      (config_error : Option Error) (name : String) (route : InboundRoute)
      → route.enabled ≡ true
      → OnOk (All IsResolved) (resolve_enabled kube codec spec config config_error name route)
  unfolding resolve_enabled with_defaults
  resolve_enabled-OnOk (some e) name route on = tt
  resolve_enabled-OnOk none name route on =
      OnOk-bind (All IsResolved)
        (validate_inbound kube name (with_defaults kube name spec.defaults config route)) _
        λ u e. (
          (
            on,
            OnOk_use (λ v. IsComplete (with_defaults kube name spec.defaults config route))
                (validate_inbound kube name (with_defaults kube name spec.defaults config route)) u
                (validate_inbound-OnOk kube name
                  (with_defaults kube name spec.defaults config route))
                e,
            selector_there route.selector name,
            length-map (resolve_gateway kube config) _,
          ),
          tt,
        )

  resolve_inbound-OnOk :
      (config_error : Option Error) (entry : String × RawJson)
      → OnOk (All IsResolved) (resolve_inbound kube codec spec config config_error entry)
  unfolding resolve_inbound
  resolve_inbound-OnOk config_error (name, raw) =
      OnOk-bind (All IsResolved)
        (within "routes.inbound.%s: %w" (name ∷ []) (decode_inbound codec raw)) _
        λ route e. elim (Bool-cases route.enabled) [
          | inl on ↦
              subst
                (λ b. OnOk (All IsResolved) (
                  if b
                  then resolve_enabled kube codec spec config config_error name route
                  else ok []))
                (sym on) (resolve_enabled-OnOk config_error name route on)
          | inr off ↦ rw off tt
        ]

  -- Every route that the resolution of the inbound routes returns is enabled, has a gateway, a
  -- service, a port and a selector, and as many resolved gateways as references.
  pub resolve_inbound_routes-IsResolved :
      (config_error : Option Error) (resolved : List ResolvedInbound)
      → resolve_inbound_routes kube codec spec config config_error ≡ ok resolved
      → All IsResolved resolved
  unfolding resolve_inbound_routes
  resolve_inbound_routes-IsResolved config_error resolved =
      OnOk_use (All IsResolved) (resolve_inbound_routes kube codec spec config config_error)
        resolved
        (collect-All IsResolved (resolve_inbound kube codec spec config config_error)
          (resolve_inbound-OnOk config_error) (sorted_entries spec.inbound))
