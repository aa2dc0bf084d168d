-- ===== src/Generator/Generate/Accepts.antt =====
-- What a package's inbound routes are if `Generate` (pkg/generator/generator.go) returns objects.
use bigbang_operator.Base.{
  String, Bool, true, false, Option, none, some, List, [], ◌∷◌, message, Error, Result, ok, err,
  ◌>>=◌, within, ◌≡◌, refl, sym, subst, inl, inr, ◌⊎◌, if◌then◌else◌,
}
use bigbang_operator.Base.Dict.{lookup, sorted_entries}
use bigbang_operator.Base.Dict.Entries.{sorted_entries-lookup}
use bigbang_operator.Base.Lists.{All, collect, OnOk, OnOk-bind, OnOk_use}
use bigbang_operator.Api.Common.{RawJson}
use bigbang_operator.Api.Package.{Package}
use bigbang_operator.Api.Routes.{InboundRoute, Routes}
use bigbang_operator.Object.{Object}
use bigbang_operator.Generator.Codec.{Codec}
use bigbang_operator.Generator.Input.{Input, Kube, Scheme, IngressConfig, ResolvedInbound}
use bigbang_operator.Generator.Inbound.{
  decode_inbound, with_defaults, validate_inbound, resolve_enabled, resolve_inbound,
  resolve_inbound_routes,
}
use bigbang_operator.Generator.Generate.{finish, inbound_of, unstamped, generate}

-- The call returns no error.
abbrev pub Succeeds {ℓ} : {A : Type ℓ} → Result A → Type ℓ
Succeeds m = (a : _) × (m ≡ ok a)

OnOk-const {ℓ} : {A : Type ℓ} {C : Type 0} (m : Result A) → C → OnOk (λ (a : A). C) m
OnOk-const (ok a) c = c
OnOk-const (err e) c = tt

OnOk-map {ℓ κ ι} :
    {A : Type ℓ} (Q : A → Type κ) (R : A → Type ι)
    → ((a : A) → Q a → R a)
    → (m : Result A) → OnOk Q m
    → OnOk R m
OnOk-map Q R f (ok a) h = f a h
OnOk-map Q R f (err e) h = tt

collect-ok :
    {A B : Type 0} (f : A → Result (List B)) (xs : List A)
    → OnOk (λ (ys : List B). All (λ x. Succeeds (f x)) xs) (collect f xs)
unfolding collect
collect-ok f [] = tt
collect-ok f (x ∷ xs) = OnOk-bind _ (f x) _ λ ys e.
    OnOk-bind _ (collect f xs) _
      λ zs e'. ((ys, e), OnOk_use _ (collect f xs) zs (collect-ok f xs) e')

module _ (kube : Kube) (codec : Codec) (spec : Routes) (config : Option IngressConfig)
    (config_error : Option Error) where
  -- The raw route decodes, and is off or valid under a readable configuration.
  abbrev pub IsAccepted : String → RawJson → Type 0
  IsAccepted name raw =
      (route : InboundRoute) × (decode_inbound codec raw ≡ ok route)
      × ((route.enabled ≡ false)
          ⊎ ((config_error ≡ none)
              × Succeeds (
                  validate_inbound kube name (with_defaults kube name spec.defaults config route))))

  within-ok :
      {A : Type 0} (text : String) (args : List String) (m : Result A) (a : A)
      → within text args m ≡ ok a
      → m ≡ ok a
  within-ok text args (ok b) a e = e
  within-ok text args (err x) a e = cc

  resolve_enabled-ok :
      (name : String) (route : InboundRoute) (e : Option Error)
      → OnOk
          (λ (rs : List ResolvedInbound).
            (e ≡ none)
            × Succeeds
                (validate_inbound kube name (with_defaults kube name spec.defaults config route)))
          (resolve_enabled kube codec spec config e name route)
  unfolding resolve_enabled
  resolve_enabled-ok name route (some e) = tt
  resolve_enabled-ok name route none =
      OnOk-bind _ (validate_inbound kube name (with_defaults kube name spec.defaults config route))
        _ λ u h. (refl, (u, h))

  resolve_inbound-ok :
      (name : String) (raw : RawJson)
      → OnOk
          (λ (rs : List ResolvedInbound). IsAccepted name raw)
          (resolve_inbound kube codec spec config config_error (name, raw))
  unfolding resolve_inbound
  resolve_inbound-ok name raw =
      OnOk-bind _ (within "routes.inbound.%s: %w" (name ∷ []) (decode_inbound codec raw)) _
        λ route e.
          by_enabled route (within-ok _ _ (decode_inbound codec raw) route e) route.enabled refl
    where
      by_enabled :
          (route : InboundRoute)
          → decode_inbound codec raw ≡ ok route
          → (b : Bool) → route.enabled ≡ b
          → OnOk
              (λ (rs : List ResolvedInbound). IsAccepted name raw)
              (if b then resolve_enabled kube codec spec config config_error name route else ok [])
      by_enabled route decoded false off = (route, decoded, inl off)
      by_enabled route decoded true on =
          OnOk-map _ _ (λ rs h. (route, decoded, inr h))
            (resolve_enabled kube codec spec config config_error name route)
            (resolve_enabled-ok name route config_error)

  resolve_inbound_routes-ok :
      (name : String) (raw : RawJson)
      → lookup name spec.inbound ≡ some raw
      → OnOk
          (λ (rs : List ResolvedInbound). IsAccepted name raw)
          (resolve_inbound_routes kube codec spec config config_error)
  unfolding resolve_inbound_routes
  resolve_inbound_routes-ok name raw there =
      OnOk-map _ _
        (λ rs all.
          let (ys, e) =
            sorted_entries-lookup
              (λ entry. Succeeds (resolve_inbound kube codec spec config config_error entry))
              spec.inbound name raw there all in
          OnOk_use _ (resolve_inbound kube codec spec config config_error (name, raw)) ys
            (resolve_inbound-ok name raw) e)
        _
        (collect-ok (resolve_inbound kube codec spec config config_error)
          (sorted_entries spec.inbound))

module _ (codec : Codec) (kube : Kube) (input : Input) (pkg : Package) (C : Type 0)
    (before : OnOk
      (λ (rs : List ResolvedInbound). C)
      (inbound_of codec kube input pkg.spec.routes)) where
  unstamped-ok : OnOk (λ (objs : List Object). C) (unstamped codec kube pkg input)
  unfolding unstamped
  unstamped-ok =
      OnOk-bind (λ objs. C) (inbound_of codec kube input pkg.spec.routes) _
        λ inbound h.
          OnOk-const _
            (OnOk_use (λ rs. C) (inbound_of codec kube input pkg.spec.routes) inbound before h)

  -- What succeeds before a generation that returns objects.
  generate-ok :
      (objs : List Object) → input.pkg ≡ some pkg → generate codec kube input ≡ ok objs → C
  unfolding generate
  generate-ok objs e =
      OnOk_use (λ os. C) (generate codec kube input) objs
        (subst (λ p. OnOk (λ os. C) (of_package p)) (sym e) (of_scheme input.scheme))
    where
      scheme_part : Package → Option Scheme → Result (List Object)
      scheme_part q none = err (message "generator: Scheme is nil" [])
      scheme_part q (some scheme) = unstamped codec kube q input >>= λ out. finish q scheme out

      of_package : Option Package → Result (List Object)
      of_package none = err (message "generator: Package is nil" [])
      of_package (some q) = scheme_part q input.scheme

      of_scheme : (s : Option Scheme) → OnOk (λ (os : List Object). C) (scheme_part pkg s)
      of_scheme none = tt
      of_scheme (some scheme) =
          OnOk-bind (λ os. C) (unstamped codec kube pkg input) _
            λ out h.
              OnOk-const _ (OnOk_use (λ os. C) (unstamped codec kube pkg input) out unstamped-ok h)

-- If a generation returns objects, then every entry of the package's inbound routes decodes, and
-- either it is not enabled, or the global configuration was read and the route with its defaults
-- passes its validation.
pub generate-IsAccepted :
    (codec : Codec) (kube : Kube) (input : Input) (pkg : Package) (objs : List Object)
    (spec : Routes) (name : String) (raw : RawJson)
    → input.pkg ≡ some pkg
    → pkg.spec.routes ≡ some spec
    → lookup name spec.inbound ≡ some raw
    → generate codec kube input ≡ ok objs
    → IsAccepted kube codec spec input.shared_ingress_config input.shared_ingress_config_error name
        raw
unfolding inbound_of
generate-IsAccepted codec kube input pkg objs spec name raw e r there =
    let config = input.shared_ingress_config in
    let config_error = input.shared_ingress_config_error in
    let accepted = IsAccepted kube codec spec config config_error name raw in
    generate-ok codec kube input pkg accepted
      (subst (λ o. OnOk (λ rs. accepted) (inbound_of codec kube input o)) (sym r)
        (resolve_inbound_routes-ok kube codec spec config config_error name raw there))
      objs e
