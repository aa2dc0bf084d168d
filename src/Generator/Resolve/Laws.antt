-- ===== src/Generator/Resolve/Laws.antt =====
-- The layers of an egress definition of pkg/generator/definitions.go: package, global configuration,
-- built in.
use bigbang_operator.Base.{
  String, Option, none, some, [], ◌∷◌, Error, message, wrap, Result, ok, err, within, ◌≡◌, refl,
}
use bigbang_operator.Base.Dict.{lookup}
use bigbang_operator.Api.Netpol.{
  NetworkPolicies, NetworkPoliciesEgress, NetworkPoliciesEgressDefinitionsValue,
  NetworkPoliciesIngressDefinitionsValue,
}
use bigbang_operator.Generator.Codec.{Codec}
use bigbang_operator.Generator.Definitions.{
  ResolvedDefinition, DefsEnv, parse_egress_definition, built_in_egress_definitions,
}
use bigbang_operator.Generator.Resolve.{resolve_egress_definition, shared_egress_definition}

-- A definition of the package itself, if it has one of the name.
abbrev pub own_egress : NetworkPolicies → String → Option NetworkPoliciesEgressDefinitionsValue
own_egress spec name = elim (spec.egress) [ none ↦ none | some e ↦ lookup name e.definitions ]

abbrev pub own_ingress : NetworkPolicies → String → Option NetworkPoliciesIngressDefinitionsValue
own_ingress spec name = elim (spec.ingress) [ none ↦ none | some i ↦ lookup name i.definitions ]

-- The definition in the first of three layers that has one; an unreadable global configuration
-- hides the layers behind the package.
abbrev pub first_layer :
    {D : Type 0}
    → (D → Result ResolvedDefinition)
    → (D → Result ResolvedDefinition)
    → Option D
    → Option Error
    → Option D
    → Option ResolvedDefinition
    → Error
    → Result ResolvedDefinition
first_layer local global (some raw) e shared built_in missing = local raw
first_layer local global none (some e) shared built_in missing = err e
first_layer local global none none (some raw) built_in missing = global raw
first_layer local global none none none (some d) missing = ok d
first_layer local global none none none none missing = err missing

abbrev pub unreadable : String → String → Option Error → Option Error
unreadable text name none = none
unreadable text name (some e) = some (wrap text (name ∷ []) e)

module _ (codec : Codec) where
  shared_egress_lem :
      (name : String) (env : DefsEnv)
      (local : NetworkPoliciesEgressDefinitionsValue → Result ResolvedDefinition)
      → shared_egress_definition codec name env
        ≡ first_layer local
            (λ raw.
              within "global egress definition %s: %w"
                (name ∷ [])
                (parse_egress_definition codec raw))
            none
            (unreadable "egress definition %q: global config unreadable: %w" name env.shared_err)
            (lookup name env.shared_egress)
            (lookup name (built_in_egress_definitions env.kube_api_ports))
            (message "egress definition %q not found" (name ∷ []))
  unfolding shared_egress_definition
  shared_egress_lem name env local =
      go env.shared_err (lookup name env.shared_egress)
        (lookup name (built_in_egress_definitions env.kube_api_ports))
    where
      go :
          (x : Option Error) (s : Option NetworkPoliciesEgressDefinitionsValue)
          (b : Option ResolvedDefinition)
          → (elim x [
            | some e ↦ err (wrap "egress definition %q: global config unreadable: %w" (name ∷ []) e)
            | none ↦ elim s [
              | some raw ↦
                  within "global egress definition %s: %w"
                    (name ∷ [])
                    (parse_egress_definition codec raw)
              | none ↦ elim b [
                | some d ↦ ok d
                | none ↦ err (message "egress definition %q not found" (name ∷ []))
              ]
            ]
          ])
            ≡ first_layer local
                (λ raw.
                  within "global egress definition %s: %w"
                    (name ∷ [])
                    (parse_egress_definition codec raw))
                none
                (unreadable "egress definition %q: global config unreadable: %w" name x)
                s
                b
                (message "egress definition %q not found" (name ∷ []))
      go (some e) s b = refl
      go none (some raw) b = refl
      go none none (some d) = refl
      go none none none = refl

  -- A definition of the name is taken from the package's `egress.definitions`, else, if the global
  -- configuration could be read, from there, else from the built-in ones; without any of them, or
  -- behind an unreadable global configuration, the result is an error.
  pub resolve_egress_definition-layers :
      (spec : NetworkPolicies) (name : String) (env : DefsEnv)
      → resolve_egress_definition codec spec name env
        ≡ first_layer
            (λ raw.
              within "egress.definitions.%s: %w" (name ∷ []) (parse_egress_definition codec raw))
            (λ raw.
              within "global egress definition %s: %w"
                (name ∷ [])
                (parse_egress_definition codec raw))
            (own_egress spec name)
            (unreadable "egress definition %q: global config unreadable: %w" name env.shared_err)
            (lookup name env.shared_egress)
            (lookup name (built_in_egress_definitions env.kube_api_ports))
            (message "egress definition %q not found" (name ∷ []))
  unfolding resolve_egress_definition
  resolve_egress_definition-layers spec name env = go spec.egress
    where
      behind :
          (o : Option NetworkPoliciesEgressDefinitionsValue)
          → (elim o [
            | some raw ↦
                within "egress.definitions.%s: %w" (name ∷ []) (parse_egress_definition codec raw)
            | none ↦ shared_egress_definition codec name env
          ])
            ≡ first_layer
                (λ raw.
                  within "egress.definitions.%s: %w"
                    (name ∷ [])
                    (parse_egress_definition codec raw))
                (λ raw.
                  within "global egress definition %s: %w"
                    (name ∷ [])
                    (parse_egress_definition codec raw))
                o
                (unreadable "egress definition %q: global config unreadable: %w" name
                  env.shared_err)
                (lookup name env.shared_egress)
                (lookup name (built_in_egress_definitions env.kube_api_ports))
                (message "egress definition %q not found" (name ∷ []))
      behind (some raw) = refl
      behind none = shared_egress_lem name env (λ raw.
          within "egress.definitions.%s: %w" (name ∷ []) (parse_egress_definition codec raw))

      go :
          (o : Option NetworkPoliciesEgress)
          → (elim o [
            | none ↦ shared_egress_definition codec name env
            | some x ↦ elim (lookup name x.definitions) [
              | some raw ↦
                  within "egress.definitions.%s: %w" (name ∷ []) (parse_egress_definition codec raw)
              | none ↦ shared_egress_definition codec name env
            ]
          ])
            ≡ first_layer
                (λ raw.
                  within "egress.definitions.%s: %w"
                    (name ∷ [])
                    (parse_egress_definition codec raw))
                (λ raw.
                  within "global egress definition %s: %w"
                    (name ∷ [])
                    (parse_egress_definition codec raw))
                (elim o [ none ↦ none | some x ↦ lookup name x.definitions ])
                (unreadable "egress definition %q: global config unreadable: %w" name
                  env.shared_err)
                (lookup name env.shared_egress)
                (lookup name (built_in_egress_definitions env.kube_api_ports))
                (message "egress definition %q not found" (name ∷ []))
      go none = shared_egress_lem name env (λ raw.
          within "egress.definitions.%s: %w" (name ∷ []) (parse_egress_definition codec raw))
      go (some x) = behind (lookup name x.definitions)
