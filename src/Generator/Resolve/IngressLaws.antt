-- ===== src/Generator/Resolve/IngressLaws.antt =====
-- The layers of an ingress definition of pkg/generator/definitions.go.
use bigbang_operator.Base.{
  String, Option, none, some, [], ◌∷◌, Error, message, wrap, Result, ok, err, within, ◌≡◌, refl,
}
use bigbang_operator.Base.Dict.{lookup}
use bigbang_operator.Api.Netpol.{
  NetworkPolicies, NetworkPoliciesIngress, NetworkPoliciesIngressDefinitionsValue,
}
use bigbang_operator.Generator.Codec.{Codec}
use bigbang_operator.Generator.Definitions.{
  ResolvedDefinition, DefsEnv, parse_ingress_definition, built_in_ingress_definitions,
}
use bigbang_operator.Generator.Resolve.{resolve_ingress_definition, shared_ingress_definition}
use bigbang_operator.Generator.Resolve.Laws.{first_layer, own_ingress, unreadable}

module _ (codec : Codec) where
  shared_ingress_lem :
      (name : String) (env : DefsEnv)
      (local : NetworkPoliciesIngressDefinitionsValue → Result ResolvedDefinition)
      → shared_ingress_definition codec name env
        ≡ first_layer local
            (λ raw.
              within "global ingress definition %s: %w"
                (name ∷ [])
                (parse_ingress_definition codec raw))
            none
            (unreadable "ingress definition %q: global config unreadable: %w" name env.shared_err)
            (lookup name env.shared_ingress)
            (lookup name built_in_ingress_definitions)
            (message "ingress definition %q not found" (name ∷ []))
  unfolding shared_ingress_definition
  shared_ingress_lem name env local =
      go env.shared_err (lookup name env.shared_ingress) (lookup name built_in_ingress_definitions)
    where
      go :
          (x : Option Error) (s : Option NetworkPoliciesIngressDefinitionsValue)
          (b : Option ResolvedDefinition)
          → (elim x [
            | some e ↦
                err (wrap "ingress definition %q: global config unreadable: %w" (name ∷ []) e)
            | none ↦ elim s [
              | some raw ↦
                  within "global ingress definition %s: %w"
                    (name ∷ [])
                    (parse_ingress_definition codec raw)
              | none ↦ elim b [
                | some d ↦ ok d
                | none ↦ err (message "ingress definition %q not found" (name ∷ []))
              ]
            ]
          ])
            ≡ first_layer local
                (λ raw.
                  within "global ingress definition %s: %w"
                    (name ∷ [])
                    (parse_ingress_definition codec raw))
                none
                (unreadable "ingress definition %q: global config unreadable: %w" name x)
                s
                b
                (message "ingress definition %q not found" (name ∷ []))
      go (some e) s b = refl
      go none (some raw) b = refl
      go none none (some d) = refl
      go none none none = refl

  -- A definition of the name is taken from the package's `ingress.definitions`, else, if the global
  -- configuration could be read, from there, else from the built-in ones; without any of them, or
  -- behind an unreadable global configuration, the result is an error.
  pub resolve_ingress_definition-layers :
      (spec : NetworkPolicies) (name : String) (env : DefsEnv)
      → resolve_ingress_definition codec spec name env
        ≡ first_layer
            (λ raw.
              within "ingress.definitions.%s: %w" (name ∷ []) (parse_ingress_definition codec raw))
            (λ raw.
              within "global ingress definition %s: %w"
                (name ∷ [])
                (parse_ingress_definition codec raw))
            (own_ingress spec name)
            (unreadable "ingress definition %q: global config unreadable: %w" name env.shared_err)
            (lookup name env.shared_ingress)
            (lookup name built_in_ingress_definitions)
            (message "ingress definition %q not found" (name ∷ []))
  unfolding resolve_ingress_definition
  resolve_ingress_definition-layers spec name env = go spec.ingress
    where
      behind :
          (o : Option NetworkPoliciesIngressDefinitionsValue)
          → (elim o [
            | some raw ↦
                within "ingress.definitions.%s: %w" (name ∷ []) (parse_ingress_definition codec raw)
            | none ↦ shared_ingress_definition codec name env
          ])
            ≡ first_layer
                (λ raw.
                  within "ingress.definitions.%s: %w"
                    (name ∷ [])
                    (parse_ingress_definition codec raw))
                (λ raw.
                  within "global ingress definition %s: %w"
                    (name ∷ [])
                    (parse_ingress_definition codec raw))
                o
                (unreadable "ingress definition %q: global config unreadable: %w" name
                  env.shared_err)
                (lookup name env.shared_ingress)
                (lookup name built_in_ingress_definitions)
                (message "ingress definition %q not found" (name ∷ []))
      behind (some raw) = refl
      behind none = shared_ingress_lem name env (λ raw.
          within "ingress.definitions.%s: %w" (name ∷ []) (parse_ingress_definition codec raw))

      go :
          (o : Option NetworkPoliciesIngress)
          → (elim o [
            | none ↦ shared_ingress_definition codec name env
            | some x ↦ elim (lookup name x.definitions) [
              | some raw ↦
                  within "ingress.definitions.%s: %w"
                    (name ∷ [])
                    (parse_ingress_definition codec raw)
              | none ↦ shared_ingress_definition codec name env
            ]
          ])
            ≡ first_layer
                (λ raw.
                  within "ingress.definitions.%s: %w"
                    (name ∷ [])
                    (parse_ingress_definition codec raw))
                (λ raw.
                  within "global ingress definition %s: %w"
                    (name ∷ [])
                    (parse_ingress_definition codec raw))
                (elim o [ none ↦ none | some x ↦ lookup name x.definitions ])
                (unreadable "ingress definition %q: global config unreadable: %w" name
                  env.shared_err)
                (lookup name env.shared_ingress)
                (lookup name built_in_ingress_definitions)
                (message "ingress definition %q not found" (name ∷ []))
      go none = shared_ingress_lem name env (λ raw.
          within "ingress.definitions.%s: %w" (name ∷ []) (parse_ingress_definition codec raw))
      go (some x) = behind (lookup name x.definitions)
