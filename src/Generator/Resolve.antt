-- ===== src/Generator/Resolve.antt =====
-- `resolveEgressDefinition` and `resolveIngressDefinition` of pkg/generator/definitions.go.
pub mod Laws
pub mod IngressLaws
use bigbang_operator.Base.{
  String, Option, none, some, List, [], ◌∷◌, Error, message, wrap, Result, ok, err, within,
}
use bigbang_operator.Base.Dict.{Dict, lookup}
use bigbang_operator.Api.Netpol.{
  NetworkPolicies, NetworkPoliciesEgressDefinitionsValue, NetworkPoliciesIngressDefinitionsValue,
}
use bigbang_operator.Generator.Codec.{Codec}
use bigbang_operator.Generator.Definitions.{
  ResolvedDefinition, DefsEnv, parse_egress_definition, parse_ingress_definition,
  built_in_egress_definitions, built_in_ingress_definitions,
}

module _ (codec : Codec) where
  -- The layers behind the package-local one.
  unfoldable pub shared_egress_definition : String → DefsEnv → Result ResolvedDefinition
  unfolding lookup parse_egress_definition built_in_egress_definitions
  shared_egress_definition name env = elim (env.shared_err) [
    | some e ↦ err (wrap "egress definition %q: global config unreadable: %w" (name ∷ []) e)
    | none ↦ elim (lookup name env.shared_egress) [
      | some raw ↦
          within "global egress definition %s: %w" (name ∷ []) (parse_egress_definition codec raw)
      | none ↦ elim (lookup name (built_in_egress_definitions env.kube_api_ports)) [
        | some d ↦ ok d
        | none ↦ err (message "egress definition %q not found" (name ∷ []))
      ]
    ]
  ]

  unfoldable pub resolve_egress_definition :
      NetworkPolicies → String → DefsEnv → Result ResolvedDefinition
  unfolding shared_egress_definition lookup parse_egress_definition
  resolve_egress_definition spec name env = elim (spec.egress) [
    | none ↦ shared_egress_definition name env
    | some egress ↦ elim (lookup name egress.definitions) [
      | some raw ↦
          within "egress.definitions.%s: %w" (name ∷ []) (parse_egress_definition codec raw)
      | none ↦ shared_egress_definition name env
    ]
  ]

  unfoldable pub shared_ingress_definition : String → DefsEnv → Result ResolvedDefinition
  unfolding lookup parse_ingress_definition built_in_ingress_definitions
  shared_ingress_definition name env = elim (env.shared_err) [
    | some e ↦ err (wrap "ingress definition %q: global config unreadable: %w" (name ∷ []) e)
    | none ↦ elim (lookup name env.shared_ingress) [
      | some raw ↦
          within "global ingress definition %s: %w" (name ∷ []) (parse_ingress_definition codec raw)
      | none ↦ elim (lookup name built_in_ingress_definitions) [
        | some d ↦ ok d
        | none ↦ err (message "ingress definition %q not found" (name ∷ []))
      ]
    ]
  ]

  unfoldable pub resolve_ingress_definition :
      NetworkPolicies → String → DefsEnv → Result ResolvedDefinition
  unfolding shared_ingress_definition lookup parse_ingress_definition
  resolve_ingress_definition spec name env = elim (spec.ingress) [
    | none ↦ shared_ingress_definition name env
    | some ingress ↦ elim (lookup name ingress.definitions) [
      | some raw ↦
          within "ingress.definitions.%s: %w" (name ∷ []) (parse_ingress_definition codec raw)
      | none ↦ shared_ingress_definition name env
    ]
  ]
