-- ===== src/Generator/Codec.antt =====
-- What `encoding/json` and `sigs.k8s.io/yaml` do with raw JSON from the Package, as a parameter of
-- the model: each field decodes into the struct that the source names, or gives an error.
use bigbang_operator.Base.{String, List, Result}
use bigbang_operator.Base.Dict.{Dict}
use bigbang_operator.Api.Common.{RawJson}
use bigbang_operator.Api.Istio.{IstioAuthorizationPoliciesAdditionalPoliciesValueSpec}
use bigbang_operator.Api.Routes.{InboundRoute, OutboundRoute}
use bigbang_operator.Object.{Proto, Rule, NetworkPolicySpec}
use bigbang_operator.Generator.Values.{Value, RawSource}

pub record Codec : Type 0 where
  -- One `egress.from` or `ingress.to` value, up to the program's own unmarshalers.
  pub source : RawJson → Result RawSource
  -- One value of a definition's selector.
  pub selector_value : RawJson → Result Value
  -- A route's raw JSON, marshalled, and the bytes decoded into the API types.
  pub marshal_route : RawJson → Result String
  pub inbound : String → Result InboundRoute
  pub outbound : String → Result OutboundRoute
  -- The rule array of a literal, and its rendering as YAML.
  pub rules : RawJson → Result (List Rule)
  pub json_to_yaml : RawJson → Result String
  -- Raw specs, marshalled and decoded into the API types.
  pub network_policy : Dict RawJson → Result NetworkPolicySpec
  pub service_entry : Dict RawJson → Result Proto
  pub authorization_policy : Dict RawJson → Result Proto
  pub additional_authorization_policy :
      IstioAuthorizationPoliciesAdditionalPoliciesValueSpec → Result Proto
  pub http_route : RawJson → Result Proto
