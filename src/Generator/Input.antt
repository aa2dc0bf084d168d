-- ===== src/Generator/Input.antt =====
-- The input of the generator (generator.go, ingressconfig.go), and what it takes from the
-- Kubernetes libraries: validation of names and selectors, strict YAML, and the scheme.
use bigbang_operator.Base.{String, Option, List, Error, Result}
use bigbang_operator.Base.Dict.{Dict}
use bigbang_operator.Api.Common.{IntOrString, LabelSelector}
use bigbang_operator.Api.Netpol.{
  NetworkPoliciesEgressDefinitionsValue, NetworkPoliciesIngressDefinitionsValue,
}
use bigbang_operator.Api.Routes.{RouteDefaults, InboundRoute}
use bigbang_operator.Api.Package.{Package}
use bigbang_operator.Object.{Kind, Gvk}

pub record SharedRoutes : Type 0 where
  pub defaults : Option RouteDefaults

pub record GatewayDefinition : Type 0 where
  pub pod_selector : Option LabelSelector
  pub service_account_name : String

pub record IngressConfig : Type 0 where
  pub routes : SharedRoutes
  pub gateways : Dict GatewayDefinition

pub record ResolvedGateway : Type 0 where
  pub namespace : String
  pub name : String
  pub definition : GatewayDefinition

pub record ResolvedInbound : Type 0 where
  pub name : String
  pub route : InboundRoute
  pub gateways : List ResolvedGateway

-- The lists are the complaints of the validators; a valid value has none.
pub record Kube : Type 0 where
  pub is_dns1123_label : String → List String
  pub is_dns1123_subdomain : String → List String
  pub label_selector_as_selector : LabelSelector → Option Error
  pub unmarshal_egress : String → Result (Dict NetworkPoliciesEgressDefinitionsValue)
  pub unmarshal_ingress : String → Result (Dict NetworkPoliciesIngressDefinitionsValue)
  pub unmarshal_routes : String → Result SharedRoutes
  pub unmarshal_gateways : String → Result (Dict GatewayDefinition)

-- `scheme.ObjectKinds`: the registered versions of a Go type.
abbrev pub Scheme : Type 0
Scheme = Kind → Result (List Gvk)

-- `pkg` is the field `Package`; it and the scheme are pointers.
pub record Input : Type 0 where
  pub pkg : Option Package
  pub scheme : Option Scheme
  pub kube_api_ports : List IntOrString
  pub shared_egress_definitions : Dict NetworkPoliciesEgressDefinitionsValue
  pub shared_ingress_definitions : Dict NetworkPoliciesIngressDefinitionsValue
  pub shared_definitions_error : Option Error
  pub shared_ingress_config : Option IngressConfig
  pub shared_ingress_config_error : Option Error
