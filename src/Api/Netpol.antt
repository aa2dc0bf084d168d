-- ===== src/Api/Netpol.antt =====
-- The `networkPolicies` part of a Package (api/v1alpha1/zz_generated.types.go).
use bigbang_operator.Base.{ℕ, String, Bool, Option, List}
use bigbang_operator.Base.Dict.{Dict}
use bigbang_operator.Api.Common.{RawJson, Labels, Toggle, IntOrString}

pub record AdditionalPolicy : Type 0 where
  pub annotations : Labels
  pub labels : Labels
  pub name : String
  pub spec : Dict RawJson

pub record NetworkPoliciesDefaultsAsHooks : Type 0 where
  pub delete_policies : List String
  pub enabled : Option Bool
  pub hooks : List String
  pub weight : ℕ

pub record NetworkPoliciesEgressDefaults : Type 0 where
  pub allow_in_namespace : Option Toggle
  pub allow_istiod : Option Toggle
  pub allow_kube_dns : Option Toggle
  pub deny_all : Option Toggle
  pub enabled : Option Bool

pub record NetworkPoliciesIngressDefaults : Type 0 where
  pub allow_in_namespace : Option Toggle
  pub allow_prometheus_to_istio_sidecar : Option Toggle
  pub deny_all : Option Toggle
  pub enabled : Option Bool

-- One entry of a definition's `ports`, of either direction.
pub record DefinitionsValuePortsElem : Type 0 where
  pub end_port : Option ℕ
  pub port : Option IntOrString
  pub protocol : Option String

pub record DefinitionsValueIpBlock : Type 0 where
  pub cidr : Option String
  pub except : Option (List String)

-- One entry of an egress definition's `to` or an ingress definition's `from`.
pub record DefinitionsValuePeerElem : Type 0 where
  pub ip_block : Option DefinitionsValueIpBlock
  pub namespace_selector : Option (Dict RawJson)
  pub pod_selector : Option (Dict RawJson)

pub record NetworkPoliciesEgressDefinitionsValue : Type 0 where
  pub ports : List DefinitionsValuePortsElem
  pub to : List DefinitionsValuePeerElem

pub record NetworkPoliciesIngressDefinitionsValue : Type 0 where
  pub from : List DefinitionsValuePeerElem
  pub ports : List DefinitionsValuePortsElem

-- `excludeCIDRs` is `none` when it is absent, which differs from an empty list.
pub record NetworkPoliciesEgress : Type 0 where
  pub defaults : Option NetworkPoliciesEgressDefaults
  pub definitions : Dict NetworkPoliciesEgressDefinitionsValue
  pub exclude_cidrs : Option (List String)
  pub from : Dict RawJson

pub record NetworkPoliciesHbonePortInjection : Type 0 where
  pub enabled : Bool

pub record NetworkPoliciesIngress : Type 0 where
  pub defaults : Option NetworkPoliciesIngressDefaults
  pub definitions : Dict NetworkPoliciesIngressDefinitionsValue
  pub to : Dict RawJson

pub record NetworkPolicies : Type 0 where
  pub additional : List AdditionalPolicy
  pub additional_policies : List AdditionalPolicy
  pub defaults_as_hooks : Option NetworkPoliciesDefaultsAsHooks
  pub egress : Option NetworkPoliciesEgress
  pub enabled : Bool
  pub hbone_port_injection : Option NetworkPoliciesHbonePortInjection
  pub ingress : Option NetworkPoliciesIngress
  pub prepend_release_name : Bool
