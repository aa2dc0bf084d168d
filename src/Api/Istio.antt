-- ===== src/Api/Istio.antt =====
-- The `istio` part of a Package (api/v1alpha1/zz_generated.types.go).
use bigbang_operator.Base.{String, Bool, Option, List}
use bigbang_operator.Base.Dict.{Dict}
use bigbang_operator.Api.Common.{RawJson, Labels, Toggle}

pub record IstioAmbient : Type 0 where
  pub enabled : Bool

pub record IstioAuthorizationPoliciesAdditionalPoliciesValueSpec : Type 0 where
  pub action : Option String
  pub rules : List (Dict RawJson)
  pub selector : Dict RawJson

pub record IstioAuthorizationPoliciesAdditionalPoliciesValue : Type 0 where
  pub annotations : Labels
  pub enabled : Bool
  pub labels : Labels
  pub name : Option String
  pub namespace : Option String
  pub spec : IstioAuthorizationPoliciesAdditionalPoliciesValueSpec

pub record IstioAuthorizationPoliciesCustomElem : Type 0 where
  pub annotations : Labels
  pub labels : Labels
  pub name : String
  pub spec : Dict RawJson

pub record IstioAuthorizationPoliciesDefaults : Type 0 where
  pub allow_in_namespace : Option Toggle
  pub deny_all : Option Toggle
  pub enabled : Option Bool

pub record IstioAuthorizationPolicies : Type 0 where
  pub additional_policies : Dict IstioAuthorizationPoliciesAdditionalPoliciesValue
  pub custom : List IstioAuthorizationPoliciesCustomElem
  pub defaults : Option IstioAuthorizationPoliciesDefaults
  pub enabled : Bool
  pub generate_from_netpol : Option Bool

pub record IstioMtls : Type 0 where
  pub mode : String

pub record IstioServiceEntriesCustomElem : Type 0 where
  pub annotations : Labels
  pub labels : Labels
  pub name : String
  pub spec : Dict RawJson

pub record IstioServiceEntries : Type 0 where
  pub custom : List IstioServiceEntriesCustomElem

pub record IstioSidecar : Type 0 where
  pub enabled : Bool
  pub outbound_traffic_policy_mode : String

pub record Istio : Type 0 where
  pub ambient : Option IstioAmbient
  pub authorization_policies : Option IstioAuthorizationPolicies
  pub enabled : Bool
  pub mtls : Option IstioMtls
  pub prepend_release_name : Bool
  pub service_entries : Option IstioServiceEntries
  pub sidecar : Option IstioSidecar
