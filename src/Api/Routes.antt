-- ===== src/Api/Routes.antt =====
-- The `routes` part of a Package (api/v1alpha1/routes_shorthand.go).
use bigbang_operator.Base.{ℕ, String, Bool, Option, List}
use bigbang_operator.Base.Dict.{Dict}
use bigbang_operator.Api.Common.{RawJson, Labels, IntOrString}

-- `gateways` is `none` when it is absent, which differs from an empty list.
pub record InboundRouteDefaults : Type 0 where
  pub gateways : Option (List String)

pub record RouteDefaults : Type 0 where
  pub inbound : Option InboundRouteDefaults

pub record Routes : Type 0 where
  pub defaults : Option RouteDefaults
  pub inbound : Dict RawJson
  pub outbound : Dict RawJson
  pub prepend_release_name : Bool

-- `gatewayPort` is a Go int, kept as its bit pattern.
pub record RoutePassthrough : Type 0 where
  pub enabled : Bool
  pub gateway_port : Option ℕ

pub record InboundRoute : Type 0 where
  pub enabled : Bool
  pub gateways : Option (List String)
  pub hosts : List String
  pub service : String
  pub port : Option IntOrString
  pub container_port : Option IntOrString
  pub selector : Labels
  pub http : List RawJson
  pub passthrough : Option RoutePassthrough
  pub resolution : String
  pub labels : Labels
  pub annotations : Labels

pub record OutboundRoutePort : Type 0 where
  pub number : ℕ
  pub name : String
  pub protocol : String

pub record RouteMetadata : Type 0 where
  pub labels : Labels
  pub annotations : Labels

pub record OutboundRoute : Type 0 where
  pub enabled : Bool
  pub hosts : List String
  pub location : String
  pub resolution : String
  pub ports : List OutboundRoutePort
  pub metadata : Option RouteMetadata
