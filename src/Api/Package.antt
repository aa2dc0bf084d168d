-- ===== src/Api/Package.antt =====
-- The Package resource with its status (api/v1alpha1/package_types.go). Of the object metadata it
-- holds what the operator reads. A time stamp is a number.
use bigbang_operator.Base.{ℕ, String, Bool, Option, List}
use bigbang_operator.Api.Istio.{Istio}
use bigbang_operator.Api.Netpol.{NetworkPolicies}
use bigbang_operator.Api.Routes.{Routes}

pub record PackageSpec : Type 0 where
  pub istio : Option Istio
  pub network_policies : Option NetworkPolicies
  pub routes : Option Routes

pub record AppliedResource : Type 0 where
  pub api_version : String
  pub kind : String
  pub name : String

-- `metav1.Condition`
pub record Condition : Type 0 where
  pub type : String
  pub status : Bool
  pub reason : String
  pub message : String
  pub observed_generation : ℕ
  pub last_transition_time : ℕ

pub record PackageStatus : Type 0 where
  pub observed_generation : ℕ
  pub conditions : List Condition
  pub applied_resources : List AppliedResource

pub record Package : Type 0 where
  pub name : String
  pub namespace : String
  pub uid : String
  pub generation : ℕ
  -- `!DeletionTimestamp.IsZero()`
  pub deleted : Bool
  pub spec : PackageSpec
  pub status : PackageStatus
