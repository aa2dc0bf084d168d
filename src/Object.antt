-- ===== src/Object.antt =====
-- The Kubernetes and Istio objects that the generator emits, with the fields that it sets. A part
-- that the operator decodes from raw JSON into an Istio type it does not look into is a `Proto`.
use bigbang_operator.Base.{ℕ, String, Bool, Option, List, []}
use bigbang_operator.Api.Common.{Labels, IntOrString, LabelSelector}

-- `networkingv1.IPBlock`, `NetworkPolicyPeer`, `NetworkPolicyPort`; `end_port` is an int32 pattern.
pub record IpBlock : Type 0 where
  pub cidr : String
  pub except : List String

pub record NetworkPolicyPeer : Type 0 where
  pub ip_block : Option IpBlock
  pub namespace_selector : Option LabelSelector
  pub pod_selector : Option LabelSelector

pub record NetworkPolicyPort : Type 0 where
  pub protocol : Option String
  pub port : Option IntOrString
  pub end_port : Option ℕ

-- `NetworkPolicyEgressRule` with `To`, `NetworkPolicyIngressRule` with `From`.
pub record Rule : Type 0 where
  pub peers : List NetworkPolicyPeer
  pub ports : List NetworkPolicyPort

pub data PolicyType : Type 0 where
  egress ingress : PolicyType

pub record NetworkPolicySpec : Type 0 where
  pub pod_selector : LabelSelector
  pub policy_types : List PolicyType
  pub egress : List Rule
  pub ingress : List Rule

-- The decoded form of a raw Istio spec, which only the API server reads.
abbrev pub Proto : Type 0
Proto = String

pub data MtlsMode : Type 0 where
  mtls_unset disable permissive strict : MtlsMode

pub data OutboundMode : Type 0 where
  registry_only allow_any : OutboundMode

-- `Source`: namespaces, principals or ipBlocks.
pub record Source : Type 0 where
  pub namespaces : List String
  pub principals : List String
  pub ip_blocks : List String

-- A rule with one source and, in `ports`, at most one operation.
pub record AuthzRule : Type 0 where
  pub from : Source
  pub to : Option (List String)

-- `selector` is the workload selector's `matchLabels`. The only action generated is ALLOW, which is
-- the zero value of the type.
pub data AuthorizationPolicySpec : Type 0 where
  allow : Option Labels → List AuthzRule → AuthorizationPolicySpec
  raw : Proto → AuthorizationPolicySpec

pub record Destination : Type 0 where
  pub host : String
  pub port : Option ℕ

pub data HttpRoute : Type 0 where
  to_destination : Destination → HttpRoute
  raw : Proto → HttpRoute

pub record TlsRoute : Type 0 where
  pub match_port : ℕ
  pub sni_hosts : List String
  pub destination : Destination

pub record VirtualServiceSpec : Type 0 where
  pub hosts : List String
  pub gateways : List String
  pub http : List HttpRoute
  pub tls : List TlsRoute

pub data Location : Type 0 where
  mesh_external mesh_internal : Location

pub data Resolution : Type 0 where
  res_none static dns dns_round_robin : Resolution

pub record ServicePort : Type 0 where
  pub number : ℕ
  pub name : String
  pub protocol : String

pub data ServiceEntrySpec : Type 0 where
  entry : List String → Location → Resolution → List ServicePort → ServiceEntrySpec
  raw : Proto → ServiceEntrySpec

pub data Spec : Type 0 where
  network_policy : NetworkPolicySpec → Spec
  peer_authentication : MtlsMode → Spec
  authorization_policy : AuthorizationPolicySpec → Spec
  virtual_service : VirtualServiceSpec → Spec
  service_entry : ServiceEntrySpec → Spec
  sidecar : OutboundMode → Spec

pub data Kind : Type 0 where
  network_policy peer_authentication authorization_policy : Kind
  virtual_service service_entry sidecar : Kind

-- The Go type of an object.
abbrev pub kind_of : Spec → Kind
kind_of (Spec.network_policy s) = Kind.network_policy
kind_of (Spec.peer_authentication s) = Kind.peer_authentication
kind_of (Spec.authorization_policy s) = Kind.authorization_policy
kind_of (Spec.virtual_service s) = Kind.virtual_service
kind_of (Spec.service_entry s) = Kind.service_entry
kind_of (Spec.sidecar s) = Kind.sidecar

-- `schema.GroupVersionKind`
pub record Gvk : Type 0 where
  pub group : String
  pub version : String
  pub kind : String

-- `metav1.OwnerReference`
pub record OwnerReference : Type 0 where
  pub api_version : String
  pub kind : String
  pub name : String
  pub uid : String
  pub controller : Bool
  pub block_owner_deletion : Bool

pub record Object : Type 0 where
  pub gvk : Gvk
  pub name : String
  pub namespace : String
  pub labels : Labels
  pub annotations : Labels
  pub owner_references : List OwnerReference
  pub spec : Spec

-- An object as a constructor of the generator leaves it: no type, no namespace, no owner yet.
abbrev pub fresh : String → Labels → Labels → Spec → Object
fresh name labels annotations spec = record {
  gvk = record { group = ""; version = ""; kind = "" };
  name = name;
  namespace = "";
  labels = labels;
  annotations = annotations;
  owner_references = [];
  spec = spec;
}
