-- ===== src/Controller/Config.antt =====
-- `sharedConfig`, `kubeAPIPorts` and `packagesForGlobalConfig` of package_controller.go: what the
-- reconciler reads beside the Package.
use bigbang_operator.Base.{
  String, Bool, false, not, ◌&&◌, ◌||◌, Option, none, some, List, [], ◌∷◌, map, ◌==◌, if◌then◌else◌,
  Error, wrap, Result, ok, err, get_or,
}
use bigbang_operator.Base.Dict.{Dict, lookup}
use bigbang_operator.Base.Text.{contains}
use bigbang_operator.Api.Common.{RawJson, IntOrString}
use bigbang_operator.Api.Package.{Package}
use bigbang_operator.Generator.Input.{Input, Kube}
use bigbang_operator.Generator.Inbound.{
  parse_shared_egress_definitions, parse_shared_ingress_definitions, parse_ingress_config,
}

-- The answer of a `Get`.
pub data Found {ℓ} (A : Type ℓ) : Type ℓ where
  found : A → Found A
  missing : Found A
  failed : Error → Found A

-- `zero value of generator.Input`
abbrev pub empty_input : Input
empty_input = record {
  pkg = none;
  scheme = none;
  kube_api_ports = [];
  shared_egress_definitions = [];
  shared_ingress_definitions = [];
  shared_definitions_error = none;
  shared_ingress_config = none;
  shared_ingress_config_error = none;
}

-- A value with an error, as Go returns them.
abbrev value_of {ℓ} : {A : Type ℓ} → A → Result A → A
value_of d (ok a) = a
value_of d (err e) = d

abbrev error_of {ℓ} : {A : Type ℓ} → Result A → Option Error
error_of (ok a) = none
error_of (err e) = some e

abbrev optional {ℓ} : {A : Type ℓ} → Result A → Option A
optional (ok a) = some a
optional (err e) = none

abbrev text_at : String → Dict String → String
unfolding lookup
text_at key entries = get_or (lookup key entries) ""

-- The input from the data of the ConfigMap. The ingress definitions are parsed only behind egress
-- definitions that parse.
unfoldable pub from_config_map : Kube → Dict String → Input
unfolding lookup parse_shared_egress_definitions parse_shared_ingress_definitions
    parse_ingress_config
from_config_map kube entries =
    let egress = parse_shared_egress_definitions kube (text_at "egressDefinitions" entries) in
    let ingress = parse_shared_ingress_definitions kube (text_at "ingressDefinitions" entries) in
    let config =
      parse_ingress_config kube (text_at "routes" entries) (text_at "gateways" entries) in
    record empty_input {
      shared_egress_definitions = value_of [] egress;
      shared_ingress_definitions = elim egress [ ok defs ↦ value_of [] ingress | err e ↦ [] ];
      shared_definitions_error = elim egress [ ok defs ↦ error_of ingress | err e ↦ some e ];
      shared_ingress_config = optional config;
      shared_ingress_config_error = error_of config;
    }

unfoldable pub shared_config : Kube → String → String → Found (Dict String) → Input
unfolding from_config_map
shared_config kube namespace name config_map =
    if namespace == "" || name == "" then empty_input else elim config_map [
      | found entries ↦ from_config_map kube entries
      | missing ↦ empty_input
      | failed e ↦
          let error = wrap "get global config %s/%s: %w" (namespace ∷ name ∷ []) e in
          record empty_input {
            shared_definitions_error = some error;
            shared_ingress_config_error = some error;
          }
    ]

mentions_kube_api : Dict RawJson → Bool
unfolding contains
mentions_kube_api [] = false
mentions_kube_api ((k, raw) ∷ from) = contains "\"kubeAPI\"" raw || mentions_kube_api from

-- The target ports of the Service `default/kubernetes`, if the spec refers to them.
unfoldable pub kube_api_ports : Package → Found (List IntOrString) → List IntOrString
unfolding mentions_kube_api
kube_api_ports pkg service =
    let ports : List IntOrString = elim service [
      | found ports ↦ ports
      | missing ↦ []
      | failed e ↦ []
    ] in
    elim (pkg.spec.network_policies) [
      | none ↦ []
      | some np ↦ elim (np.egress) [
        | none ↦ []
        | some egress ↦ if np.enabled && mentions_kube_api egress.from then ports else []
      ]
    ]

-- The requests for a change of a ConfigMap: every Package, if it is the global one.
unfoldable pub packages_for_global_config :
    String → String → String → String → Found (List Package) → List (String × String)
packages_for_global_config namespace name obj_namespace obj_name packages =
    if not (obj_namespace == namespace) || not (obj_name == name) then [] else elim packages [
      | found pkgs ↦ map (λ p. (p.namespace, p.name)) pkgs
      | missing ↦ []
      | failed e ↦ []
    ]
