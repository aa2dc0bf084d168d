-- ===== src/Generator/Netpol/Egress.antt =====
-- `expandShorthandEgress` and its builders (networkpolicies_shorthand.go, definitions.go).
pub mod Made
pub mod SameName
use bigbang_operator.Base.{
  String, Bool, not, ◌&&◌, Option, none, some, List, [], ◌∷◌, ◌++◌, ◌==◌, if◌then◌else◌, message,
  Result, ok, ◌>>=◌, ◌>>◌, guard, within,
}
use bigbang_operator.Base.Dict.{sorted_entries}
use bigbang_operator.Base.Lists.{collect}
use bigbang_operator.Base.Text.{concat, to_lower}
use bigbang_operator.Regexp.{match_string}
use bigbang_operator.Api.Common.{RawJson, Labels}
use bigbang_operator.Api.Netpol.{NetworkPolicies, NetworkPoliciesEgress}
use bigbang_operator.Api.Package.{Package}
use bigbang_operator.Object.{Object, fresh, Rule}
use bigbang_operator.Generator.Names.{prepend_name}
use bigbang_operator.Generator.Metadata.{clone_labels}
use bigbang_operator.Generator.Keys.Patterns.{literal_rule_key_re}
use bigbang_operator.Generator.Keys.Parse.{
  ParsedK8sRemote, ParsedCidr, parse_egress_remote_key, parse_egress_cidr_key,
}
use bigbang_operator.Generator.Values.{
  ShorthandSource, ShorthandTarget, ShorthandPeer, LiteralTarget, decode_source,
  merge_shorthand_metadata, apply_shorthand_metadata,
}
use bigbang_operator.Generator.Selectors.{
  remote_namespace_selector, remote_pod_selector, build_netpol_ports, default_netpol_labels,
}
use bigbang_operator.Generator.Cidr.{apply_exclude_cidrs, exclude_cidrs_for}
use bigbang_operator.Generator.Codec.{Codec}
use bigbang_operator.Generator.Definitions.{ResolvedDefinition, DefsEnv}
use bigbang_operator.Generator.Resolve.{resolve_egress_definition}
use bigbang_operator.Generator.Netpol.Local.{
  source_selector, local_name, annotation, egress_spec, port_suffix, cidr_segment,
  decode_literal_rules,
}

-- `pkg`, `prepend`, `npLabels`, `localKey` and `local`, which every builder takes.
pub record EgressContext : Type 0 where
  pub pkg : Package
  pub prepend : Bool
  pub labels : Labels
  pub local_key : String
  pub local : ShorthandSource

unfoldable pub egress_policy : EgressContext → String → Labels → List Rule → Object
unfolding prepend_name clone_labels source_selector concat local_name
egress_policy c name annotations rules =
    fresh
      (prepend_name c.prepend c.pkg.name
        (concat ("allow-egress-from-" ∷ local_name c.local_key ∷ name ∷ [])))
      (clone_labels c.labels) ((annotation "local-key", c.local_key) ∷ annotations)
      (egress_spec (source_selector c.local_key c.local.pod_selector) rules)

remote_name : ParsedK8sRemote → String
unfolding concat port_suffix
remote_name remote = concat (
    (if remote.namespace == "*" then "-to-any-ns" else concat ("-to-ns-" ∷ remote.namespace ∷ []))
    ∷ (if not (remote.pod == "") && not (remote.pod == "*")
        then concat ("-pod-" ∷ remote.pod ∷ [])
        else "-any-pod")
    ∷ port_suffix remote.protocol remote.ports remote.has_port_range
    ∷ [])

unfoldable pub build_shorthand_egress_netpol :
    EgressContext → String → ParsedK8sRemote → ShorthandTarget → Object
unfolding egress_policy remote_name remote_namespace_selector remote_pod_selector build_netpol_ports
build_shorthand_egress_netpol c remote_key remote target =
    egress_policy c (remote_name remote) ((annotation "remote-key", remote_key) ∷ []) (
      record {
        peers =
            record {
              ip_block = none;
              namespace_selector =
                  some (remote_namespace_selector remote.namespace target.namespace_selector);
              pod_selector = some (remote_pod_selector remote.pod target.pod_selector);
            }
            ∷ [];
        ports = build_netpol_ports remote.protocol remote.ports remote.has_port_range;
      }
      ∷ [])

unfoldable pub build_egress_definition_netpol : EgressContext → String → ResolvedDefinition → Object
unfolding egress_policy concat to_lower
build_egress_definition_netpol c def_name def =
    egress_policy c (concat ("-to-" ∷ to_lower def_name ∷ []))
      ((annotation "from-definition", def_name) ∷ [])
      (record { peers = def.peers; ports = def.ports } ∷ [])

unfoldable pub build_egress_cidr_netpol :
    EgressContext → NetworkPolicies → String → ParsedCidr → Object
unfolding egress_policy concat cidr_segment port_suffix apply_exclude_cidrs exclude_cidrs_for
    build_netpol_ports
build_egress_cidr_netpol c spec cidr_key cidr =
    egress_policy c
      (concat (
        cidr_segment "-to" cidr.cidr
        ∷ port_suffix cidr.protocol cidr.ports cidr.has_port_range
        ∷ []))
      ((annotation "remote-key", cidr_key) ∷ [])
      (record {
        peers =
            record {
              ip_block = some (record {
                cidr = cidr.cidr;
                except = apply_exclude_cidrs cidr.cidr (exclude_cidrs_for spec);
              });
              namespace_selector = none;
              pod_selector = none;
            }
            ∷ [];
        ports = build_netpol_ports cidr.protocol cidr.ports cidr.has_port_range;
      }
        ∷ [])

module _ (codec : Codec) where
  unfoldable pub build_egress_literal_netpol :
      EgressContext → String → LiteralTarget → Result Object
  unfolding egress_policy concat to_lower match_string literal_rule_key_re decode_literal_rules
  build_egress_literal_netpol c rule_key lit = do
    guard (match_string literal_rule_key_re rule_key)
        (message "rule key %q cannot combine shorthand syntax with a spec value" (rule_key ∷ []))
    (rules, yaml) ← within "%s: %w" (rule_key ∷ []) (decode_literal_rules codec lit.spec)
    ok (
        egress_policy c (concat ("-to-" ∷ to_lower rule_key ∷ []))
          ((annotation "remote-key", rule_key) ∷ (annotation "from-spec-literal", yaml) ∷ []) rules)

  module _ (spec : NetworkPolicies) (env : DefsEnv) (c : EgressContext) where
    -- One round of each of the four loops: nothing for a target that is not enabled.
    unfoldable pub egress_k8s : String × ShorthandTarget → Result (List Object)
    unfolding parse_egress_remote_key build_shorthand_egress_netpol apply_shorthand_metadata
        merge_shorthand_metadata
    egress_k8s (remote_key, target) =
        let built =
          within "networkPolicies.egress.from.%s.to.k8s: %w" (c.local_key ∷ [])
            (parse_egress_remote_key remote_key)
          >>= λ remote. ok (
              apply_shorthand_metadata (build_shorthand_egress_netpol c remote_key remote target)
                (merge_shorthand_metadata c.local.metadata target.metadata)
              ∷ []) in
        if target.enabled then built else ok []

    unfoldable pub egress_definition : String × ShorthandTarget → Result (List Object)
    unfolding resolve_egress_definition build_egress_definition_netpol apply_shorthand_metadata
        merge_shorthand_metadata
    egress_definition (def_name, target) =
        let built =
          within "networkPolicies.egress.from.%s.to.definition: %w" (c.local_key ∷ [])
            (resolve_egress_definition codec spec def_name env)
          >>= λ def. ok (
              apply_shorthand_metadata (build_egress_definition_netpol c def_name def)
                (merge_shorthand_metadata c.local.metadata target.metadata)
              ∷ []) in
        if target.enabled then built else ok []

    unfoldable pub egress_cidr : String × ShorthandTarget → Result (List Object)
    unfolding parse_egress_cidr_key build_egress_cidr_netpol apply_shorthand_metadata
        merge_shorthand_metadata
    egress_cidr (cidr_key, target) =
        let built =
          within "networkPolicies.egress.from.%s.to.cidr: %w" (c.local_key ∷ [])
            (parse_egress_cidr_key cidr_key)
          >>= λ cidr. ok (
              apply_shorthand_metadata (build_egress_cidr_netpol c spec cidr_key cidr)
                (merge_shorthand_metadata c.local.metadata target.metadata)
              ∷ []) in
        if target.enabled then built else ok []

    unfoldable pub egress_literal : String × LiteralTarget → Result (List Object)
    unfolding build_egress_literal_netpol apply_shorthand_metadata merge_shorthand_metadata
    egress_literal (rule_key, lit) =
        let built =
          within "networkPolicies.egress.from.%s.to.literal: %w" (c.local_key ∷ [])
            (build_egress_literal_netpol c rule_key lit)
          >>= λ np. ok (
              apply_shorthand_metadata np (merge_shorthand_metadata c.local.metadata lit.metadata)
              ∷ []) in
        if lit.enabled then built else ok []

    unfoldable pub egress_peer : Option ShorthandPeer → Result (List Object)
    unfolding collect sorted_entries egress_k8s egress_definition egress_cidr egress_literal
    egress_peer none = ok []
    egress_peer (some to) = do
      k8s ← collect egress_k8s (sorted_entries to.k8s)
      definitions ← collect egress_definition (sorted_entries to.definition)
      cidrs ← collect egress_cidr (sorted_entries to.cidr)
      literals ← collect egress_literal (sorted_entries to.literal)
      ok (k8s ++ (definitions ++ (cidrs ++ literals)))

  module _ (pkg : Package) (spec : NetworkPolicies) (env : DefsEnv) where
    -- One round of the outer loop.
    unfoldable pub egress_from : String × RawJson → Result (List Object)
    unfolding egress_peer decode_source default_netpol_labels
    egress_from (local_key, raw) = do
      source ← within "networkPolicies.egress.from.%s: %w" (local_key ∷ []) (codec.source raw)
      let local = decode_source source
      egress_peer spec env
          (record {
            pkg = pkg;
            prepend = spec.prepend_release_name;
            labels = default_netpol_labels "egress";
            local_key = local_key;
            local = local;
          })
          local.to

    unfoldable pub expand_shorthand_egress : NetworkPoliciesEgress → Result (List Object)
    unfolding collect sorted_entries egress_from
    expand_shorthand_egress egress = collect egress_from (sorted_entries egress.from)
