-- ===== src/Generator/Netpol/Ingress.antt =====
-- `expandShorthandIngress` and its builders (networkpolicies_shorthand.go, definitions.go).
pub mod Made
use bigbang_operator.Base.{
  String, Bool, not, ◌&&◌, Option, none, some, List, [], ◌∷◌, ◌++◌, ◌==◌, if◌then◌else◌, message,
  Result, ok, ◌>>=◌, ◌>>◌, guard, within,
}
use bigbang_operator.Base.Dict.{is_empty, sorted_entries}
use bigbang_operator.Base.Lists.{collect}
use bigbang_operator.Base.Text.{concat, to_lower}
use bigbang_operator.Regexp.{match_string}
use bigbang_operator.Api.Common.{RawJson, Labels}
use bigbang_operator.Api.Netpol.{NetworkPolicies, NetworkPoliciesIngress}
use bigbang_operator.Api.Package.{Package}
use bigbang_operator.Object.{Object, fresh, Rule}
use bigbang_operator.Generator.Names.{prepend_name}
use bigbang_operator.Generator.Metadata.{clone_labels}
use bigbang_operator.Generator.Keys.Patterns.{literal_rule_key_re}
use bigbang_operator.Generator.Keys.Parse.{
  ParsedK8sRemote, ParsedLocalIngressKey, ParsedCidr, parse_ingress_remote_key,
  parse_ingress_local_key, parse_ingress_cidr_key,
}
use bigbang_operator.Generator.Values.{
  ShorthandSource, ShorthandTarget, ShorthandPeer, LiteralTarget, decode_source,
  merge_shorthand_metadata, apply_shorthand_metadata,
}
use bigbang_operator.Generator.Selectors.{
  remote_namespace_selector, remote_pod_selector, build_netpol_ports, default_netpol_labels,
}
use bigbang_operator.Generator.Codec.{Codec}
use bigbang_operator.Generator.Definitions.{ResolvedDefinition, DefsEnv, ip_peer}
use bigbang_operator.Generator.Resolve.{resolve_ingress_definition}
use bigbang_operator.Generator.Netpol.Local.{
  destination_selector, annotation, ingress_spec, ingress_prefix, ports_segment, port_suffix,
  cidr_segment, decode_literal_rules,
}

-- `pkg`, `prepend`, `npLabels`, `localKey`, `parsedLocal` and `local` of the builders.
pub record IngressContext : Type 0 where
  pub pkg : Package
  pub prepend : Bool
  pub labels : Labels
  pub local_key : String
  pub parsed : ParsedLocalIngressKey
  pub local : ShorthandSource

unfoldable pub ingress_policy : IngressContext → String → Labels → List Rule → Object
unfolding prepend_name clone_labels destination_selector concat ingress_prefix
ingress_policy c name annotations rules =
    fresh (prepend_name c.prepend c.pkg.name (concat (ingress_prefix c.parsed ∷ name ∷ [])))
      (clone_labels c.labels) ((annotation "local-key", c.parsed.pod) ∷ annotations)
      (ingress_spec (destination_selector c.parsed.pod c.local.pod_selector) rules)

remote_name : ParsedK8sRemote → String
unfolding concat
remote_name remote = concat (
    (if remote.namespace == "*"
      then "-from-any-ns"
      else concat ("-from-ns-" ∷ remote.namespace ∷ []))
    ∷ (if not (remote.pod == "") && not (remote.pod == "*")
        then concat ("-pod-" ∷ remote.pod ∷ [])
        else "-any-pod")
    ∷ [])

unfoldable pub build_shorthand_ingress_netpol :
    IngressContext → String → ParsedK8sRemote → ShorthandTarget → Object
unfolding ingress_policy remote_name port_suffix concat remote_namespace_selector
    remote_pod_selector build_netpol_ports
build_shorthand_ingress_netpol c remote_key remote target =
    let local = c.parsed in
    ingress_policy c
      (concat
        (port_suffix local.protocol local.ports local.has_port_range ∷ remote_name remote ∷ []))
      ((annotation "remote-key", remote_key) ∷ [])
      (record {
        peers =
            record {
              ip_block = none;
              namespace_selector =
                  some (remote_namespace_selector remote.namespace target.namespace_selector);
              pod_selector = some (remote_pod_selector remote.pod target.pod_selector);
            }
            ∷ [];
        ports = build_netpol_ports local.protocol local.ports local.has_port_range;
      }
        ∷ [])

unfoldable pub build_ingress_definition_netpol :
    IngressContext → String → ResolvedDefinition → Object
unfolding ingress_policy ports_segment concat to_lower build_netpol_ports
build_ingress_definition_netpol c def_name def =
    let local = c.parsed in
    ingress_policy c (concat (ports_segment local ∷ "-from-" ∷ to_lower def_name ∷ []))
      ((annotation "from-definition", def_name) ∷ [])
      (record {
        peers = def.peers;
        ports =
            if is_empty local.ports
            then def.ports
            else build_netpol_ports local.protocol local.ports local.has_port_range;
      }
        ∷ [])

unfoldable pub build_ingress_cidr_netpol : IngressContext → String → ParsedCidr → Object
unfolding ingress_policy ports_segment concat cidr_segment build_netpol_ports
build_ingress_cidr_netpol c cidr_key cidr =
    let local = c.parsed in
    ingress_policy c (concat (ports_segment local ∷ cidr_segment "-from" cidr.cidr ∷ []))
      ((annotation "remote-key", cidr_key) ∷ [])
      (record {
        peers = ip_peer cidr.cidr ∷ [];
        ports = build_netpol_ports local.protocol local.ports local.has_port_range;
      }
        ∷ [])

module _ (codec : Codec) where
  unfoldable pub build_ingress_literal_netpol :
      IngressContext → String → LiteralTarget → Result Object
  unfolding ingress_policy concat to_lower match_string literal_rule_key_re decode_literal_rules
  build_ingress_literal_netpol c rule_key lit = do
    guard (match_string literal_rule_key_re rule_key)
        (message "rule key %q cannot combine shorthand syntax with a spec value" (rule_key ∷ []))
    (rules, yaml) ← within "%s: %w" (rule_key ∷ []) (decode_literal_rules codec lit.spec)
    ok (
        ingress_policy c (concat ("-from-" ∷ to_lower rule_key ∷ []))
          ((annotation "remote-key", rule_key) ∷ (annotation "from-spec-literal", yaml) ∷ []) rules)

  module _ (spec : NetworkPolicies) (env : DefsEnv) (c : IngressContext) where
    -- One round of each of the four loops: nothing for a target that is not enabled.
    unfoldable pub ingress_k8s : String × ShorthandTarget → Result (List Object)
    unfolding parse_ingress_remote_key build_shorthand_ingress_netpol apply_shorthand_metadata
        merge_shorthand_metadata
    ingress_k8s (remote_key, target) =
        let built =
          within "networkPolicies.ingress.to.%s.from.k8s: %w" (c.local_key ∷ [])
            (parse_ingress_remote_key remote_key)
          >>= λ remote. ok (
              apply_shorthand_metadata (build_shorthand_ingress_netpol c remote_key remote target)
                (merge_shorthand_metadata c.local.metadata target.metadata)
              ∷ []) in
        if target.enabled then built else ok []

    unfoldable pub ingress_definition : String × ShorthandTarget → Result (List Object)
    unfolding resolve_ingress_definition build_ingress_definition_netpol apply_shorthand_metadata
        merge_shorthand_metadata
    ingress_definition (def_name, target) =
        let built =
          within "networkPolicies.ingress.to.%s.from.definition: %w" (c.local_key ∷ [])
            (resolve_ingress_definition codec spec def_name env)
          >>= λ def. ok (
              apply_shorthand_metadata (build_ingress_definition_netpol c def_name def)
                (merge_shorthand_metadata c.local.metadata target.metadata)
              ∷ []) in
        if target.enabled then built else ok []

    unfoldable pub ingress_cidr : String × ShorthandTarget → Result (List Object)
    unfolding parse_ingress_cidr_key build_ingress_cidr_netpol apply_shorthand_metadata
        merge_shorthand_metadata
    ingress_cidr (cidr_key, target) =
        let built =
          within "networkPolicies.ingress.to.%s.from.cidr: %w" (c.local_key ∷ [])
            (parse_ingress_cidr_key cidr_key)
          >>= λ cidr. ok (
              apply_shorthand_metadata (build_ingress_cidr_netpol c cidr_key cidr)
                (merge_shorthand_metadata c.local.metadata target.metadata)
              ∷ []) in
        if target.enabled then built else ok []

    unfoldable pub ingress_literal : String × LiteralTarget → Result (List Object)
    unfolding build_ingress_literal_netpol apply_shorthand_metadata merge_shorthand_metadata
    ingress_literal (rule_key, lit) =
        let built =
          within "networkPolicies.ingress.to.%s.from.literal: %w" (c.local_key ∷ [])
            (build_ingress_literal_netpol c rule_key lit)
          >>= λ np. ok (
              apply_shorthand_metadata np (merge_shorthand_metadata c.local.metadata lit.metadata)
              ∷ []) in
        if lit.enabled then built else ok []

    unfoldable pub ingress_peer : ShorthandPeer → Result (List Object)
    unfolding collect sorted_entries ingress_k8s ingress_definition ingress_cidr ingress_literal
    ingress_peer from = do
      k8s ← collect ingress_k8s (sorted_entries from.k8s)
      definitions ← collect ingress_definition (sorted_entries from.definition)
      cidrs ← collect ingress_cidr (sorted_entries from.cidr)
      literals ← collect ingress_literal (sorted_entries from.literal)
      ok (k8s ++ (definitions ++ (cidrs ++ literals)))

  module _ (pkg : Package) (spec : NetworkPolicies) (env : DefsEnv) where
    -- The round behind the test of `local.From`; the local key is parsed only then.
    ingress_local : String → ShorthandSource → Option ShorthandPeer → Result (List Object)
    unfolding ingress_peer parse_ingress_local_key default_netpol_labels
    ingress_local local_key local none = ok []
    ingress_local local_key local (some from) = do
      parsed ← within "networkPolicies.ingress.to: %w" [] (parse_ingress_local_key local_key)
      ingress_peer spec env
          (record {
            pkg = pkg;
            prepend = spec.prepend_release_name;
            labels = default_netpol_labels "ingress";
            local_key = local_key;
            parsed = parsed;
            local = local;
          })
          from

    -- One round of the outer loop.
    unfoldable pub ingress_to : String × RawJson → Result (List Object)
    unfolding ingress_local decode_source
    ingress_to (local_key, raw) = do
      source ← within "networkPolicies.ingress.to.%s: %w" (local_key ∷ []) (codec.source raw)
      let local = decode_source source
      ingress_local local_key local local.from

    unfoldable pub expand_shorthand_ingress : NetworkPoliciesIngress → Result (List Object)
    unfolding collect sorted_entries ingress_to
    expand_shorthand_ingress ingress = collect ingress_to (sorted_entries ingress.to)
