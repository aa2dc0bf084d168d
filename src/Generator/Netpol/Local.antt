-- ===== src/Generator/Netpol/Local.antt =====
-- What the builders of pkg/generator share: the selector and name of the local pods, the policy
-- of one rule, and the decoding of a literal rule.
use Prim.Native.Char.{Char, code}
use bigbang_operator.Base.{
  ℕ, String, Bool, not, ◌&&◌, List, [], ◌∷◌, ◌==◌, nat_eq, if◌then◌else◌, message, Result, ok, err,
  ◌>>=◌, within,
}
use bigbang_operator.Base.Dict.{is_empty}
use bigbang_operator.Base.Text.{concat, to_lower}
use bigbang_operator.Api.Common.{RawJson, Labels, LabelSelector}
use bigbang_operator.Object.{Rule, PolicyType, Spec, network_policy}
use bigbang_operator.Generator.Names.{
  name_any_pod, name_port_suffix, cidr_anywhere, cidr_name_segment,
}
use bigbang_operator.Generator.Keys.Parse.{proto_tcp, ParsedLocalIngressKey}
use bigbang_operator.Generator.Selectors.{selector_of, name_label}
use bigbang_operator.Generator.Codec.{Codec}

-- The source pods of an egress rule: all, by name, or by the entry's own selector.
unfoldable pub source_selector : String → Labels → LabelSelector
source_selector local_key pod_selector =
    if is_empty pod_selector
    then if local_key == "*" then selector_of [] else selector_of ((name_label, local_key) ∷ [])
    else selector_of pod_selector

-- The destination pods of an ingress rule.
unfoldable pub destination_selector : String → Labels → LabelSelector
destination_selector pod pod_selector =
    if is_empty pod_selector then selector_of ((name_label, pod) ∷ []) else selector_of pod_selector

unfoldable pub local_name : String → String
local_name local_key = if local_key == "*" then name_any_pod else local_key

abbrev pub annotation : String → String
unfolding concat
annotation name = concat ("generated.network-policies.bigbang.dev/" ∷ name ∷ [])

abbrev pub egress_spec : LabelSelector → List Rule → Spec
egress_spec selector rules = network_policy (record {
  pod_selector = selector;
  policy_types = PolicyType.egress ∷ [];
  egress = rules;
  ingress = [];
})

abbrev pub ingress_spec : LabelSelector → List Rule → Spec
ingress_spec selector rules = network_policy (record {
  pod_selector = selector;
  policy_types = PolicyType.ingress ∷ [];
  egress = [];
  ingress = rules;
})

-- `allow-ingress-to-<pod>`, with the protocol behind it unless it is TCP.
unfoldable pub ingress_prefix : ParsedLocalIngressKey → String
unfolding concat to_lower
ingress_prefix local =
    let base = concat ("allow-ingress-to-" ∷ local.pod ∷ []) in
    if not (local.protocol == "") && not (local.protocol == proto_tcp)
    then concat (base ∷ "-" ∷ to_lower local.protocol ∷ [])
    else base

-- `-<protocol>-<ports>`, if there are ports.
unfoldable pub ports_segment : ParsedLocalIngressKey → String
unfolding concat to_lower name_port_suffix
ports_segment local =
    if is_empty local.ports
    then ""
    else concat (
        "-"
        ∷ to_lower local.protocol
        ∷ "-"
        ∷ name_port_suffix local.ports local.has_port_range
        ∷ [])

-- `-<protocol>` if there are ports, and the port suffix in either case.
unfoldable pub port_suffix : String → List ℕ → Bool → String
unfolding concat to_lower name_port_suffix
port_suffix protocol ports has_range = concat (
    (if is_empty ports then "" else concat ("-" ∷ to_lower protocol ∷ []))
    ∷ "-"
    ∷ name_port_suffix ports has_range
    ∷ [])

unfoldable pub cidr_segment : String → String → String
unfolding concat cidr_name_segment
cidr_segment direction cidr =
    if cidr == cidr_anywhere
    then concat (direction ∷ "-anywhere" ∷ [])
    else concat (direction ∷ "-cidr-" ∷ cidr_name_segment cidr ∷ [])

is_newline : Char → Bool
is_newline c = nat_eq (code c) 10

-- `strings.TrimRight(s, "\n")`
trim_newlines : String → String
unfolding is_newline
trim_newlines String.[] = String.[]
trim_newlines (String.◌∷◌ c s) =
    let rest = trim_newlines s in
    if rest == "" && is_newline c then String.[] else String.◌∷◌ c rest

-- The YAML of a literal rule ends in one newline.
unfoldable pub decode_literal_rules : Codec → RawJson → Result (List Rule × String)
unfolding trim_newlines concat
decode_literal_rules codec raw =
    if raw == "" then err (message "literal rule has no spec" []) else do
      rules ← within "spec must be a rule array: %w" [] (codec.rules raw)
      yaml ← codec.json_to_yaml raw
      ok (rules, concat (trim_newlines yaml ∷ "\n" ∷ []))
