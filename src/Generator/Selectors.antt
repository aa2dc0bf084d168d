-- ===== src/Generator/Selectors.antt =====
-- Selectors, ports and labels of the generated policies (pkg/generator/networkpolicies.go, and
-- `matchLabels` of definitions.go).
use bigbang_operator.Base.{ℕ, String, Bool, ◌||◌, none, some, List, [], ◌∷◌, ◌==◌, if◌then◌else◌}
use bigbang_operator.Base.Dict.{is_empty}
use bigbang_operator.Base.Text.{to_upper}
use bigbang_operator.Api.Common.{Labels, LabelSelector, from_int, to_u32}
use bigbang_operator.Object.{NetworkPolicyPort}
use bigbang_operator.Generator.Metadata.{label_netpol_source, label_netpol_source_value}

abbrev pub selector_of : Labels → LabelSelector
selector_of labels = record { match_labels = labels; match_expressions = [] }

unfoldable pub match_labels : String → String → LabelSelector
match_labels k v = selector_of ((k, v) ∷ [])

abbrev pub namespace_label : String
namespace_label = "kubernetes.io/metadata.name"

abbrev pub name_label : String
name_label = "app.kubernetes.io/name"

unfoldable pub remote_namespace_selector : String → Labels → LabelSelector
remote_namespace_selector ns override =
    if is_empty override
    then if ns == "*" then selector_of [] else selector_of ((namespace_label, ns) ∷ [])
    else selector_of override

unfoldable pub remote_pod_selector : String → Labels → LabelSelector
remote_pod_selector pod override =
    if is_empty override
    then if pod == "" || pod == "*" then selector_of [] else selector_of ((name_label, pod) ∷ [])
    else selector_of override

-- One port entry for each port of a list.
unfoldable pub single_ports : String → List ℕ → List NetworkPolicyPort
single_ports proto [] = []
single_ports proto (p ∷ ports) =
    record { protocol = some proto; port = some (from_int p); end_port = none }
    ∷ single_ports proto ports

abbrev ports_by : String → List ℕ → Bool → List NetworkPolicyPort
ports_by proto (a ∷ b ∷ []) has_range =
    if has_range
    then record { protocol = some proto; port = some (from_int a); end_port = some (to_u32 b) } ∷ []
    else single_ports proto (a ∷ b ∷ [])
ports_by proto ports has_range = single_ports proto ports

unfoldable pub build_netpol_ports : String → List ℕ → Bool → List NetworkPolicyPort
unfolding single_ports to_upper
build_netpol_ports protocol ports has_range =
    ports_by (if to_upper protocol == "UDP" then "UDP" else "TCP") ports has_range

abbrev pub direction_label : String
direction_label = "network-policies.bigbang.dev/direction"

unfoldable pub default_netpol_labels : String → Labels
default_netpol_labels direction =
    (label_netpol_source, label_netpol_source_value) ∷ (direction_label, direction) ∷ []
