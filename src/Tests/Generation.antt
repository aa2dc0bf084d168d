-- ===== src/Tests/Generation.antt =====
-- Runs of the generator's parts.
use bigbang_operator.Controller.Ownership.{IsClaimed, generate-IsClaimed}
use bigbang_operator.Base.{
  true, not, ◌&&◌, none, some, List, [], ◌∷◌, ◌==◌, leb, message, Result, ok, err, ◌≡◌, refl,
}
use bigbang_operator.Base.Dict.{lookup}
use bigbang_operator.Base.Text.{text_le}
use bigbang_operator.Base.Dict.Laws.{first_of_two}
use bigbang_operator.Base.Lists.{All, any}
use bigbang_operator.Api.Common.{int}
use bigbang_operator.Object.{Object, Rule}
use bigbang_operator.Base.{◌&&◌}
use bigbang_operator.Generator.Defaults.{}
use bigbang_operator.Generator.Values.{}
use bigbang_operator.Generator.Selectors.{selector_of}
use bigbang_operator.Generator.Cidr.{parse_cidr, apply_exclude_cidrs, net_contains}
use bigbang_operator.Generator.Cidr.Laws.{apply_exclude_cidrs-exact}
use bigbang_operator.Generator.Metadata.{
  stamp_metadata, set_owner, stamp_labels, merge_maps, owner_of, label_managed_by, field_manager,
}
use bigbang_operator.Generator.Metadata.Laws.{
  stamp_metadata_idem, set_owner_lem, IsOwnedBy, other_owners, lookup-stamp_labels,
  lookup-merge_maps,
}
use bigbang_operator.Generator.Hbone.{inject_rules, inject_hbone_ports}
use bigbang_operator.Generator.Hbone.Laws.{inject_hbone_ports_idem}
use bigbang_operator.Generator.Hbone.Rules.{AreInjected, inject_rules_lem}
use bigbang_operator.Generator.Generate.{generate}
use bigbang_operator.Generator.Generate.Accepts.{IsAccepted, generate-IsAccepted}
use bigbang_operator.Generator.Definitions.{
  built_in_egress_definitions, built_in_ingress_definitions,
}
use bigbang_operator.Generator.Resolve.{resolve_egress_definition, resolve_ingress_definition}
use bigbang_operator.Generator.Resolve.IngressLaws.{resolve_ingress_definition-layers}
use bigbang_operator.Generator.Resolve.Laws.{resolve_egress_definition-layers}
use bigbang_operator.Tests.Fixtures.{codec, kube, policies, routes, pkg, defs, input, foreign}

objects_of : Result (List Object) → List Object
objects_of (ok objs) = objs
objects_of (err e) = []

abbrev emitted : List Object
unfolding generate objects_of
emitted = objects_of (generate codec kube input)

-- The package's run gives objects.
generated_test :
    any (λ (o : Object). o.name == "allow-egress-from-web-to-ns-db-any-pod-tcp-port-5432") emitted
    ≡ true
unfolding generate emitted text_le
generated_test = refl

generate-IsClaimed_example : All (IsClaimed pkg) emitted
unfolding generate emitted text_le
generate-IsClaimed_example = generate-IsClaimed codec kube input pkg emitted refl refl

generate-IsAccepted_example :
    IsAccepted kube codec routes input.shared_ingress_config input.shared_ingress_config_error "web"
      "{}"
unfolding generate emitted text_le lookup
generate-IsAccepted_example =
    generate-IsAccepted codec kube input pkg emitted routes "web" "{}" refl refl refl refl

apply_exclude_cidrs-exact_example :
    any (λ e. e == "10.1.0.0/16") (apply_exclude_cidrs "10.0.0.0/8" ("10.1.0.0/16" ∷ [])) ≡ (
      not ("10.1.0.0/16" == "10.0.0.0/8")
      && leb 8 16
      && net_contains (record { ip = 167772160; ones = 8 }) 167837953
      && any (λ e. e == "10.1.0.0/16") ("10.1.0.0/16" ∷ []))
unfolding parse_cidr
apply_exclude_cidrs-exact_example =
    apply_exclude_cidrs-exact "10.0.0.0/8" "10.1.0.0/16" ("10.1.0.0/16" ∷ [])
      (record { ip = 167772160; ones = 8 }) (record { ip = 167837696; ones = 16 }) 167837953 refl
      refl refl

-- An exclusion of the rule's own size but with another text is kept, and excludes all of it.
same_size_test : apply_exclude_cidrs "10.0.0.0/8" ("10.0.0.1/8" ∷ []) ≡ "10.0.0.1/8" ∷ []
unfolding apply_exclude_cidrs
same_size_test = refl

stamp_metadata_idem_example :
    stamp_metadata pkg (stamp_metadata pkg foreign) ≡ stamp_metadata pkg foreign
stamp_metadata_idem_example = stamp_metadata_idem pkg foreign

set_owner_lem_example :
    IsOwnedBy (owner_of pkg) (set_owner (owner_of pkg) [])
    × (other_owners "1234" (set_owner (owner_of pkg) []) ≡ other_owners "1234" [])
set_owner_lem_example = set_owner_lem (owner_of pkg) []

lookup-stamp_labels_example : lookup label_managed_by (stamp_labels "demo" []) ≡ some field_manager
unfolding lookup
lookup-stamp_labels_example = lookup-stamp_labels label_managed_by "demo" []

lookup-merge_maps_example :
    lookup "a" (merge_maps (("a", "1") ∷ []) (("a", "2") ∷ []))
    ≡ first_of_two (lookup "a" (("a", "2") ∷ [])) (lookup "a" (("a", "1") ∷ []))
unfolding lookup
lookup-merge_maps_example =
    lookup-merge_maps "a" (("a", "1") ∷ []) (("a", "2") ∷ []) (refl, tt) (refl, tt)

abbrev one_rule : Rule
one_rule = record {
  peers =
      record { ip_block = none; namespace_selector = some (selector_of []); pod_selector = none }
      ∷ [];
  ports = record { protocol = some "TCP"; port = some (int 80); end_port = none } ∷ [];
}

inject_rules_lem_example :
    AreInjected (one_rule ∷ []) (inject_rules (one_rule ∷ [])).0 (inject_rules (one_rule ∷ [])).1
inject_rules_lem_example = inject_rules_lem (one_rule ∷ [])

inject_hbone_ports_idem_example :
    inject_hbone_ports (inject_hbone_ports emitted) ≡ inject_hbone_ports emitted
inject_hbone_ports_idem_example = inject_hbone_ports_idem emitted

resolve_egress_definition-layers_example :
    resolve_egress_definition codec policies "missing" defs
    ≡ err (message "egress definition %q not found" ("missing" ∷ []))
unfolding lookup built_in_egress_definitions
resolve_egress_definition-layers_example =
    resolve_egress_definition-layers codec policies "missing" defs

resolve_ingress_definition-layers_example :
    resolve_ingress_definition codec policies "missing" defs
    ≡ err (message "ingress definition %q not found" ("missing" ∷ []))
unfolding lookup built_in_ingress_definitions
resolve_ingress_definition-layers_example =
    resolve_ingress_definition-layers codec policies "missing" defs
