-- ===== src/Tests/Shorthand.antt =====
-- Runs of the expansion of shorthands and routes.
use mathlib.Core.List.{Permᴰ}
use bigbang_operator.Base.{
  true, ◌&&◌, none, some, List, [], ◌∷◌, leb, Result, ok, err, ◌≡◌, refl, map,
}
use bigbang_operator.Base.Dict.{Dict, lookup}
use bigbang_operator.Base.Text.{text_le}
use bigbang_operator.Base.Dict.Laws.{first_of_two}
use bigbang_operator.Base.Lists.{All, any}
use bigbang_operator.Api.Common.{RawJson}
use bigbang_operator.Base.{ℕ, ◌&&◌, nat_eq, false, String}
use bigbang_operator.Base.Text.{itoa}
use bigbang_operator.Api.Netpol.{NetworkPolicies}
use bigbang_operator.Generator.Defaults.{
  egress_side_enabled, ingress_side_enabled, default_egress_policies, default_ingress_policies,
}
use bigbang_operator.Generator.Defaults.Laws.{sides_off}
use bigbang_operator.Generator.Authz.Gates.{generate_default_authz_policies}
use bigbang_operator.Base.{◌⊎◌, ◌-◌, ◌+◌, ◌^◌, ◌<◌, ok, err, endless, arith}
use bigbang_operator.Generator.Keys.Parse.{ParsedLocalIngressKey}
use bigbang_operator.Generator.Authz.Shorthand.{operation_ports}
use bigbang_operator.Generator.Authz.Shorthand.Laws.{operation_ports-range}
use bigbang_operator.Generator.Values.{
  ShorthandMetadata, merge_shorthand_metadata, apply_shorthand_metadata,
}
use bigbang_operator.Generator.Values.Laws.{apply_shorthand_metadata-precedence}
use bigbang_operator.Generator.Input.{ResolvedInbound}
use bigbang_operator.Generator.Inbound.Laws.{IsResolved, resolve_inbound_routes-IsResolved}
use bigbang_operator.Generator.Metadata.{}
use bigbang_operator.Generator.Metadata.Laws.{}
use bigbang_operator.Generator.Hbone.Laws.{}
use bigbang_operator.Generator.Definitions.{}
use bigbang_operator.Generator.Netpol.Egress.{expand_shorthand_egress}
use bigbang_operator.Generator.Netpol.Ingress.{expand_shorthand_ingress}
use bigbang_operator.Generator.Inbound.{resolve_inbound_routes}
use bigbang_operator.Generator.RouteResources.{generate_routes}
use bigbang_operator.Generator.Determinism.{expand_shorthand-perm, routes-perm}
use bigbang_operator.Tests.Fixtures.{
  codec, kube, egress, ingress, policies, routes, pkg, defs, foreign,
}

abbrev two : Dict RawJson
two = ("web", "a") ∷ ("api", "b") ∷ []

abbrev two_swapped : Dict RawJson
two_swapped = ("api", "b") ∷ ("web", "a") ∷ []

swapped : Permᴰ two two_swapped
swapped = Permᴰ.swap refl refl

expand_shorthand-perm_example :
    (expand_shorthand_egress codec pkg policies defs (record egress { from = two })
      ≡ expand_shorthand_egress codec pkg policies defs (record egress { from = two_swapped }))
    × (expand_shorthand_ingress codec pkg policies defs (record ingress { to = two })
        ≡ expand_shorthand_ingress codec pkg policies defs (record ingress { to = two_swapped }))
unfolding lookup
expand_shorthand-perm_example =
    expand_shorthand-perm codec pkg policies defs egress ingress two two_swapped two two_swapped
      (refl, (refl, tt)) (refl, (refl, tt)) swapped swapped

routes-perm_example :
    (resolve_inbound_routes kube codec (record routes { inbound = two }) none none
      ≡ resolve_inbound_routes kube codec (record routes { inbound = two_swapped }) none none)
    × (generate_routes codec pkg (record routes { outbound = two }) []
        ≡ generate_routes codec pkg (record routes { outbound = two_swapped }) [])
unfolding lookup
routes-perm_example =
    routes-perm codec kube pkg routes none none [] two two_swapped two two_swapped
      (refl, (refl, tt)) (refl, (refl, tt)) swapped swapped

abbrev off_policies : NetworkPolicies
off_policies = record policies {
  egress = some (record egress {
    defaults = some (record {
      allow_in_namespace = none;
      allow_istiod = none;
      allow_kube_dns = some (record { enabled = some true });
      deny_all = none;
      enabled = some false;
    });
  });
  ingress = some (record ingress {
    defaults = some (record {
      allow_in_namespace = none;
      allow_prometheus_to_istio_sidecar = none;
      deny_all = none;
      enabled = some false;
    });
  });
}

sides_off_example :
    (default_egress_policies pkg off_policies none ≡ [])
    × (default_ingress_policies pkg off_policies none ≡ [])
    × (generate_default_authz_policies pkg none (some off_policies) ≡ [])
unfolding egress_side_enabled ingress_side_enabled
sides_off_example = sides_off pkg off_policies none refl refl

abbrev web_range : ParsedLocalIngressKey
web_range = record { pod = "web"; protocol = "TCP"; ports = 80 ∷ 82 ∷ []; has_port_range = true }

operation_ports-range_example :
    ((82 + 1 < 2 ^ 63)
      × ((list : List ℕ) × (operation_ports web_range ≡ ok (some (map itoa list)))
          × ((p : ℕ) → any (λ q. nat_eq q p) list ≡ (leb 80 p && leb p 82))))
    ⊎ ((82 ≡ 2 ^ 63 - 1) × (operation_ports web_range ≡ err endless))
operation_ports-range_example =
    operation_ports-range web_range 80 82 refl refl (omega arith) (omega arith)

abbrev meta_of : String → ShorthandMetadata
meta_of v = record { labels = ("a", v) ∷ []; annotations = ("b", v) ∷ [] }

apply_shorthand_metadata-precedence_example :
    (lookup "a"
        (apply_shorthand_metadata foreign
          (merge_shorthand_metadata (some (meta_of "local")) (some (meta_of "remote")))).labels
      ≡ first_of_two (lookup "a" foreign.labels) (
          first_of_two
            (lookup "a" (meta_of "remote").labels)
            (lookup "a" (meta_of "local").labels)))
    × (lookup "a"
          (apply_shorthand_metadata foreign (
            merge_shorthand_metadata
              (some (meta_of "local"))
              (some (meta_of "remote")))).annotations
        ≡ first_of_two (lookup "a" foreign.annotations) (
            first_of_two
              (lookup "a" (meta_of "remote").annotations)
              (lookup "a" (meta_of "local").annotations)))
unfolding lookup
apply_shorthand_metadata-precedence_example =
    apply_shorthand_metadata-precedence "a" foreign (meta_of "local") (meta_of "remote") tt tt
      (refl, tt) (refl, tt) (refl, tt) (refl, tt)

resolved_of : Result (List ResolvedInbound) → List ResolvedInbound
resolved_of (ok rs) = rs
resolved_of (err e) = []

abbrev resolved : List ResolvedInbound
unfolding resolve_inbound_routes resolved_of text_le
resolved = resolved_of (resolve_inbound_routes kube codec routes none none)

resolve_inbound_routes-IsResolved_example : All IsResolved resolved
unfolding resolve_inbound_routes resolved text_le
resolve_inbound_routes-IsResolved_example =
    resolve_inbound_routes-IsResolved kube codec routes none none resolved refl
