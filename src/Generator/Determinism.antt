-- ===== src/Generator/Determinism.antt =====
-- The loops of pkg/generator that walk a map in the order of its sorted keys: their result is that
-- of the map, not of the order in which Go walks it.
use mathlib.Core.List.{Permᴰ}
use bigbang_operator.Base.{Option, List, ok, ◌>>=◌, ◌++◌, Error, ◌≡◌, ap}
use bigbang_operator.Base.Dict.{Dict}
use bigbang_operator.Base.Dict.Laws.{HasDistinctKeys, sorted_entries-perm}
use bigbang_operator.Base.Lists.{collect}
use bigbang_operator.Api.Common.{RawJson}
use bigbang_operator.Api.Netpol.{NetworkPolicies, NetworkPoliciesEgress, NetworkPoliciesIngress}
use bigbang_operator.Api.Routes.{Routes}
use bigbang_operator.Api.Package.{Package}
use bigbang_operator.Generator.Codec.{Codec}
use bigbang_operator.Generator.Definitions.{DefsEnv}
use bigbang_operator.Generator.Input.{Kube, IngressConfig, ResolvedInbound}
use bigbang_operator.Generator.Inbound.{resolve_inbound, resolve_inbound_routes}
use bigbang_operator.Generator.RouteResources.{inbound_objects, outbound_objects, generate_routes}
use bigbang_operator.Generator.Netpol.Egress.{expand_shorthand_egress}
use bigbang_operator.Generator.Netpol.Ingress.{expand_shorthand_ingress}

-- Both network policy expansions give the same result, in the same order, for two orders of the
-- entries of their outer maps, if no key occurs twice.
pub expand_shorthand-perm :
    (codec : Codec) (pkg : Package) (spec : NetworkPolicies) (env : DefsEnv)
    (egress : NetworkPoliciesEgress) (ingress : NetworkPoliciesIngress)
    (from from' to to' : Dict RawJson)
    → HasDistinctKeys from
    → HasDistinctKeys to
    → Permᴰ from from'
    → Permᴰ to to'
    → (expand_shorthand_egress codec pkg spec env (record egress { from = from })
        ≡ expand_shorthand_egress codec pkg spec env (record egress { from = from' }))
      × (expand_shorthand_ingress codec pkg spec env (record ingress { to = to })
          ≡ expand_shorthand_ingress codec pkg spec env (record ingress { to = to' }))
unfolding expand_shorthand_egress expand_shorthand_ingress
expand_shorthand-perm codec pkg spec env egress ingress from from' to to' d e p q =
    (ap (collect _) (sorted_entries-perm d p), ap (collect _) (sorted_entries-perm e q))

-- The resolution of the inbound routes, and the objects of the routes by the map of the outbound
-- ones, are the same for two orders of the entries of these maps, if no key occurs twice.
pub routes-perm :
    (codec : Codec) (kube : Kube) (pkg : Package) (spec : Routes) (config : Option IngressConfig)
    (config_error : Option Error) (resolved : List ResolvedInbound)
    (inbound inbound' outbound outbound' : Dict RawJson)
    → HasDistinctKeys inbound
    → HasDistinctKeys outbound
    → Permᴰ inbound inbound'
    → Permᴰ outbound outbound'
    → (resolve_inbound_routes kube codec (record spec { inbound = inbound }) config config_error
        ≡ resolve_inbound_routes kube codec
            (record spec { inbound = inbound' })
            config
            config_error)
      × (generate_routes codec pkg (record spec { outbound = outbound }) resolved
          ≡ generate_routes codec pkg (record spec { outbound = outbound' }) resolved)
unfolding resolve_inbound_routes generate_routes resolve_inbound inbound_objects outbound_objects
routes-perm codec kube pkg spec config config_error resolved inbound inbound' outbound outbound' d e
      p q =
    (
      ap
          (collect
            (resolve_inbound kube codec (record spec { inbound = inbound }) config config_error))
          (sorted_entries-perm d p),
      ap
          (λ m.
            collect (inbound_objects codec pkg (record spec { outbound = outbound })) resolved
            >>= λ ins.
                collect (outbound_objects codec pkg (record spec { outbound = outbound })) m
                >>= λ outs. ok (ins ++ outs))
          (sorted_entries-perm e q),
    )
