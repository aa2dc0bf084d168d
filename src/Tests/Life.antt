-- ===== src/Tests/Life.antt =====
-- A Package's life in a few steps, the start of the process, port keys, and ownership.
use bigbang_operator.Base.{
  true, false, none, some, List, [], ◌∷◌, message, ok, is_some, map, if◌then◌else◌, ◌≡◌, ◌↔◌, refl,
  arith, ◌^◌, ◌-◌,
}
use bigbang_operator.Base.Lists.{All}
use bigbang_operator.Base.Text.{text_le}
use bigbang_operator.Api.Package.{PackageStatus}
use bigbang_operator.Object.{Object}
use bigbang_operator.Generator.Keys.Parse.{ParsedLocalIngressKey}
use bigbang_operator.Generator.Keys.Ports.{parse_port_spec}
use bigbang_operator.Generator.Keys.Ports.RoundTrip.{bracketed, print, parse_port_spec-print}
use bigbang_operator.Generator.Authz.Shorthand.{ports_loop}
use bigbang_operator.Generator.Authz.Shorthand.Loop.{ports_loop-endless}
use bigbang_operator.Controller.Cluster.{object_key}
use bigbang_operator.Controller.Config.{
  found, missing, shared_config, empty_input, failed, packages_for_global_config,
}
use bigbang_operator.Controller.Setup.{setup_with_manager}
use bigbang_operator.Controller.Setup.Laws.{is_watched, setup_with_manager-watch}
use bigbang_operator.Controller.Steps.{System, run, Reach, here, next, edited, synced}
use bigbang_operator.Controller.Steps.Laws.{
  IsWellFormed, IsSettled, Reach-IsWellFormed, Reach-settles,
}
use bigbang_operator.Setup.Options.{Flags, default_flags, manager_options, cache_options, TlsConfig}
use bigbang_operator.Setup.Start.{Platform, scheme_groups, run_process, exit_code}
use bigbang_operator.Setup.Laws.{
  configured, manager_options-tls, cache_holds, cache_options-watched, AllSucceed, main_calls,
  run_process-exit,
}
use bigbang_operator.Tests.Fixtures.{pkg, env, present, kube}

-- The Package, its new spec in the cache, and a run behind it.
abbrev start : System
start = record { objects = present; stored = pkg; cached = pkg }

abbrev later : System
later =
    let edited_pkg = record pkg { generation = 3 } in
    record { objects = present; stored = edited_pkg; cached = edited_pkg }

path : Reach start later
path = next (next here (edited start pkg.spec)) (synced _)

start-IsWellFormed : IsWellFormed start
unfolding object_key
start-IsWellFormed = (
  ((refl, (refl, tt)), ((refl, tt), (tt, tt))),
  (((refl, tt), (tt, tt)), omega arith),
  (((refl, tt), (tt, tt)), omega arith),
  omega arith,
)

Reach-IsWellFormed_example : IsWellFormed later
Reach-IsWellFormed_example = Reach-IsWellFormed path start-IsWellFormed

Reach-settles_example :
    (q : PackageStatus) × ((desired : List Object) × IsSettled env later
        (run env later).0
        q
        desired)
unfolding run text_le
Reach-settles_example = Reach-settles env (λ old new. refl) start-IsWellFormed path refl refl

parse_port_spec-print_example :
    parse_port_spec (print (bracketed 80 (443 ∷ []))) ≡ ok (80 ∷ 443 ∷ [], false)
parse_port_spec-print_example =
    parse_port_spec-print (bracketed 80 (443 ∷ [])) (omega arith, (omega arith, tt))

abbrev ranged : ParsedLocalIngressKey
ranged = record { pod = "web"; protocol = "TCP"; ports = 80 ∷ 82 ∷ []; has_port_range = true }

ports_loop-endless_example : ports_loop 5 8000 (2 ^ 63 - 1) ≡ none
ports_loop-endless_example = ports_loop-endless 5 8000 (omega arith)

setup_with_manager-watch_example :
    (is_some (shared_config kube "" "global" (failed (message "down" []))).shared_definitions_error
      ≡ is_watched (setup_with_manager "" "global"))
    × (shared_config kube "" "global" missing ≡ (
        if is_watched (setup_with_manager "" "global")
        then shared_config kube "" "global" missing
        else empty_input))
setup_with_manager-watch_example =
    setup_with_manager-watch "" "global" kube missing (message "down" [])

abbrev flags : Flags
unfolding default_flags
flags = default_flags "bigbang"

abbrev tls : TlsConfig
tls = record { next_protos = "h2" ∷ "http/1.1" ∷ [] }

manager_options-tls_example :
    (configured (manager_options flags).webhook.tls_opts tls
      ≡ (if flags.enable_http2 then tls else record tls { next_protos = "http/1.1" ∷ [] }))
    × (configured (manager_options flags).metrics.tls_opts tls
        ≡ (if flags.enable_http2 then tls else record tls { next_protos = "http/1.1" ∷ [] }))
    × ((manager_options flags).metrics.secure_serving
        ≡ is_some (manager_options flags).metrics.filter_provider)
manager_options-tls_example = manager_options-tls flags tls

cache_options-watched_example :
    (packages_for_global_config flags.global_config_namespace flags.global_config_name "bigbang"
        "other"
        (found (pkg ∷ []))
      ≡ (if cache_holds (cache_options flags) "bigbang" "other"
          then map (λ p. (p.namespace, p.name)) (pkg ∷ [])
          else []))
    × (cache_holds (cache_options flags) flags.global_config_namespace flags.global_config_name
        ≡ true)
unfolding default_flags
cache_options-watched_example = cache_options-watched flags "bigbang" "other" (pkg ∷ []) (λ e. cc)

abbrev platform : Platform
platform = record {
  add_to_scheme = λ group. none;
  get_config = none;
  new_manager = λ options. none;
  complete = λ registrations. none;
  add_healthz_check = λ name. none;
  add_readyz_check = λ name. some (message "taken" []);
  start = none;
}

run_process-exit_example : (exit_code (run_process platform flags) ≡ 0) ↔ (
    All (λ group. platform.add_to_scheme group ≡ none) scheme_groups
    × AllSucceed (main_calls platform flags))
run_process-exit_example = run_process-exit platform flags
