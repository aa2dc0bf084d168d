-- ===== src/Setup/Laws.antt =====
-- How the options of cmd/main.go fit each other and the reconciler, and when the process ends well.
use bigbang_operator.Base.{
  String, Bool, true, false, not, ◌&&◌, ◌||◌, Option, none, some, List, [], ◌∷◌, ◌==◌, map,
  if◌then◌else◌, is_some, ◌≡◌, refl, ap, ◌∙◌, ◌↔◌, ◌≢◌, arith, Bool-cases, Option-cases, inl, inr,
  eq_iff, Error,
}
use bigbang_operator.Base.Dict.{Dict, lookup}
use bigbang_operator.Base.Lists.{All}
use bigbang_operator.Api.Package.{Package}
use bigbang_operator.Controller.Config.{found, packages_for_global_config}
use bigbang_operator.Controller.Setup.{setup_with_manager}
use bigbang_operator.Setup.Options.{
  Flags, TlsConfig, TlsOpt, disable_http2, tls_opts, webhook_server_options, metrics_server_options,
  manager_options, cache_options,
}
use bigbang_operator.Setup.Start.{
  Platform, ApiGroup, or_exit, reconciler_fields, Exit, finished, scheme_groups, init_scheme,
  run_main, run_process, exit_code,
}

-- A server runs its options on its configuration, in their order.
abbrev pub configured : List TlsOpt → TlsConfig → TlsConfig
configured [] c = c
configured (opt ∷ opts) c = configured opts (opt c)

webhook_tls : (flags : Flags) → (webhook_server_options flags).tls_opts ≡ tls_opts flags
unfolding webhook_server_options
webhook_tls flags = elim (Bool-cases (flags.webhook_cert.cert_path == "")) [
  | inl e ↦ rw e refl
  | inr e ↦ rw e refl
]

metrics_tls :
    (flags : Flags)
    → ((metrics_server_options flags).tls_opts ≡ tls_opts flags)
      × ((metrics_server_options flags).secure_serving
          ≡ is_some (metrics_server_options flags).filter_provider)
unfolding metrics_server_options
metrics_tls flags = elim (Bool-cases flags.secure_metrics) [
  | inl s ↦ elim (Bool-cases (flags.metrics_cert.cert_path == "")) [
    | inl e ↦ rw (e, s) (refl, refl)
    | inr e ↦ rw (e, s) (refl, refl)
  ]
  | inr s ↦ elim (Bool-cases (flags.metrics_cert.cert_path == "")) [
    | inl e ↦ rw (e, s) (refl, refl)
    | inr e ↦ rw (e, s) (refl, refl)
  ]
]

tls_opts-configured :
    (flags : Flags) (c : TlsConfig)
    → configured (tls_opts flags) c
      ≡ (if flags.enable_http2 then c else record c { next_protos = "http/1.1" ∷ [] })
unfolding tls_opts disable_http2
tls_opts-configured flags c = elim (Bool-cases flags.enable_http2) [
  | inl e ↦ rw e refl
  | inr e ↦ rw e refl
]

-- On a configuration, the options of either server leave HTTP/1.1 as the only protocol unless the
-- flag enables HTTP/2, and then change nothing; and the metrics server has the filter that asks for
-- authentication and authorization exactly if it serves by TLS.
pub manager_options-tls :
    (flags : Flags) (c : TlsConfig)
    → (configured (manager_options flags).webhook.tls_opts c
        ≡ (if flags.enable_http2 then c else record c { next_protos = "http/1.1" ∷ [] }))
      × (configured (manager_options flags).metrics.tls_opts c
          ≡ (if flags.enable_http2 then c else record c { next_protos = "http/1.1" ∷ [] }))
      × ((manager_options flags).metrics.secure_serving
          ≡ is_some (manager_options flags).metrics.filter_provider)
unfolding manager_options metrics_server_options webhook_server_options tls_opts disable_http2
manager_options-tls flags c = (
  ap (λ opts. configured opts c) (webhook_tls flags) ∙ tls_opts-configured flags c,
  ap (λ opts. configured opts c) (metrics_tls flags).0 ∙ tls_opts-configured flags c,
  (metrics_tls flags).1,
)

-- What the informer cache holds of a ConfigMap: all without a restriction, else the one whose name
-- the selector of its namespace picks.
unfoldable pub cache_holds : Dict String → String → String → Bool
unfolding lookup
cache_holds [] namespace name = true
cache_holds (entry ∷ cache) namespace name = elim (lookup namespace (entry ∷ cache)) [
  | none ↦ false
  | some picked ↦ picked == name
]

one_holds :
    (namespace name obj_namespace obj_name : String)
    → cache_holds ((namespace, name) ∷ []) obj_namespace obj_name
      ≡ (obj_namespace == namespace && obj_name == name)
unfolding cache_holds lookup
one_holds namespace name obj_namespace obj_name = ground (
  arith,
  eq_iff namespace obj_namespace,
  eq_iff obj_namespace namespace,
  eq_iff name obj_name,
  eq_iff obj_name name,
)

packages_both {ℓ} :
    {A : Type ℓ} (a b : Bool) (packages : List A)
    → (if not a || not b then [] else packages) ≡ (if a && b then packages else [])
packages_both true true packages = refl
packages_both true false packages = refl
packages_both false b packages = refl

-- If the flags name a namespace, then an event of a ConfigMap requests every Package if the cache
-- holds that ConfigMap, and none else; and the cache holds the global ConfigMap.
pub cache_options-watched :
    (flags : Flags) (obj_namespace obj_name : String) (packages : List Package)
    → flags.global_config_namespace ≢ ""
    → (packages_for_global_config flags.global_config_namespace flags.global_config_name
          obj_namespace obj_name
          (found packages)
        ≡ (if cache_holds (cache_options flags) obj_namespace obj_name
            then map (λ p. (p.namespace, p.name)) packages
            else []))
      × (cache_holds (cache_options flags) flags.global_config_namespace flags.global_config_name
          ≡ true)
unfolding cache_options cache_holds packages_for_global_config lookup
cache_options-watched flags obj_namespace obj_name packages h =
    let restricted : (flags.global_config_namespace == "") ≡ false =
      ground (arith, h, eq_iff flags.global_config_namespace "") in
    let here = one_holds flags.global_config_namespace flags.global_config_name in
    (
      rw restricted (
          rw (here obj_namespace obj_name) (
            packages_both (obj_namespace == flags.global_config_namespace)
              (obj_name == flags.global_config_name) _)),
      rw restricted (
          here flags.global_config_namespace flags.global_config_name
          ∙ ground (
            arith,
            eq_iff flags.global_config_namespace flags.global_config_namespace,
            eq_iff flags.global_config_name flags.global_config_name,
          )),
    )

-- The answers to the calls of `main`, in their order.
abbrev pub main_calls : Platform → Flags → List (Option Error)
main_calls platform flags =
    platform.get_config
    ∷ platform.new_manager (manager_options flags)
    ∷ platform.complete (setup_with_manager flags.global_config_namespace flags.global_config_name)
    ∷ platform.add_healthz_check "healthz"
    ∷ platform.add_readyz_check "readyz"
    ∷ platform.start
    ∷ []

abbrev pub AllSucceed : List (Option Error) → Type 0
AllSucceed calls = All (λ call. call ≡ none) calls

init_scheme-finished :
    (platform : Platform) (groups : List ApiGroup) (rest : Exit)
    → (exit_code (init_scheme platform groups rest) ≡ 0)
      ↔ (All (λ group. platform.add_to_scheme group ≡ none) groups × (exit_code rest ≡ 0))
unfolding init_scheme
init_scheme-finished platform [] rest = (λ h. (tt, h), λ h. h.1)
init_scheme-finished platform (group ∷ groups) rest =
    ground (arith, init_scheme-finished platform groups rest)

or_exit-finished :
    (call : Option Error) (text : String) (rest : Exit)
    → (exit_code (or_exit call text rest) ≡ 0) ↔ ((call ≡ none) × (exit_code rest ≡ 0))
or_exit-finished none text rest = (λ h. (refl, h), λ h. h.1)
or_exit-finished (some e) text rest = (λ h. absurd (omega arith), λ h. cc)

chain {ℓ κ ι υ} :
    {X : Type ℓ} {P : Type κ} {A : Type ι} {B : Type υ} → X ↔ (P × A) → A ↔ B → X ↔ (P × B)
chain f g = (λ x. ((f.0 x).0, g.0 (f.0 x).1), λ y. f.1 (y.0, g.1 y.1))

run_main-finished :
    (platform : Platform) (flags : Flags)
    → (exit_code (run_main platform flags) ≡ 0) ↔ AllSucceed (main_calls platform flags)
unfolding run_main reconciler_fields
run_main-finished platform flags =
    let calls = chain (or_exit-finished (platform.new_manager (manager_options flags)) _ _) (
      chain
        (or_exit-finished
          (platform.complete
            (setup_with_manager flags.global_config_namespace flags.global_config_name))
          _ _)
        (chain (or_exit-finished (platform.add_healthz_check "healthz") _ _) (
          chain (or_exit-finished (platform.add_readyz_check "readyz") _ _)
            (chain (or_exit-finished platform.start _ finished) (λ h. tt, λ h. refl))))) in
    elim (Option-cases platform.get_config) [
      | inl e ↦ rw (e, run_main) (λ h. (refl, calls.0 h), λ h. calls.1 h.1)
      | inr (x, e) ↦ rw (e, run_main) (λ h. absurd (omega arith), λ h. cc)
    ]

-- The process ends with code 0 exactly if every call of its start succeeds, those of `init` and those
-- of `main`.
pub run_process-exit :
    (platform : Platform) (flags : Flags)
    → (exit_code (run_process platform flags) ≡ 0) ↔ (
        All (λ group. platform.add_to_scheme group ≡ none) scheme_groups
        × AllSucceed (main_calls platform flags))
unfolding run_process
run_process-exit platform flags =
    chain (init_scheme-finished platform scheme_groups (run_main platform flags))
      (run_main-finished platform flags)
