-- ===== src/Setup/Start.antt =====
-- The start of the process in cmd/main.go: `init` fills the scheme, `main` runs one call after the
-- other and exits with code 1 at the first that fails.
use bigbang_operator.Base.{String, Option, none, some, List, [], ◌∷◌, Error, ℕ}
use bigbang_operator.Setup.Options.{Flags, ManagerOptions, manager_options}
use bigbang_operator.Controller.Setup.{Registration, setup_with_manager}

-- The packages whose types `init` adds to the scheme.
pub data ApiGroup : Type 0 where
  client_go bigbang_v1alpha1 networking_v1 istio_security_v1 istio_networking_v1 : ApiGroup

unfoldable pub scheme_groups : List ApiGroup
scheme_groups =
    client_go ∷ bigbang_v1alpha1 ∷ networking_v1 ∷ istio_security_v1 ∷ istio_networking_v1 ∷ []

-- The fields that `main` gives the reconciler, beside the manager's clients.
pub record ReconcilerFields : Type 0 where
  pub event_source : String
  pub global_config_namespace : String
  pub global_config_name : String

unfoldable pub reconciler_fields : Flags → ReconcilerFields
reconciler_fields flags = record {
  event_source = "bigbang-operator";
  global_config_namespace = flags.global_config_namespace;
  global_config_name = flags.global_config_name;
}

-- What the libraries answer to the calls of `init` and `main`; `none` is a call without an error.
-- `get_config` is `ctrl.GetConfigOrDie`, which ends the process itself.
pub record Platform : Type 0 where
  pub add_to_scheme : ApiGroup → Option Error
  pub get_config : Option Error
  pub new_manager : ManagerOptions → Option Error
  pub complete : List Registration → Option Error
  pub add_healthz_check : String → Option Error
  pub add_readyz_check : String → Option Error
  pub start : Option Error

-- How the process ends: a panic of `utilruntime.Must`, `os.Exit(1)` of a library, `os.Exit(1)` of
-- `main` behind a log line, or the end of `main`, which is code 0.
pub data Exit : Type 0 where
  panicked : Error → Exit
  died : Error → Exit
  exited : String → Error → Exit
  finished : Exit

-- `if err := …; err != nil { setupLog.Error(err, text); os.Exit(1) }`
abbrev pub or_exit : Option Error → String → Exit → Exit
or_exit none text rest = rest
or_exit (some e) text rest = exited text e

-- `utilruntime.Must` for each group.
unfoldable pub init_scheme : Platform → List ApiGroup → Exit → Exit
init_scheme platform [] rest = rest
init_scheme platform (group ∷ groups) rest =
    let later = init_scheme platform groups rest in
    elim (platform.add_to_scheme group) [ some e ↦ panicked e | none ↦ later ]

unfoldable pub run_main : Platform → Flags → Exit
unfolding manager_options setup_with_manager reconciler_fields
run_main platform flags =
    let fields = reconciler_fields flags in
    let registrations =
      setup_with_manager fields.global_config_namespace fields.global_config_name in
    elim (platform.get_config) [
      | some e ↦ died e
      | none ↦ or_exit (platform.new_manager (manager_options flags)) "unable to start manager" (
          or_exit (platform.complete registrations) "unable to create controller" (
            or_exit (platform.add_healthz_check "healthz") "unable to set up health check" (
              or_exit (platform.add_readyz_check "readyz") "unable to set up ready check"
                (or_exit platform.start "problem running manager" finished))))
    ]

-- The whole process: package initialisation, then `main`.
unfoldable pub run_process : Platform → Flags → Exit
unfolding init_scheme scheme_groups run_main
run_process platform flags = init_scheme platform scheme_groups (run_main platform flags)

abbrev pub exit_code : Exit → ℕ
exit_code (panicked e) = 2
exit_code (died e) = 1
exit_code (exited text e) = 1
exit_code finished = 0
