-- ===== src/Controller/Reconcile.antt =====
-- `Reconcile` of package_controller.go as one function of the world that it reads and writes.
pub mod Status
pub mod Kept
pub mod Laws
pub mod Sound
pub mod Stable
use bigbang_operator.Base.{
  ℕ, String, Bool, true, false, not, Option, none, some, List, [], ◌∷◌, ◌++◌, nat_eq, if◌then◌else◌,
  Error, message, wrap, Result, ok, err,
}
use bigbang_operator.Base.Dict.{Dict}
use bigbang_operator.Base.Lists.{length}
use bigbang_operator.Api.Common.{IntOrString}
use bigbang_operator.Api.Package.{Package, PackageStatus}
use bigbang_operator.Object.{Object}
use bigbang_operator.Generator.Codec.{Codec}
use bigbang_operator.Generator.Input.{Input, Kube, Scheme}
use bigbang_operator.Generator.Generate.{generate, warnings}
use bigbang_operator.Controller.Conditions.{reconciling_status, failed_status, ready_status}
use bigbang_operator.Controller.Cluster.{Server, apply_all}
use bigbang_operator.Controller.Prune.{prune_stale}
use bigbang_operator.Controller.Config.{
  Found, found, missing, failed, shared_config, kube_api_ports,
}

-- The labels of `reconcileTotal`.
pub data Outcome : Type 0 where
  success generation_failed apply_failed prune_failed : Outcome

-- The objects of the cluster, the stored status of the Package, and what metrics and events record.
pub record World : Type 0 where
  pub objects : List Object
  pub status : PackageStatus
  pub outcomes : List Outcome
  pub applied_resources : Option ℕ
  pub events : List String

-- The fixed parts of the reconciler, and the answers of one run's reads. `render` is `err.Error()`,
-- `has_recorder` is `r.Recorder != nil`.
pub record Environment : Type 0 where
  pub codec : Codec
  pub kube : Kube
  pub server : Server
  pub scheme : Option Scheme
  pub render : Error → String
  pub has_recorder : Bool
  pub global_namespace : String
  pub global_name : String
  pub config_map : Found (Dict String)
  pub kubernetes_service : Found (List IntOrString)
  pub now : ℕ

-- The status update of the API server, and the error that the caller returns.
abbrev pub write_status : Environment → PackageStatus → World → World × Option Error
write_status env status w = elim (env.server.update_error status) [
  | some e ↦ (w, some e)
  | none ↦ (record w { status = status }, none)
]

-- `markFailed`: the error of the run is returned in either case.
unfoldable pub mark_failed : Environment → Package → String → Error → World → World × Option Error
unfolding failed_status
mark_failed env pkg reason e w =
    let status = failed_status env.now pkg reason (env.render e) in
    elim (env.server.update_error status) [
      | some e' ↦ (
        w,
        some (wrap "status update after %s: %v (original: %w)" (reason ∷ env.render e' ∷ []) e),
      )
      | none ↦ (record w { status = status }, some e)
    ]

unfoldable pub mark_ready : Environment → Package → List Object → World → World × Option Error
unfolding ready_status
mark_ready env pkg desired w = write_status env (ready_status env.now pkg desired) w

abbrev count_outcome : Outcome → World → World
count_outcome o w = record w { outcomes = w.outcomes ++ o ∷ [] }

-- Behind the prune.
unfoldable pub after_prune :
    Environment → Package → List Object → World → List Object × Option Error → World × Option Error
unfolding mark_failed mark_ready
after_prune env pkg desired w (objects, some e) =
    mark_failed env pkg "PruneFailed" e
      (count_outcome Outcome.prune_failed (record w { objects = objects }))
after_prune env pkg desired w (objects, none) = mark_ready env pkg desired (
    count_outcome Outcome.success
      (record w { objects = objects; applied_resources = some (length desired) }))

-- Behind the apply: objects are pruned only if every one was applied.
unfoldable pub after_apply :
    Environment → Package → List Object → World → List Object × Option Error → World × Option Error
unfolding mark_failed after_prune prune_stale
after_apply env pkg desired w (objects, some e) =
    mark_failed env pkg "ApplyFailed" e
      (count_outcome Outcome.apply_failed (record w { objects = objects }))
after_apply env pkg desired w (objects, none) =
    after_prune env pkg desired w (prune_stale env.server pkg desired objects)

-- Behind the generation.
unfoldable pub after_generate :
    Environment → Package → World → Result (List Object) → World × Option Error
unfolding mark_failed after_apply apply_all
after_generate env pkg w (err e) =
    mark_failed env pkg "GenerationFailed" e (count_outcome Outcome.generation_failed w)
after_generate env pkg w (ok desired) =
    after_apply env pkg desired w (apply_all env.server desired w.objects)

unfoldable pub input_of : Environment → Package → Input
unfolding shared_config kube_api_ports
input_of env pkg =
    record (shared_config env.kube env.global_namespace env.global_name env.config_map) {
      pkg = some pkg;
      scheme = env.scheme;
      kube_api_ports = kube_api_ports pkg env.kubernetes_service;
    }

-- The part behind the status of a generation that is new.
unfoldable pub work : Environment → Package → World → World × Option Error
unfolding after_generate generate input_of warnings
work env pkg w =
    let w' = record w {
      events = if env.has_recorder then w.events ++ warnings pkg else w.events;
    } in
    after_generate env pkg w' (generate env.codec env.kube (input_of env pkg))

-- Behind `markReconciling`, whose status the Package in hand then has.
unfoldable pub after_reconciling :
    Environment → Package → World × Option Error → World × Option Error
unfolding work
after_reconciling env pkg (w, some e) = (w, some e)
after_reconciling env pkg (w, none) = work env (record pkg { status = w.status }) w

unfoldable pub reconcile_package : Environment → Package → World → World × Option Error
unfolding after_reconciling reconciling_status work
reconcile_package env pkg w =
    if pkg.deleted
    then (w, none)
    else if nat_eq pkg.generation pkg.status.observed_generation
    then work env pkg w
    else after_reconciling env pkg (write_status env (reconciling_status env.now pkg) w)

-- `Reconcile`, by the answer of the `Get` of the Package: the world after it, and its error.
unfoldable pub reconcile : Environment → Found Package → World → World × Option Error
unfolding reconcile_package
reconcile env missing w = (w, none)
reconcile env (failed e) w = (w, some e)
reconcile env (found pkg) w = reconcile_package env pkg w
