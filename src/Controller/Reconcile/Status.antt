-- ===== src/Controller/Reconcile/Status.antt =====
-- The status writes of a run (internal/controller/status.go): what they leave in the world.
use bigbang_operator.Base.{String, none, List, Error, ◌≡◌, refl, Option-cases, inl, inr, ◌≢◌}
use bigbang_operator.Api.Package.{Package, PackageStatus}
use bigbang_operator.Object.{Object}
use bigbang_operator.Controller.Conditions.{failed_status, ready_status}
use bigbang_operator.Controller.Reconcile.{
  World, Environment, mark_failed, mark_ready, write_status,
}
use bigbang_operator.Controller.Cluster.Laws.{}

-- A status update does not touch the objects.
pub mark_failed-objects :
    (env : Environment) (pkg : Package) (reason : String) (e : Error) (w : World)
    → (mark_failed env pkg reason e w).0.objects ≡ w.objects
unfolding mark_failed
mark_failed-objects env pkg reason e w =
    elim (Option-cases
      (env.server.update_error (failed_status env.now pkg reason (env.render e)))) [
        | inl h ↦ rw (h, mark_failed) refl
        | inr (x, h) ↦ rw (h, mark_failed) refl
      ]

write_status-objects :
    (env : Environment) (status : PackageStatus) (w : World)
    → (write_status env status w).0.objects ≡ w.objects
write_status-objects env status w = elim (Option-cases (env.server.update_error status)) [
  | inl h ↦ rw (h, write_status) refl
  | inr (x, h) ↦ rw (h, write_status) refl
]

write_status-status :
    (env : Environment) (status : PackageStatus) (w : World)
    → (write_status env status w).1 ≡ none
    → (write_status env status w).0.status ≡ status
write_status-status env status w = elim (Option-cases (env.server.update_error status)) [
  | inl h ↦ rw (h, write_status) λ z. refl
  | inr (x, h) ↦ rw (h, write_status) λ z. cc
]

pub mark_ready-objects :
    (env : Environment) (pkg : Package) (desired : List Object) (w : World)
    → (mark_ready env pkg desired w).0.objects ≡ w.objects
unfolding mark_ready
mark_ready-objects env pkg desired w = write_status-objects env _ w

pub mark_ready-status :
    (env : Environment) (pkg : Package) (desired : List Object) (w : World)
    → (mark_ready env pkg desired w).1 ≡ none
    → (mark_ready env pkg desired w).0.status ≡ ready_status env.now pkg desired
unfolding mark_ready
mark_ready-status env pkg desired w = write_status-status env _ w

-- A run that failed always returns an error.
pub mark_failed-error :
    (env : Environment) (pkg : Package) (reason : String) (e : Error) (w : World)
    → (mark_failed env pkg reason e w).1 ≢ none
unfolding mark_failed
mark_failed-error env pkg reason e w =
    elim (Option-cases
      (env.server.update_error (failed_status env.now pkg reason (env.render e)))) [
        | inl h ↦ rw (h, mark_failed) λ z. cc
        | inr (x, h) ↦ rw (h, mark_failed) λ z. cc
      ]
