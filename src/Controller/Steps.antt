-- ===== src/Controller/Steps.antt =====
-- The life of one Package: runs of `Reconcile` of internal/controller/package_controller.go on the
-- copy in the client's cache, between changes that others make to the cluster, in any order.
pub mod Laws
use bigbang_operator.Base.{ℕ, suc, Bool, true, none, List, [], Error, Option}
use bigbang_operator.Api.Package.{Package, PackageSpec}
use bigbang_operator.Object.{Object}
use bigbang_operator.Controller.Cluster.Laws.{KeepsKey}
use bigbang_operator.Controller.Prune.Kept.{HasDistinctObjects}
use bigbang_operator.Controller.Config.{Found, found}
use bigbang_operator.Controller.Reconcile.{World, Environment, reconcile}

-- The API server's objects and Package, and the Package as the client's cache has it.
pub record System : Type 0 where
  pub objects : List Object
  pub stored : Package
  pub cached : Package

-- What one run starts from.
abbrev pub world_of : System → World
world_of s = record {
  objects = s.objects;
  status = s.stored.status;
  outcomes = [];
  applied_resources = none;
  events = [];
}

-- The run of a cached Package: its world and the error.
unfoldable pub run : Environment → System → World × Option Error
unfolding reconcile
run env s = reconcile env (found s.cached) (world_of s)

-- The system after a run.
unfoldable pub after_run : Environment → System → System
unfolding run
after_run env s =
    let w = (run env s).0 in
    record s { objects = w.objects; stored = record s.stored { status = w.status } }

pub data Step : System → System → Type 0 where
  -- A run in any environment, in which any call may fail.
  reconciled :
      (env : Environment) (s : System) → KeepsKey env.server.merge → Step s (after_run env s)
  -- The cache follows the server.
  synced : (s : System) → Step s (record s { cached = s.stored })
  -- A new spec has a new generation.
  edited :
      (s : System) (spec : PackageSpec)
      → Step s (record s {
        stored = record s.stored { spec = spec; generation = suc s.stored.generation };
      })
  deleted : (s : System) → Step s (record s { stored = record s.stored { deleted = true } })
  -- Other clients, runs of other Packages among them, change the objects.
  interfered :
      (s : System) (objects : List Object)
      → HasDistinctObjects objects
      → Step s (record s { objects = objects })

pub data Reach (s : System) : System → Type 0 where
  here : Reach s s
  next : {t u : System} → Reach s t → Step t u → Reach s u
