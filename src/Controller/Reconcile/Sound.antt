-- ===== src/Controller/Reconcile/Sound.antt =====
-- What every run of `Reconcile` keeps, whatever fails: distinct keys of the objects, distinct types
-- of the conditions, and an observed generation that exists.
use bigbang_operator.Base.{
  ℕ, ◌≤◌, String, Option, none, some, List, Error, Result, ok, err, sym, subst, Bool-cases,
  Option-cases, inl, inr, nat_eq,
}
use bigbang_operator.Api.Package.{Package, PackageStatus}
use bigbang_operator.Object.{Object}
use bigbang_operator.Controller.Conditions.{reconciling_status, failed_status, ready_status}
use bigbang_operator.Controller.Conditions.Laws.{HasDistinctTypes, statuses_lem}
use bigbang_operator.Controller.Cluster.{apply_all}
use bigbang_operator.Controller.Cluster.Laws.{KeepsKey, apply_all-distinct}
use bigbang_operator.Controller.Prune.{prune_stale}
use bigbang_operator.Controller.Prune.Kept.{HasDistinctObjects, distinct-keep_if}
use bigbang_operator.Controller.Prune.Closed.{prune_stale-closed}
use bigbang_operator.Controller.Config.{found}
use bigbang_operator.Controller.Reconcile.{
  World, Environment, write_status, mark_failed, mark_ready, after_prune, after_apply,
  after_generate, work, after_reconciling, reconcile_package, reconcile,
}

-- The conditions have distinct types, and the observed generation is at most `g`.
abbrev pub IsSound : ℕ → PackageStatus → Type 0
IsSound g status = HasDistinctTypes status.conditions × (status.observed_generation ≤ g)

abbrev pub IsFine : ℕ → World → Type 0
IsFine g w = HasDistinctObjects w.objects × IsSound g w.status

module _ (g : ℕ) (env : Environment) where
  pub write_status-IsFine :
      (status : PackageStatus) (w : World)
      → IsSound g status
      → IsFine g w
      → IsFine g (write_status env status w).0
  write_status-IsFine status w s (d, h) = elim (Option-cases (env.server.update_error status)) [
    | inl e ↦ rw (e, write_status) (d, s)
    | inr (x, e) ↦ rw (e, write_status) (d, h)
  ]

  module _ (pkg : Package) (older : pkg.generation ≤ g) where
    mark_failed-IsFine :
        (reason : String) (e : Error) (w : World)
        → HasDistinctTypes pkg.status.conditions
        → IsFine g w
        → IsFine g (mark_failed env pkg reason e w).0
    unfolding mark_failed
    mark_failed-IsFine reason e w t (d, h) =
        let ((_, types, seen), _, _) = statuses_lem env.now pkg reason (env.render e) List.[] t in
        elim (Option-cases
          (env.server.update_error (failed_status env.now pkg reason (env.render e)))) [
            | inl e' ↦ rw (e', mark_failed) (d, (types, subst (λ n. n ≤ g) (sym seen) older))
            | inr (x, e') ↦ rw (e', mark_failed) (d, h)
          ]

    mark_ready-IsFine :
        (desired : List Object) (w : World)
        → HasDistinctTypes pkg.status.conditions
        → IsFine g w
        → IsFine g (mark_ready env pkg desired w).0
    unfolding mark_ready
    mark_ready-IsFine desired w t fine =
        let (_, (_, types, seen), _) = statuses_lem env.now pkg "" "" desired t in
        write_status-IsFine (ready_status env.now pkg desired) w
          (types, subst (λ n. n ≤ g) (sym seen) older) fine

    after_prune-IsFine :
        (desired : List Object) (w : World) (m : List Object × Option Error)
        → HasDistinctTypes pkg.status.conditions
        → HasDistinctObjects m.0
        → IsSound g w.status
        → IsFine g (after_prune env pkg desired w m).0
    unfolding after_prune
    after_prune-IsFine desired w (objects, some e) t d s = mark_failed-IsFine _ e _ t (d, s)
    after_prune-IsFine desired w (objects, none) t d s = mark_ready-IsFine desired _ t (d, s)

    after_apply-IsFine :
        (desired : List Object) (w : World) (m : List Object × Option Error)
        → HasDistinctTypes pkg.status.conditions
        → HasDistinctObjects m.0
        → IsSound g w.status
        → IsFine g (after_apply env pkg desired w m).0
    unfolding after_apply
    after_apply-IsFine desired w (objects, some e) t d s = mark_failed-IsFine _ e _ t (d, s)
    after_apply-IsFine desired w (objects, none) t d s =
        after_prune-IsFine desired w (prune_stale env.server pkg desired objects) t
          (prune_stale-closed HasDistinctObjects distinct-keep_if env.server desired pkg objects d)
          s

    module _ (keeps : KeepsKey env.server.merge) where
      after_generate-IsFine :
          (w : World) (r : Result (List Object))
          → HasDistinctTypes pkg.status.conditions
          → IsFine g w
          → IsFine g (after_generate env pkg w r).0
      unfolding after_generate
      after_generate-IsFine w (err e) t fine = mark_failed-IsFine _ e _ t fine
      after_generate-IsFine w (ok desired) t (d, s) =
          after_apply-IsFine desired w (apply_all env.server desired w.objects) t
            (apply_all-distinct env.server keeps desired w.objects d) s

      work-IsFine :
          (w : World)
          → HasDistinctTypes pkg.status.conditions
          → IsFine g w
          → IsFine g (work env pkg w).0
      unfolding work
      work-IsFine w t fine = after_generate-IsFine _ _ t fine

module _ (g : ℕ) (env : Environment) (keeps : KeepsKey env.server.merge) where
  after_reconciling-IsFine :
      (pkg : Package) (m : World × Option Error)
      → pkg.generation ≤ g
      → IsFine g m.0
      → IsFine g (after_reconciling env pkg m).0
  unfolding after_reconciling
  after_reconciling-IsFine pkg (w, some e) older fine = fine
  after_reconciling-IsFine pkg (w, none) older (d, (t, n)) =
      work-IsFine g env (record pkg { status = w.status }) older keeps w t (d, (t, n))

  -- If a server-side apply keeps an object's key, then a run of a Package whose conditions have
  -- distinct types and whose generation and observed generation are at most `g`, whatever fails in
  -- it, keeps three things: objects with distinct keys, a stored status whose conditions have
  -- distinct types, and an observed generation of at most `g`.
  pub reconcile-IsFine :
      (pkg : Package) (w : World)
      → pkg.generation ≤ g
      → IsSound g pkg.status
      → IsFine g w
      → IsFine g (reconcile env (found pkg) w).0
  unfolding reconcile reconcile_package
  reconcile-IsFine pkg w older (t, n) fine = elim (Bool-cases pkg.deleted) [
    | inl e ↦ rw e fine
    | inr e ↦ elim (Bool-cases (nat_eq pkg.generation pkg.status.observed_generation)) [
      | inl same ↦ rw (e, same) (work-IsFine g env pkg older keeps w t fine)
      | inr new ↦
          let (_, _, (_, types, seen)) = statuses_lem env.now pkg "" "" List.[] t in
          rw (e, new)
            (after_reconciling-IsFine pkg _ older (
              write_status-IsFine g env (reconciling_status env.now pkg) w
                (types, subst (λ k. k ≤ g) (sym seen) n) fine))
    ]
  ]
