-- ===== src/Controller/Reconcile/Stable.antt =====
-- A second run of internal/controller/package_controller.go with the same desired objects.
use bigbang_operator.Base.{
  Bool, true, not, ◌||◌, Option, none, some, List, [], ◌∷◌, Error, ok, ◌≡◌, refl, sym, ap, ◌∙◌,
  subst, arith,
}
use bigbang_operator.Base.Lists.{All}
use bigbang_operator.Api.Package.{Package}
use bigbang_operator.Object.{Object}
use bigbang_operator.Controller.Cluster.{object_key, apply_all}
use bigbang_operator.Controller.Cluster.Laws.{KeepsKey, has_key, apply_all-distinct}
use bigbang_operator.Controller.Cluster.Fixed.{
  IsIdempotent, IsFixed, apply_all-IsFixed, apply_all-nothing,
}
use bigbang_operator.Controller.Prune.{keep_if, is_owned, is_kept, prune_stale}
use bigbang_operator.Controller.Prune.Kept.{
  HasDistinctObjects, distinct-keep_if, All-keep_if, All-map,
}
use bigbang_operator.Controller.Prune.Laws.{is_stale, prune_stale_lem, prune_stale-spares}
use bigbang_operator.Controller.Prune.Closed.{prune_stale-closed}
use bigbang_operator.Controller.Reconcile.{World, Environment, after_apply, after_generate}
use bigbang_operator.Controller.Reconcile.Laws.{
  after_generate-converges, after_prune-objects, after_prune-converges,
}
use bigbang_operator.Controller.Reconcile.Status.{mark_failed-error}

module _ (env : Environment) (keeps : KeepsKey env.server.merge) (pkg : Package) where
  keep_if_every :
      (p : Object → Bool) (xs : List Object) → All (λ x. p x ≡ true) xs → keep_if p xs ≡ xs
  keep_if_every p [] h = refl
  keep_if_every p (x ∷ xs) (e, h) = rw e (ap (λ ys. x ∷ ys) (keep_if_every p xs h))

  -- Without stale objects the pruning does nothing, whether or not a call of it fails.
  prune_stale-nothing :
      (desired objects : List Object)
      → HasDistinctObjects objects
      → All (λ o. not (is_stale pkg desired o) ≡ true) objects
      → (prune_stale env.server pkg desired objects).0 ≡ objects
  prune_stale-nothing desired objects d fresh =
      sym (
        keep_if_every (λ o. not (is_stale pkg desired o)) _
          (prune_stale-closed (All (λ o. not (is_stale pkg desired o) ≡ true))
            (All-keep_if (λ o. not (is_stale pkg desired o) ≡ true)) env.server desired pkg objects
            fresh))
      ∙ prune_stale-spares env.server pkg desired objects d
      ∙ keep_if_every (λ o. not (is_stale pkg desired o)) objects fresh

  after_apply-success :
      (desired : List Object) (w : World) (m : List Object × Option Error)
      → (after_apply env pkg desired w m).1 ≡ none
      → (m.1 ≡ none)
        × ((prune_stale env.server pkg desired m.0).1 ≡ none)
        × ((after_apply env pkg desired w m).0.objects ≡ (prune_stale env.server pkg desired m.0).0)
  unfolding after_apply
  after_apply-success desired w (objects, some e) h = absurd (mark_failed-error env pkg _ e _ h)
  after_apply-success desired w (objects, none) h = (
    refl,
    (after_prune-converges env keeps pkg desired w _ h).0,
    after_prune-objects env keeps pkg desired w _,
  )

  not_stale_of :
      (desired : List Object) (o : Object)
      → (not (is_owned pkg o) || is_kept desired o) ≡ true
      → not (is_stale pkg desired o) ≡ true
  not_stale_of desired o h = ground (arith, h)

  -- The patch of `d` succeeds and does nothing.
  abbrev IsReady : List Object → Object → Type 0
  IsReady xs d =
      (env.server.patch_error d ≡ none)
      × (has_key (object_key d) xs ≡ true)
      × All (IsFixed env.server.merge d) xs

  after_apply-nothing :
      (desired : List Object) (next : World)
      → HasDistinctObjects next.objects
      → All (λ o. not (is_stale pkg desired o) ≡ true) next.objects
      → All (IsReady next.objects) desired
      → (after_apply env pkg desired next (apply_all env.server desired next.objects)).0.objects
        ≡ next.objects
  unfolding after_apply
  after_apply-nothing desired next d fresh ready =
      subst (λ m. (after_apply env pkg desired next m).0.objects ≡ next.objects)
        (sym (apply_all-nothing env.server keeps desired next.objects ready))
        (after_prune-objects env keeps pkg desired next _
          ∙ prune_stale-nothing desired next.objects d fresh)

  -- If the objects and the desired ones have distinct keys, and a server-side apply keeps an object's
  -- key and changes nothing the second time, then after a run without an error another run with the
  -- same desired objects leaves all objects of the cluster as they are.
  pub after_generate-stable :
      IsIdempotent env.server.merge
      → (w next : World) (desired : List Object) → HasDistinctObjects w.objects
      → HasDistinctObjects desired
      → (after_generate env pkg w (ok desired)).1 ≡ none
      → next.objects ≡ (after_generate env pkg w (ok desired)).0.objects
      → (after_generate env pkg next (ok desired)).0.objects ≡ next.objects
  unfolding after_generate
  after_generate-stable again w next desired u v done same =
      let applied = apply_all env.server desired w.objects in
      let distinct = apply_all-distinct env.server keeps desired w.objects u in
      let (fine, pruned, result) = after_apply-success desired w applied done in
      let (there, gone, _) = after_generate-converges env keeps pkg w desired u done in
      let left = same ∙ result ∙ prune_stale_lem env.server pkg desired applied.0 distinct pruned in
      after_apply-nothing desired next
        (subst HasDistinctObjects (sym left) (distinct-keep_if _ applied.0 distinct))
        (All-map _ _ (not_stale_of desired) next.objects
          (subst (All (λ o. (not (is_owned pkg o) || is_kept desired o) ≡ true)) (sym same) gone))
        (ready next.objects applied.0 left desired
          (apply_all-IsFixed env.server keeps again desired w.objects v u fine)
          (subst (λ xs. All (λ d. has_key (object_key d) xs ≡ true) desired) (sym same) there))
    where
      ready :
          (xs ys : List Object)
          → xs ≡ keep_if (λ o. not (is_stale pkg desired o)) ys
          → (ds : List Object)
          → All (λ d. (env.server.patch_error d ≡ none) × All (IsFixed env.server.merge d) ys) ds
          → All (λ d. has_key (object_key d) xs ≡ true) ds
          → All (IsReady xs) ds
      ready xs ys e [] h k = tt
      ready xs ys e (d ∷ ds) ((fine, f), h) (there, k) = (
        (
          fine,
          there,
          subst (All (IsFixed env.server.merge d)) (sym e)
              (All-keep_if (IsFixed env.server.merge d) _ ys f),
        ),
        ready xs ys e ds h k,
      )
