-- ===== src/Controller/Reconcile/Laws.antt =====
-- What a run of `Reconcile` of internal/controller/package_controller.go leaves in the cluster.
use mathlib.Core.Path.{subst}
use bigbang_operator.Base.{
  Bool, true, not, ◌&&◌, ◌||◌, Option, none, some, List, [], ◌∷◌, Error, ok, err, ◌≡◌, refl, sym,
  ap, ◌∙◌, arith, inl, inr, ◌≢◌,
}
use bigbang_operator.Base.Lists.{All}
use bigbang_operator.Api.Package.{Package}
use bigbang_operator.Object.{Object}
use bigbang_operator.Controller.Conditions.{ready_status}
use bigbang_operator.Controller.Cluster.{object_key, apply_all}
use bigbang_operator.Controller.Prune.{keep_if, is_owned, is_kept, prune_stale}
use bigbang_operator.Controller.Prune.Kept.{HasDistinctObjects}
use bigbang_operator.Controller.Prune.Laws.{is_stale, prune_stale_lem, prune_stale-spares}
use bigbang_operator.Controller.Reconcile.{
  World, Environment, after_prune, after_apply, after_generate,
}
use bigbang_operator.Base.{if◌then◌else◌, ◌++◌, Result-cases}
use bigbang_operator.Generator.Generate.{generate, warnings}
use bigbang_operator.Controller.Reconcile.{input_of, work}
use bigbang_operator.Controller.Cluster.Laws.{
  KeepsKey, has_key, apply_all-distinct, apply_all-has_keys, apply_all-spares,
}
use bigbang_operator.Controller.Reconcile.Status.{
  mark_failed-objects, mark_failed-error, mark_ready-objects, mark_ready-status,
}
use bigbang_operator.Controller.Reconcile.Kept.{desired_kept, has_key-kept, not_stale}

-- A run behind a generation that failed leaves the objects and returns an error.
after_generate-objects :
    (env : Environment) (pkg : Package) (w : World) (e : Error)
    → ((after_generate env pkg w (err e)).0.objects ≡ w.objects)
      × ((after_generate env pkg w (err e)).1 ≢ none)
unfolding after_generate
after_generate-objects env pkg w e =
    (mark_failed-objects env pkg _ e _, mark_failed-error env pkg _ e _)

-- What no package's run may touch: objects that are not the package's and not desired.
abbrev pub is_foreign : Package → List Object → Object → Bool
is_foreign pkg desired o = not (is_owned pkg o) && not (is_kept desired o)

module _ (env : Environment) (keeps : KeepsKey env.server.merge) (pkg : Package) where
  pub after_prune-objects :
      (desired : List Object) (w : World) (m : List Object × Option Error)
      → (after_prune env pkg desired w m).0.objects ≡ m.0
  unfolding after_prune
  after_prune-objects desired w (objects, some e) = mark_failed-objects env pkg _ e _
  after_prune-objects desired w (objects, none) = mark_ready-objects env pkg desired _

  foreign_spared :
      (desired objects : List Object)
      → HasDistinctObjects objects
      → keep_if (is_foreign pkg desired) (prune_stale env.server pkg desired objects).0
        ≡ keep_if (is_foreign pkg desired) objects
  foreign_spared desired objects d =
      sym (both _)
      ∙ ap (keep_if (is_foreign pkg desired)) (prune_stale-spares env.server pkg desired objects d)
      ∙ both objects
    where
      both :
          (xs : List Object)
          → keep_if (is_foreign pkg desired) (keep_if (λ o. not (is_stale pkg desired o)) xs)
            ≡ keep_if (is_foreign pkg desired) xs
      both [] = refl
      both (x ∷ xs) = ground (arith, both xs)

  after_apply-spares :
      (desired : List Object) (w : World) (m : List Object × Option Error)
      → HasDistinctObjects m.0
      → keep_if (is_foreign pkg desired) (after_apply env pkg desired w m).0.objects
        ≡ keep_if (is_foreign pkg desired) m.0
  unfolding after_apply
  after_apply-spares desired w (objects, some e) d =
      ap (keep_if (is_foreign pkg desired)) (mark_failed-objects env pkg _ e _)
  after_apply-spares desired w (objects, none) d =
      ap (keep_if (is_foreign pkg desired)) (after_prune-objects desired w _)
      ∙ foreign_spared desired objects d

  -- Whatever fails, the objects that are neither the package's nor desired are the same after a run,
  -- if the objects have distinct keys and applying an object keeps its key.
  pub after_generate-spares :
      (w : World) (desired : List Object)
      → HasDistinctObjects w.objects
      → keep_if (is_foreign pkg desired) (after_generate env pkg w (ok desired)).0.objects
        ≡ keep_if (is_foreign pkg desired) w.objects
  unfolding after_generate
  after_generate-spares w desired d =
      after_apply-spares desired w (apply_all env.server desired w.objects)
        (apply_all-distinct env.server keeps desired w.objects d)
      ∙ apply_all-spares env.server keeps (is_foreign pkg desired) desired w.objects
          (λ o k. rw k (ground arith))

-- Every desired object is there, the package owns no other object, and the status says ready.
abbrev pub IsConverged : Environment → Package → List Object → World → Type 0
IsConverged env pkg desired w =
    All (λ d. has_key (object_key d) w.objects ≡ true) desired
    × All (λ o. (not (is_owned pkg o) || is_kept desired o) ≡ true) w.objects
    × (w.status ≡ ready_status env.now pkg desired)

module _ (env : Environment) (keeps : KeepsKey env.server.merge) (pkg : Package) where
  pub after_prune-converges :
      (desired : List Object) (w : World) (m : List Object × Option Error)
      → (after_prune env pkg desired w m).1 ≡ none
      → (m.1 ≡ none)
        × ((after_prune env pkg desired w m).0.status ≡ ready_status env.now pkg desired)
  unfolding after_prune
  after_prune-converges desired w (objects, some e) h = elim (mark_failed-error env pkg _ e _ h) [ ]
  after_prune-converges desired w (objects, none) h = (refl, mark_ready-status env pkg desired _ h)

  after_apply-converges :
      (desired : List Object) (w : World) (m : List Object × Option Error)
      → HasDistinctObjects m.0
      → (m.1 ≡ none → All (λ d. has_key (object_key d) m.0 ≡ true) desired)
      → (after_apply env pkg desired w m).1 ≡ none
      → IsConverged env pkg desired (after_apply env pkg desired w m).0
  unfolding after_apply is_kept
  after_apply-converges desired w (objects, some e) d there h =
      elim (mark_failed-error env pkg _ e _ h) [ ]
  after_apply-converges desired w (objects, none) d there h =
      let (pruned, status) =
        after_prune-converges desired w (prune_stale env.server pkg desired objects) h in
      let same =
        after_prune-objects env keeps pkg desired w (prune_stale env.server pkg desired objects)
        ∙ prune_stale_lem env.server pkg desired objects d pruned in
      (
        subst (λ xs. All (λ o. has_key (object_key o) xs ≡ true) desired) (sym same)
            (kept desired (desired_kept desired) (there refl)),
        subst (All (λ o. (not (is_owned pkg o) || is_kept desired o) ≡ true)) (sym same)
            (not_stale pkg desired objects),
        status,
      )
    where
      kept :
          (ds : List Object)
          → All (λ o. is_kept desired o ≡ true) ds
          → All (λ o. has_key (object_key o) objects ≡ true) ds
          → All
              (λ o.
                has_key (object_key o) (keep_if (λ x. not (is_stale pkg desired x)) objects) ≡ true)
              ds
      kept [] a b = tt
      kept (o ∷ os) (a, a') (b, b') =
          (has_key-kept pkg desired (object_key o) objects a b, kept os a' b')

  -- A run without an error, on objects with distinct keys and with a server-side apply that keeps
  -- an object's key: afterwards every desired object is there, the package's other objects are
  -- gone, and the status is the ready one.
  pub after_generate-converges :
      (w : World) (desired : List Object)
      → HasDistinctObjects w.objects
      → (after_generate env pkg w (ok desired)).1 ≡ none
      → IsConverged env pkg desired (after_generate env pkg w (ok desired)).0
  unfolding after_generate
  after_generate-converges w desired d h =
      after_apply-converges desired w (apply_all env.server desired w.objects)
        (apply_all-distinct env.server keeps desired w.objects d)
        (apply_all-has_keys env.server keeps desired w.objects) h

-- The world once the warnings are recorded.
abbrev warned : Environment → Package → World → World
warned env pkg w = record w {
  events = if env.has_recorder then w.events ++ warnings pkg else w.events;
}

module _ (env : Environment) (keeps : KeepsKey env.server.merge) (pkg : Package) where
  -- If the objects have distinct keys and a server-side apply keeps an object's key, then a run that
  -- returns no error has generated objects from the package and its environment, every one of them
  -- is there afterwards, the package's other objects are gone, and the status is the ready one.
  pub work-converges :
      (w : World)
      → HasDistinctObjects w.objects
      → (work env pkg w).1 ≡ none
      → (desired : List Object) × (generate env.codec env.kube (input_of env pkg) ≡ ok desired)
        × IsConverged env pkg desired (work env pkg w).0
  unfolding work
  work-converges w d h = elim (Result-cases (generate env.codec env.kube (input_of env pkg))) [
    | inl (e, failed) ↦
        elim ((after_generate-objects env pkg (warned env pkg w) e).1
          (subst (λ r. (after_generate env pkg (warned env pkg w) r).1 ≡ none) failed h)) [ ]
    | inr (desired, done) ↦ (
      desired,
      done,
      subst (λ r. IsConverged env pkg desired (after_generate env pkg (warned env pkg w) r).0)
          (sym done)
          (after_generate-converges env keeps pkg (warned env pkg w) desired d
            (subst (λ r. (after_generate env pkg (warned env pkg w) r).1 ≡ none) done h)),
    )
  ]
