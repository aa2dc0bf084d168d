-- ===== src/Tests/Control.antt =====
-- Runs of the reconciler: a stale object goes, a foreign one stays, a new one comes.
use bigbang_operator.Base.{String, not, [], ◌∷◌, ok, ◌≡◌, refl}
use bigbang_operator.Controller.Cluster.{object_key}
use bigbang_operator.Controller.Prune.{keep_if, prune_stale}
use bigbang_operator.Controller.Prune.Kept.{HasDistinctObjects}
use bigbang_operator.Controller.Prune.Laws.{is_stale, prune_stale_lem, prune_stale-spares}
use bigbang_operator.Controller.Conditions.{failed_status, ready_status, reconciling_status}
use bigbang_operator.Controller.Conditions.Laws.{
  HasDistinctTypes, status_of, after_failed, after_ready, after_reconciling, statuses_lem,
}
use bigbang_operator.Controller.Reconcile.{after_generate}
use bigbang_operator.Base.{List}
use bigbang_operator.Object.{Object}
use bigbang_operator.Base.Text.{text_le}
use bigbang_operator.Generator.Generate.{generate}
use bigbang_operator.Controller.Reconcile.{work, input_of}
use bigbang_operator.Controller.Reconcile.Laws.{
  work-converges, IsConverged, is_foreign, after_generate-spares,
}
use bigbang_operator.Tests.Fixtures.{pkg, server, env, world, present, wanted, foreign, owned}

distinct : HasDistinctObjects present
unfolding object_key
distinct = ((refl, (refl, tt)), ((refl, tt), (tt, tt)))

prune_stale_lem_example :
    (prune_stale server pkg wanted present).0 ≡ keep_if (λ o. not (is_stale pkg wanted o)) present
unfolding prune_stale
prune_stale_lem_example = prune_stale_lem server pkg wanted present distinct refl

-- The same run, computed.
prune_test : (prune_stale server pkg wanted present).0 ≡ foreign ∷ owned "wanted" ∷ []
unfolding prune_stale
prune_test = refl

prune_stale-spares_example :
    keep_if (λ o. not (is_stale pkg wanted o)) (prune_stale server pkg wanted present).0
    ≡ keep_if (λ o. not (is_stale pkg wanted o)) present
prune_stale-spares_example = prune_stale-spares server pkg wanted present distinct

after_generate-spares_example :
    keep_if (is_foreign pkg wanted) (after_generate env pkg world (ok wanted)).0.objects
    ≡ keep_if (is_foreign pkg wanted) world.objects
after_generate-spares_example =
    after_generate-spares env (λ old new. refl) pkg world wanted distinct

statuses_lem_example :
    (((type : String)
        → status_of type (failed_status 10 pkg "ApplyFailed" "boom").conditions
          ≡ after_failed pkg.status type)
      × HasDistinctTypes (failed_status 10 pkg "ApplyFailed" "boom").conditions
      × ((failed_status 10 pkg "ApplyFailed" "boom").observed_generation ≡ 2))
    × (((type : String)
          → status_of type (ready_status 10 pkg wanted).conditions ≡ after_ready pkg.status type)
        × HasDistinctTypes (ready_status 10 pkg wanted).conditions
        × ((ready_status 10 pkg wanted).observed_generation ≡ 2))
    × (((type : String)
          → status_of type (reconciling_status 10 pkg).conditions
            ≡ after_reconciling pkg.status type)
        × HasDistinctTypes (reconciling_status 10 pkg).conditions
        × ((reconciling_status 10 pkg).observed_generation ≡ 1))
statuses_lem_example = statuses_lem 10 pkg "ApplyFailed" "boom" wanted ((refl, tt), (tt, tt))

work-converges_example :
    (desired : List Object) × (generate env.codec env.kube (input_of env pkg) ≡ ok desired)
    × IsConverged env pkg desired (work env pkg world).0
unfolding work text_le
work-converges_example = work-converges env (λ old new. refl) pkg world distinct refl
