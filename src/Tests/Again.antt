-- ===== src/Tests/Again.antt =====
-- A second run, and the summary in the status, at concrete inputs.
use bigbang_operator.Base.{List, ok, ◌≡◌, refl}
use mathlib.Core.List.{Permᴰ}
use bigbang_operator.Base.Text.{text_le}
use bigbang_operator.Controller.Cluster.{object_key}
use bigbang_operator.Controller.Prune.Kept.{HasDistinctObjects}
use bigbang_operator.Controller.Reconcile.{World, after_generate}
use bigbang_operator.Controller.Reconcile.Stable.{after_generate-stable}
use bigbang_operator.Controller.Conditions.{summarize}
use bigbang_operator.Controller.Conditions.Summary.{IsSorted, AreDescribed, summarize-IsSorted}
use bigbang_operator.Api.Package.{AppliedResource}
use bigbang_operator.Tests.Fixtures.{pkg, env, world, present, wanted}

abbrev again : World
unfolding after_generate
again = (after_generate env pkg world (ok wanted)).0

distinct_present : HasDistinctObjects present
unfolding object_key
distinct_present = ((refl, (refl, tt)), ((refl, tt), (tt, tt)))

distinct_wanted : HasDistinctObjects wanted
unfolding object_key
distinct_wanted = ((refl, tt), (tt, tt))

after_generate-stable_example : (after_generate env pkg again (ok wanted)).0.objects ≡ again.objects
unfolding after_generate text_le
after_generate-stable_example =
    after_generate-stable env (λ old new. refl) pkg (λ old new. refl) world again wanted
      distinct_present distinct_wanted refl refl

summarize-IsSorted_example :
    IsSorted (summarize present)
    × ((rs : List AppliedResource) × AreDescribed present rs × Permᴰ rs (summarize present))
summarize-IsSorted_example = summarize-IsSorted present
