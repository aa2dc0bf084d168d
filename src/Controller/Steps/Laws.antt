-- ===== src/Controller/Steps/Laws.antt =====
-- What holds at every moment of a Package's life, and what an undisturbed run then achieves.
use bigbang_operator.Base.{
  ℕ, suc, ◌≤◌, Bool, true, false, not, ◌||◌, Option, none, some, List, Error, ok, ◌≡◌, sym, ap, ◌∙◌,
  subst, arith, Bool-cases, if◌then◌else◌, inl, inr, nat_eq,
}
use bigbang_operator.Base.Lists.{All}
use bigbang_operator.Api.Package.{PackageStatus}
use bigbang_operator.Object.{Object}
use bigbang_operator.Generator.Generate.{generate}
use bigbang_operator.Controller.Conditions.{reconciling_status}
use bigbang_operator.Controller.Conditions.Laws.{HasDistinctTypes, status_of, statuses_lem}
use bigbang_operator.Controller.Cluster.{object_key}
use bigbang_operator.Controller.Cluster.Laws.{KeepsKey, has_key}
use bigbang_operator.Controller.Prune.{is_owned, is_kept}
use bigbang_operator.Controller.Prune.Kept.{HasDistinctObjects}
use bigbang_operator.Controller.Reconcile.{
  World, Environment, input_of, work, reconcile, reconcile_package, after_reconciling, write_status,
}
use bigbang_operator.Controller.Reconcile.Laws.{work-converges}
use bigbang_operator.Controller.Reconcile.Sound.{IsSound, reconcile-IsFine, write_status-IsFine}
use bigbang_operator.Controller.Steps.{
  System, world_of, run, after_run, Step, reconciled, synced, edited, deleted, interfered, Reach,
  here, next,
}

-- The objects have distinct keys, the copy in the cache is no newer than the Package, and both have
-- conditions of distinct types and an observed generation that is no newer than the Package.
abbrev pub IsWellFormed : System → Type 0
IsWellFormed s =
    HasDistinctObjects s.objects
    × IsSound s.stored.generation s.stored.status
    × IsSound s.stored.generation s.cached.status
    × (s.cached.generation ≤ s.stored.generation)

IsSound-suc : (g : ℕ) (status : PackageStatus) → IsSound g status → IsSound (suc g) status
IsSound-suc g status (t, n) = (t, omega arith)

pub Step-IsWellFormed : {s t : System} → Step s t → IsWellFormed s → IsWellFormed t
unfolding after_run run
Step-IsWellFormed (reconciled env s keeps) (d, stored, cached, older) =
    let (d', stored') =
      reconcile-IsFine s.stored.generation env keeps s.cached (world_of s) older cached
        (d, stored) in
    (d', stored', cached, older)
Step-IsWellFormed (synced s) (d, stored, cached, older) = (d, stored, stored, omega arith)
Step-IsWellFormed (edited s spec) (d, stored, cached, older) =
    (d, IsSound-suc _ s.stored.status stored, IsSound-suc _ s.cached.status cached, omega arith)
Step-IsWellFormed (deleted s) h = h
Step-IsWellFormed (interfered s objects d) (_, stored, cached, older) = (d, stored, cached, older)

-- However runs, edits of the Package, updates of the cache and changes by others follow each other,
-- and whatever fails: from a well-formed system only well-formed ones are reached, so the objects
-- have distinct keys, the conditions distinct types, and no observed generation is newer than the
-- Package.
pub Reach-IsWellFormed : {s t : System} → Reach s t → IsWellFormed s → IsWellFormed t
Reach-IsWellFormed here h = h
Reach-IsWellFormed (next r step) h = Step-IsWellFormed step (Reach-IsWellFormed r h)

-- Of the status `q` with which the run generated, and the generated objects: every one is there, the
-- Package owns no other, and the stored status says ready, for the generation of the cached copy.
abbrev pub IsSettled : Environment → System → World → PackageStatus → List Object → Type 0
IsSettled env s w q desired =
    (generate env.codec env.kube (input_of env (record s.cached { status = q })) ≡ ok desired)
    × All (λ d. has_key (object_key d) w.objects ≡ true) desired
    × All (λ o. (not (is_owned s.cached o) || is_kept desired o) ≡ true) w.objects
    × (status_of "Ready" w.status.conditions ≡ some true)
    × (status_of "Stalled" w.status.conditions ≡ none)
    × (status_of "Reconciling" w.status.conditions ≡ none)
    × (w.status.observed_generation ≡ s.cached.generation)

module _ (env : Environment) (keeps : KeepsKey env.server.merge) (s : System) where
  work-settles :
      (q : PackageStatus) (w : World)
      → HasDistinctTypes q.conditions
      → HasDistinctObjects w.objects
      → (work env (record s.cached { status = q }) w).1 ≡ none
      → (desired : List Object) × IsSettled env s
          (work env (record s.cached { status = q }) w).0
          q
          desired
  unfolding is_owned
  work-settles q w t d h =
      let pkg = record s.cached { status = q } in
      let (desired, made, (there, gone, ready)) = work-converges env keeps pkg w d h in
      let (_, (statuses, _, seen), _) = statuses_lem env.now pkg "" "" desired t in
      (
        desired,
        (
          made,
          there,
          gone,
          ap (λ (z : PackageStatus). status_of "Ready" z.conditions) ready ∙ statuses "Ready",
          ap (λ (z : PackageStatus). status_of "Stalled" z.conditions) ready ∙ statuses "Stalled",
          ap (λ (z : PackageStatus). status_of "Reconciling" z.conditions) ready
              ∙ statuses "Reconciling",
          ap (λ (z : PackageStatus). z.observed_generation) ready ∙ seen,
        ),
      )

  abbrev Settles : World × Option Error → Type 0
  Settles m = (q : PackageStatus) × ((desired : List Object) × IsSettled env s m.0 q desired)

  after_reconciling-Settles :
      (m : World × Option Error)
      → HasDistinctTypes m.0.status.conditions
      → HasDistinctObjects m.0.objects
      → (after_reconciling env s.cached m).1 ≡ none
      → Settles (after_reconciling env s.cached m)
  unfolding after_reconciling
  after_reconciling-Settles (w, some e) t d h = cc
  after_reconciling-Settles (w, none) t d h = (w.status, work-settles w.status w t d h)

  run_step :
      (gone same : Bool)
      → s.cached.deleted ≡ gone
      → nat_eq s.cached.generation s.cached.status.observed_generation ≡ same
      → run env s ≡ (
          if gone
          then (world_of s, none)
          else if same
          then work env s.cached (world_of s)
          else after_reconciling env s.cached
              (write_status env (reconciling_status env.now s.cached) (world_of s)))
  unfolding run reconcile reconcile_package
  run_step gone same e h = λ i.
      if e i
      then (world_of s, none)
      else if h i
      then work env s.cached (world_of s)
      else after_reconciling env s.cached
          (write_status env (reconciling_status env.now s.cached) (world_of s))

  run-Settles :
      IsWellFormed s → s.cached.deleted ≡ false → (run env s).1 ≡ none → Settles (run env s)
  run-Settles (d, stored, (t, n), older) live done =
      elim (Bool-cases (nat_eq s.cached.generation s.cached.status.observed_generation)) [
        | inl same ↦
            subst (λ m. m.1 ≡ none → Settles m) (sym (run_step false true live same))
              (λ h. (s.cached.status, work-settles s.cached.status (world_of s) t d h)) done
        | inr new ↦
            let (_, _, (_, types, seen)) = statuses_lem env.now s.cached "" "" List.[] t in
            let (d', (t', _)) =
              write_status-IsFine s.stored.generation env (reconciling_status env.now s.cached)
                (world_of s) (types, subst (λ k. k ≤ s.stored.generation) (sym seen) n)
                (d, stored) in
            subst (λ m. m.1 ≡ none → Settles m) (sym (run_step false false live new))
              (after_reconciling-Settles _ t' d') done
      ]

-- From a well-formed system, after whatever steps: a run of a cached Package that is not being
-- deleted, with a server-side apply that keeps an object's key, either returns an error or has
-- generated objects from that Package of which every one is there afterwards, while the Package owns
-- no other; and the stored conditions are Ready=True and neither Stalled nor Reconciling, for the
-- generation of the cached copy.
pub Reach-settles :
    {s t : System} (env : Environment)
    → KeepsKey env.server.merge
    → IsWellFormed s
    → Reach s t
    → t.cached.deleted ≡ false
    → (run env t).1 ≡ none
    → (q : PackageStatus) × ((desired : List Object) × IsSettled env t (run env t).0 q desired)
Reach-settles env keeps h r live done = run-Settles env keeps _ (Reach-IsWellFormed r h) live done
