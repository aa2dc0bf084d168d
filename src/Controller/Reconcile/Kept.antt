-- ===== src/Controller/Reconcile/Kept.antt =====
-- Pruning keeps what is desired, and leaves nothing stale (internal/controller/prune.go).
use mathlib.Core.Path.{subst}
use bigbang_operator.Base.{
  String, true, not, ◌||◌, List, [], ◌∷◌, ◌==◌, ◌≡◌, sym, arith, Bool-cases, inl, inr, eq_iff,
}
use bigbang_operator.Base.Lists.{any, All}
use bigbang_operator.Api.Package.{Package}
use bigbang_operator.Object.{Object}
use bigbang_operator.Controller.Cluster.{object_key}
use bigbang_operator.Controller.Prune.{keep_if, is_owned, is_kept}
use bigbang_operator.Controller.Prune.Kept.{All-map}
use bigbang_operator.Controller.Prune.Laws.{is_stale}
use bigbang_operator.Controller.Reconcile.{}
use bigbang_operator.Controller.Cluster.Laws.{has_key}

pub desired_kept : (desired : List Object) → All (λ d. is_kept desired d ≡ true) desired
unfolding is_kept
desired_kept [] = tt
desired_kept (d ∷ ds) = (
  ground (arith, eq_iff (object_key d) (object_key d)),
  All-map _ _ (λ o h. ground (arith, h)) ds (desired_kept ds),
)

module _ (pkg : Package) (desired : List Object) where
  pub has_key-kept :
      (k : String) (xs : List Object)
      → any (λ d. object_key d == k) desired ≡ true
      → has_key k xs ≡ true
      → has_key k (keep_if (λ o. not (is_stale pkg desired o)) xs) ≡ true
  unfolding has_key is_kept
  has_key-kept k [] h e = e
  has_key-kept k (x ∷ xs) h e = elim (Bool-cases (object_key x == k)) [
    | inl same ↦
        let kept : is_kept desired x ≡ true =
          subst (λ j. any (λ d. object_key d == j) desired ≡ true)
            (sym ((eq_iff (object_key x) k).0 same)) h in
        ground (arith, kept, same)
    | inr other ↦ ground (arith, other, e, has_key-kept k xs h)
  ]

  pub not_stale :
      (xs : List Object)
      → All
          (λ o. (not (is_owned pkg o) || is_kept desired o) ≡ true)
          (keep_if (λ o. not (is_stale pkg desired o)) xs)
  not_stale [] = tt
  not_stale (x ∷ xs) = elim (Bool-cases (is_stale pkg desired x)) [
    | inl stale ↦ rw stale (not_stale xs)
    | inr fine ↦ rw fine (ground (arith, fine), not_stale xs)
  ]
