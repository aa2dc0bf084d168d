-- ===== src/Controller/Prune/Laws.antt =====
-- What the pruning of internal/controller/prune.go deletes and what it leaves.
use mathlib.Core.Path.{subst, fun_ext}
use bigbang_operator.Base.{
  Bool, true, not, ◌&&◌, ◌||◌, none, List, [], ◌∷◌, ◌≡◌, refl, sym, arith, Option-cases, inl, inr,
}
use bigbang_operator.Base.Lists.{any, All}
use bigbang_operator.Api.Package.{Package}
use bigbang_operator.Object.{Object, Kind, kind_of}
use bigbang_operator.Controller.Cluster.{Server, and_then}
use bigbang_operator.Controller.Prune.Closed.{delete_items-closed}
use bigbang_operator.Controller.Prune.Delete.{
  hit, hit_listed, Deletes, Deletes-and_then, Deletes-ext, delete_items_lem,
}
use bigbang_operator.Controller.Prune.Extract.{extract_items-filled}
use bigbang_operator.Controller.Prune.{
  kind_eq, managed_list_kinds, keep_if, is_owned, is_kept, list_kind, delete_items, prune_kind,
  prune_kinds, prune_stale,
}
use bigbang_operator.Controller.Prune.Kept.{
  All-keep_if, All-map, HasDistinctObjects, distinct-keep_if, keep_if_all,
}

-- What the package's label claims and the package no longer wants.
abbrev pub is_stale : Package → List Object → Object → Bool
is_stale pkg desired o = is_owned pkg o && not (is_kept desired o)

module _ (server : Server) (pkg : Package) (desired : List Object) where
  abbrev spared : List Kind → Object → Bool
  spared kinds o = not (any (λ k. kind_eq (kind_of o.spec) k) kinds && is_stale pkg desired o)

  spared_of : Kind → Object → Bool
  spared_of kind o = not (kind_eq (kind_of o.spec) kind && is_stale pkg desired o)

  -- The round of a kind deletes the object if and only if it is not spared.
  abbrev Agrees : Kind → List Object → Object → Type 0
  Agrees kind objects o = not (hit desired (list_kind pkg kind objects) o) ≡ spared_of kind o

  listed :
      (kind : Kind) (objects : List Object)
      → HasDistinctObjects objects
      → All (Agrees kind objects) objects
  unfolding list_kind spared_of
  listed kind objects d =
      All-map _ _ (λ o e. ground (arith, e)) objects
        (hit_listed desired (λ o. kind_eq (kind_of o.spec) kind && is_owned pkg o) objects d)

  prune_kind_lem :
      (kind : Kind) (objects : List Object)
      → HasDistinctObjects objects
      → Deletes (spared_of kind) objects (prune_kind server pkg desired kind objects)
  unfolding prune_kind
  prune_kind_lem kind objects d = elim (Option-cases (server.list_error kind)) [
    | inl e ↦
        rw (e, extract_items-filled kind (list_kind pkg kind objects), prune_kind)
          (Deletes-ext _ (spared_of kind) objects
            (delete_items server desired (list_kind pkg kind objects) objects)
            (listed kind objects d)
            (delete_items-closed (All (Agrees kind objects)) (All-keep_if (Agrees kind objects))
              server desired (list_kind pkg kind objects) objects (listed kind objects d))
            (delete_items_lem server desired (list_kind pkg kind objects) objects))
    | inr (x, e) ↦ rw (e, prune_kind) (refl, λ h. cc)
  ]

  prune_kinds_lem :
      (kinds : List Kind) (objects : List Object)
      → HasDistinctObjects objects
      → Deletes (spared kinds) objects (prune_kinds server pkg desired kinds objects)
  unfolding prune_kinds spared_of
  prune_kinds_lem [] objects d = (refl, λ e. sym (keep_if_all objects))
  prune_kinds_lem (kind ∷ kinds) objects d =
      subst
        (λ p. Deletes p objects (
          and_then (prune_kind server pkg desired kind objects)
            (prune_kinds server pkg desired kinds)))
        (fun_ext λ o. split (kind_eq (kind_of o.spec) kind) _ (is_stale pkg desired o))
        (Deletes-and_then (spared kinds) (spared_of kind) objects _ _
          (prune_kind_lem kind objects d)
          λ e. prune_kinds_lem kinds _ (
            subst HasDistinctObjects (sym ((prune_kind_lem kind objects d).1 e))
              (distinct-keep_if (spared_of kind) objects d)))
    where
      split : (a b s : Bool) → (not (a && s) && not (b && s)) ≡ not ((a || b) && s)
      split a b s = ground arith

-- Every type of object that the generator emits is listed.
pub managed_list_kinds_all : (kind : Kind) → any (λ k. kind_eq kind k) managed_list_kinds ≡ true
unfolding managed_list_kinds
managed_list_kinds_all Kind.network_policy = refl
managed_list_kinds_all Kind.peer_authentication = refl
managed_list_kinds_all Kind.authorization_policy = refl
managed_list_kinds_all Kind.virtual_service = refl
managed_list_kinds_all Kind.service_entry = refl
managed_list_kinds_all Kind.sidecar = refl

prune_stale_both :
    (server : Server) (pkg : Package) (desired objects : List Object)
    → HasDistinctObjects objects
    → Deletes (λ o. not (is_stale pkg desired o)) objects (prune_stale server pkg desired objects)
unfolding prune_stale
prune_stale_both server pkg desired objects d =
    subst (λ p. Deletes p objects (prune_stale server pkg desired objects))
      (fun_ext λ o. ground (arith, managed_list_kinds_all (kind_of o.spec)))
      (prune_kinds_lem server pkg desired managed_list_kinds objects d)

-- If the objects have distinct keys and the pruning returns no error, exactly the objects of the
-- package that are not desired are gone, and the others are there in their order.
pub prune_stale_lem :
    (server : Server) (pkg : Package) (desired objects : List Object)
    → HasDistinctObjects objects
    → (prune_stale server pkg desired objects).1 ≡ none
    → (prune_stale server pkg desired objects).0
      ≡ keep_if (λ o. not (is_stale pkg desired o)) objects
prune_stale_lem server pkg desired objects d = (prune_stale_both server pkg desired objects d).1

-- If the objects have distinct keys, then those that belong to no package or another one, and those
-- that are desired, are the same before and after the pruning, whether or not it returns an error.
pub prune_stale-spares :
    (server : Server) (pkg : Package) (desired objects : List Object)
    → HasDistinctObjects objects
    → keep_if (λ o. not (is_stale pkg desired o)) (prune_stale server pkg desired objects).0
      ≡ keep_if (λ o. not (is_stale pkg desired o)) objects
prune_stale-spares server pkg desired objects d = (prune_stale_both server pkg desired objects d).0
