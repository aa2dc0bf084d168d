-- ===== src/Controller/Prune/Closed.antt =====
-- The pruning of internal/controller/prune.go only takes objects away: what a list has and keeps
-- when it loses elements, the objects have after the pruning.
use bigbang_operator.Base.{
  Bool, Option, none, some, List, [], ◌∷◌, Error, Bool-cases, Option-cases, inl, inr,
}
use bigbang_operator.Api.Package.{Package}
use bigbang_operator.Object.{Object, Kind}
use bigbang_operator.Controller.Cluster.{Server, DeleteError, not_found, failed, and_then}
use bigbang_operator.Controller.Prune.Extract.{extract_items-filled}
use bigbang_operator.Controller.Prune.{
  managed_list_kinds, keep_if, is_kept, list_kind, remove_object, after_delete, delete_items,
  delete_item, prune_kind, prune_kinds, prune_stale,
}

module _ (Q : List Object → Type 0)
    (closed : (p : Object → Bool) (xs : List Object) → Q xs → Q (keep_if p xs)) where
  and_then-closed :
      (m : List Object × Option Error) (f : List Object → List Object × Option Error)
      → Q m.0
      → ((ys : List Object) → Q ys → Q (f ys).0)
      → Q (and_then m f).0
  and_then-closed (ys, some e) f h next = h
  and_then-closed (ys, none) f h next = next ys h

  after_delete-closed :
      (d : Option DeleteError) (item : Object) (objects : List Object)
      → Q objects
      → Q (after_delete d item objects).0
  unfolding after_delete remove_object
  after_delete-closed none item objects h = closed _ objects h
  after_delete-closed (some not_found) item objects h = closed _ objects h
  after_delete-closed (some (failed e)) item objects h = h

  module _ (server : Server) (desired : List Object) where
    delete_item-closed :
        (item : Object) (objects : List Object)
        → Q objects
        → Q (delete_item server desired item objects).0
    unfolding delete_item
    delete_item-closed item objects h = elim (Bool-cases (is_kept desired item)) [
      | inl kept ↦ rw kept h
      | inr stale ↦ rw stale (after_delete-closed (server.delete_error item) item objects h)
    ]

    pub delete_items-closed :
        (items objects : List Object) → Q objects → Q (delete_items server desired items objects).0
    unfolding delete_items
    delete_items-closed [] objects h = h
    delete_items-closed (item ∷ items) objects h =
        and_then-closed (delete_item server desired item objects) _
          (delete_item-closed item objects h) (delete_items-closed items)

    module _ (pkg : Package) where
      prune_kind-closed :
          (kind : Kind) (objects : List Object)
          → Q objects
          → Q (prune_kind server pkg desired kind objects).0
      unfolding prune_kind
      prune_kind-closed kind objects h = elim (Option-cases (server.list_error kind)) [
        | inl e ↦
            rw (e, extract_items-filled kind (list_kind pkg kind objects), prune_kind)
              (delete_items-closed (list_kind pkg kind objects) objects h)
        | inr (x, e) ↦ rw (e, prune_kind) h
      ]

      prune_kinds-closed :
          (kinds : List Kind) (objects : List Object)
          → Q objects
          → Q (prune_kinds server pkg desired kinds objects).0
      unfolding prune_kinds
      prune_kinds-closed [] objects h = h
      prune_kinds-closed (kind ∷ kinds) objects h =
          and_then-closed (prune_kind server pkg desired kind objects) _
            (prune_kind-closed kind objects h) (prune_kinds-closed kinds)

      pub prune_stale-closed :
          (objects : List Object) → Q objects → Q (prune_stale server pkg desired objects).0
      unfolding prune_stale
      prune_stale-closed = prune_kinds-closed managed_list_kinds
