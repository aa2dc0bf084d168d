-- ===== src/Controller/Prune/Delete.antt =====
-- What the loop of internal/controller/prune.go over the listed items deletes.
use mathlib.Core.Path.{subst, fun_ext}
use bigbang_operator.Base.{
  Bool, false, not, ◌&&◌, Option, none, some, List, [], ◌∷◌, ◌==◌, Error, ◌≡◌, refl, sym, ap, ◌∙◌,
  arith, Bool-cases, inl, inr, eq_iff,
}
use bigbang_operator.Base.Lists.{any, All}
use bigbang_operator.Object.{Object}
use bigbang_operator.Controller.Cluster.{
  Server, DeleteError, not_found, failed, object_key, and_then,
}
use bigbang_operator.Controller.Prune.{
  keep_if, is_kept, remove_object, after_delete, delete_item, delete_items,
}
use bigbang_operator.Controller.Prune.Kept.{
  keep_if-keep_if, keep_if_ext, HasDistinctObjects, keep_if_swap, keep_if_twice, keep_if_all,
  de_morgan,
}

-- One of the items has the object's key, and is not to be kept.
abbrev pub hit : List Object → List Object → Object → Bool
hit desired items o =
    any (λ item. not (is_kept desired item) && object_key item == object_key o) items

module _ (desired : List Object) (g : Object → Bool) where
  not_hit :
      (x : Object) (xs : List Object)
      → All (λ p. (object_key p == object_key x) ≡ false) xs
      → hit desired (keep_if g xs) x ≡ false
  not_hit x [] h = refl
  not_hit x (y ∷ ys) (e, h) = ground (arith, e, not_hit x ys h)

  hit_self :
      (x : Object) (xs : List Object)
      → All (λ p. (object_key p == object_key x) ≡ false) xs
      → hit desired (keep_if g (x ∷ xs)) x ≡ (g x && not (is_kept desired x))
  hit_self x xs h = ground (arith, eq_iff (object_key x) (object_key x), not_hit x xs h)

  hit_other :
      (x y : Object) (xs : List Object)
      → (object_key y == object_key x) ≡ false
      → hit desired (keep_if g (x ∷ xs)) y ≡ hit desired (keep_if g xs) y
  hit_other x y xs e =
      ground (arith, e, eq_iff (object_key x) (object_key y), eq_iff (object_key y) (object_key x))

  -- Among objects with distinct keys a listed object hits itself only.
  pub hit_listed :
      (xs : List Object)
      → HasDistinctObjects xs
      → All (λ o. hit desired (keep_if g xs) o ≡ (g o && not (is_kept desired o))) xs
  hit_listed [] d = tt
  hit_listed (x ∷ xs) (h, d) = (hit_self x xs h, both xs (hit_listed xs d) h)
    where
      both :
          (ys : List Object)
          → All (λ o. hit desired (keep_if g xs) o ≡ (g o && not (is_kept desired o))) ys
          → All (λ p. (object_key p == object_key x) ≡ false) ys
          → All (λ o. hit desired (keep_if g (x ∷ xs)) o ≡ (g o && not (is_kept desired o))) ys
      both [] a b = tt
      both (y ∷ ys) (e, a) (f, b) = (hit_other x y xs f ∙ e, both ys a b)

-- Before a step on the objects, on those that `p` keeps it does nothing; without an error it leaves
-- no other.
abbrev pub Deletes : (Object → Bool) → List Object → List Object × Option Error → Type 0
Deletes p objects (result, e) =
    (keep_if p result ≡ keep_if p objects) × (e ≡ none → result ≡ keep_if p objects)

-- Two steps, the second of which runs if the first has no error.
pub Deletes-and_then :
    (p q : Object → Bool) (xs : List Object) (m : List Object × Option Error)
    (f : List Object → List Object × Option Error)
    → Deletes q xs m
    → (m.1 ≡ none → Deletes p m.0 (f m.0))
    → Deletes (λ x. q x && p x) xs (and_then m f)
Deletes-and_then p q xs (r, some e) f (same, all) next =
    (sym (keep_if-keep_if p q r) ∙ ap (keep_if p) same ∙ keep_if-keep_if p q xs, λ h. cc)
Deletes-and_then p q xs (r, none) f (same, all) next =
    let (same', all') = next refl in
    (
      keep_if_swap p q (f r).0
          ∙ ap (keep_if q) same'
          ∙ sym (keep_if_swap p q r)
          ∙ sym (keep_if-keep_if p q r)
          ∙ ap (keep_if p) same
          ∙ keep_if-keep_if p q xs,
      λ h. all' h ∙ ap (keep_if p) (all refl) ∙ keep_if-keep_if p q xs,
    )

module _ (server : Server) (desired : List Object) where
  after_delete_lem :
      (d : Option DeleteError) (item : Object) (objects : List Object)
      → Deletes (λ o. not (object_key item == object_key o)) objects (after_delete d item objects)
  unfolding after_delete remove_object
  after_delete_lem none item objects = (keep_if_twice _ objects, λ e. refl)
  after_delete_lem (some not_found) item objects = (keep_if_twice _ objects, λ e. refl)
  after_delete_lem (some (failed e)) item objects = (refl, λ h. cc)

  pub delete_items_lem :
      (items objects : List Object)
      → Deletes (λ o. not (hit desired items o)) objects (delete_items server desired items objects)
  unfolding delete_items delete_item
  delete_items_lem [] objects = (refl, λ e. sym (keep_if_all objects))
  delete_items_lem (item ∷ items) objects = elim (Bool-cases (is_kept desired item)) [
    | inl kept ↦ rw kept (delete_items_lem items objects)
    | inr stale ↦ rw stale (
        subst
          (λ p. Deletes p objects (
            and_then (after_delete (server.delete_error item) item objects)
              (delete_items server desired items)))
          (fun_ext λ o. de_morgan (object_key item == object_key o) (hit desired items o))
          (Deletes-and_then (λ o. not (hit desired items o))
            (λ o. not (object_key item == object_key o)) objects _ _
            (after_delete_lem (server.delete_error item) item objects)
            λ e. delete_items_lem items _))
  ]

-- A predicate that says the same of all objects deletes the same.
pub Deletes-ext :
    (p q : Object → Bool) (objects : List Object) (m : List Object × Option Error)
    → All (λ o. p o ≡ q o) objects
    → All (λ o. p o ≡ q o) m.0
    → Deletes p objects m
    → Deletes q objects m
Deletes-ext p q objects (r, e) h k (same, all) = (
  sym (keep_if_ext p q r k) ∙ same ∙ keep_if_ext p q objects h,
  λ z. all z ∙ keep_if_ext p q objects h,
)
