-- ===== src/Controller/Cluster/Laws.antt =====
-- What applying the desired objects does to the objects of the cluster (`applyAll` of
-- internal/controller/package_controller.go).
use mathlib.Core.Path.{subst}
use bigbang_operator.Base.{
  String, Bool, true, false, ◌||◌, Option, none, some, List, [], ◌∷◌, ◌==◌, Error, wrap, ◌≡◌, refl,
  sym, ap, ◌∙◌, arith, Bool-cases, Option-cases, inl, inr, eq_iff,
}
use bigbang_operator.Base.Lists.{any, All}
use bigbang_operator.Object.{Object}
use bigbang_operator.Controller.Cluster.{
  Server, object_key, put_object, and_then, apply_one, apply_all,
}
use bigbang_operator.Controller.Prune.{keep_if, is_kept}
use bigbang_operator.Controller.Prune.Kept.{HasDistinctObjects}

-- Server-side apply answers with an object of the key that it was given.
abbrev pub KeepsKey : (Option Object → Object → Object) → Type 0
KeepsKey merge = (old : Option Object) (new : Object) → object_key (merge old new) ≡ object_key new

unfoldable pub has_key : String → List Object → Bool
has_key k objects = any (λ o. object_key o == k) objects

module _ (merge : Option Object → Object → Object) (keeps : KeepsKey merge) where
  put_object-fresh :
      (obj x : Object) (objects : List Object)
      → (object_key obj == object_key x) ≡ false
      → All (λ p. (object_key p == object_key x) ≡ false) objects
      → All (λ p. (object_key p == object_key x) ≡ false) (put_object merge obj objects)
  unfolding put_object
  put_object-fresh obj x [] e h = (rw (keeps none obj) e, tt)
  put_object-fresh obj x (o ∷ objects) e (f, h) =
      elim (Bool-cases (object_key o == object_key obj)) [
        | inl same ↦ rw same (rw (keeps (some o) obj) e, h)
        | inr other ↦ rw other (f, put_object-fresh obj x objects e h)
      ]

  pub put_object-distinct :
      (obj : Object) (objects : List Object)
      → HasDistinctObjects objects
      → HasDistinctObjects (put_object merge obj objects)
  unfolding put_object
  put_object-distinct obj [] d = (tt, tt)
  put_object-distinct obj (o ∷ objects) (h, d) =
      elim (Bool-cases (object_key o == object_key obj)) [
        | inl same ↦ rw same (
          subst (λ k. All (λ p. (object_key p == k) ≡ false) objects)
              ((eq_iff (object_key o) (object_key obj)).0 same ∙ sym (keeps (some o) obj)) h,
          d,
        )
        | inr other ↦ rw other (
          put_object-fresh obj o objects
              (ground (
                arith,
                other,
                eq_iff (object_key o) (object_key obj),
                eq_iff (object_key obj) (object_key o),
              ))
              h,
          put_object-distinct obj objects d,
        )
      ]

  -- The key is there afterwards, and keys that were there are.
  put_object-has_key :
      (obj : Object) (objects : List Object)
      → has_key (object_key obj) (put_object merge obj objects) ≡ true
  unfolding put_object has_key
  put_object-has_key obj [] =
      rw (keeps none obj) (ground (arith, eq_iff (object_key obj) (object_key obj)))
  put_object-has_key obj (o ∷ objects) = elim (Bool-cases (object_key o == object_key obj)) [
    | inl same ↦
        rw same (rw (keeps (some o) obj) (ground (arith, eq_iff (object_key obj) (object_key obj))))
    | inr other ↦ rw other (ground (arith, put_object-has_key obj objects))
  ]

  has_key-put_object :
      (k : String) (obj : Object) (objects : List Object)
      → has_key k objects ≡ true
      → has_key k (put_object merge obj objects) ≡ true
  unfolding put_object has_key
  has_key-put_object k obj [] h = cc
  has_key-put_object k obj (o ∷ objects) h = elim (Bool-cases (object_key o == object_key obj)) [
    | inl same ↦ rw same (
        rw (keeps (some o) obj) (
          subst (λ j. ((j == k) || has_key k objects) ≡ true)
            ((eq_iff (object_key o) (object_key obj)).0 same) h))
    | inr other ↦ rw other (ground (arith, h, has_key-put_object k obj objects))
  ]

  -- What `p` picks is the same if `p` picks neither the object that is replaced nor the new one.
  put_object-spares :
      (p : Object → Bool) (obj : Object) (objects : List Object)
      → ((o : Object) → object_key o ≡ object_key obj → p o ≡ false)
      → keep_if p (put_object merge obj objects) ≡ keep_if p objects
  unfolding put_object
  put_object-spares p obj [] h = rw (h (merge none obj) (keeps none obj)) refl
  put_object-spares p obj (o ∷ objects) h = elim (Bool-cases (object_key o == object_key obj)) [
    | inl same ↦ rw same (
        rw
          (
            h (merge (some o) obj) (keeps (some o) obj),
            h o ((eq_iff (object_key o) (object_key obj)).0 same),
          )
          refl)
    | inr other ↦ rw other (ground (arith, put_object-spares p obj objects h))
  ]

module _ (server : Server) (keeps : KeepsKey server.merge) where
  pub apply_one_ok :
      (obj : Object) (objects : List Object)
      → server.patch_error obj ≡ none
      → apply_one server obj objects ≡ (put_object server.merge obj objects, none)
  unfolding apply_one
  apply_one_ok obj objects e = rw (e, apply_one) refl

  pub apply_one_err :
      (obj : Object) (objects : List Object) (x : Error)
      → server.patch_error obj ≡ some x
      → apply_one server obj objects
        ≡ (objects, some (wrap "apply %s/%s: %w" (obj.gvk.kind ∷ obj.name ∷ []) x))
  unfolding apply_one
  apply_one_err obj objects x e = rw (e, apply_one) refl

  pub apply_all_step :
      (obj : Object) (desired objects : List Object)
      → server.patch_error obj ≡ none
      → apply_all server (obj ∷ desired) objects
        ≡ apply_all server desired (put_object server.merge obj objects)
  unfolding apply_all
  apply_all_step obj desired objects e =
      ap (λ m. and_then m (apply_all server desired)) (apply_one_ok obj objects e)

  pub apply_all-distinct :
      (desired objects : List Object)
      → HasDistinctObjects objects
      → HasDistinctObjects (apply_all server desired objects).0
  unfolding apply_all
  apply_all-distinct [] objects d = d
  apply_all-distinct (obj ∷ desired) objects d = elim (Option-cases (server.patch_error obj)) [
    | inl e ↦
        rw (apply_one_ok obj objects e, apply_all)
          (apply_all-distinct desired (put_object server.merge obj objects)
            (put_object-distinct server.merge keeps obj objects d))
    | inr (x, e) ↦ rw (apply_one_err obj objects x e, apply_all) d
  ]

  has_key-apply_all :
      (k : String) (desired objects : List Object)
      → has_key k objects ≡ true
      → has_key k (apply_all server desired objects).0 ≡ true
  unfolding apply_all
  has_key-apply_all k [] objects h = h
  has_key-apply_all k (obj ∷ desired) objects h = elim (Option-cases (server.patch_error obj)) [
    | inl e ↦
        rw (apply_one_ok obj objects e, apply_all)
          (has_key-apply_all k desired (put_object server.merge obj objects)
            (has_key-put_object server.merge keeps k obj objects h))
    | inr (x, e) ↦ rw (apply_one_err obj objects x e, apply_all) h
  ]

  pub apply_all-has_keys :
      (desired objects : List Object)
      → (apply_all server desired objects).1 ≡ none
      → All (λ d. has_key (object_key d) (apply_all server desired objects).0 ≡ true) desired
  unfolding apply_all
  apply_all-has_keys [] objects = λ h. tt
  apply_all-has_keys (obj ∷ desired) objects = elim (Option-cases (server.patch_error obj)) [
    | inl e ↦
        subst (λ m. m.1 ≡ none → All (λ d. has_key (object_key d) m.0 ≡ true) (obj ∷ desired))
          (sym (apply_all_step obj desired objects e))
          λ h. (
            has_key-apply_all (object_key obj) desired (put_object server.merge obj objects)
                (put_object-has_key server.merge keeps obj objects),
            apply_all-has_keys desired (put_object server.merge obj objects) h,
          )
    | inr (x, e) ↦ rw (apply_one_err obj objects x e, apply_all) λ h. cc
  ]

  pub apply_all-spares :
      (p : Object → Bool) (desired objects : List Object)
      → ((o : Object) → is_kept desired o ≡ true → p o ≡ false)
      → keep_if p (apply_all server desired objects).0 ≡ keep_if p objects
  unfolding apply_all is_kept
  apply_all-spares p [] objects h = refl
  apply_all-spares p (obj ∷ desired) objects h = elim (Option-cases (server.patch_error obj)) [
    | inl e ↦
        rw (apply_one_ok obj objects e, apply_all)
          (apply_all-spares p desired (put_object server.merge obj objects)
              (λ o k. h o (ground (arith, k)))
            ∙ put_object-spares server.merge keeps p obj objects
                (λ o k. h o (ground (arith, eq_iff (object_key obj) (object_key o), sym k))))
    | inr (x, e) ↦ rw (apply_one_err obj objects x e, apply_all) refl
  ]
