-- ===== src/Controller/Cluster/Fixed.antt =====
-- Applying the same objects again (`applyAll` of internal/controller/package_controller.go) changes
-- nothing.
use bigbang_operator.Base.{
  true, false, Option, none, some, List, [], ◌∷◌, ◌==◌, ◌≡◌, refl, sym, ap, ◌∙◌, subst, arith,
  Bool-cases, Option-cases, inl, inr, eq_iff,
}
use bigbang_operator.Base.Lists.{All}
use bigbang_operator.Object.{Object}
use bigbang_operator.Controller.Cluster.{Server, object_key, put_object, apply_all}
use bigbang_operator.Controller.Cluster.Laws.{
  KeepsKey, has_key, put_object-distinct, apply_one_ok, apply_one_err, apply_all_step,
}
use bigbang_operator.Controller.Prune.Kept.{HasDistinctObjects}

-- Server-side apply of what is there changes nothing.
abbrev pub IsIdempotent : (Option Object → Object → Object) → Type 0
IsIdempotent merge =
    (old : Option Object) (new : Object) → merge (some (merge old new)) new ≡ merge old new

-- Applying `d` to `o` changes nothing, if it is the object of its key.
abbrev pub IsFixed : (Option Object → Object → Object) → Object → Object → Type 0
IsFixed merge d o = (object_key o == object_key d) ≡ true → merge (some o) d ≡ o

module _ (merge : Option Object → Object → Object) where
  pub put_object-fixed :
      (d : Object) (objects : List Object)
      → has_key (object_key d) objects ≡ true
      → All (IsFixed merge d) objects
      → put_object merge d objects ≡ objects
  unfolding put_object has_key
  put_object-fixed d [] h f = cc
  put_object-fixed d (o ∷ objects) h (f, fs) = elim (Bool-cases (object_key o == object_key d)) [
    | inl same ↦ rw (same, put_object) (ap (λ x. x ∷ objects) (f same))
    | inr other ↦
        rw (other, put_object)
          (ap (λ xs. o ∷ xs) (put_object-fixed d objects (ground (arith, h, other)) fs))
  ]

  module _ (keeps : KeepsKey merge) where
    -- The object of another key is not that of `d`.
    other_key : (d o : Object) → (object_key o == object_key d) ≡ false → IsFixed merge d o
    other_key d o e h = cc

    All-other :
        (d o : Object) (objects : List Object)
        → object_key o ≡ object_key d
        → All (λ p. (object_key p == object_key o) ≡ false) objects
        → All (IsFixed merge d) objects
    All-other d o [] e h = tt
    All-other d o (p ∷ objects) e (f, h) =
        (other_key d p (subst (λ k. (object_key p == k) ≡ false) e f), All-other d o objects e h)

    put_object-itself :
        IsIdempotent merge
        → (d : Object) (objects : List Object) → HasDistinctObjects objects
        → All (IsFixed merge d) (put_object merge d objects)
    unfolding put_object
    put_object-itself again d [] u = ((λ e. again none d), tt)
    put_object-itself again d (o ∷ objects) (h, u) =
        elim (Bool-cases (object_key o == object_key d)) [
          | inl same ↦ rw same (
            (λ e. again (some o) d),
            All-other d o objects ((eq_iff (object_key o) (object_key d)).0 same) h,
          )
          | inr other ↦ rw other (other_key d o other, put_object-itself again d objects u)
        ]

    put_object-other :
        (d e : Object) (objects : List Object)
        → (object_key e == object_key d) ≡ false
        → All (IsFixed merge d) objects
        → All (IsFixed merge d) (put_object merge e objects)
    unfolding put_object
    put_object-other d e [] differ f = (
      other_key d (merge none e)
          (subst (λ k. (k == object_key d) ≡ false) (sym (keeps none e)) differ),
      tt,
    )
    put_object-other d e (o ∷ objects) differ (f, fs) =
        elim (Bool-cases (object_key o == object_key e)) [
          | inl same ↦ rw same (
            other_key d (merge (some o) e)
                (subst (λ k. (k == object_key d) ≡ false) (sym (keeps (some o) e)) differ),
            fs,
          )
          | inr other ↦ rw other (f, put_object-other d e objects differ fs)
        ]

module _ (server : Server) (keeps : KeepsKey server.merge) where
  apply_all-other :
      (d : Object) (desired objects : List Object)
      → All (λ e. (object_key e == object_key d) ≡ false) desired
      → All (IsFixed server.merge d) objects
      → All (IsFixed server.merge d) (apply_all server desired objects).0
  unfolding apply_all
  apply_all-other d [] objects h f = f
  apply_all-other d (e ∷ desired) objects (differ, h) f =
      elim (Option-cases (server.patch_error e)) [
        | inl fine ↦
            rw (apply_one_ok server keeps e objects fine, apply_all)
              (apply_all-other d desired (put_object server.merge e objects) h
                (put_object-other server.merge keeps d e objects differ f))
        | inr (x, broken) ↦ rw (apply_one_err server keeps e objects x broken, apply_all) f
      ]

  -- After an apply of objects with distinct keys that returns no error, no patch of them fails, and
  -- each is fixed.
  pub apply_all-IsFixed :
      IsIdempotent server.merge
      → (desired objects : List Object) → HasDistinctObjects desired
      → HasDistinctObjects objects
      → (apply_all server desired objects).1 ≡ none
      → All
          (λ d.
            (server.patch_error d ≡ none)
            × All (IsFixed server.merge d) (apply_all server desired objects).0)
          desired
  unfolding apply_all
  apply_all-IsFixed again [] objects v u = λ h. tt
  apply_all-IsFixed again (d ∷ desired) objects (differ, v) u =
      elim (Option-cases (server.patch_error d)) [
        | inl fine ↦
            subst
              (λ m.
                m.1 ≡ none
                → All (λ e. (server.patch_error e ≡ none) × All (IsFixed server.merge e) m.0)
                    (d ∷ desired))
              (sym (apply_all_step server keeps d desired objects fine))
              λ h. (
                (
                  fine,
                  apply_all-other d desired (put_object server.merge d objects) differ
                      (put_object-itself server.merge keeps again d objects u),
                ),
                apply_all-IsFixed again desired (put_object server.merge d objects) v
                    (put_object-distinct server.merge keeps d objects u) h,
              )
        | inr (x, broken) ↦ rw (apply_one_err server keeps d objects x broken, apply_all) λ h. cc
      ]

  -- Applying objects that are there and fixed does nothing.
  pub apply_all-nothing :
      (desired objects : List Object)
      → All
          (λ d.
            (server.patch_error d ≡ none)
            × (has_key (object_key d) objects ≡ true)
            × All (IsFixed server.merge d) objects)
          desired
      → apply_all server desired objects ≡ (objects, none)
  unfolding apply_all
  apply_all-nothing [] objects h = refl
  apply_all-nothing (d ∷ desired) objects ((fine, there, fixed), h) =
      apply_all_step server keeps d desired objects fine
      ∙ ap (apply_all server desired) (put_object-fixed server.merge d objects there fixed)
      ∙ apply_all-nothing desired objects h
