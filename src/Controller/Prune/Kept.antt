-- ===== src/Controller/Prune/Kept.antt =====
-- The lists of objects that a test keeps, and keys that differ.
use bigbang_operator.Base.{
  Bool, true, false, not, ◌&&◌, ◌||◌, List, [], ◌∷◌, ◌==◌, ◌≡◌, refl, ap, arith, Bool-cases, inl,
  inr,
}
use bigbang_operator.Base.Lists.{All}
use bigbang_operator.Object.{Object}
use bigbang_operator.Controller.Cluster.{object_key}
use bigbang_operator.Controller.Prune.{keep_if}

module _ {ℓ} {A : Type ℓ} where
  pub keep_if-keep_if :
      (p q : A → Bool) (xs : List A) → keep_if p (keep_if q xs) ≡ keep_if (λ x. q x && p x) xs
  keep_if-keep_if p q [] = refl
  keep_if-keep_if p q (x ∷ xs) = ground (arith, keep_if-keep_if p q xs)

  pub keep_if_ext :
      (p q : A → Bool) (xs : List A) → All (λ x. p x ≡ q x) xs → keep_if p xs ≡ keep_if q xs
  keep_if_ext p q [] h = refl
  keep_if_ext p q (x ∷ xs) (e, h) = rw (e, keep_if_ext p q xs h) refl

  pub All-keep_if {κ} :
      (P : A → Type κ) (p : A → Bool) (xs : List A) → All P xs → All P (keep_if p xs)
  All-keep_if P p [] h = tt
  All-keep_if P p (x ∷ xs) (a, h) = elim (Bool-cases (p x)) [
    | inl t ↦ rw t (a, All-keep_if P p xs h)
    | inr f ↦ rw f (All-keep_if P p xs h)
  ]

  pub All-map {κ ι} :
      (P : A → Type κ) (Q : A → Type ι)
      → ((x : A) → P x → Q x)
      → (xs : List A) → All P xs
      → All Q xs
  All-map P Q f [] h = tt
  All-map P Q f (x ∷ xs) (a, h) = (f x a, All-map P Q f xs h)

-- No two objects have the same key, as on every API server.
abbrev pub HasDistinctObjects : List Object → Type 0
HasDistinctObjects [] = Unit
HasDistinctObjects (o ∷ os) =
    All (λ p. (object_key p == object_key o) ≡ false) os × HasDistinctObjects os

pub distinct-keep_if :
    (p : Object → Bool) (xs : List Object)
    → HasDistinctObjects xs
    → HasDistinctObjects (keep_if p xs)
distinct-keep_if p [] d = tt
distinct-keep_if p (x ∷ xs) (h, d) = elim (Bool-cases (p x)) [
  | inl t ↦ rw t (All-keep_if _ p xs h, distinct-keep_if p xs d)
  | inr f ↦ rw f (distinct-keep_if p xs d)
]

pub keep_if_swap {ℓ} :
    {A : Type ℓ} (p q : A → Bool) (xs : List A)
    → keep_if (λ x. q x && p x) xs ≡ keep_if q (keep_if p xs)
keep_if_swap p q [] = refl
keep_if_swap p q (x ∷ xs) = ground (arith, keep_if_swap p q xs)

pub keep_if_twice {ℓ} :
    {A : Type ℓ} (p : A → Bool) (xs : List A) → keep_if p (keep_if p xs) ≡ keep_if p xs
keep_if_twice p [] = refl
keep_if_twice p (x ∷ xs) = ground (arith, keep_if_twice p xs)

pub de_morgan : (a b : Bool) → (not a && not b) ≡ not (a || b)
de_morgan true b = refl
de_morgan false b = refl

pub keep_if_all : (xs : List Object) → keep_if (λ x. true) xs ≡ xs
keep_if_all [] = refl
keep_if_all (x ∷ xs) = ap (λ ys. x ∷ ys) (keep_if_all xs)
