-- ===== src/Generator/Made.antt =====
-- What holds of every object that a builder of pkg/generator makes: the lemmas on the loops and calls
-- that the builders are made of, for any predicate on objects.
use bigbang_operator.Base.{
  String, Bool, true, false, List, [], ◌∷◌, ◌++◌, map, if◌then◌else◌, Result, ok, err, ◌>>=◌,
  within,
}
use bigbang_operator.Base.Lists.{All, All-append, OnOk, OnOk-within}
use bigbang_operator.Object.{Object}

-- If objects are returned, it holds of each.
abbrev pub AllMade : (Object → Type 0) → Result (List Object) → Type 0
AllMade P m = OnOk (All P) m

module _ (P : Object → Type 0) where
  pub All-if : (b : Bool) (xs : List Object) → All P xs → All P (if b then xs else [])
  All-if true xs h = h
  All-if false xs h = tt

  pub All-else : (b : Bool) (xs : List Object) → All P xs → All P (if b then [] else xs)
  All-else true xs h = tt
  All-else false xs h = h

  pub All-when :
      (b : Bool) (o : Object) (xs : List Object)
      → P o
      → All P xs
      → All P ((if b then o ∷ [] else []) ++ xs)
  All-when true o xs h k = (h, k)
  All-when false o xs h k = k

  pub All-mapped {ℓ} :
      {A : Type ℓ} (f : A → Object) → ((a : A) → P (f a)) → (xs : List A) → All P (map f xs)
  All-mapped f h [] = tt
  All-mapped f h (x ∷ xs) = (h x, All-mapped f h xs)

  pub AllMade-if :
      (b : Bool) (m : Result (List Object)) → AllMade P m → AllMade P (if b then m else ok [])
  AllMade-if true m h = h
  AllMade-if false m h = tt

  pub AllMade-within :
      (text : String) (args : List String) (m : Result (List Object))
      → AllMade P m
      → AllMade P (within text args m)
  AllMade-within = OnOk-within (All P)

  module _ {ℓ} {A : Type ℓ} where
    pub AllMade-bind :
        (m : Result A) (f : A → Result (List Object))
        → ((a : A) → AllMade P (f a))
        → AllMade P (m >>= f)
    AllMade-bind (ok a) f h = h a
    AllMade-bind (err e) f h = tt

    pub AllMade-one :
        (m : Result A) (f : A → Object) → ((a : A) → P (f a)) → AllMade P (m >>= λ a. ok (f a ∷ []))
    AllMade-one m f h = AllMade-bind m (λ a. ok (f a ∷ [])) λ a. (h a, tt)

    pub OnOk-bind :
        (m : Result A) (f : A → Result Object) → ((a : A) → OnOk P (f a)) → OnOk P (m >>= f)
    OnOk-bind (ok a) f h = h a
    OnOk-bind (err e) f h = tt

  pub AllMade-made :
      (m : Result Object) (f : Object → Object)
      → OnOk P m
      → ((o : Object) → P o → P (f o))
      → AllMade P (m >>= λ o. ok (f o ∷ []))
  AllMade-made (ok o) f h step = (step o h, tt)
  AllMade-made (err e) f h step = tt

  pub AllMade-first :
      (m : Result Object) (rest : List Object)
      → OnOk P m
      → All P rest
      → AllMade P (m >>= λ o. ok (o ∷ rest))
  AllMade-first (ok o) rest h k = (h, k)
  AllMade-first (err e) rest h k = tt

  -- The object of one call in front of those of another.
  pub AllMade-cons :
      (m : Result Object) (n : Result (List Object))
      → OnOk P m
      → AllMade P n
      → AllMade P (m >>= λ o. n >>= λ os. ok (o ∷ os))
  AllMade-cons (ok o) (ok os) h k = (h, k)
  AllMade-cons (ok o) (err e) h k = tt
  AllMade-cons (err e) n h k = tt

  pub AllMade-append :
      (m n : Result (List Object))
      → AllMade P m
      → AllMade P n
      → AllMade P (m >>= λ a. n >>= λ b. ok (a ++ b))
  AllMade-append (ok a) (ok b) h k = All-append P a b h k
  AllMade-append (ok a) (err e) h k = tt
  AllMade-append (err e) n h k = tt

  -- The objects of a call behind some that are there.
  pub AllMade-behind :
      (start : List Object) (m : Result (List Object))
      → All P start
      → AllMade P m
      → AllMade P (m >>= λ a. ok (start ++ a))
  AllMade-behind start (ok a) h k = All-append P start a h k
  AllMade-behind start (err e) h k = tt

  -- The objects of four calls, behind some that are there.
  pub AllMade-four :
      (m n p q : Result (List Object))
      → AllMade P m
      → AllMade P n
      → AllMade P p
      → AllMade P q
      → AllMade P (m >>= λ a. n >>= λ b. p >>= λ c. q >>= λ d. ok (a ++ (b ++ (c ++ d))))
  AllMade-four (ok a) (ok b) (ok c) (ok d) i j k l =
      All-append P a _ i (All-append P b _ j (All-append P c d k l))
  AllMade-four (err e) n p q i j k l = tt
  AllMade-four (ok a) (err e) p q i j k l = tt
  AllMade-four (ok a) (ok b) (err e) q i j k l = tt
  AllMade-four (ok a) (ok b) (ok c) (err e) i j k l = tt

  pub AllMade-behind_four :
      (start more : List Object) (m n p q : Result (List Object))
      → All P start
      → All P more
      → AllMade P m
      → AllMade P n
      → AllMade P p
      → AllMade P q
      → AllMade P (
          m >>= λ a.
          n >>= λ b. p >>= λ c. q >>= λ d. ok (start ++ (more ++ (a ++ (b ++ (c ++ d))))))
  AllMade-behind_four start more (ok a) (ok b) (ok c) (ok d) g h i j k l =
      All-append P start _ g
        (All-append P more _ h (AllMade-four (ok a) (ok b) (ok c) (ok d) i j k l))
  AllMade-behind_four start more (err e) n p q g h i j k l = tt
  AllMade-behind_four start more (ok a) (err e) p q g h i j k l = tt
  AllMade-behind_four start more (ok a) (ok b) (err e) q g h i j k l = tt
  AllMade-behind_four start more (ok a) (ok b) (ok c) (err e) g h i j k l = tt
