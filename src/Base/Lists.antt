-- ===== src/Base/Lists.antt =====
-- Loops over slices that append to `out`, and predicates on every element.
use Prim.Native.Nat.{ℕ, suc, ◌+◌}
use mathlib.Core.Path.{◌≡◌, refl, subst}
use Prim.Native.String.{String}
use mathlib.Core.Bool.{Bool, false, ◌||◌}
use mathlib.Core.List.{List, [], ◌∷◌, ◌++◌}
use native.Mathlib.Omega.{arith}
use package.bigbang_operator.Base.Core.{Result, ok, err, ◌>>=◌, within}

module _ {ℓ} {A : Type ℓ} where
  abbrev pub length : List A → ℕ
  length [] = 0
  length (x ∷ xs) = suc (length xs)

  abbrev pub any : (A → Bool) → List A → Bool
  any p [] = false
  any p (x ∷ xs) = p x || any p xs

  pub length-append : (xs ys : List A) → length (xs ++ ys) ≡ length xs + length ys
  length-append [] ys = omega arith
  length-append (x ∷ xs) ys = omega (arith, length-append xs ys)

ok_injective {ℓ} : {A : Type ℓ} {a b : A} → ok a ≡ ok b → a ≡ b
ok_injective e = cc

module _ {ℓ κ} {A : Type ℓ} {B : Type κ} where
  -- `for _, x := range xs { ys, err := f(x); if err != nil { return nil, err }; out = append(out, ys...) }`
  unfoldable pub collect : (A → Result (List B)) → List A → Result (List B)
  collect f [] = ok []
  collect f (x ∷ xs) = do ys ← f x; zs ← collect f xs; ok (ys ++ zs)

module _ {ℓ κ} {A : Type ℓ} (P : A → Type κ) where
  abbrev pub All : List A → Type κ
  All [] = Unit
  All (x ∷ xs) = P x × All xs

  pub All-append : (xs ys : List A) → All xs → All ys → All (xs ++ ys)
  All-append [] ys h k = k
  All-append (x ∷ xs) ys (p, h) k = (p, All-append xs ys h k)

-- What holds of the value of a call that returns no error.
module _ {ℓ κ} {A : Type ℓ} (Q : A → Type κ) where
  abbrev pub OnOk : Result A → Type κ
  OnOk (ok a) = Q a
  OnOk (err e) = Unit

  pub OnOk-bind {ι} :
      {B : Type ι} (m : Result B) (f : B → Result A)
      → ((b : B) → m ≡ ok b → OnOk (f b))
      → OnOk (m >>= f)
  OnOk-bind (ok b) f h = h b refl
  OnOk-bind (err e) f h = tt

  pub OnOk-within :
      (text : String) (args : List String) (m : Result A) → OnOk m → OnOk (within text args m)
  OnOk-within text args (ok a) h = h
  OnOk-within text args (err e) h = tt

  pub OnOk_use : (m : Result A) (a : A) → OnOk m → m ≡ ok a → Q a
  OnOk_use (ok b) a h e = subst Q (ok_injective e) h
  OnOk_use (err x) a h e = cc

module _ {ℓ κ} {A : Type ℓ} (P : A → Type κ) where
  -- Every element that a loop appends has a property that each round's elements have.
  pub collect-All {ι} :
      {B : Type ι} (f : B → Result (List A))
      → ((x : B) → OnOk (All P) (f x))
      → (xs : List B) → OnOk (All P) (collect f xs)
  unfolding collect
  collect-All f step [] = tt
  collect-All f step (x ∷ xs) = OnOk-bind (All P) (f x) _ λ ys e.
      OnOk-bind (All P) (collect f xs) _ λ zs e'.
        All-append P ys zs (OnOk_use (All P) (f x) ys (step x) e)
          (OnOk_use (All P) (collect f xs) zs (collect-All f step xs) e')
