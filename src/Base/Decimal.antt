-- ===== src/Base/Decimal.antt =====
-- `strconv.Itoa` and `strconv.Atoi` (Base.Text) are inverse to each other.
use Prim.Native.Char.{Char, code}
use Prim.Native.Nat.{ℕ, zero, suc, ◌+◌, ◌*◌, ◌/◌, ◌%◌, ◌^◌, ◌<◌}
use Prim.Native.String.{String}
use mathlib.Core.Path.{◌≡◌, refl, ap, ◌∙◌}
use mathlib.Core.Bool.{Bool, true}
use mathlib.Core.Option.{some}
use mathlib.Core.Logic.{inl, inr}
use native.Mathlib.Omega.{arith}
use package.bigbang_operator.Base.Core.{ltb, Bool-cases, ltb→lt}
use package.bigbang_operator.Base.Text.Laws.{every}
use package.bigbang_operator.Base.Text.{is_digit, digits_from, atoi, itoa_from, itoa, digit}

code-digit : (d : ℕ) → d < 10 → code (digit d) ≡ 48 + d
code-digit zero h = refl
code-digit (suc zero) h = refl
code-digit (suc (suc zero)) h = refl
code-digit (suc (suc (suc zero))) h = refl
code-digit (suc (suc (suc (suc zero)))) h = refl
code-digit (suc (suc (suc (suc (suc zero))))) h = refl
code-digit (suc (suc (suc (suc (suc (suc zero)))))) h = refl
code-digit (suc (suc (suc (suc (suc (suc (suc zero))))))) h = refl
code-digit (suc (suc (suc (suc (suc (suc (suc (suc zero)))))))) h = refl
code-digit (suc (suc (suc (suc (suc (suc (suc (suc (suc zero))))))))) h = refl
code-digit (suc (suc (suc (suc (suc (suc (suc (suc (suc (suc d)))))))))) h = omega arith

digits_from-digit :
    (m d : ℕ) (s : String)
    → d < 10
    → digits_from m (String.◌∷◌ (digit d) s) ≡ digits_from (m * 10 + d) s
unfolding digits_from is_digit
digits_from-digit m d s h = rw (code-digit d h) (ground arith)

-- With a unit of fuel for each digit the loop prints all of them, so they are read back.
digits_from-itoa_from :
    (fuel n : ℕ) (out : String)
    → n < fuel
    → digits_from 0 (itoa_from fuel n out) ≡ digits_from n out
unfolding itoa_from
digits_from-itoa_from zero n out h = absurd (omega arith)
digits_from-itoa_from (suc fuel) n out h = elim (Bool-cases (ltb n 10)) [
  | inl small ↦
      rw small
        (digits_from-digit 0 n out (ltb→lt n 10 small) ∙ ap (λ k. digits_from k out) (omega arith))
  | inr large ↦ rw large (
      digits_from-itoa_from fuel (n / 10) _ (ground arith)
      ∙ digits_from-digit (n / 10) (n % 10) out (omega arith)
      ∙ ap (λ k. digits_from k out) (omega arith))
]

-- The digits that the loop prints, and at least one.
module _ (p : ℕ → Bool) (digits : (d : ℕ) → d < 10 → p (48 + d) ≡ true) where
  every-itoa_from :
      (fuel n : ℕ) (out : String) → every p out ≡ true → every p (itoa_from fuel n out) ≡ true
  unfolding every itoa_from
  every-itoa_from zero n out h = h
  every-itoa_from (suc fuel) n out h = elim (Bool-cases (ltb n 10)) [
    | inl small ↦
        rw (small, every, code-digit n (ltb→lt n 10 small), digits n (ltb→lt n 10 small)) h
    | inr large ↦ rw large (
        every-itoa_from fuel (n / 10) _
          (rw (code-digit (n % 10) (omega arith), digits (n % 10) (omega arith)) h))
  ]

  pub every-itoa : (n : ℕ) → every p (itoa n) ≡ true
  unfolding itoa every
  every-itoa n = every-itoa_from (suc n) n String.[] refl

abbrev IsCons : String → Type 0
IsCons String.[] = ⊥
IsCons (String.◌∷◌ c s) = Unit

itoa_from-IsCons : (fuel n : ℕ) (out : String) → IsCons out → IsCons (itoa_from fuel n out)
unfolding itoa_from
itoa_from-IsCons zero n out h = h
itoa_from-IsCons (suc fuel) n out h = elim (Bool-cases (ltb n 10)) [
  | inl small ↦ rw small tt
  | inr large ↦ rw large (itoa_from-IsCons fuel (n / 10) _ tt)
]

itoa-IsCons : (n : ℕ) → IsCons (itoa n)
unfolding itoa itoa_from
itoa-IsCons n = elim (Bool-cases (ltb n 10)) [
  | inl small ↦ rw small tt
  | inr large ↦ rw large (itoa_from-IsCons n (n / 10) _ tt)
]

pub itoa-cons : (n : ℕ) → (c : Char) × ((s : String) × (itoa n ≡ String.◌∷◌ c s))
itoa-cons n = go (itoa n) (itoa-IsCons n)
  where
    go : (t : String) → IsCons t → (c : Char) × ((s : String) × (t ≡ String.◌∷◌ c s))
    go String.[] h = absurd h
    go (String.◌∷◌ c s) h = (c, (s, refl))

atoi-cons :
    (t : String) (n : ℕ)
    → IsCons t
    → digits_from 0 t ≡ some n
    → ltb n (2 ^ 63) ≡ true
    → atoi t ≡ some n
unfolding atoi
atoi-cons String.[] n c h fits = absurd c
atoi-cons (String.◌∷◌ c s) n _ h fits = rw (h, atoi, fits) refl

-- Every number below the bound of Go's int is read back from its decimal print.
pub atoi-itoa : (n : ℕ) → n < 2 ^ 63 → atoi (itoa n) ≡ some n
unfolding itoa digits_from
atoi-itoa n h =
    atoi-cons (itoa n) n (itoa-IsCons n) (digits_from-itoa_from (suc n) n String.[] (omega arith))
      (ground arith)
