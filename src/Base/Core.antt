-- ===== src/Base/Core.antt =====
-- Tests on native numbers, the conditional, case splits, and results with Go's errors as values.
use Prim.Native.Nat.{ℕ, ◌≤◌, ◌<◌, compare, Ordering}
use Prim.Native.String.{String}
use mathlib.Core.Path.{◌≡◌, refl}
use mathlib.Core.Logic.{◌↔◌, ◌⊎◌, inl, inr}
use mathlib.Core.Bool.{Bool, true, false}
use mathlib.Core.Option.{Option, none, some}
use mathlib.Core.List.{List}
use native.Mathlib.Omega.{arith}

abbrev pub ltb : ℕ → ℕ → Bool
ltb a b = elim (compare a b) [ Ordering.lt ↦ true | _ ↦ false ]

abbrev pub leb : ℕ → ℕ → Bool
leb a b = elim (compare a b) [ Ordering.gt ↦ false | _ ↦ true ]

abbrev pub nat_eq : ℕ → ℕ → Bool
nat_eq a b = elim (compare a b) [ Ordering.eq ↦ true | _ ↦ false ]

infix 1 if◌then◌else◌
abbrev pub if◌then◌else◌ {ℓ} : {A : Type ℓ} → Bool → A → A → A
if true then x else y = x
if false then x else y = y

pub nat_eq_iff : (a b : ℕ) → (nat_eq a b ≡ true) ↔ (a ≡ b)
nat_eq_iff a b = ground arith

pub leb→le : (a b : ℕ) → leb a b ≡ true → a ≤ b
leb→le a b h = ground arith

pub ltb→lt : (a b : ℕ) → ltb a b ≡ true → a < b
ltb→lt a b h = ground arith

pub Bool-cases : (b : Bool) → (b ≡ true) ⊎ (b ≡ false)
Bool-cases true = inl refl
Bool-cases false = inr refl

pub Option-cases {ℓ} : {A : Type ℓ} (o : Option A) → (o ≡ none) ⊎ ((a : A) × (o ≡ some a))
Option-cases none = inl refl
Option-cases (some a) = inr (a, refl)

-- An `error` of the program: the format text with its arguments, or a wrapped error (`%w`). No
-- error of the program is `endless`: it stands for a call that never returns.
pub data Error : Type 0 where
  message : String → List String → Error
  wrap : String → List String → Error → Error
  endless : Error

-- A Go function's pair of a value and an error.
pub data Result {ℓ} (Value : Type ℓ) : Type ℓ where
  err : Error → Result Value
  ok : Value → Result Value

-- `if err != nil { return nil, err }`, and the rest of the function behind it.
infixl 5 ◌>>=◌ ◌>>◌
abbrev pub ◌>>=◌ {ℓ κ} :
    {Value : Type ℓ} {After : Type κ} (call : Result Value) (rest : Value → Result After)
    → Result After
err problem >>= rest = err problem
ok value >>= rest = rest value

abbrev pub ◌>>◌ {κ} :
    {After : Type κ} (check : Result (Unit {0})) (rest : Result After) → Result After
check >> rest = check >>= λ nothing. rest

-- `if err != nil { return nil, fmt.Errorf("…: %w", err) }`
abbrev pub within {ℓ} : {A : Type ℓ} → String → List String → Result A → Result A
within text args (ok a) = ok a
within text args (err e) = err (wrap text args e)

-- What a loop on fuel gives: without enough fuel it does not return.
abbrev pub ended {ℓ} : {A : Type ℓ} → Option A → Result A
ended none = err endless
ended (some a) = ok a

-- `if !test { return …, err }`
abbrev pub guard : Bool → Error → Result (Unit {0})
guard false problem = err problem
guard true problem = ok tt

pub Result-cases {ℓ} :
    {A : Type ℓ} (r : Result A) → ((e : Error) × (r ≡ err e)) ⊎ ((a : A) × (r ≡ ok a))
Result-cases (ok a) = inr (a, refl)
Result-cases (err e) = inl (e, refl)

-- The conditional on `nil`: the default, or what is stored.
abbrev pub get_or {ℓ} : {A : Type ℓ} → Option A → A → A
get_or none d = d
get_or (some a) d = a

abbrev pub is_some {ℓ} : {A : Type ℓ} → Option A → Bool
is_some none = false
is_some (some a) = true
