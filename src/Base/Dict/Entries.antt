-- ===== src/Base/Dict/Entries.antt =====
-- The sorted entries of a map are all its entries.
use Prim.Native.String.{String}
use mathlib.Core.Path.{◌≡◌, refl, sym, subst, ◌∙◌}
use mathlib.Core.Logic.{inl, inr}
use mathlib.Core.Bool.{Bool, true, ◌||◌}
use mathlib.Core.Option
use mathlib.Core.Option.{Option, none, some, Option-elim}
use mathlib.Core.List.{List, [], ◌∷◌, filter_map}
use native.Mathlib.Omega.{arith}
use text.Mathlib.Text.{◌==◌}
use text.Mathlib.TextEquality.{eq_iff}
use package.bigbang_operator.Base.Core.{Bool-cases}
use package.bigbang_operator.Base.Dict.{
  Dict, lookup, keys, insert_sorted, sort_strings, sorted_keys, sorted_entries,
}
use package.bigbang_operator.Base.Lists.{All, any}

unfoldable has : String → List String → Bool
has key ks = any (λ k. k == key) ks

has-insert_sorted :
    (key k : String) (ks : List String) → has key (insert_sorted k ks) ≡ ((k == key) || has key ks)
unfolding has insert_sorted
has-insert_sorted key k [] = refl
has-insert_sorted key k (j ∷ js) = ground (arith, has-insert_sorted key k js)

has-sort_strings : (key : String) (ks : List String) → has key (sort_strings ks) ≡ has key ks
unfolding has sort_strings
has-sort_strings key [] = refl
has-sort_strings key (k ∷ ks) =
    has-insert_sorted key k (sort_strings ks) ∙ ground (arith, has-sort_strings key ks)

module _ {ℓ} {V : Type ℓ} where
  has-keys : (key : String) (v : V) (m : Dict V) → lookup key m ≡ some v → has key (keys m) ≡ true
  unfolding has keys lookup
  has-keys key v [] e = cc
  has-keys key v ((k, w) ∷ m) e = elim (Bool-cases (k == key)) [
    | inl same ↦ rw same refl
    | inr other ↦ rw other (has-keys key v m (ground (arith, e, other)))
  ]

-- What holds of all that a partial function gives, holds of what it gives for the first and for the
-- others.
module _ {ℓ κ ι} {A : Type ℓ} {B : Type κ} (P : B → Type ι) (f : A → Option B) where
  filter_map-some :
      (x : A) (xs : List A) (y : B)
      → f x ≡ some y
      → All P (filter_map f (x ∷ xs))
      → P y × All P (filter_map f xs)
  unfolding filter_map
  filter_map-some x xs y e =
      subst
        (λ o.
          All P (Option-elim o (filter_map f xs) (λ b. b ∷ filter_map f xs))
          → P y × All P (filter_map f xs))
        (sym e) (λ h. h)

  filter_map-none :
      (x : A) (xs : List A) → f x ≡ none → All P (filter_map f (x ∷ xs)) → All P (filter_map f xs)
  unfolding filter_map
  filter_map-none x xs e =
      subst
        (λ o.
          All P (Option-elim o (filter_map f xs) (λ b. b ∷ filter_map f xs))
          → All P (filter_map f xs))
        (sym e) (λ h. h)

module _ {ℓ κ} {V : Type ℓ} (P : String × V → Type κ) (m : Dict V) (key : String) (v : V)
    (there : lookup key m ≡ some v) where
  entry : String → Option (String × V)
  unfolding lookup
  entry k = Option.map (λ w. (k, w)) (lookup k m)

  entry-All : (ks : List String) → has key ks ≡ true → All P (filter_map entry ks) → P (key, v)
  unfolding has entry
  entry-All [] e h = cc
  entry-All (k ∷ ks) e h = elim (Bool-cases (k == key)) [
    | inl same ↦
        (filter_map-some P entry k ks (key, v) (rw ((eq_iff k key).0 same) (rw there refl)) h).0
    | inr other ↦ entry-All ks (ground (arith, e, other)) (rest k ks h (lookup k m) refl)
  ]
    where
      rest :
          (k : String) (ks : List String)
          → All P (filter_map entry (k ∷ ks))
          → (o : Option V) → lookup k m ≡ o
          → All P (filter_map entry ks)
      rest k ks h none e = filter_map-none P entry k ks (rw e refl) h
      rest k ks h (some w) e = (filter_map-some P entry k ks (k, w) (rw e refl) h).1

  -- What holds of all sorted entries, holds of each entry of the map.
  pub sorted_entries-lookup : All P (sorted_entries m) → P (key, v)
  unfolding sorted_entries sorted_keys entry
  sorted_entries-lookup h =
      entry-All (sort_strings (keys m)) (has-sort_strings key (keys m) ∙ has-keys key v m there) h
