-- ===== src/Base/Dict.antt =====
-- Go maps with string keys: association lists, the first entry of a key counting. The order of the
-- entries stands for the order in which Go happens to walk the map.
pub mod Laws
pub mod Entries
use Prim.Native.String.{String}
use mathlib.Core.Bool.{Bool, true, false}
use mathlib.Core.Option
use mathlib.Core.Option.{Option, none, some}
use mathlib.Core.List.{List, [], ◌∷◌, map, filter_map}
use text.Mathlib.Text.{◌==◌}
use package.bigbang_operator.Base.Core.{if◌then◌else◌}
use package.bigbang_operator.Base.Text.{text_le}

abbrev pub Dict {ℓ} : Type ℓ → Type ℓ
Dict V = List (String × V)

abbrev pub is_empty {ℓ} : {A : Type ℓ} → List A → Bool
is_empty [] = true
is_empty (x ∷ xs) = false

module _ {ℓ} {V : Type ℓ} where
  -- `v, ok := m[key]`
  unfoldable pub lookup : String → Dict V → Option V
  lookup key [] = none
  lookup key ((at, v) ∷ rest) = if at == key then some v else lookup key rest

  -- `m[key] = new`
  unfoldable pub insert : String → V → Dict V → Dict V
  insert key new [] = (key, new) ∷ []
  insert key new ((at, old) ∷ rest) =
      if at == key then (key, new) ∷ rest else (at, old) ∷ insert key new rest

  -- `for k, v := range m { out[k] = v }`
  unfoldable pub insert_all : Dict V → Dict V → Dict V
  insert_all out [] = out
  insert_all out ((k, v) ∷ m) = insert_all (insert k v out) m

  unfoldable pub keys : Dict V → List String
  keys [] = []
  keys ((k, v) ∷ m) = k ∷ keys m

insert_sorted : String → List String → List String
insert_sorted k [] = k ∷ []
insert_sorted k (j ∷ js) = if text_le k j then k ∷ j ∷ js else j ∷ insert_sorted k js

-- `sort.Strings`
unfoldable pub sort_strings : List String → List String
unfolding insert_sorted
sort_strings [] = []
sort_strings (k ∷ ks) = insert_sorted k (sort_strings ks)

unfoldable pub sorted_keys {ℓ} : {V : Type ℓ} → Dict V → List String
unfolding keys sort_strings
sorted_keys m = sort_strings (keys m)

-- `for _, k := range sortedKeys(m) { v := m[k]; … }`: the entries in the order of the keys.
unfoldable pub sorted_entries {ℓ} : {V : Type ℓ} → Dict V → Dict V
unfolding sorted_keys lookup filter_map
sorted_entries m = filter_map (λ k. Option.map (λ v. (k, v)) (lookup k m)) (sorted_keys m)
