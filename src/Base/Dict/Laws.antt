-- ===== src/Base/Dict/Laws.antt =====
-- The laws of maps, and that sorted iteration does not see the order of a map's entries.
use Prim.Native.String.{String}
use mathlib.Core.Path.{◌≡◌, refl, ap, ap₂, subst, ◌∙◌, fun_ext}
use mathlib.Core.Logic.{inl, inr}
use mathlib.Core.Bool.{false}
use mathlib.Core.Option
use mathlib.Core.Option.{Option, none, some}
use mathlib.Core.List.{List, [], ◌∷◌, Permᴰ, filter_map}
use native.Mathlib.Omega.{arith}
use text.Mathlib.Text.{◌==◌}
use text.Mathlib.TextEquality.{eq_iff}
use package.bigbang_operator.Base.Core.{if◌then◌else◌, Bool-cases}
use package.bigbang_operator.Base.Order.{text_le_total, text_le_antisymm, text_le_trans}
use package.bigbang_operator.Base.Dict.{
  Dict, lookup, insert, insert_all, keys, insert_sorted, sort_strings, sorted_keys, sorted_entries,
}

module _ {ℓ} {V : Type ℓ} where
  pub lookup-insert :
      (key asked : String) (new : V) (m : Dict V)
      → lookup asked (insert key new m) ≡ (if key == asked then some new else lookup asked m)
  unfolding insert lookup
  lookup-insert key asked new [] = refl
  lookup-insert key asked new ((at, old) ∷ rest) =
      ground
        (arith, lookup-insert key asked new rest, eq_iff at asked, eq_iff at key, eq_iff key asked)

insert_sorted_comm :
    (a b : String) (l : List String)
    → insert_sorted a (insert_sorted b l) ≡ insert_sorted b (insert_sorted a l)
unfolding insert_sorted
insert_sorted_comm a b [] = ground (arith, text_le_total a b, text_le_antisymm a b)
insert_sorted_comm a b (c ∷ l) = ground (
  arith,
  text_le_total a b,
  text_le_antisymm a b,
  text_le_total a c,
  text_le_total b c,
  text_le_trans a b c,
  text_le_trans b a c,
  insert_sorted_comm a b l,
)

-- Sorting does not depend on the order of the input.
pub sort_strings-perm : {l₁ l₂ : List String} → Permᴰ l₁ l₂ → sort_strings l₁ ≡ sort_strings l₂
unfolding sort_strings
sort_strings-perm Permᴰ.nil = refl
sort_strings-perm (Permᴰ.cons e p) = cc (e, sort_strings-perm p)
sort_strings-perm (Permᴰ.swap {a} {b} {l} e f) = cc (e, f, insert_sorted_comm a b (sort_strings l))
sort_strings-perm (Permᴰ.trans p q) = sort_strings-perm p ∙ sort_strings-perm q

-- No key occurs twice, as in every Go map.
abbrev pub HasDistinctKeys {ℓ} : {V : Type ℓ} → Dict V → Type ℓ
HasDistinctKeys [] = Unit
HasDistinctKeys ((k, v) ∷ m) = (lookup k m ≡ none) × HasDistinctKeys m

module _ {ℓ} {V : Type ℓ} where
  keys-perm : {m m' : Dict V} → Permᴰ m m' → Permᴰ (keys m) (keys m')
  unfolding keys
  keys-perm Permᴰ.nil = Permᴰ.nil
  keys-perm (Permᴰ.cons e p) = Permᴰ.cons (ap (λ (x : String × V). x.0) e) (keys-perm p)
  keys-perm (Permᴰ.swap e f) =
      Permᴰ.swap (ap (λ (x : String × V). x.0) e) (ap (λ (x : String × V). x.0) f)
  keys-perm (Permᴰ.trans p q) = Permᴰ.trans (keys-perm p) (keys-perm q)

  lookup-perm :
      {m m' : Dict V}
      → Permᴰ m m'
      → HasDistinctKeys m
      → HasDistinctKeys m' × ((k : String) → lookup k m ≡ lookup k m')
  unfolding lookup
  lookup-perm Permᴰ.nil d = (tt, λ k. refl)
  lookup-perm (Permᴰ.cons {a = (i, v)} {b = (j, w)} e p) (fresh, d) =
      let (d', same) = lookup-perm p d in
      let ei : i ≡ j = ap (λ (x : String × V). x.0) e in
      let ev : v ≡ w = ap (λ (x : String × V). x.1) e in
      ((cc (fresh, same j, ei), d'), λ k. cc (same k, ei, ev))
  lookup-perm (Permᴰ.swap {a = (i, v)} {b = (j, w)} {a' = (i', v')} {b' = (j', w')} e f) d =
      let ei : i ≡ j' = ap (λ (x : String × V). x.0) e in
      let ev : v ≡ w' = ap (λ (x : String × V). x.1) e in
      let ej : j ≡ i' = ap (λ (x : String × V). x.0) f in
      let ew : w ≡ v' = ap (λ (x : String × V). x.1) f in
      (
        (
          ground (arith, eq_iff i j, eq_iff j i, eq_iff j' i'),
          (ground (arith, eq_iff i j), ground arith),
        ),
        λ k. ground (arith, eq_iff i k, eq_iff j k, eq_iff i j, eq_iff i' k, eq_iff j' k),
      )
  lookup-perm (Permᴰ.trans p q) d =
      let (d', same) = lookup-perm p d in
      let (d'', same') = lookup-perm q d' in (d'', λ k. same k ∙ same' k)

-- Sorted iteration does not see the order of the map's entries.
pub sorted_entries-perm {ℓ} :
    {V : Type ℓ} {m m' : Dict V}
    → HasDistinctKeys m
    → Permᴰ m m'
    → sorted_entries m ≡ sorted_entries m'
unfolding sorted_entries sorted_keys
sorted_entries-perm {V} d p =
    ap₂ entries_at (sort_strings-perm (keys-perm p)) (fun_ext (lookup-perm p d).1)
  where
    entries_at : List String → (String → Option V) → Dict V
    entries_at ks find = filter_map (λ k. Option.map (λ v. (k, v)) (find k)) ks

-- Of two answers the first that is there.
abbrev pub first_of_two {ℓ} : {A : Type ℓ} → Option A → Option A → Option A
first_of_two none b = b
first_of_two (some a) b = some a

module _ {ℓ} {V : Type ℓ} where
  -- What is inserted later wins.
  pub lookup-insert_all :
      (k : String) (out m : Dict V)
      → HasDistinctKeys m
      → lookup k (insert_all out m) ≡ first_of_two (lookup k m) (lookup k out)
  unfolding insert_all lookup
  lookup-insert_all k out [] d = refl
  lookup-insert_all k out ((j, v) ∷ m) (fresh, d) =
      lookup-insert_all k (insert j v out) m d
      ∙ ground (arith, lookup-insert j k v out, eq_iff j k, fresh)

  insert-fresh :
      (k j : String) (v : V) (m : Dict V)
      → lookup j m ≡ none
      → (k == j) ≡ false
      → lookup j (insert k v m) ≡ none
  insert-fresh k j v m h e = rw (lookup-insert k j v m) (rw e h)

  pub insert-HasDistinctKeys :
      (k : String) (v : V) (m : Dict V) → HasDistinctKeys m → HasDistinctKeys (insert k v m)
  unfolding insert lookup
  insert-HasDistinctKeys k v [] d = (refl, tt)
  insert-HasDistinctKeys k v ((j, w) ∷ m) (fresh, d) = elim (Bool-cases (j == k)) [
    | inl same ↦ rw same (subst (λ i. lookup i m ≡ none) ((eq_iff j k).0 same) fresh, d)
    | inr other ↦ rw other (
      insert-fresh k j v m fresh (ground (arith, eq_iff k j, eq_iff j k)),
      insert-HasDistinctKeys k v m d,
    )
  ]
