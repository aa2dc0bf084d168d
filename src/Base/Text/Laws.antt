-- ===== src/Base/Text/Laws.antt =====
-- What trimming, cutting and splitting (Base.Text) do to texts whose characters are known.
use Prim.Native.Char.{Char, code}
use Prim.Native.String
use Prim.Native.Nat.{ℕ}
use Prim.Native.String.{String}
use mathlib.Core.Path.{◌≡◌, refl, sym, ap, ◌∙◌}
use mathlib.Core.Bool.{Bool, true, false, not, ◌&&◌}
use mathlib.Core.Option.{none, some}
use mathlib.Core.List.{List}
use native.Mathlib.Omega.{arith}
use text.Mathlib.TextLemmas.{nil-append, cons-append, append-nil, append_assoc}
use package.bigbang_operator.Base.Core.{leb, nat_eq}
use package.bigbang_operator.Base.Text.{
  strip_prefix, cut, is_space, trim_left, trim_right, trim_space, trim_prefix, trim_suffix,
  split_from, split,
}

-- Every character passes the test.
unfoldable pub every : (ℕ → Bool) → String → Bool
every p String.[] = true
every p (String.◌∷◌ c s) = p (code c) && every p s

-- No character has the code `b`.
abbrev pub Lacks : ℕ → String → Type 0
Lacks b s = every (λ k. not (nat_eq k b)) s ≡ true

abbrev pub not_space : ℕ → Bool
not_space k = not (nat_eq k 32) && not (leb 9 k && leb k 13)

abbrev pub HasNoSpace : String → Type 0
HasNoSpace s = every not_space s ≡ true

nat_eq_refl : (n : ℕ) → nat_eq n n ≡ true
nat_eq_refl n = ground arith

trim_right-HasNoSpace : (s : String) → HasNoSpace s → trim_right s ≡ s
unfolding trim_right every is_space
trim_right-HasNoSpace String.[] h = refl
trim_right-HasNoSpace (String.◌∷◌ c String.[]) h = ground arith
trim_right-HasNoSpace (String.◌∷◌ c (String.◌∷◌ d s)) h =
    rw (trim_right-HasNoSpace (String.◌∷◌ d s) (ground arith)) refl

trim_left-HasNoSpace : (s : String) → HasNoSpace s → trim_left s ≡ s
unfolding trim_left every is_space
trim_left-HasNoSpace String.[] h = refl
trim_left-HasNoSpace (String.◌∷◌ c s) h = ground arith

pub trim_space-HasNoSpace : (s : String) → HasNoSpace s → trim_space s ≡ s
unfolding trim_space
trim_space-HasNoSpace s h = ap trim_right (trim_left-HasNoSpace s h) ∙ trim_right-HasNoSpace s h

pub trim_suffix-Lacks : (b : ℕ) (s : String) → Lacks b s → trim_suffix b s ≡ s
unfolding trim_suffix every
trim_suffix-Lacks b String.[] h = refl
trim_suffix-Lacks b (String.◌∷◌ c String.[]) h = ground arith
trim_suffix-Lacks b (String.◌∷◌ c (String.◌∷◌ d s)) h =
    ap (String.◌∷◌ c) (trim_suffix-Lacks b (String.◌∷◌ d s) (ground arith))

append_middle :
    (cur : String) (c : Char) (s : String)
    → String.◌++◌ (String.◌++◌ cur (String.◌∷◌ c String.[])) s ≡ String.◌++◌ cur (String.◌∷◌ c s)
append_middle cur c s =
    append_assoc cur (String.◌∷◌ c String.[]) s
    ∙ ap (String.◌++◌ cur) (cons-append c String.[] s ∙ ap (String.◌∷◌ c) (nil-append s))

module _ (b : Char) where
  pub cut-Lacks : (s : String) → Lacks (code b) s → cut (String.◌∷◌ b String.[]) s ≡ none
  unfolding cut strip_prefix every
  cut-Lacks String.[] h = refl
  cut-Lacks (String.◌∷◌ c s) h =
      let other : nat_eq (code b) (code c) ≡ false = ground arith in
      rw (other, cut, strip_prefix) (rw (cut-Lacks s (ground arith)) refl)

  pub cut-append :
      (s t : String)
      → Lacks (code b) s
      → cut (String.◌∷◌ b String.[]) (String.◌++◌ s (String.◌∷◌ b t)) ≡ some (s, t)
  unfolding cut strip_prefix every
  cut-append String.[] t h =
      rw (nil-append (String.◌∷◌ b t)) (rw (nat_eq_refl (code b), cut, strip_prefix) refl)
  cut-append (String.◌∷◌ c s) t h = rw (cons-append c s (String.◌∷◌ b t)) (
      let other : nat_eq (code b) (code c) ≡ false = ground arith in
      rw (other, cut, strip_prefix) (rw (cut-append s t (ground arith)) refl))

  -- The part up to the separator, and the rest.
  split_from-append :
      (cur s t : String)
      → Lacks (code b) s
      → split_from (code b) cur (String.◌++◌ s (String.◌∷◌ b t))
        ≡ List.◌∷◌ (String.◌++◌ cur s) (split_from (code b) String.[] t)
  unfolding split_from every
  split_from-append cur String.[] t h =
      rw (nil-append (String.◌∷◌ b t), append-nil cur) (rw (nat_eq_refl (code b), split_from) refl)
  split_from-append cur (String.◌∷◌ c s) t h =
      let other : nat_eq (code c) (code b) ≡ false = ground arith in
      rw (cons-append c s (String.◌∷◌ b t), other, split_from)
        (split_from-append (String.◌++◌ cur (String.◌∷◌ c String.[])) s t (ground arith)
          ∙ ap (λ u. List.◌∷◌ u (split_from (code b) String.[] t)) (append_middle cur c s))

  split_from-Lacks :
      (cur s : String)
      → Lacks (code b) s
      → split_from (code b) cur s ≡ List.◌∷◌ (String.◌++◌ cur s) List.[]
  unfolding split_from every
  split_from-Lacks cur String.[] h = rw (append-nil cur) refl
  split_from-Lacks cur (String.◌∷◌ c s) h =
      let other : nat_eq (code c) (code b) ≡ false = ground arith in
      rw (other, split_from)
        (split_from-Lacks (String.◌++◌ cur (String.◌∷◌ c String.[])) s (ground arith)
          ∙ ap (λ u. List.◌∷◌ u List.[]) (append_middle cur c s))

  pub split-append :
      (s t : String)
      → Lacks (code b) s
      → split (code b) (String.◌++◌ s (String.◌∷◌ b t)) ≡ List.◌∷◌ s (split (code b) t)
  unfolding split
  split-append s t h =
      split_from-append String.[] s t h
      ∙ ap (λ u. List.◌∷◌ u (split_from (code b) String.[] t)) (nil-append s)

  pub split-Lacks : (s : String) → Lacks (code b) s → split (code b) s ≡ List.◌∷◌ s List.[]
  unfolding split
  split-Lacks s h = split_from-Lacks String.[] s h ∙ ap (λ u. List.◌∷◌ u List.[]) (nil-append s)

pub every-append :
    (p : ℕ → Bool) (s t : String)
    → every p s ≡ true
    → every p t ≡ true
    → every p (String.◌++◌ s t) ≡ true
unfolding every
every-append p String.[] t h k = rw (nil-append t) k
every-append p (String.◌∷◌ c s) t h k =
    rw (cons-append c s t, every) (ground (arith, every-append p s t (ground arith) k))

pub trim_prefix-Lacks : (b : ℕ) (s : String) → Lacks b s → trim_prefix b s ≡ s
unfolding trim_prefix every
trim_prefix-Lacks b String.[] h = refl
trim_prefix-Lacks b (String.◌∷◌ c s) h = ground arith

pub trim_suffix-append :
    (b : Char) (s : String) → trim_suffix (code b) (String.◌++◌ s (String.◌∷◌ b String.[])) ≡ s
unfolding trim_suffix
trim_suffix-append b String.[] =
    rw (nil-append (String.◌∷◌ b String.[]), nat_eq_refl (code b), trim_suffix) refl
trim_suffix-append b (String.◌∷◌ c String.[]) =
    rw (cons-append c String.[] (String.◌∷◌ b String.[]), nil-append (String.◌∷◌ b String.[]))
      (rw (nat_eq_refl (code b), trim_suffix) refl)
trim_suffix-append b (String.◌∷◌ c (String.◌∷◌ d s)) =
    rw
      (
        cons-append c (String.◌∷◌ d s) (String.◌∷◌ b String.[]),
        cons-append d s (String.◌∷◌ b String.[]),
      )
      (ap (String.◌∷◌ c) (
        ap (trim_suffix (code b)) (sym (cons-append d s (String.◌∷◌ b String.[])))
        ∙ trim_suffix-append b (String.◌∷◌ d s)))

pub every-weaken :
    (p q : ℕ → Bool)
    → ((k : ℕ) → p k ≡ true → q k ≡ true)
    → (s : String) → every p s ≡ true
    → every q s ≡ true
unfolding every
every-weaken p q step String.[] h = refl
every-weaken p q step (String.◌∷◌ c s) h =
    ground (arith, step (code c), every-weaken p q step s (ground arith))
