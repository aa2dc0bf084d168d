-- ===== src/Regexp/Texts.antt =====
-- Texts that the patterns' building blocks match.
use Prim.Native.Char.{Char}
use Prim.Native.String
use package.text.Mathlib.TextLemmas.{nil-append, cons-append}
use bigbang_operator.Base.{ℕ, String, ◌≡◌, refl, sym, ap, ◌∙◌, true, List, arith}
use bigbang_operator.Base.Text.Laws.{every}
use bigbang_operator.Regexp.{set, plus, text, in_ranges}
use bigbang_operator.Regexp.Language.{Matches, Star, done, more}

-- One character in front of a text.
pub cons-as-append : (c : Char) (s : String) → String.◌∷◌ c s ≡ String.◌++◌ (String.◌∷◌ c "") s
cons-as-append c s = sym (cons-append c "" s ∙ ap (String.◌∷◌ c) (nil-append s))

pub Matches-text : (s : String) → Matches (text s) s
unfolding text
Matches-text String.[] = refl
Matches-text (String.◌∷◌ c s) =
    (String.◌∷◌ c "", s, cons-as-append c s, (c, refl, ground arith), Matches-text s)

module _ (ranges : List (ℕ × ℕ)) where
  Star-every : (s : String) → every (in_ranges ranges) s ≡ true → Star (Matches (set ranges)) s
  unfolding every
  Star-every String.[] h = done
  Star-every (String.◌∷◌ c s) h =
      more (c, refl, ground arith) (Star-every s (ground arith)) (cons-as-append c s)

  pub Matches-plus :
      (c : Char) (s : String)
      → every (in_ranges ranges) (String.◌∷◌ c s) ≡ true
      → Matches (plus (set ranges)) (String.◌∷◌ c s)
  unfolding every
  Matches-plus c s h =
      (String.◌∷◌ c "", s, cons-as-append c s, (c, refl, ground arith), Star-every s (ground arith))
