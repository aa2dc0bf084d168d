-- ===== src/Regexp.antt =====
-- The patterns of pkg/generator/shorthand.go are Go regular expressions, which `MatchString` runs
-- over a whole key (each pattern is anchored by `^` and `$`). This is the part of the syntax that
-- they use, run by derivatives.
pub mod Language
pub mod Texts
use Prim.Native.Char.{code}
use Prim.Native.String
use bigbang_operator.Base.{
  ℕ, String, Bool, true, false, ◌&&◌, ◌||◌, List, [], ◌∷◌, leb, if◌then◌else◌,
}

pub data Regexp : Type 0 where
  -- Nothing matches, the empty text matches, one character within one of the ranges matches.
  never empty : Regexp
  set : List (ℕ × ℕ) → Regexp
  seq alt : Regexp → Regexp → Regexp
  star : Regexp → Regexp

abbrev pub in_ranges : List (ℕ × ℕ) → ℕ → Bool
in_ranges [] c = false
in_ranges ((lo, hi) ∷ ranges) c = leb lo c && leb c hi || in_ranges ranges c

unfoldable pub nullable : Regexp → Bool
nullable never = false
nullable empty = true
nullable (set ranges) = false
nullable (seq r q) = nullable r && nullable q
nullable (alt r q) = nullable r || nullable q
nullable (star r) = true

-- What may follow the character `c` at the start of a match.
unfoldable pub deriv : ℕ → Regexp → Regexp
unfolding nullable
deriv c never = never
deriv c empty = never
deriv c (set ranges) = if in_ranges ranges c then empty else never
deriv c (seq r q) = if nullable r then alt (seq (deriv c r) q) (deriv c q) else seq (deriv c r) q
deriv c (alt r q) = alt (deriv c r) (deriv c q)
deriv c (star r) = seq (deriv c r) (star r)

-- `re.MatchString(s)` of an anchored pattern
unfoldable pub match_string : Regexp → String → Bool
unfolding deriv
match_string r String.[] = nullable r
match_string r (String.◌∷◌ c s) = match_string (deriv (code c) r) s

-- The notations `r?`, `r+`, a fixed text, and the classes that the patterns name.
abbrev pub opt : Regexp → Regexp
opt r = alt r empty

abbrev pub plus : Regexp → Regexp
plus r = seq r (star r)

unfoldable pub text : String → Regexp
text String.[] = empty
text (String.◌∷◌ c s) = seq (set ((code c, code c) ∷ [])) (text s)

-- `\d`
abbrev pub digit : Regexp
digit = set ((b'0', b'9') ∷ [])

-- `[A-Za-z0-9-]`
abbrev pub name_char : Regexp
name_char = set ((b'A', b'Z') ∷ (b'a', b'z') ∷ (b'0', b'9') ∷ (b'-', b'-') ∷ [])

-- `[\w-]`
abbrev pub word_char : Regexp
word_char = set ((b'A', b'Z') ∷ (b'a', b'z') ∷ (b'0', b'9') ∷ (b'_', b'_') ∷ (b'-', b'-') ∷ [])
