-- ===== src/Base/Text.antt =====
-- What the program uses of Go's `strings`, `strconv` and `sort` on texts. A text is the native
-- `String`; positions count characters, which are the bytes of the ASCII texts that the key
-- patterns let through. Case mapping covers ASCII.
pub mod Laws
use Prim.Native.Nat.{ℕ, zero, suc, ◌+◌, ◌-◌, ◌*◌, ◌/◌, ◌%◌, ◌^◌, compare, Ordering}
use Prim.Native.Char.{Char, code}
use Prim.Native.String
use Prim.Native.String.{String, [], ◌∷◌, ◌++◌}
use mathlib.Core.Bool.{Bool, true, false, ◌&&◌, ◌||◌}
use mathlib.Core.Option
use mathlib.Core.Option.{Option, none, some}
use mathlib.Core.List.{List}
use package.bigbang_operator.Base.Core.{ltb, leb, nat_eq, if◌then◌else◌}

-- `strings.TrimPrefix` when it finds the prefix.
unfoldable pub strip_prefix : String → String → Option String
strip_prefix [] s = some s
strip_prefix (c ∷ p) [] = none
strip_prefix (c ∷ p) (d ∷ s) = if nat_eq (code c) (code d) then strip_prefix p s else none

-- `i := strings.Index(s, sep)` with the slices `s[:i]` and `s[i+len(sep):]`.
unfoldable pub cut : String → String → Option (String × String)
cut sep [] = Option.map (λ rest. ([], rest)) (strip_prefix sep [])
cut sep (c ∷ s) =
    let later = Option.map (λ (p : String × String). (c ∷ p.0, p.1)) (cut sep s) in
    elim (strip_prefix sep (c ∷ s)) [ some rest ↦ some ([], rest) | none ↦ later ]

-- `strings.Contains(s, sep)`
unfoldable pub contains : String → String → Bool
unfolding cut strip_prefix
contains sep s = elim (cut sep s) [ none ↦ false | some p ↦ true ]

-- `i := strings.LastIndex(s, sep)` with the slices `s[:i]` and `s[i+len(sep):]`.
unfoldable pub cut_last : String → String → Option (String × String)
cut_last sep [] = Option.map (λ rest. ([], rest)) (strip_prefix sep [])
cut_last sep (c ∷ s) =
    let here = Option.map (λ rest. ([], rest)) (strip_prefix sep (c ∷ s)) in
    elim (cut_last sep s) [ some p ↦ some (c ∷ p.0, p.1) | none ↦ here ]

lower_char : Char → Char
lower_char c =
    if leb b'A' (code c) && leb (code c) b'Z'
    then String.char_at "abcdefghijklmnopqrstuvwxyz" (code c - b'A')
    else c

upper_char : Char → Char
upper_char c =
    if leb b'a' (code c) && leb (code c) b'z'
    then String.char_at "ABCDEFGHIJKLMNOPQRSTUVWXYZ" (code c - b'a')
    else c

unfoldable pub to_lower : String → String
unfolding lower_char
to_lower [] = []
to_lower (c ∷ s) = lower_char c ∷ to_lower s

unfoldable pub to_upper : String → String
unfolding upper_char
to_upper [] = []
to_upper (c ∷ s) = upper_char c ∷ to_upper s

-- `strings.ReplaceAll` of one character by another.
unfoldable pub replace_char : ℕ → Char → String → String
replace_char from to [] = []
replace_char from to (c ∷ s) = (if nat_eq (code c) from then to else c) ∷ replace_char from to s

is_space : Char → Bool
is_space c = nat_eq (code c) 32 || leb 9 (code c) && leb (code c) 13

trim_left : String → String
trim_left [] = []
trim_left (c ∷ s) = if is_space c then trim_left s else c ∷ s

trim_right : String → String
trim_right [] = []
trim_right (c ∷ s) =
    let rest = trim_right s in
    elim rest [ [] ↦ if is_space c then [] else c ∷ [] | ◌∷◌ d r ↦ c ∷ d ∷ r ]

-- `strings.TrimSpace`
unfoldable pub trim_space : String → String
unfolding trim_left trim_right is_space
trim_space s = trim_right (trim_left s)

-- `strings.TrimPrefix` and `strings.TrimSuffix` of one character.
unfoldable pub trim_prefix : ℕ → String → String
trim_prefix b [] = []
trim_prefix b (c ∷ s) = if nat_eq (code c) b then s else c ∷ s

unfoldable pub trim_suffix : ℕ → String → String
trim_suffix b [] = []
trim_suffix b (c ∷ []) = if nat_eq (code c) b then [] else c ∷ []
trim_suffix b (c ∷ d ∷ s) = c ∷ trim_suffix b (d ∷ s)

-- `strings.Split` on one character.
split_from : ℕ → String → String → List String
split_from b cur [] = List.◌∷◌ cur List.[]
split_from b cur (c ∷ s) =
    let closed = List.◌∷◌ cur (split_from b [] s) in
    let longer = split_from b (String.◌++◌ cur (c ∷ [])) s in
    if nat_eq (code c) b then closed else longer

unfoldable pub split : ℕ → String → List String
unfolding split_from
split b s = split_from b [] s

unfoldable pub is_digit : Char → Bool
is_digit c = leb b'0' (code c) && leb (code c) b'9'

-- The value of a run of digits behind the digits already read.
unfoldable pub digits_from : ℕ → String → Option ℕ
unfolding is_digit
digits_from n [] = some n
digits_from n (c ∷ s) = if is_digit c then digits_from (n * 10 + (code c - b'0')) s else none

-- `strconv.Atoi` of an unsigned text. A value past int64 is an error. The key patterns admit no
-- sign, so the signs that Atoi also reads do not arise.
unfoldable pub atoi : String → Option ℕ
unfolding digits_from
atoi [] = none
atoi (c ∷ s) = elim (digits_from 0 (c ∷ s)) [
  | none ↦ none
  | some n ↦ if ltb n (2 ^ 63) then some n else none
]

abbrev pub digit : ℕ → Char
digit d = String.char_at "0123456789" d

-- `strconv.Itoa`: the digits of `n` in front of `out`.
unfoldable pub itoa_from : ℕ → ℕ → String → String
itoa_from zero n out = out
itoa_from (suc fuel) n out =
    let more = itoa_from fuel (n / 10) (digit (n % 10) ∷ out) in
    if ltb n 10 then digit n ∷ out else more

unfoldable pub itoa : ℕ → String
unfolding itoa_from
itoa n = itoa_from (suc n) n []

-- `a <= b` of Go strings: by bytes, which is the order of the code points.
unfoldable pub text_le : String → String → Bool
text_le [] t = true
text_le (c ∷ s) [] = false
text_le (c ∷ s) (d ∷ t) = elim (compare (code c) (code d)) [
  | Ordering.lt ↦ true
  | Ordering.eq ↦ text_le s t
  | Ordering.gt ↦ false
]

-- The arguments of a `fmt.Sprintf` of texts, in order.
unfoldable pub concat : List String → String
concat List.[] = []
concat (List.◌∷◌ s ss) = String.◌++◌ s (concat ss)
