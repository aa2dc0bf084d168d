-- ===== src/Generator/Keys/Ports/RoundTrip.antt =====
-- Port specifications as they are written, and `parsePortSpec` (pkg/generator/shorthand.go) on them.
use Prim.Native.String
use Prim.Native.Char.{Char, code}
use bigbang_operator.Base.{
  ℕ, ◌+◌, ◌^◌, ◌<◌, String, Bool, true, false, none, some, List, [], ◌∷◌, Result, ok, ◌>>=◌, ◌≡◌,
  refl, ap, ◌∙◌, arith, leb,
}
use bigbang_operator.Base.Lists.{All}
use bigbang_operator.Base.Text.{itoa, atoi, cut, split, trim_space, trim_prefix, trim_suffix}
use bigbang_operator.Base.Text.Laws.{
  every, Lacks, HasNoSpace, not_space, trim_space-HasNoSpace, trim_suffix-Lacks, trim_prefix-Lacks,
  trim_suffix-append, cut-Lacks, cut-append, split-append, split-Lacks, every-append,
}
use bigbang_operator.Base.Decimal.{every-itoa, atoi-itoa}
use bigbang_operator.Generator.Keys.Ports.{PortSpec, range_ends, ports_of, parse_port_spec}

abbrev pub dash : Char
dash = String.char_at "-" 0

abbrev pub comma : Char
comma = String.char_at "," 0

abbrev pub left_bracket : Char
left_bracket = String.char_at "[" 0

abbrev pub right_bracket : Char
right_bracket = String.char_at "]" 0

-- The three ways to write ports: a range, one or more ports, and these within brackets.
pub data PortText : Type 0 where
  range : ℕ → ℕ → PortText
  ports : ℕ → List ℕ → PortText
  bracketed : ℕ → List ℕ → PortText

unfoldable pub print_ports : ℕ → List ℕ → String
print_ports n [] = itoa n
print_ports n (m ∷ ms) = String.◌++◌ (itoa n) (String.◌∷◌ comma (print_ports m ms))

unfoldable pub print : PortText → String
unfolding print_ports
print (range a b) = String.◌++◌ (itoa a) (String.◌∷◌ dash (itoa b))
print (ports n ns) = print_ports n ns
print (bracketed n ns) =
    String.◌∷◌ left_bracket (String.◌++◌ (print_ports n ns) (String.◌∷◌ right_bracket String.[]))

abbrev pub spec_of : PortText → PortSpec
spec_of (range a b) = (a ∷ b ∷ [], true)
spec_of (ports n ns) = (n ∷ ns, false)
spec_of (bracketed n ns) = (n ∷ ns, false)

-- The ports fit Go's int.
abbrev pub Fits : PortText → Type 0
Fits (range a b) = (a < 2 ^ 63) × (b < 2 ^ 63)
Fits (ports n ns) = All (λ p. p < 2 ^ 63) (n ∷ ns)
Fits (bracketed n ns) = All (λ p. p < 2 ^ 63) (n ∷ ns)

-- Of a test that digits pass: what is written of digits and characters that pass.
module _ (p : ℕ → Bool) (digits : (d : ℕ) → d < 10 → p (48 + d) ≡ true) where
  every-print_ports :
      p (code comma) ≡ true → (n : ℕ) (ns : List ℕ) → every p (print_ports n ns) ≡ true
  unfolding print_ports every
  every-print_ports c n [] = every-itoa p digits n
  every-print_ports c n (m ∷ ms) =
      every-append p (itoa n) _ (every-itoa p digits n) (rw c (every-print_ports c m ms))

  every-range : p (code dash) ≡ true → (a b : ℕ) → every p (print (range a b)) ≡ true
  unfolding print every
  every-range c a b =
      every-append p (itoa a) _ (every-itoa p digits a) (rw c (every-itoa p digits b))

  pub every-print :
      p (code dash) ≡ true
      → p (code comma) ≡ true
      → p (code left_bracket) ≡ true
      → p (code right_bracket) ≡ true
      → (t : PortText) → every p (print t) ≡ true
  unfolding print every
  every-print d c l r (range a b) = every-range d a b
  every-print d c l r (ports n ns) = every-print_ports c n ns
  every-print d c l r (bracketed n ns) =
      rw l (every-append p (print_ports n ns) _ (every-print_ports c n ns) (rw r refl))

itoa-Lacks : (b n : ℕ) → leb 48 b ≡ false → Lacks b (itoa n)
itoa-Lacks b n h = every-itoa _ (λ d l. ground arith) n

itoa-HasNoSpace : (n : ℕ) → HasNoSpace (itoa n)
itoa-HasNoSpace n = every-itoa _ (λ d l. ground arith) n

ports_of_step :
    (t : String) (parts : List String) (n : ℕ)
    → atoi (trim_space t) ≡ some n
    → ports_of (t ∷ parts) ≡ (ports_of parts >>= λ ns. ok (n ∷ ns))
unfolding ports_of
ports_of_step t parts n e = rw (e, ports_of) refl

itoa_step :
    (n : ℕ) (parts : List String)
    → n < 2 ^ 63
    → ports_of (itoa n ∷ parts) ≡ (ports_of parts >>= λ ns. ok (n ∷ ns))
itoa_step n parts f =
    ports_of_step (itoa n) parts n
      (ap atoi (trim_space-HasNoSpace (itoa n) (itoa-HasNoSpace n)) ∙ atoi-itoa n f)

ports_of-print :
    (n : ℕ) (ns : List ℕ)
    → All (λ p. p < 2 ^ 63) (n ∷ ns)
    → ports_of (split (code comma) (print_ports n ns)) ≡ ok (n ∷ ns)
unfolding ports_of print_ports
ports_of-print n [] (f, _) =
    ap ports_of (split-Lacks comma (itoa n) (itoa-Lacks (code comma) n refl)) ∙ itoa_step n [] f
ports_of-print n (m ∷ ms) (f, fs) =
    ap ports_of (split-append comma (itoa n) (print_ports m ms) (itoa-Lacks (code comma) n refl))
    ∙ itoa_step n (split (code comma) (print_ports m ms)) f
    ∙ ap (λ (r : Result (List ℕ)). r >>= λ ns. ok (n ∷ ns)) (ports_of-print m ms fs)

-- What is left of the text behind the trimming decides.
trim : String → String
unfolding trim_space trim_prefix trim_suffix
trim text = trim_suffix b']' (trim_prefix b'[' (trim_space text))

after_trim : String → Result PortSpec
unfolding cut split range_ends ports_of atoi
after_trim s = elim (cut "-" s) [
  | some (a, b) ↦ range_ends s (atoi a) (atoi b)
  | none ↦ do ns ← ports_of (split b',' s); ok (ns, false)
]

parse_port_spec-trim : (text : String) → parse_port_spec text ≡ after_trim (trim text)
unfolding parse_port_spec after_trim trim
parse_port_spec-trim text = refl

range_step :
    (s x y : String) (a b : ℕ)
    → cut "-" s ≡ some (x, y)
    → atoi x ≡ some a
    → atoi y ≡ some b
    → after_trim s ≡ ok (a ∷ b ∷ [], true)
unfolding after_trim range_ends
range_step s x y a b c ea eb = rw (c, after_trim) (rw (ea, eb) refl)

list_step :
    (s : String) (ns : List ℕ)
    → cut "-" s ≡ none
    → ports_of (split b',' s) ≡ ok ns
    → after_trim s ≡ ok (ns, false)
unfolding after_trim
list_step s ns c done = rw (c, after_trim) (rw done refl)

trimmed : (s : String) → HasNoSpace s → Lacks b'[' s → Lacks b']' s → trim s ≡ s
unfolding trim
trimmed s h l r =
    ap (λ u. trim_suffix b']' (trim_prefix b'[' u)) (trim_space-HasNoSpace s h)
    ∙ ap (trim_suffix b']') (trim_prefix-Lacks b'[' s l)
    ∙ trim_suffix-Lacks b']' s r

trim-range : (a b : ℕ) → trim (print (range a b)) ≡ print (range a b)
trim-range a b =
    trimmed (print (range a b)) (every-range _ (λ d l. ground arith) refl a b)
      (every-range _ (λ d l. ground arith) refl a b) (every-range _ (λ d l. ground arith) refl a b)

trim-ports : (n : ℕ) (ns : List ℕ) → trim (print_ports n ns) ≡ print_ports n ns
trim-ports n ns =
    trimmed (print_ports n ns) (every-print_ports _ (λ d l. ground arith) refl n ns)
      (every-print_ports _ (λ d l. ground arith) refl n ns)
      (every-print_ports _ (λ d l. ground arith) refl n ns)

trim-bracketed : (n : ℕ) (ns : List ℕ) → trim (print (bracketed n ns)) ≡ print_ports n ns
unfolding trim print every trim_prefix
trim-bracketed n ns =
    ap (λ u. trim_suffix b']' (trim_prefix b'[' u))
      (trim_space-HasNoSpace (print (bracketed n ns)) (
        every-append not_space (print_ports n ns) _
          (every-print_ports not_space (λ d l. ground arith) refl n ns) refl))
    ∙ trim_suffix-append right_bracket (print_ports n ns)

after_trim-ports :
    (n : ℕ) (ns : List ℕ)
    → All (λ p. p < 2 ^ 63) (n ∷ ns)
    → after_trim (print_ports n ns) ≡ ok (n ∷ ns, false)
after_trim-ports n ns f =
    list_step (print_ports n ns) (n ∷ ns)
      (cut-Lacks dash (print_ports n ns) (every-print_ports _ (λ d l. ground arith) refl n ns))
      (ports_of-print n ns f)

-- Every way to write ports below the bound of Go's int is read as these ports, a range as a range.
pub parse_port_spec-print : (t : PortText) → Fits t → parse_port_spec (print t) ≡ ok (spec_of t)
unfolding print
parse_port_spec-print (range a b) (fa, fb) =
    parse_port_spec-trim (print (range a b))
    ∙ ap after_trim (trim-range a b)
    ∙ range_step (print (range a b)) (itoa a) (itoa b) a b
        (cut-append dash (itoa a) (itoa b) (itoa-Lacks (code dash) a refl)) (atoi-itoa a fa)
        (atoi-itoa b fb)
parse_port_spec-print (ports n ns) f =
    parse_port_spec-trim (print_ports n ns)
    ∙ ap after_trim (trim-ports n ns)
    ∙ after_trim-ports n ns f
parse_port_spec-print (bracketed n ns) f =
    parse_port_spec-trim (print (bracketed n ns))
    ∙ ap after_trim (trim-bracketed n ns)
    ∙ after_trim-ports n ns f
