-- ===== src/Generator/Keys/Ports/Matching.antt =====
-- The ports of a key match its pattern (pkg/generator/shorthand.go).
use Prim.Native.String
use package.text.Mathlib.TextLemmas.{nil-append, cons-append, append-nil, append_assoc}
use bigbang_operator.Base.{
  ℕ, String, true, List, [], ◌∷◌, ◌≡◌, refl, sym, ap, ◌∙◌, subst, inl, inr, arith,
}
use bigbang_operator.Base.Text.{itoa}
use bigbang_operator.Base.Text.Laws.{every}
use bigbang_operator.Base.Decimal.{every-itoa, itoa-cons}
use bigbang_operator.Regexp.{plus, digit, text, seq, in_ranges}
use bigbang_operator.Regexp.Language.{Matches, Star, done, more}
use bigbang_operator.Regexp.Texts.{cons-as-append, Matches-text, Matches-plus}
use bigbang_operator.Generator.Keys.Patterns.{range, list, ports}
use bigbang_operator.Generator.Keys.Ports.RoundTrip.{
  PortText, bracketed, print, print_ports, dash, comma, left_bracket, right_bracket,
}
use bigbang_operator.Generator.Keys.Ports.RoundTrip

digits-match : (n : ℕ) → Matches (plus digit) (itoa n)
digits-match n =
    let (c, (s, e)) = itoa-cons n in
    let digits = every-itoa (in_ranges ((48, 57) ∷ [])) (λ d l. ground arith) n in
    subst (Matches (plus digit)) (sym e) (
      Matches-plus ((48, 57) ∷ []) c s
        (subst (λ t. every (in_ranges ((48, 57) ∷ [])) t ≡ true) e digits))

range-match : (a b : ℕ) → Matches range (print (RoundTrip.range a b))
unfolding print range
range-match a b = (
  itoa a,
  String.◌∷◌ dash (itoa b),
  refl,
  digits-match a,
  ("-", itoa b, cons-as-append dash (itoa b), Matches-text "-", digits-match b),
)

-- The ports behind the first.
tail_text : List ℕ → String
tail_text [] = ""
tail_text (m ∷ ms) = String.◌++◌ (String.◌∷◌ comma (itoa m)) (tail_text ms)

print_ports-tail : (n : ℕ) (ms : List ℕ) → print_ports n ms ≡ String.◌++◌ (itoa n) (tail_text ms)
unfolding print_ports tail_text
print_ports-tail n [] = sym (append-nil (itoa n))
print_ports-tail n (m ∷ ms) = ap (String.◌++◌ (itoa n)) (
    ap (String.◌∷◌ comma) (print_ports-tail m ms) ∙ sym (cons-append comma (itoa m) (tail_text ms)))

tail-match : (ms : List ℕ) → Star (Matches (seq (text ",") (plus digit))) (tail_text ms)
unfolding tail_text
tail-match [] = done
tail-match (m ∷ ms) =
    more (",", itoa m, cons-as-append comma (itoa m), Matches-text ",", digits-match m)
      (tail-match ms) refl

list-match : (n : ℕ) (ms : List ℕ) → Matches list (print_ports n ms)
unfolding list
list-match n ms = (
  "",
  print_ports n ms,
  sym (nil-append (print_ports n ms)),
  inr refl,
  (
    itoa n,
    tail_text ms,
    print_ports-tail n ms,
    digits-match n,
    (tail_text ms, "", sym (append-nil (tail_text ms)), tail-match ms, inr refl),
  ),
)

bracketed-match : (n : ℕ) (ms : List ℕ) → Matches list (print (bracketed n ms))
unfolding print list
bracketed-match n ms = (
  "[",
  String.◌++◌ (print_ports n ms) "]",
  cons-as-append left_bracket (String.◌++◌ (print_ports n ms) "]"),
  inl (Matches-text "["),
  (
    itoa n,
    String.◌++◌ (tail_text ms) "]",
    ap (λ s. String.◌++◌ s "]") (print_ports-tail n ms) ∙ append_assoc (itoa n) (tail_text ms) "]",
    digits-match n,
    (tail_text ms, "]", refl, tail-match ms, inl (Matches-text "]")),
  ),
)

-- The part behind a colon.
pub ports-match : (t : PortText) → Matches ports (String.◌++◌ ":" (print t))
unfolding print ports
ports-match (RoundTrip.range a b) =
    inl (":", print (RoundTrip.range a b), refl, Matches-text ":", inr (inl (range-match a b)))
ports-match (RoundTrip.ports n ms) =
    inl (":", print_ports n ms, refl, Matches-text ":", inr (inr (list-match n ms)))
ports-match (bracketed n ms) =
    inl (":", print (bracketed n ms), refl, Matches-text ":", inr (inr (bracketed-match n ms)))
