-- ===== src/Generator/Keys/Parse/Peer.antt =====
-- The namespace and the pod of a key (pkg/generator/shorthand.go): how they are written, matched and
-- taken apart.
use Prim.Native.Char.{Char}
use Prim.Native.String
use package.text.Mathlib.TextLemmas.{append-nil}
use bigbang_operator.Base.{
  ℕ, String, true, false, not, Option, none, some, List, [], ◌∷◌, nat_eq, ◌≡◌, refl, ap, ◌∙◌, arith,
  inl, inr,
}
use bigbang_operator.Base.Text.{cut}
use bigbang_operator.Base.Text.Laws.{
  every, every-weaken, every-append, Lacks, cut-Lacks, cut-append,
}
use bigbang_operator.Regexp.{text, in_ranges, seq, opt}
use bigbang_operator.Regexp.Language.{Matches}
use bigbang_operator.Regexp.Texts.{cons-as-append, Matches-text, Matches-plus}
use bigbang_operator.Generator.Keys.Patterns.{name_or_star}
use bigbang_operator.Generator.Keys.Ports.RoundTrip.{}
use bigbang_operator.Generator.Keys.Parse.{take_pod}

abbrev pub name_ranges : List (ℕ × ℕ)
name_ranges = (65, 90) ∷ (97, 122) ∷ (48, 57) ∷ (45, 45) ∷ []

-- `*`, or letters, digits and dashes, of which there is at least one.
pub data Name : Type 0 where
  anything : Name
  named :
      (first : Char) (rest : String)
      → every (in_ranges name_ranges) (String.◌∷◌ first rest) ≡ true
      → Name

unfoldable pub name_text : Name → String
name_text anything = "*"
name_text (named first rest h) = String.◌∷◌ first rest

abbrev pub slash : Char
slash = String.char_at "/" 0

unfoldable pub pod_text : Option Name → String
unfolding name_text
pod_text none = ""
pod_text (some pod) = String.◌∷◌ slash (name_text pod)

abbrev pub peer_text : Name → Option Name → String
peer_text namespace pod = String.◌++◌ (name_text namespace) (pod_text pod)

-- Names have none of the characters that separate the parts.
pub name-Lacks :
    (b : ℕ)
    → nat_eq 42 b ≡ false
    → in_ranges name_ranges b ≡ false
    → (n : Name) → Lacks b (name_text n)
unfolding name_text every
name-Lacks b star other anything = ground arith
name-Lacks b star other (named c s h) =
    every-weaken (in_ranges name_ranges) (λ k. not (nat_eq k b)) (λ k e. ground arith)
      (String.◌∷◌ c s) h

pub name-match : (n : Name) → Matches name_or_star (name_text n)
unfolding name_or_star name_text
name-match anything = inr (Matches-text "*")
name-match (named c s h) = inl (Matches-plus name_ranges c s h)

pub pod-match : (o : Option Name) → Matches (opt (seq (text "/") name_or_star)) (pod_text o)
unfolding pod_text
pod-match none = inr refl
pod-match (some n) =
    inl ("/", name_text n, cons-as-append slash (name_text n), Matches-text "/", name-match n)

pub peer-Lacks :
    (b : ℕ)
    → nat_eq 42 b ≡ false
    → nat_eq 47 b ≡ false
    → in_ranges name_ranges b ≡ false
    → (namespace : Name) (pod : Option Name) → Lacks b (peer_text namespace pod)
unfolding pod_text every
peer-Lacks b star slashed other namespace none =
    every-append (λ x. not (nat_eq x b)) (name_text namespace) (pod_text none)
      (name-Lacks b star other namespace) refl
peer-Lacks b star slashed other namespace (some n) =
    every-append (λ x. not (nat_eq x b)) (name_text namespace) (pod_text (some n))
      (name-Lacks b star other namespace) (rw slashed (name-Lacks b star other n))

abbrev pub pod_of : Option Name → String
pod_of none = ""
pod_of (some n) = name_text n

take_pod-none : (s : String) → cut "/" s ≡ none → take_pod s ≡ (s, "")
unfolding take_pod
take_pod-none s e = rw (e, take_pod) refl

take_pod_step : (s : String) (p : String × String) → cut "/" s ≡ some p → take_pod s ≡ p
unfolding take_pod
take_pod_step s p e = rw (e, take_pod) refl

pub take_pod-peer :
    (namespace : Name) (pod : Option Name)
    → take_pod (peer_text namespace pod) ≡ (name_text namespace, pod_of pod)
unfolding pod_text
take_pod-peer namespace none =
    ap take_pod (append-nil (name_text namespace))
    ∙ take_pod-none (name_text namespace)
        (cut-Lacks slash (name_text namespace) (name-Lacks 47 refl refl namespace))
take_pod-peer namespace (some n) =
    take_pod_step _ (name_text namespace, name_text n)
      (cut-append slash (name_text namespace) (name_text n) (name-Lacks 47 refl refl namespace))
