-- ===== src/Generator/Keys/Ports.antt =====
-- `parsePortSpec`: `<n>`, `<a>-<b>` or `<a>,<b>,…`, perhaps within brackets.
pub mod RoundTrip
pub mod Matching
use bigbang_operator.Base.{
  ℕ, String, ◌≡◌, refl, Bool, true, false, Option, none, some, List, [], ◌∷◌, message, Result, ok,
  err, ◌>>=◌,
}
use bigbang_operator.Base.Text.{
  strip_prefix, cut, trim_space, trim_prefix, trim_suffix, split, atoi,
}

-- A list of ports, or the two ends of a range.
abbrev pub PortSpec : Type 0
PortSpec = List ℕ × Bool

range_ends : String → Option ℕ → Option ℕ → Result PortSpec
range_ends s (some a) (some b) = ok (a ∷ b ∷ [], true)
range_ends s _ _ = err (message "bad port range %q" (s ∷ []))

-- The loop over the parts.
ports_of : List String → Result (List ℕ)
unfolding atoi trim_space
ports_of [] = ok []
ports_of (p ∷ parts) = elim (atoi (trim_space p)) [
  | none ↦ err (message "bad port %q" (p ∷ []))
  | some n ↦ do ns ← ports_of parts; ok (n ∷ ns)
]

unfoldable pub parse_port_spec : String → Result PortSpec
unfolding cut strip_prefix trim_space trim_prefix trim_suffix split atoi range_ends ports_of
parse_port_spec text =
    let s = trim_suffix b']' (trim_prefix b'[' (trim_space text)) in
    elim (cut "-" s) [
      | some (a, b) ↦ range_ends s (atoi a) (atoi b)
      | none ↦ do ns ← ports_of (split b',' s); ok (ns, false)
    ]

range_test : parse_port_spec "8000-9000" ≡ ok (8000 ∷ 9000 ∷ [], true)
unfolding parse_port_spec
range_test = refl

list_test : parse_port_spec "[80,443]" ≡ ok (80 ∷ 443 ∷ [], false)
unfolding parse_port_spec
list_test = refl
