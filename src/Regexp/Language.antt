-- ===== src/Regexp/Language.antt =====
-- The derivative matcher decides the language of a pattern.
use Prim.Native.Char.{Char, code}
use Prim.Native.String
use text.Mathlib.TextLemmas.{
  nil-append, cons-append, nil≢cons, head-eq_of_cons-eq, tail-eq_of_cons-eq,
}
use bigbang_operator.Base.{
  String, ◌≡◌, refl, sym, ap, subst, ◌∙◌, ◌↔◌, ◌⊎◌, inl, inr, true, arith, Bool-cases,
}
use bigbang_operator.Regexp.{
  Regexp, never, empty, set, seq, alt, star, in_ranges, nullable, deriv, match_string,
}

-- Some texts of a language, one after the other.
pub data Star (P : String → Type 0) : String → Type 0 where
  done : Star P ""
  more : {s t u : String} → P s → Star P t → u ≡ String.◌++◌ s t → Star P u

-- The language that a pattern denotes.
abbrev pub Matches : Regexp → String → Type 0
Matches never u = ⊥
Matches empty u = u ≡ ""
Matches (set ranges) u = (c : Char) × (u ≡ String.◌∷◌ c "") × (in_ranges ranges (code c) ≡ true)
Matches (seq r q) u =
    (s : String) × (t : String) × (u ≡ String.◌++◌ s t) × Matches r s × Matches q t
Matches (alt r q) u = Matches r u ⊎ Matches q u
Matches (star r) u = Star (Matches r) u

nullable_sound : (r : Regexp) → nullable r ≡ true → Matches r ""
unfolding nullable
nullable_sound never h = cc
nullable_sound empty h = refl
nullable_sound (set ranges) h = cc
nullable_sound (seq r q) h =
    ("", "", refl, nullable_sound r (ground arith), nullable_sound q (ground arith))
nullable_sound (alt r q) h = elim (Bool-cases (nullable r)) [
  | inl p ↦ inl (nullable_sound r p)
  | inr p ↦ inr (nullable_sound q (ground arith))
]
nullable_sound (star r) h = done

append-eq-nil : (s t : String) → "" ≡ String.◌++◌ s t → (s ≡ "") × (t ≡ "")
append-eq-nil String.[] t e = (refl, sym (e ∙ nil-append t))
append-eq-nil (String.◌∷◌ c s) t e = absurd (nil≢cons (e ∙ cons-append c s t))

nullable_complete : (r : Regexp) → Matches r "" → nullable r ≡ true
unfolding nullable
nullable_complete never m = elim m [ ]
nullable_complete empty m = refl
nullable_complete (set ranges) (c, e, _) = absurd (nil≢cons e)
nullable_complete (seq r q) (s, t, e, mr, mq) =
    let (es, et) = append-eq-nil s t e in
    let p = nullable_complete r (subst (Matches r) es mr) in
    let p' = nullable_complete q (subst (Matches q) et mq) in ground arith
nullable_complete (alt r q) (inl m) = rw (nullable_complete r m)
nullable_complete (alt r q) (inr m) = ground (arith, nullable_complete q m)
nullable_complete (star r) m = refl

-- A match of `seq` that begins with a character of its first part.
seq-cons :
    (c : Char) (r q : Regexp) (u : String)
    → ((s : String) → Matches (deriv (code c) r) s → Matches r (String.◌∷◌ c s))
    → Matches (seq (deriv (code c) r) q) u
    → Matches (seq r q) (String.◌∷◌ c u)
seq-cons c r q u sound (s, t, e, mr, mq) =
    (String.◌∷◌ c s, t, ap (String.◌∷◌ c) e ∙ sym (cons-append c s t), sound s mr, mq)

seq-null-cons :
    (c : Char) (r q : Regexp) (u : String)
    → ((s : String) → Matches (deriv (code c) r) s → Matches r (String.◌∷◌ c s))
    → ((s : String) → Matches (deriv (code c) q) s → Matches q (String.◌∷◌ c s))
    → Matches r ""
    → Matches (seq (deriv (code c) r) q) u ⊎ Matches (deriv (code c) q) u
    → Matches (seq r q) (String.◌∷◌ c u)
seq-null-cons c r q u sound sound' e (inl first) = seq-cons c r q u sound first
seq-null-cons c r q u sound sound' e (inr second) =
    ("", String.◌∷◌ c u, sym (nil-append _), e, sound' u second)

deriv_sound :
    (c : Char) (r : Regexp) (u : String) → Matches (deriv (code c) r) u → Matches r (String.◌∷◌ c u)
unfolding deriv
deriv_sound c never u m = elim m [ ]
deriv_sound c empty u m = elim m [ ]
deriv_sound c (set ranges) u m = elim (Bool-cases (in_ranges ranges (code c))) [
  | inl p ↦ (c, ap (String.◌∷◌ c) (rw p at m), p)
  | inr p ↦ absurd (rw p at m)
]
deriv_sound c (seq r q) u m = elim (Bool-cases (nullable r)) [
  | inl p ↦
      seq-null-cons c r q u (deriv_sound c r) (deriv_sound c q) (nullable_sound r p) (rw p at m)
  | inr p ↦ seq-cons c r q u (deriv_sound c r) (rw p at m)
]
deriv_sound c (alt r q) u (inl m) = inl (deriv_sound c r u m)
deriv_sound c (alt r q) u (inr m) = inr (deriv_sound c q u m)
deriv_sound c (star r) u (s, t, e, mr, mq) =
    more (deriv_sound c r s mr) mq (ap (String.◌∷◌ c) e ∙ sym (cons-append c s t))

cons-eq-append :
    (c : Char) (u s t : String)
    → String.◌∷◌ c u ≡ String.◌++◌ s t
    → ((s ≡ "") × (t ≡ String.◌∷◌ c u))
      ⊎ ((s' : String) × (s ≡ String.◌∷◌ c s') × (u ≡ String.◌++◌ s' t))
cons-eq-append c u String.[] t e = inl (refl, sym (e ∙ nil-append t))
cons-eq-append c u (String.◌∷◌ d s) t e =
    let e' = e ∙ cons-append d s t in inr (s, cc (head-eq_of_cons-eq e'), tail-eq_of_cons-eq e')

-- The first character of a match of `star` begins a round that is not empty.
Star-cons :
    {P : String → Type 0} {v : String}
    → Star P v
    → (c : Char) (u : String) → v ≡ String.◌∷◌ c u
    → (s : String) × (t : String) × (u ≡ String.◌++◌ s t) × P (String.◌∷◌ c s) × Star P t
Star-cons done c u e = absurd (nil≢cons e)
Star-cons {P} (more {s} {t} {u = v} p rest e) c u e' = elim (cons-eq-append c u s t (sym e' ∙ e)) [
  | inl (_, same) ↦ Star-cons rest c u same
  | inr (s', es, eu) ↦ (s', t, eu, subst P es p, rest)
]

deriv_complete :
    (c : Char) (r : Regexp) (u : String) → Matches r (String.◌∷◌ c u) → Matches (deriv (code c) r) u
unfolding deriv
deriv_complete c never u m = m
deriv_complete c empty u m = nil≢cons (sym m)
deriv_complete c (set ranges) u (d, e, h) =
    rw (ap code (head-eq_of_cons-eq e)) (rw h (tail-eq_of_cons-eq e))
deriv_complete c (seq r q) u (s, t, e, mr, mq) = elim (cons-eq-append c u s t e) [
  | inl (es, et) ↦
      rw (nullable_complete r (subst (Matches r) es mr))
        (inr (deriv_complete c q u (subst (Matches q) et mq)))
  | inr (s', es, eu) ↦
      let first : Matches (seq (deriv (code c) r) q) u =
        (s', t, eu, deriv_complete c r s' (subst (Matches r) es mr), mq) in
      elim (Bool-cases (nullable r)) [ inl p ↦ rw p (inl first) | inr p ↦ rw p first ]
]
deriv_complete c (alt r q) u (inl m) = inl (deriv_complete c r u m)
deriv_complete c (alt r q) u (inr m) = inr (deriv_complete c q u m)
deriv_complete c (star r) u m =
    let (s, t, e, p, rest) = Star-cons m c u refl in (s, t, e, deriv_complete c r s p, rest)

-- `match_string` accepts a text exactly when the text lies in the language of the pattern.
pub match_string_iff : (r : Regexp) (u : String) → (match_string r u ≡ true) ↔ Matches r u
unfolding match_string
match_string_iff r String.[] = (nullable_sound r, nullable_complete r)
match_string_iff r (String.◌∷◌ c u) =
    let (to, from) = match_string_iff (deriv (code c) r) u in
    (λ h. deriv_sound c r u (to h), λ m. from (deriv_complete c r u m))
