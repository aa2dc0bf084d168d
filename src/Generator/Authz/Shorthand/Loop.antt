-- ===== src/Generator/Authz/Shorthand/Loop.antt =====
-- The loop of authorizationpolicies.go that writes out a port range, on Go's 64-bit int.
use bigbang_operator.Base.{
  ℕ, zero, suc, ◌+◌, ◌-◌, ◌%◌, ◌^◌, ◌<◌, true, false, none, some, List, [], ◌∷◌, ok, leb, leb→le,
  Bool-cases, inl, inr, map, ◌≡◌, refl, ◌∙◌, arith,
}
use bigbang_operator.Generator.Authz.Shorthand.{int_le, ports_loop, operation_ports}
use bigbang_operator.Base.Text.{itoa}
use bigbang_operator.Generator.Keys.Parse.{ParsedLocalIngressKey}

-- The ports in order, by the number of them.
unfoldable pub ports_from : ℕ → ℕ → List ℕ
ports_from zero p = []
ports_from (suc rounds) p = p ∷ ports_from rounds (p + 1)

int_le-leb : (a b : ℕ) → a < 2 ^ 63 → b < 2 ^ 63 → int_le a b ≡ leb a b
int_le-leb a b h k = ground arith

pub ports_loop-ports_from :
    (fuel a b : ℕ)
    → a < 2 ^ 63
    → b + 1 < 2 ^ 63
    → b + 1 - a < fuel
    → ports_loop fuel a b ≡ some (ports_from (b + 1 - a) a)
unfolding ports_loop ports_from
ports_loop-ports_from zero a b ha hb enough = absurd (omega arith)
ports_loop-ports_from (suc fuel) a b ha hb enough = elim (Bool-cases (leb a b)) [
  | inl more ↦
      let here : int_le a b ≡ true = int_le-leb a b ha (omega arith) ∙ more in
      let step : (a + 1) % 2 ^ 64 ≡ a + 1 = omega arith in
      let le = leb→le a b more in
      let left : b + 1 - a ≡ suc (b + 1 - (a + 1)) = omega arith in
      rw (here, ports_loop, step, left)
        (rw (ports_loop-ports_from fuel (a + 1) b (omega arith) hb (omega arith)) refl)
  | inr done ↦
      let here : int_le a b ≡ false = int_le-leb a b ha (omega arith) ∙ done in
      let left : b + 1 - a ≡ 0 = ground arith in rw (here, ports_loop, left) refl
]

pub ports_loop-operation_ports :
    (local : ParsedLocalIngressKey) (fuel a b : ℕ)
    → local.ports ≡ a ∷ b ∷ []
    → local.has_port_range ≡ true
    → a < 2 ^ 63
    → b + 1 < 2 ^ 63
    → b + 1 - a < fuel
    → (list : List ℕ) × (ports_loop fuel a b ≡ some list)
      × (operation_ports local ≡ ok (some (map itoa list)))
unfolding operation_ports
ports_loop-operation_ports local fuel a b e h ha hb enough = (
  ports_from (b + 1 - a) a,
  ports_loop-ports_from fuel a b ha hb enough,
  rw (e, operation_ports)
      (rw h (rw (ports_loop-ports_from (suc (b + 1 - a)) a b ha hb (omega arith)) refl)),
)

-- The loop of a range up to the largest int never ends: no fuel is enough.
pub ports_loop-endless : (fuel p : ℕ) → p < 2 ^ 64 → ports_loop fuel p (2 ^ 63 - 1) ≡ none
unfolding ports_loop
ports_loop-endless zero p h = refl
ports_loop-endless (suc fuel) p h =
    let more : int_le p (2 ^ 63 - 1) ≡ true = ground arith in
    rw (more, ports_loop) (rw (ports_loop-endless fuel ((p + 1) % 2 ^ 64) (omega arith)) refl)
