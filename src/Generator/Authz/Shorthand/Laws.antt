-- ===== src/Generator/Authz/Shorthand/Laws.antt =====
-- The operation ports of a local key with a port range (authorizationpolicies.go).
use bigbang_operator.Base.{
  ℕ, zero, suc, ◌+◌, ◌-◌, true, ◌&&◌, some, List, [], ◌∷◌, map, nat_eq, leb, ◌≡◌, refl, ◌∙◌, arith,
  ltb, ltb→lt, ok, err, endless, ◌⊎◌, inl, inr, Bool-cases, ◌^◌, ◌<◌, ap, sym,
}
use mathlib.Core.Option.{some_inj}
use bigbang_operator.Base.Lists.{any}
use bigbang_operator.Base.Text.{itoa}
use bigbang_operator.Generator.Keys.Parse.{ParsedLocalIngressKey}
use bigbang_operator.Generator.Authz.Shorthand.{ports_loop, operation_ports}
use bigbang_operator.Generator.Authz.Shorthand.Loop.{
  ports_from, ports_loop-ports_from, ports_loop-operation_ports, ports_loop-endless,
}

ports_from_lem :
    (rounds first p : ℕ)
    → any (λ q. nat_eq q p) (ports_from rounds first) ≡ (leb first p && ltb p (first + rounds))
unfolding ports_from
ports_from_lem zero first p = ground arith
ports_from_lem (suc rounds) first p = ground (arith, ports_from_lem rounds (first + 1) p)

-- A local key whose ports are a range of Go ints. If the range ends below the largest int, its
-- policy names, as decimal texts, a list of ports that has exactly those from the first to the last
-- of the range, and none if the last is below the first; if it ends at the largest int, the policy
-- is never built.
pub operation_ports-range :
    (local : ParsedLocalIngressKey) (a b : ℕ)
    → local.ports ≡ a ∷ b ∷ []
    → local.has_port_range ≡ true
    → a < 2 ^ 63
    → b < 2 ^ 63
    → ((b + 1 < 2 ^ 63)
        × ((list : List ℕ) × (operation_ports local ≡ ok (some (map itoa list)))
            × ((p : ℕ) → any (λ q. nat_eq q p) list ≡ (leb a p && leb p b))))
      ⊎ ((b ≡ 2 ^ 63 - 1) × (operation_ports local ≡ err endless))
unfolding operation_ports
operation_ports-range local a b e h ha hb = elim (Bool-cases (ltb (b + 1) (2 ^ 63))) [
  | inl below ↦
      let lt = ltb→lt (b + 1) (2 ^ 63) below in
      let (list, done, written) =
        ports_loop-operation_ports local (suc (b + 1 - a)) a b e h ha lt (omega arith) in
      inl (
        lt,
        (
          list,
          written,
          λ p.
              ap (any (λ q. nat_eq q p)) (same_list list done lt)
              ∙ ports_from_lem (b + 1 - a) a p
              ∙ ground arith,
        ),
      )
  | inr top ↦
      let last : b ≡ 2 ^ 63 - 1 = ground (arith, top) in
      inr (
        last,
        rw (e, operation_ports)
            (rw h
              (rw last (rw (ports_loop-endless (suc (2 ^ 63 - 1 + 1 - a)) a (omega arith)) refl))),
      )
]
  where
    same_list :
        (list : List ℕ)
        → ports_loop (suc (b + 1 - a)) a b ≡ some list
        → b + 1 < 2 ^ 63
        → list ≡ ports_from (b + 1 - a) a
    same_list list done lt =
        some_inj.0 (sym done ∙ ports_loop-ports_from (suc (b + 1 - a)) a b ha lt (omega arith))
