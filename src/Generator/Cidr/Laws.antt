-- ===== src/Generator/Cidr/Laws.antt =====
-- Which exclusions `applyExcludeCIDRs` of pkg/generator/networkpolicies.go keeps.
use native.Mathlib.Nat.{div-div-eq-div-mul, mul_assoc, mul-one, pow-suc}
use bigbang_operator.Base.{
  ℕ, ◌+◌, ◌-◌, ◌*◌, ◌/◌, ◌^◌, ◌≤◌, String, ◌≡◌, sym, ap, subst, ◌∙◌, Bool, true, false, ◌&&◌, not,
  some, List, [], ◌∷◌, ◌==◌, leb, arith, Bool-cases, ◌⊎◌, inl, inr, eq_iff, nat_eq_iff, leb→le, ◌↔◌,
  zero, suc,
}
use bigbang_operator.Base.Lists.{any}
use bigbang_operator.Generator.Cidr.{
  IpNet, parse_cidr, net_contains, is_excluded, kept_exclusions, apply_exclude_cidrs,
}

-- The quotient of a power is a quotient of quotients.
halved : (x m k : ℕ) → (x / 2 ^ (m + k)) ≡ (x / 2 ^ m / 2 ^ k)
halved x m k = ap (λ n. x / n) (two_power m k) ∙ sym (div-div-eq-div-mul x (2 ^ m) (2 ^ k))
  where
    two_power : (a b : ℕ) → (2 ^ (a + b)) ≡ (2 ^ a * 2 ^ b)
    two_power a zero = ap (λ n. 2 ^ n) (omega arith) ∙ sym (mul-one (2 ^ a))
    two_power a (suc b) =
        ap (λ n. 2 ^ n) (omega arith)
        ∙ pow-suc 2 (a + b)
        ∙ ap (λ n. n * 2) (two_power a b)
        ∙ mul_assoc (2 ^ a) (2 ^ b) 2
        ∙ ap (λ n. 2 ^ a * n) (sym (pow-suc 2 b))

-- The quotients agree for a shorter prefix if they agree for a longer one.
coarser : (x y m n : ℕ) → m ≤ n → (x / 2 ^ m) ≡ (y / 2 ^ m) → (x / 2 ^ n) ≡ (y / 2 ^ n)
coarser x y m n h e =
    ap (λ j. x / 2 ^ j) split
    ∙ halved x m (n - m)
    ∙ ap (λ q. q / 2 ^ (n - m)) e
    ∙ sym (halved y m (n - m))
    ∙ ap (λ j. y / 2 ^ j) (sym split)
  where
    split : n ≡ (m + (n - m))
    split = omega (arith, h)

-- An exclusion that is inside the rule's network: no shorter prefix, and an address in common.
inside :
    (rule net : IpNet) (ip : ℕ)
    → leb rule.ones net.ones ≡ true
    → net_contains net ip ≡ true
    → (net_contains rule net.ip ≡ true ↔ net_contains rule ip ≡ true)
inside rule net ip le there = (
  λ h. ground (
    arith,
    nat_eq_iff (rule.ip / 2 ^ (32 - rule.ones)) (ip / 2 ^ (32 - rule.ones)),
    nat_eq_iff (rule.ip / 2 ^ (32 - rule.ones)) (net.ip / 2 ^ (32 - rule.ones)),
    same,
    h,
  ),
  λ h. ground (
    arith,
    nat_eq_iff (rule.ip / 2 ^ (32 - rule.ones)) (ip / 2 ^ (32 - rule.ones)),
    nat_eq_iff (rule.ip / 2 ^ (32 - rule.ones)) (net.ip / 2 ^ (32 - rule.ones)),
    same,
    h,
  ),
)
  where
    same : (net.ip / 2 ^ (32 - rule.ones)) ≡ (ip / 2 ^ (32 - rule.ones))
    same =
        coarser net.ip ip (32 - net.ones) (32 - rule.ones)
          (omega (arith, leb→le rule.ones net.ones le))
          ((nat_eq_iff (net.ip / 2 ^ (32 - net.ones)) (ip / 2 ^ (32 - net.ones))).0 there)

abbrev has : String → List String → Bool
has ex list = any (λ e. e == ex) list

kept_lem :
    (cidr : String) (rule : IpNet) (ex : String) (list : List String)
    → has ex (kept_exclusions cidr rule list)
      ≡ (not (ex == cidr) && is_excluded rule (parse_cidr ex) && has ex list)
unfolding kept_exclusions
kept_lem cidr rule ex [] = ground arith
kept_lem cidr rule ex (e ∷ list) = elim (Bool-cases (e == ex)) [
  | inl same ↦
      let eq = (eq_iff e ex).0 same in
      subst
        (λ x.
          has ex (kept_exclusions cidr rule (x ∷ list))
          ≡ (not (ex == cidr) && is_excluded rule (parse_cidr ex) && has ex (x ∷ list)))
        (sym eq) (ground (arith, eq_iff ex ex, kept_lem cidr rule ex list))
  | inr other ↦ ground (arith, other, kept_lem cidr rule ex list)
]

apply_lem :
    (cidr : String) (rule : IpNet) (ex : String) (list : List String)
    → parse_cidr cidr ≡ some rule
    → has ex (apply_exclude_cidrs cidr list)
      ≡ (not (ex == cidr) && is_excluded rule (parse_cidr ex) && has ex list)
unfolding apply_exclude_cidrs
apply_lem cidr rule ex [] e = ground arith
apply_lem cidr rule ex (x ∷ list) e = rw (e, apply_exclude_cidrs) (kept_lem cidr rule ex (x ∷ list))

-- For a rule's CIDR and an exclusion that parse, and any address of the exclusion's network: the
-- exclusion is among those kept if and only if it is listed, its text is another than the rule's,
-- its prefix is not shorter than the rule's, and the address is in the rule's network.
pub apply_exclude_cidrs-exact :
    (cidr ex : String) (list : List String) (rule net : IpNet) (ip : ℕ)
    → parse_cidr cidr ≡ some rule
    → parse_cidr ex ≡ some net
    → net_contains net ip ≡ true
    → any (λ e. e == ex) (apply_exclude_cidrs cidr list) ≡ (
        not (ex == cidr)
        && leb rule.ones net.ones
        && net_contains rule ip
        && any (λ e. e == ex) list)
apply_exclude_cidrs-exact cidr ex list rule net ip p q there =
    apply_lem cidr rule ex list p
    ∙ ap (λ b. not (ex == cidr) && b && any (λ e. e == ex) list)
        (ap (is_excluded rule) q ∙ same (Bool-cases (leb rule.ones net.ones)))
    ∙ assoc (not (ex == cidr)) (leb rule.ones net.ones) (net_contains rule ip) _
  where
    assoc : (a b c d : Bool) → (a && (b && c) && d) ≡ (a && b && c && d)
    assoc a b c d = ground arith

    same :
        (leb rule.ones net.ones ≡ true) ⊎ (leb rule.ones net.ones ≡ false)
        → is_excluded rule (some net) ≡ (leb rule.ones net.ones && net_contains rule ip)
    same (inl le) = ground (arith, le, inside rule net ip le there)
    same (inr gt) = ground (arith, gt)
