-- ===== src/Generator/Hbone/Rules.antt =====
-- Which rules get the HBONE port by pkg/generator/hbone.go, in terms of their peers and ports.
use bigbang_operator.Base.{
  String, Bool, true, false, ◌||◌, ◌&&◌, Option, none, some, List, [], ◌∷◌, ◌++◌, ◌==◌, nat_eq,
  nat_eq_iff, ◌≡◌, ◌≢◌, refl, ap, Bool-cases, inl, inr, ◌⊎◌, eq_iff, is_some,
}
use bigbang_operator.Base.Dict.{is_empty}
use bigbang_operator.Api.Common.{IntOrString, int, str}
use bigbang_operator.Object.{NetworkPolicyPeer, NetworkPolicyPort, Rule}
use bigbang_operator.Generator.Hbone.{
  is_protocol, is_port, peer_has_k8s_selector, has_hbone, is_hbone, inject_into_ports, inject_rule,
  inject_rules,
}

-- One of the ports is TCP port 15008.
abbrev pub HasHbonePort : List NetworkPolicyPort → Type 0
HasHbonePort [] = ⊥
HasHbonePort (p ∷ ports) =
    ((p.protocol ≡ some "TCP") × (p.port ≡ some (int 15008))) ⊎ HasHbonePort ports

-- One of the peers has a selector of namespaces or of pods.
abbrev pub NamesPods : List NetworkPolicyPeer → Type 0
NamesPods [] = ⊥
NamesPods (p ∷ peers) = ((p.namespace_selector ≢ none) ⊎ (p.pod_selector ≢ none)) ⊎ NamesPods peers

-- What becomes of a rule: with a peer that names pods, with ports, and without TCP port 15008 among
-- them it gets this port behind the others, and the flag is set. Any other rule stays as it is.
abbrev pub IsInjected : Rule → Rule → Bool → Type 0
IsInjected r r' added =
    (NamesPods r.peers
      × (r.ports ≢ [])
      × (¬ HasHbonePort r.ports)
      × (r'.peers ≡ r.peers)
      × (r'.ports
          ≡ r.ports
            ++ record { protocol = some "TCP"; port = some (int 15008); end_port = none } ∷ [])
      × (added ≡ true))
    ⊎ (((¬ NamesPods r.peers) ⊎ ((r.ports ≡ []) ⊎ HasHbonePort r.ports))
        × (r' ≡ r)
        × (added ≡ false))

-- The same of the rules of one direction, in their order; the flag is set if it is for one of them.
abbrev pub AreInjected : List Rule → List Rule → Bool → Type 0
AreInjected [] [] added = added ≡ false
AreInjected [] (r' ∷ rules') added = ⊥
AreInjected (r ∷ rules) [] added = ⊥
AreInjected (r ∷ rules) (r' ∷ rules') added =
    (first more : Bool) × IsInjected r r' first
    × AreInjected rules rules' more
    × (added ≡ (first || more))

-- A test and what it tests.
abbrev Decides : Bool → Type 0 → Type 0
Decides b P = ((b ≡ true) × P) ⊎ ((b ≡ false) × (¬ P))

Decides-and : {a b : Bool} {P Q : Type 0} → Decides a P → Decides b Q → Decides (a && b) (P × Q)
Decides-and (inl (e, p)) (inl (f, q)) = inl (rw e f, (p, q))
Decides-and (inl (e, p)) (inr (f, q)) = inr (rw e f, λ h. q h.1)
Decides-and (inr (e, p)) d = inr (rw e refl, λ h. p h.0)

Decides-or : {a b : Bool} {P Q : Type 0} → Decides a P → Decides b Q → Decides (a || b) (P ⊎ Q)
Decides-or (inl (e, p)) d = inl (rw e refl, inl p)
Decides-or (inr (e, p)) (inl (f, q)) = inl (rw e f, inr q)
Decides-or (inr (e, p)) (inr (f, q)) = inr (rw e f, λ h. elim h [ inl x ↦ p x | inr y ↦ q y ])

protocol-Decides : (o : Option String) → Decides (is_protocol o "TCP") (o ≡ some "TCP")
protocol-Decides none = inr (refl, λ e. cc)
protocol-Decides (some s) = elim (Bool-cases (s == "TCP")) [
  | inl e ↦ inl (e, ap some ((eq_iff s "TCP").0 e))
  | inr e ↦ inr (e, λ h. cc)
]

port-Decides : (o : Option IntOrString) → Decides (is_port o 15008) (o ≡ some (int 15008))
port-Decides none = inr (refl, λ e. cc)
port-Decides (some (str s)) = inr (refl, λ e. cc)
port-Decides (some (int n)) = elim (Bool-cases (nat_eq n 15008)) [
  | inl e ↦ inl (e, ap (λ m. some (int m)) ((nat_eq_iff n 15008).0 e))
  | inr e ↦ inr (e, λ h. cc)
]

has_hbone-Decides :
    (ports : List NetworkPolicyPort) → Decides (has_hbone ports) (HasHbonePort ports)
unfolding has_hbone is_hbone
has_hbone-Decides [] = inr (refl, λ h. h)
has_hbone-Decides (p ∷ ports) =
    Decides-or (Decides-and (protocol-Decides p.protocol) (port-Decides p.port))
      (has_hbone-Decides ports)

is_some-Decides : {A : Type 0} (o : Option A) → Decides (is_some o) (o ≢ none)
is_some-Decides none = inr (refl, λ h. h refl)
is_some-Decides (some a) = inl (refl, λ e. cc)

NamesPods-Decides :
    (peers : List NetworkPolicyPeer) → Decides (peer_has_k8s_selector peers) (NamesPods peers)
unfolding peer_has_k8s_selector
NamesPods-Decides [] = inr (refl, λ h. h)
NamesPods-Decides (p ∷ peers) =
    Decides-or (Decides-or (is_some-Decides p.namespace_selector) (is_some-Decides p.pod_selector))
      (NamesPods-Decides peers)

is_empty-Decides : (ports : List NetworkPolicyPort) → Decides (is_empty ports) (ports ≡ [])
is_empty-Decides [] = inl (refl, refl)
is_empty-Decides (p ∷ ports) = inr (refl, λ e. cc)

inject_rule-IsInjected : (r : Rule) → IsInjected r (inject_rule r).0 (inject_rule r).1
unfolding inject_rule inject_into_ports
inject_rule-IsInjected r =
    by_tests (NamesPods-Decides r.peers) (is_empty-Decides r.ports) (has_hbone-Decides r.ports)
  where
    by_tests :
        Decides (peer_has_k8s_selector r.peers) (NamesPods r.peers)
        → Decides (is_empty r.ports) (r.ports ≡ [])
        → Decides (has_hbone r.ports) (HasHbonePort r.ports)
        → IsInjected r (inject_rule r).0 (inject_rule r).1
    by_tests (inr (off, n)) _ _ = rw off (inr (inl n, refl, refl))
    by_tests (inl (on, y)) (inl (none_there, h)) _ =
        rw on (rw none_there (inr (inr (inl h), refl, refl)))
    by_tests (inl (on, y)) (inr (some_there, h)) (inl (has, k)) =
        rw on (rw some_there (rw has (inr (inr (inr k), refl, refl))))
    by_tests (inl (on, y)) (inr (some_there, h)) (inr (lacks, k)) =
        rw on (rw some_there (rw lacks (inl (y, h, k, refl, refl, refl))))

-- The rules of one direction of a policy: a rule with a peer that names namespaces or pods, with
-- ports, and without TCP port 15008 among them gets this port behind its others; every other rule
-- stays as it is; the flag says whether a rule got the port.
pub inject_rules_lem :
    (rules : List Rule) → AreInjected rules (inject_rules rules).0 (inject_rules rules).1
unfolding inject_rules
inject_rules_lem [] = refl
inject_rules_lem (r ∷ rules) = (_, _, inject_rule-IsInjected r, inject_rules_lem rules, refl)
