-- ===== src/Generator/Hbone/Laws.antt =====
-- What the injection of the HBONE port in pkg/generator/hbone.go does to rules and objects.
use bigbang_operator.Base.{
  Bool, true, false, ◌||◌, List, [], ◌∷◌, ◌++◌, if◌then◌else◌, ◌≡◌, refl, ap, arith, Bool-cases,
  inl, inr,
}
use mathlib.Core.Path.{ap₂}
use bigbang_operator.Base.Dict.{insert, is_empty}
use bigbang_operator.Object.{
  NetworkPolicyPort, Rule, Object, Spec, network_policy, peer_authentication, authorization_policy,
  virtual_service, service_entry, sidecar,
}
use bigbang_operator.Generator.Hbone.{
  hbone_entry, hbone_label, peer_has_k8s_selector, has_hbone, is_hbone, inject_into_ports,
  inject_rule, inject_rules, inject_object, inject_hbone_ports,
}

has_hbone-append : (ports : List NetworkPolicyPort) → has_hbone (ports ++ hbone_entry ∷ []) ≡ true
unfolding has_hbone is_hbone
has_hbone-append [] = refl
has_hbone-append (p ∷ ports) = ground (arith, has_hbone-append ports)

is_empty-append : (ports : List NetworkPolicyPort) → is_empty (ports ++ hbone_entry ∷ []) ≡ false
is_empty-append [] = refl
is_empty-append (p ∷ ports) = refl

inject_into_ports_idem :
    (ports : List NetworkPolicyPort) (e : Bool)
    → inject_into_ports (inject_into_ports ports e).0 e ≡ ((inject_into_ports ports e).0, false)
unfolding inject_into_ports
inject_into_ports_idem ports false = refl
inject_into_ports_idem [] true = refl
inject_into_ports_idem (p ∷ ports) true = elim (Bool-cases (has_hbone (p ∷ ports))) [
  | inl has ↦ rw has (rw has refl)
  | inr lacks ↦ rw lacks (rw (has_hbone-append (p ∷ ports)) refl)
]

inject_rule_idem : (r : Rule) → inject_rule (inject_rule r).0 ≡ ((inject_rule r).0, false)
unfolding inject_rule
inject_rule_idem r =
    ap (λ (x : List NetworkPolicyPort × Bool). (record r { ports = x.0 }, x.1))
      (inject_into_ports_idem r.ports (peer_has_k8s_selector r.peers))

inject_rules_idem :
    (rules : List Rule) → inject_rules (inject_rules rules).0 ≡ ((inject_rules rules).0, false)
unfolding inject_rules
inject_rules_idem [] = refl
inject_rules_idem (r ∷ rules) =
    ap₂ (λ (x : Rule × Bool) (y : List Rule × Bool). (x.0 ∷ y.0, x.1 || y.1)) (inject_rule_idem r)
      (inject_rules_idem rules)

inject_object_idem :
    (o : Object) (spec : Spec)
    → inject_object
        (inject_object (record o { spec = spec }) spec)
        (inject_object (record o { spec = spec }) spec).spec
      ≡ inject_object (record o { spec = spec }) spec
unfolding inject_object
inject_object_idem o (network_policy np) =
    ap₂
      (λ (x y : List Rule × Bool).
        record (inject_object (record o { spec = network_policy np }) (network_policy np)) {
          labels =
              if x.1 || y.1
              then insert hbone_label "true"
                  (inject_object (record o { spec = network_policy np }) (network_policy np)).labels
              else (inject_object (record o { spec = network_policy np })
                  (network_policy np)).labels;
          spec = network_policy (record np { egress = x.0; ingress = y.0 });
        })
      (inject_rules_idem np.egress) (inject_rules_idem np.ingress)
inject_object_idem o (peer_authentication m) = refl
inject_object_idem o (authorization_policy a) = refl
inject_object_idem o (virtual_service v) = refl
inject_object_idem o (service_entry s) = refl
inject_object_idem o (sidecar m) = refl

-- Injecting a second time changes nothing.
pub inject_hbone_ports_idem :
    (objs : List Object) → inject_hbone_ports (inject_hbone_ports objs) ≡ inject_hbone_ports objs
unfolding inject_hbone_ports
inject_hbone_ports_idem [] = refl
inject_hbone_ports_idem (o ∷ objs) =
    ap₂ (λ (x : Object) (xs : List Object). x ∷ xs) (inject_object_idem o o.spec)
      (inject_hbone_ports_idem objs)
