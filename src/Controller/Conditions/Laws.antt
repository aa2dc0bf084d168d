-- ===== src/Controller/Conditions/Laws.antt =====
-- The conditions of a Package after the writes of internal/controller/status.go, and the order of
-- the applied resources.
use bigbang_operator.Base.{
  ℕ, String, Bool, true, false, Option, none, some, List, [], ◌∷◌, ◌==◌, if◌then◌else◌, ◌≡◌, refl,
  sym, ap, ◌∙◌, arith, Bool-cases, inl, inr, eq_iff, subst,
}
use bigbang_operator.Base.Lists.{All}
use bigbang_operator.Api.Package.{Condition, PackageStatus, Package}
use bigbang_operator.Object.{Object}
use bigbang_operator.Controller.Conditions.{
  set_condition, remove_condition, reconciling_status, failed_status, ready_status,
}

-- No type occurs twice.
abbrev pub HasDistinctTypes : List Condition → Type 0
HasDistinctTypes [] = Unit
HasDistinctTypes (c ∷ cs) = All (λ d. (d.type == c.type) ≡ false) cs × HasDistinctTypes cs

-- The status of the condition of a type.
unfoldable pub status_of : String → List Condition → Option Bool
status_of type [] = none
status_of type (c ∷ cs) = if c.type == type then some c.status else status_of type cs

status_of-set_condition :
    (type : String) (c : Condition) (cs : List Condition)
    → status_of type (set_condition c cs)
      ≡ (if c.type == type then some c.status else status_of type cs)
unfolding status_of set_condition
status_of-set_condition type c [] = refl
status_of-set_condition type c (d ∷ cs) = ground (
  arith,
  eq_iff d.type c.type,
  eq_iff d.type type,
  eq_iff c.type type,
  status_of-set_condition type c cs,
)

status_of-none :
    (type : String) (cs : List Condition)
    → All (λ d. (d.type == type) ≡ false) cs
    → status_of type cs ≡ none
unfolding status_of
status_of-none type [] h = refl
status_of-none type (c ∷ cs) (e, h) = rw e (status_of-none type cs h)

kept_type :
    (b : Bool) (c : Condition) (t : ℕ)
    → (if b then record c { last_transition_time = t } else c).type ≡ c.type
kept_type true c t = refl
kept_type false c t = refl

set_condition-other :
    (type : String) (c : Condition) (cs : List Condition)
    → (c.type == type) ≡ false
    → All (λ d. (d.type == type) ≡ false) cs
    → All (λ d. (d.type == type) ≡ false) (set_condition c cs)
unfolding set_condition
set_condition-other type c [] e h = (e, tt)
set_condition-other type c (d ∷ cs) e (f, h) = elim (Bool-cases (d.type == c.type)) [
  | inl same ↦ rw same (subst (λ t. (t == type) ≡ false) (sym (kept_type _ c _)) e, h)
  | inr other ↦ rw other (f, set_condition-other type c cs e h)
]

-- Setting a condition adds no second one of its type.
pub set_condition-HasDistinctTypes :
    (c : Condition) (cs : List Condition)
    → HasDistinctTypes cs
    → HasDistinctTypes (set_condition c cs)
unfolding set_condition
set_condition-HasDistinctTypes c [] d = (tt, tt)
set_condition-HasDistinctTypes c (x ∷ cs) (h, d) = elim (Bool-cases (x.type == c.type)) [
  | inl same ↦ rw same (
    subst (λ t. All (λ y. (y.type == t) ≡ false) cs)
        ((eq_iff x.type c.type).0 same ∙ sym (kept_type _ c _)) h,
    d,
  )
  | inr other ↦ rw other (
    set_condition-other x.type c cs
        (ground (arith, other, eq_iff x.type c.type, eq_iff c.type x.type)) h,
    set_condition-HasDistinctTypes c cs d,
  )
]

remove_condition-other :
    (type removed : String) (cs : List Condition)
    → All (λ d. (d.type == type) ≡ false) cs
    → All (λ d. (d.type == type) ≡ false) (remove_condition removed cs)
unfolding remove_condition
remove_condition-other type removed [] h = tt
remove_condition-other type removed (c ∷ cs) (e, h) = elim (Bool-cases (c.type == removed)) [
  | inl same ↦ rw same h
  | inr other ↦ rw other (e, remove_condition-other type removed cs h)
]

remove_condition-HasDistinctTypes :
    (removed : String) (cs : List Condition)
    → HasDistinctTypes cs
    → HasDistinctTypes (remove_condition removed cs)
unfolding remove_condition
remove_condition-HasDistinctTypes removed [] d = tt
remove_condition-HasDistinctTypes removed (c ∷ cs) (h, d) = elim (Bool-cases (c.type == removed)) [
  | inl same ↦ rw same d
  | inr other ↦
      rw other
        (remove_condition-other c.type removed cs h, remove_condition-HasDistinctTypes removed cs d)
]

status_of-remove_condition :
    (type removed : String) (cs : List Condition)
    → HasDistinctTypes cs
    → status_of type (remove_condition removed cs)
      ≡ (if removed == type then none else status_of type cs)
unfolding status_of remove_condition
status_of-remove_condition type removed [] d = ground arith
status_of-remove_condition type removed (c ∷ cs) (h, d) = elim (Bool-cases (c.type == type)) [
  | inl same ↦
      let gone =
        status_of-none type cs
          (subst (λ t. All (λ x. (x.type == t) ≡ false) cs) ((eq_iff c.type type).0 same) h) in
      ground (
        arith,
        same,
        gone,
        eq_iff c.type type,
        eq_iff c.type removed,
        eq_iff removed type,
        status_of-remove_condition type removed cs d,
      )
  | inr other ↦ ground (
    arith,
    other,
    eq_iff c.type type,
    eq_iff c.type removed,
    eq_iff removed type,
    status_of-remove_condition type removed cs d,
  )
]

-- The statuses of the conditions that a write leaves, for all types.
abbrev pub after_failed : PackageStatus → String → Option Bool
after_failed status type =
    if "Reconciling" == type
    then none
    else if "Stalled" == type
    then some true
    else if "Ready" == type
    then some false
    else status_of type status.conditions

abbrev pub after_ready : PackageStatus → String → Option Bool
after_ready status type =
    if "Reconciling" == type
    then none
    else if "Stalled" == type
    then none
    else if "Ready" == type
    then some true
    else status_of type status.conditions

abbrev pub after_reconciling : PackageStatus → String → Option Bool
after_reconciling status type =
    if "Reconciling" == type then some true else status_of type status.conditions

-- On a Package whose conditions have distinct types: a failed run leaves the conditions Ready=False
-- and Stalled=True and none of type Reconciling, a run that is done leaves Ready=True and neither of
-- the others, a run that begins sets Reconciling=True; conditions of other types keep their status,
-- the types stay distinct, and the observed generation is that of the Package after the first two
-- and unchanged after the third.
pub statuses_lem :
    (now : ℕ) (pkg : Package) (reason text : String) (desired : List Object)
    → HasDistinctTypes pkg.status.conditions
    → (((type : String)
          → status_of type (failed_status now pkg reason text).conditions
            ≡ after_failed pkg.status type)
        × HasDistinctTypes (failed_status now pkg reason text).conditions
        × ((failed_status now pkg reason text).observed_generation ≡ pkg.generation))
      × (((type : String)
            → status_of type (ready_status now pkg desired).conditions
              ≡ after_ready pkg.status type)
          × HasDistinctTypes (ready_status now pkg desired).conditions
          × ((ready_status now pkg desired).observed_generation ≡ pkg.generation))
      × (((type : String)
            → status_of type (reconciling_status now pkg).conditions
              ≡ after_reconciling pkg.status type)
          × HasDistinctTypes (reconciling_status now pkg).conditions
          × ((reconciling_status now pkg).observed_generation ≡ pkg.status.observed_generation))
unfolding failed_status ready_status reconciling_status
statuses_lem now pkg reason text desired d =
    let ready = λ (c : Condition). set_condition-HasDistinctTypes c pkg.status.conditions d in
    let both = λ (c e : Condition). set_condition-HasDistinctTypes e _ (ready c) in
    (
      (
        λ type.
            status_of-remove_condition type "Reconciling" _ (both _ _)
            ∙ ap (λ (s : Option Bool). if "Reconciling" == type then none else s)
                (status_of-set_condition type _ _
                  ∙ ap (λ (s : Option Bool). if "Stalled" == type then some true else s)
                      (status_of-set_condition type _ _)),
        remove_condition-HasDistinctTypes "Reconciling" _ (both _ _),
        refl,
      ),
      (
        λ type.
            status_of-remove_condition type "Reconciling" _
              (remove_condition-HasDistinctTypes "Stalled" _ (ready _))
            ∙ ap (λ (s : Option Bool). if "Reconciling" == type then none else s)
                (status_of-remove_condition type "Stalled" _ (ready _)
                  ∙ ap (λ (s : Option Bool). if "Stalled" == type then none else s)
                      (status_of-set_condition type _ _)),
        remove_condition-HasDistinctTypes "Reconciling" _
            (remove_condition-HasDistinctTypes "Stalled" _ (ready _)),
        refl,
      ),
      (λ type. status_of-set_condition type _ _, ready _, refl),
    )
