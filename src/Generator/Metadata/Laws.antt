-- ===== src/Generator/Metadata/Laws.antt =====
-- What stamping guarantees, and which map wins in a merge.
use bigbang_operator.Base.{
  String, ◌≡◌, refl, ap, ◌∙◌, ◌⊎◌, inl, inr, Bool, true, false, Option, none, some, List, [], ◌∷◌,
  arith, ◌==◌, eq_iff, eq_refl, if◌then◌else◌, is_some, Bool-cases, Option-cases,
}
use bigbang_operator.Base.Dict.{Dict, lookup, insert, insert_all}
use bigbang_operator.Base.Dict.Laws.{
  lookup-insert, lookup-insert_all, HasDistinctKeys, first_of_two,
}
use bigbang_operator.Api.Common.{Labels}
use bigbang_operator.Api.Package.{Package}
use bigbang_operator.Object.{Object, OwnerReference}
use bigbang_operator.Generator.Metadata.{
  label_managed_by, label_package, field_manager, owner_of, set_owner, stamp_labels, stamp_metadata,
  merge_maps,
}

-- The labels of a stamped object: the package's name, the manager unless another is named, and
-- every other label as before.
pub lookup-stamp_labels :
    (k name : String) (labels : Labels)
    → lookup k (stamp_labels name labels) ≡ (
        if label_package == k
        then some name
        else if label_managed_by == k
        then first_of_two (lookup k labels) (some field_manager)
        else lookup k labels)
unfolding stamp_labels
lookup-stamp_labels k name labels = elim (Option-cases (lookup label_managed_by labels)) [
  | inl absent ↦
      rw (absent, lookup-insert)
        (rw lookup-insert (ground (arith, eq_iff label_managed_by k, absent)))
  | inr (v, present) ↦
      rw (present, lookup-insert) (ground (arith, eq_iff label_managed_by k, present))
]

insert-insert_same {ℓ} :
    {V : Type ℓ} (k : String) (v : V) (m : Dict V) → insert k v (insert k v m) ≡ insert k v m
unfolding insert
insert-insert_same k v [] = rw (eq_refl k)
insert-insert_same k v ((j, w) ∷ m) = elim (Bool-cases (j == k)) [
  | inl same ↦ rw same (rw (eq_refl k))
  | inr other ↦ rw other (rw other (ap (λ t. (j, w) ∷ t) (insert-insert_same k v m)))
]

set_owner_idem :
    (owner : OwnerReference) (refs : List OwnerReference)
    → set_owner owner (set_owner owner refs) ≡ set_owner owner refs
unfolding set_owner
set_owner_idem owner [] = rw (eq_refl owner.uid)
set_owner_idem owner (ref ∷ refs) = elim (Bool-cases (ref.uid == owner.uid)) [
  | inl same ↦ rw same (rw (eq_refl owner.uid))
  | inr other ↦ rw other (rw other (ap (λ t. ref ∷ t) (set_owner_idem owner refs)))
]

stamp_labels_managed :
    (name : String) (labels : Labels)
    → is_some (lookup label_managed_by (stamp_labels name labels)) ≡ true
stamp_labels_managed name labels =
    rw lookup-stamp_labels (elim (Option-cases (lookup label_managed_by labels)) [
      | inl absent ↦ rw absent
      | inr (v, present) ↦ rw present
    ])

stamp_labels_idem :
    (name : String) (labels : Labels)
    → stamp_labels name (stamp_labels name labels) ≡ stamp_labels name labels
stamp_labels_idem name labels = again ∙ twice
  where
    twice : insert label_package name (stamp_labels name labels) ≡ stamp_labels name labels
    twice =
        unfold stamp_labels in
        insert-insert_same label_package name (
          if is_some (lookup label_managed_by labels)
          then labels
          else insert label_managed_by field_manager labels)

    again :
        stamp_labels name (stamp_labels name labels)
        ≡ insert label_package name (stamp_labels name labels)
    again = unfold stamp_labels in rw (stamp_labels_managed name labels)

namespace_idem :
    (ns own : String)
    → (if (if ns == "" then own else ns) == "" then own else (if ns == "" then own else ns))
      ≡ (if ns == "" then own else ns)
namespace_idem ns own = elim (Bool-cases (ns == "")) [
  | inl p ↦ rw p (if_same (own == "") own)
  | inr p ↦ rw p (rw p)
]
  where
    if_same : (b : Bool) (x : String) → (if b then x else x) ≡ x
    if_same true x = refl
    if_same false x = refl

-- Stamping an object a second time changes nothing.
pub stamp_metadata_idem :
    (pkg : Package) (o : Object) → stamp_metadata pkg (stamp_metadata pkg o) ≡ stamp_metadata pkg o
unfolding stamp_metadata
stamp_metadata_idem pkg o = λ i. record o {
  namespace = namespace_idem o.namespace pkg.namespace i;
  labels = stamp_labels_idem pkg.name o.labels i;
  owner_references = set_owner_idem (owner_of pkg) o.owner_references i;
}

-- The references that have another UID.
abbrev pub other_owners : String → List OwnerReference → List OwnerReference
other_owners uid [] = []
other_owners uid (ref ∷ refs) =
    let rest = other_owners uid refs in if ref.uid == uid then rest else ref ∷ rest

abbrev pub IsOwnedBy : OwnerReference → List OwnerReference → Type 0
IsOwnedBy owner [] = ⊥
IsOwnedBy owner (ref ∷ refs) = (ref ≡ owner) ⊎ IsOwnedBy owner refs

-- The owner is among the references afterwards, and references with another UID are untouched, in
-- their order.
pub set_owner_lem :
    (owner : OwnerReference) (refs : List OwnerReference)
    → IsOwnedBy owner (set_owner owner refs)
      × (other_owners owner.uid (set_owner owner refs) ≡ other_owners owner.uid refs)
unfolding set_owner
set_owner_lem owner [] = (inl refl, rw (eq_refl owner.uid))
set_owner_lem owner (ref ∷ refs) = elim (Bool-cases (ref.uid == owner.uid)) [
  | inl same ↦ rw same (inl refl, rw (eq_refl owner.uid))
  | inr other ↦
      let (there, same) = set_owner_lem owner refs in
      rw other (inr there, rw other (ap (λ t. ref ∷ t) same))
]

merged :
    (k : String) (a b : Labels)
    → HasDistinctKeys a
    → HasDistinctKeys b
    → lookup k (insert_all (insert_all [] a) b) ≡ first_of_two (lookup k b) (lookup k a)
merged k a b da db =
    lookup-insert_all k (insert_all [] a) b db
    ∙ ap (first_of_two (lookup k b)) (lookup-insert_all k [] a da ∙ or_none (lookup k a))
  where
    or_none : (o : Option String) → first_of_two o (lookup k []) ≡ o
    or_none none = unfold lookup in refl
    or_none (some v) = refl

-- In a merge of two maps without double keys, each key has the second map's value, else the first's.
pub lookup-merge_maps :
    (k : String) (a b : Labels)
    → HasDistinctKeys a
    → HasDistinctKeys b
    → lookup k (merge_maps a b) ≡ first_of_two (lookup k b) (lookup k a)
lookup-merge_maps k [] [] da db = unfold merge_maps lookup in refl
lookup-merge_maps k (x ∷ a) [] da db = unfold merge_maps in merged k (x ∷ a) [] da db
lookup-merge_maps k [] (y ∷ b) da db = unfold merge_maps in merged k [] (y ∷ b) da db
lookup-merge_maps k (x ∷ a) (y ∷ b) da db = unfold merge_maps in merged k (x ∷ a) (y ∷ b) da db
