-- ===== src/Controller/Conditions/Summary.antt =====
-- The applied resources in the status (`summarize` of internal/controller/status.go).
use bigbang_operator.Base.{
  true, List, [], ◌∷◌, map, ◌≡◌, refl, arith, Bool-cases, inl, inr, ◌⊎◌, eq_iff, ◌≢◌, ◌==◌, ap,
}
use Prim.Native.String
use package.text.Mathlib.TextLemmas.{append-nil}
use mathlib.Core.List.Permᴰ
use mathlib.Core.List.{Permᴰ}
use bigbang_operator.Base.Order.{text_le_total, text_le_antisymm, text_le_trans}
use bigbang_operator.Base.Text.{text_le, concat}
use bigbang_operator.Base.Lists.{All}
use bigbang_operator.Api.Package.{AppliedResource}
use bigbang_operator.Object.{Object, Gvk}
use bigbang_operator.Controller.Conditions.{
  resource_le, insert_resource, sort_resources, applied_resource, group_version_text, summarize,
}
use bigbang_operator.Controller.Prune.Kept.{All-map}

resource_le_total : (a b : AppliedResource) → (resource_le a b ≡ true) ⊎ (resource_le b a ≡ true)
unfolding resource_le
resource_le_total a b = ground (
  arith,
  eq_iff a.kind b.kind,
  eq_iff b.kind a.kind,
  text_le_total a.kind b.kind,
  text_le_total a.name b.name,
)

resource_le_trans :
    (a b c : AppliedResource)
    → resource_le a b ≡ true
    → resource_le b c ≡ true
    → resource_le a c ≡ true
unfolding resource_le
resource_le_trans a b c p q = ground (
  arith,
  eq_iff a.kind b.kind,
  eq_iff b.kind c.kind,
  eq_iff a.kind c.kind,
  text_le_trans a.kind b.kind c.kind,
  text_le_trans a.name b.name c.name,
  text_le_antisymm a.kind b.kind,
  text_le_antisymm b.kind c.kind,
)

-- Each is before all that follow, by the test of the sort.
abbrev IsTestSorted : List AppliedResource → Type 0
IsTestSorted [] = Unit
IsTestSorted (r ∷ rs) = All (λ s. resource_le r s ≡ true) rs × IsTestSorted rs

insert_resource-All :
    (P : AppliedResource → Type 0) (r : AppliedResource) (rs : List AppliedResource)
    → P r
    → All P rs
    → All P (insert_resource r rs)
unfolding insert_resource
insert_resource-All P r [] p h = (p, tt)
insert_resource-All P r (s ∷ rs) p (q, h) = elim (Bool-cases (resource_le r s)) [
  | inl before ↦ rw before (p, (q, h))
  | inr behind ↦ rw behind (q, insert_resource-All P r rs p h)
]

insert_resource-IsTestSorted :
    (r : AppliedResource) (rs : List AppliedResource)
    → IsTestSorted rs
    → IsTestSorted (insert_resource r rs)
unfolding insert_resource
insert_resource-IsTestSorted r [] h = (tt, tt)
insert_resource-IsTestSorted r (s ∷ rs) (h, sorted) = elim (Bool-cases (resource_le r s)) [
  | inl before ↦
      rw before
        ((before, All-map _ _ (λ t le. resource_le_trans r s t before le) rs h), (h, sorted))
  | inr behind ↦ rw behind (
    insert_resource-All (λ t. resource_le s t ≡ true) r rs
        (ground (arith, resource_le_total r s, behind)) h,
    insert_resource-IsTestSorted r rs sorted,
  )
]

insert_resource-perm :
    (r : AppliedResource) (rs : List AppliedResource) → Permᴰ (r ∷ rs) (insert_resource r rs)
unfolding insert_resource
insert_resource-perm r [] = Permᴰ.refl (r ∷ [])
insert_resource-perm r (s ∷ rs) = elim (Bool-cases (resource_le r s)) [
  | inl before ↦ rw before (Permᴰ.refl (r ∷ s ∷ rs))
  | inr behind ↦
      rw behind (Permᴰ.trans (Permᴰ.swap refl refl) (Permᴰ.cons refl (insert_resource-perm r rs)))
]

sort_resources-both :
    (rs : List AppliedResource) → IsTestSorted (sort_resources rs) × Permᴰ rs (sort_resources rs)
unfolding sort_resources
sort_resources-both [] = (tt, Permᴰ.nil)
sort_resources-both (r ∷ rs) =
    let (sorted, same) = sort_resources-both rs in
    (
      insert_resource-IsTestSorted r (sort_resources rs) sorted,
      Permᴰ.trans (Permᴰ.cons refl same) (insert_resource-perm r (sort_resources rs)),
    )

-- The entry says the type and the name of the object: the API version is the group and the version,
-- or the version alone for the core group.
abbrev pub Describes : Object → AppliedResource → Type 0
Describes o r =
    (r.kind ≡ o.gvk.kind)
    × (r.name ≡ o.name)
    × (((o.gvk.group ≡ "") × (r.api_version ≡ o.gvk.version))
        ⊎ ((o.gvk.group ≢ "")
            × (r.api_version ≡ String.◌++◌ o.gvk.group (String.◌++◌ "/" o.gvk.version))))

-- One entry for each object, in the order of the objects.
abbrev pub AreDescribed : List Object → List AppliedResource → Type 0
AreDescribed [] [] = Unit
AreDescribed [] (r ∷ rs) = ⊥
AreDescribed (o ∷ objs) [] = ⊥
AreDescribed (o ∷ objs) (r ∷ rs) = Describes o r × AreDescribed objs rs

-- The kind is smaller, or it is the same and the name is not greater.
abbrev pub Precedes : AppliedResource → AppliedResource → Type 0
Precedes r s =
    ((r.kind ≢ s.kind) × (text_le r.kind s.kind ≡ true))
    ⊎ ((r.kind ≡ s.kind) × (text_le r.name s.name ≡ true))

-- Each is before all that follow.
abbrev pub IsSorted : List AppliedResource → Type 0
IsSorted [] = Unit
IsSorted (r ∷ rs) = All (Precedes r) rs × IsSorted rs

group_version_text_lem :
    (gvk : Gvk)
    → ((gvk.group ≡ "") × (group_version_text gvk ≡ gvk.version))
      ⊎ ((gvk.group ≢ "")
          × (group_version_text gvk ≡ String.◌++◌ gvk.group (String.◌++◌ "/" gvk.version)))
unfolding group_version_text concat
group_version_text_lem gvk = elim (Bool-cases (gvk.group == "")) [
  | inl core ↦ inl ((eq_iff gvk.group "").0 core, rw (core, group_version_text) refl)
  | inr named ↦ inr (
    λ e. ground (arith, eq_iff gvk.group "", e, named),
    rw (named, group_version_text)
        (ap (λ v. String.◌++◌ gvk.group (String.◌++◌ "/" v)) (append-nil gvk.version)),
  )
]

applied_resource-Describes : (o : Object) → Describes o (applied_resource o)
unfolding applied_resource
applied_resource-Describes o = (refl, refl, group_version_text_lem o.gvk)

map-AreDescribed : (objs : List Object) → AreDescribed objs (map applied_resource objs)
map-AreDescribed [] = tt
map-AreDescribed (o ∷ objs) = (applied_resource-Describes o, map-AreDescribed objs)

resource_le-Precedes : (r s : AppliedResource) → resource_le r s ≡ true → Precedes r s
unfolding resource_le
resource_le-Precedes r s h = elim (Bool-cases (r.kind == s.kind)) [
  | inl same ↦ inr ((eq_iff r.kind s.kind).0 same, ground (arith, h, same))
  | inr other ↦ inl (λ e. ground (arith, eq_iff r.kind s.kind, e, other), ground (arith, h, other))
]

IsTestSorted-IsSorted : (rs : List AppliedResource) → IsTestSorted rs → IsSorted rs
IsTestSorted-IsSorted [] h = tt
IsTestSorted-IsSorted (r ∷ rs) (h, sorted) =
    (All-map _ _ (resource_le-Precedes r) rs h, IsTestSorted-IsSorted rs sorted)

-- The applied resources in the status are a permutation of one entry for each object, which says
-- its API version, its kind and its name, and they are in the order of the kinds, and of the names
-- where the kinds are the same.
pub summarize-IsSorted :
    (objs : List Object)
    → IsSorted (summarize objs)
      × ((rs : List AppliedResource) × AreDescribed objs rs × Permᴰ rs (summarize objs))
unfolding summarize
summarize-IsSorted objs =
    let (sorted, same) = sort_resources-both (map applied_resource objs) in
    (
      IsTestSorted-IsSorted (summarize objs) sorted,
      (map applied_resource objs, map-AreDescribed objs, same),
    )
