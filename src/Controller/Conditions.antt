-- ===== src/Controller/Conditions.antt =====
-- internal/controller/status.go: condition transitions and the summary of applied resources. The
-- functions return the new status; writing it to the API server is `write_status` of Reconcile.
pub mod Laws
pub mod Summary
use bigbang_operator.Base.{
  ℕ, String, Bool, true, false, Option, none, some, List, [], ◌∷◌, ◌==◌, ◌||◌, ◌&&◌, not, map,
  if◌then◌else◌, xor,
}
use bigbang_operator.Base.Text.{text_le, concat, itoa}
use bigbang_operator.Api.Package.{AppliedResource, Condition, PackageStatus, Package}
use bigbang_operator.Object.{Object, Gvk}

abbrev bool_eq : Bool → Bool → Bool
bool_eq a b = not (xor a b)

-- The loop of `setCondition`: the first condition of the type is replaced, keeping its transition
-- time if the status is the same; without one the condition is appended.
unfoldable pub set_condition : Condition → List Condition → List Condition
set_condition c [] = c ∷ []
set_condition c (existing ∷ rest) =
    if existing.type == c.type
    then (if bool_eq existing.status c.status
        then record c { last_transition_time = existing.last_transition_time }
        else c)
      ∷ rest
    else existing ∷ set_condition c rest

-- The first condition of the type is dropped.
unfoldable pub remove_condition : String → List Condition → List Condition
remove_condition type [] = []
remove_condition type (existing ∷ rest) =
    if existing.type == type then rest else existing ∷ remove_condition type rest

abbrev pub condition : String → Bool → String → String → ℕ → ℕ → Condition
condition type status reason text generation now = record {
  type = type;
  status = status;
  reason = reason;
  message = text;
  observed_generation = generation;
  last_transition_time = now;
}

-- The status that `markReconciling` writes; `now` is the time.
unfoldable pub reconciling_status : ℕ → Package → PackageStatus
unfolding set_condition concat itoa
reconciling_status now pkg = record (pkg.status) {
  conditions =
      set_condition
        (condition "Reconciling" true "Progressing"
          (concat ("reconciling generation " ∷ itoa pkg.generation ∷ [])) pkg.generation now)
        pkg.status.conditions;
}

-- The status that `markFailed` writes, with the text of the error.
unfoldable pub failed_status : ℕ → Package → String → String → PackageStatus
unfolding set_condition remove_condition
failed_status now pkg reason text = record (pkg.status) {
  observed_generation = pkg.generation;
  conditions = remove_condition "Reconciling" (
      set_condition (condition "Stalled" true reason text pkg.generation now) (
        set_condition (condition "Ready" false reason text pkg.generation now)
          pkg.status.conditions));
}

-- `GroupVersion.String()`
unfoldable pub group_version_text : Gvk → String
unfolding concat
group_version_text gvk =
    if gvk.group == "" then gvk.version else concat (gvk.group ∷ "/" ∷ gvk.version ∷ [])

unfoldable pub applied_resource : Object → AppliedResource
unfolding group_version_text
applied_resource o = record {
  api_version = group_version_text o.gvk;
  kind = o.gvk.kind;
  name = o.name;
}

-- The order of `sort.Slice`: by kind, then by name.
unfoldable pub resource_le : AppliedResource → AppliedResource → Bool
unfolding text_le
resource_le a b = if a.kind == b.kind then text_le a.name b.name else text_le a.kind b.kind

insert_resource : AppliedResource → List AppliedResource → List AppliedResource
unfolding resource_le
insert_resource r [] = r ∷ []
insert_resource r (s ∷ rs) = if resource_le r s then r ∷ s ∷ rs else s ∷ insert_resource r rs

sort_resources : List AppliedResource → List AppliedResource
unfolding insert_resource
sort_resources [] = []
sort_resources (r ∷ rs) = insert_resource r (sort_resources rs)

-- `sort.Slice` is not stable; equal kind and name here keep their order.
unfoldable pub summarize : List Object → List AppliedResource
unfolding sort_resources applied_resource
summarize objs = sort_resources (map applied_resource objs)

-- The status that `markReady` writes.
unfoldable pub ready_status : ℕ → Package → List Object → PackageStatus
unfolding set_condition remove_condition summarize
ready_status now pkg desired = record {
  observed_generation = pkg.generation;
  conditions = remove_condition "Reconciling" (
      remove_condition "Stalled" (
        set_condition
          (condition "Ready" true "ResourcesApplied" "bb-common resources reconciled" pkg.generation
            now)
          pkg.status.conditions));
  applied_resources = summarize desired;
}
