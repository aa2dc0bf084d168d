-- ===== src/Generator/Metadata.antt =====
-- pkg/generator/metadata.go: labels and owner references of the emitted objects, and map merging.
pub mod Laws
use bigbang_operator.Base.{
  String, Bool, true, Option, none, some, List, [], ◌∷◌, ◌&&◌, ◌==◌, if◌then◌else◌, is_some,
}
use bigbang_operator.Base.Dict.{Dict, is_empty, lookup, insert, insert_all}
use bigbang_operator.Api.Common.{Labels}
use bigbang_operator.Api.Package.{Package}
use bigbang_operator.Object.{Object, OwnerReference}

abbrev pub label_managed_by : String
label_managed_by = "app.kubernetes.io/managed-by"

abbrev pub label_package : String
label_package = "bigbang.dev/package"

abbrev pub label_netpol_source : String
label_netpol_source = "network-policies.bigbang.dev/source"

abbrev pub label_netpol_source_value : String
label_netpol_source_value = "bigbang-operator"

abbrev pub field_manager : String
field_manager = "bigbang-operator"

-- `bbv1alpha1.GroupVersion.String()`
abbrev pub group_version : String
group_version = "bigbang.dev/v1alpha1"

abbrev pub owner_of : Package → OwnerReference
owner_of pkg = record {
  api_version = group_version;
  kind = "Package";
  name = pkg.name;
  uid = pkg.uid;
  controller = true;
  block_owner_deletion = true;
}

-- The loop over the references: the first with the owner's UID is replaced, else it is appended.
unfoldable pub set_owner : OwnerReference → List OwnerReference → List OwnerReference
set_owner owner [] = owner ∷ []
set_owner owner (ref ∷ refs) =
    if ref.uid == owner.uid then owner ∷ refs else ref ∷ set_owner owner refs

unfoldable pub stamp_labels : String → Labels → Labels
unfolding lookup insert
stamp_labels name labels = insert label_package name (
    if is_some (lookup label_managed_by labels)
    then labels
    else insert label_managed_by field_manager labels)

unfoldable pub stamp_metadata : Package → Object → Object
unfolding stamp_labels set_owner
stamp_metadata pkg obj = record obj {
  namespace = if obj.namespace == "" then pkg.namespace else obj.namespace;
  labels = stamp_labels pkg.name obj.labels;
  owner_references = set_owner (owner_of pkg) obj.owner_references;
}

-- An empty result is `nil` in the source, which prints the same.
unfoldable pub merge_maps : Labels → Labels → Labels
unfolding insert_all insert
merge_maps a b = if is_empty a && is_empty b then [] else insert_all (insert_all [] a) b

unfoldable pub clone_labels : Labels → Labels
unfolding insert_all insert
clone_labels labels = insert_all [] labels
