-- ===== src/Controller/Prune.antt =====
-- internal/controller/prune.go: what carries the package's label and is no longer desired goes.
pub mod Kept
pub mod Extract
pub mod Closed
pub mod Delete
pub mod Laws
use bigbang_operator.Base.{
  String, Bool, true, false, not, ◌&&◌, Option, none, some, List, [], ◌∷◌, ◌==◌, if◌then◌else◌,
  Error, message, wrap, Result, ok, err,
}
use bigbang_operator.Base.Dict.{lookup}
use bigbang_operator.Base.Lists.{any}
use bigbang_operator.Api.Package.{Package}
use bigbang_operator.Object.{
  Object, Kind, kind_of, network_policy, peer_authentication, authorization_policy, virtual_service,
  service_entry, sidecar,
}
use bigbang_operator.Generator.Metadata.{label_package}
use bigbang_operator.Controller.Cluster.{
  Server, DeleteError, not_found, failed, object_key, and_then,
}

abbrev pub kind_eq : Kind → Kind → Bool
kind_eq Kind.network_policy Kind.network_policy = true
kind_eq Kind.peer_authentication Kind.peer_authentication = true
kind_eq Kind.authorization_policy Kind.authorization_policy = true
kind_eq Kind.virtual_service Kind.virtual_service = true
kind_eq Kind.service_entry Kind.service_entry = true
kind_eq Kind.sidecar Kind.sidecar = true
kind_eq _ _ = false

unfoldable pub managed_list_kinds : List Kind
managed_list_kinds =
    Kind.network_policy ∷ Kind.peer_authentication ∷ Kind.authorization_policy
    ∷ Kind.virtual_service ∷ Kind.service_entry ∷ Kind.sidecar ∷ []

abbrev pub keep_if {ℓ} : {A : Type ℓ} → (A → Bool) → List A → List A
keep_if p [] = []
keep_if p (x ∷ xs) = let rest = keep_if p xs in if p x then x ∷ rest else rest

abbrev has_label : String → Option String → Bool
has_label name none = false
has_label name (some value) = value == name

-- In the package's namespace, with the package's label.
unfoldable pub is_owned : Package → Object → Bool
unfolding lookup
is_owned pkg o = o.namespace == pkg.namespace && has_label pkg.name (lookup label_package o.labels)

-- `_, kept := keep[objectKey(o)]`
unfoldable pub is_kept : List Object → Object → Bool
unfolding object_key
is_kept desired o = any (λ d. object_key d == object_key o) desired

-- `r.List` of one kind, with the namespace and the label. The manager's client lists from its cache,
-- which is taken to be up to date here.
unfoldable pub list_kind : Package → Kind → List Object → List Object
unfolding is_owned
list_kind pkg kind objects = keep_if (λ o. kind_eq (kind_of o.spec) kind && is_owned pkg o) objects

unfoldable pub remove_object : Object → List Object → List Object
unfolding object_key
remove_object item objects = keep_if (λ o. not (object_key item == object_key o)) objects

-- One round of the loop over the listed items. A deleted object is gone, and so is one that the
-- server no longer has, which is no error.
unfoldable pub after_delete : Option DeleteError → Object → List Object → List Object × Option Error
unfolding remove_object
after_delete none item objects = (remove_object item objects, none)
after_delete (some not_found) item objects = (remove_object item objects, none)
after_delete (some (failed e)) item objects =
    (objects, some (wrap "delete %s/%s: %w" (item.gvk.kind ∷ item.name ∷ []) e))

unfoldable pub delete_item :
    Server → List Object → Object → List Object → List Object × Option Error
unfolding is_kept after_delete
delete_item server desired item objects =
    if is_kept desired item
    then (objects, none)
    else after_delete (server.delete_error item) item objects

unfoldable pub delete_items :
    Server → List Object → List Object → List Object → List Object × Option Error
unfolding delete_item
delete_items server desired [] objects = (objects, none)
delete_items server desired (item ∷ items) objects =
    and_then (delete_item server desired item objects) (delete_items server desired items)

-- `client.ObjectList`: the list types of `managedListKinds`, and any other by its name.
pub data ObjectList : Type 0 where
  network_policy_list peer_authentication_list : List Object → ObjectList
  authorization_policy_list virtual_service_list : List Object → ObjectList
  service_entry_list sidecar_list : List Object → ObjectList
  other_list : String → ObjectList

-- The empty list of a kind, filled by `r.List`.
unfoldable pub filled : Kind → List Object → ObjectList
filled Kind.network_policy items = network_policy_list items
filled Kind.peer_authentication items = peer_authentication_list items
filled Kind.authorization_policy items = authorization_policy_list items
filled Kind.virtual_service items = virtual_service_list items
filled Kind.service_entry items = service_entry_list items
filled Kind.sidecar items = sidecar_list items

unfoldable pub extract_items : ObjectList → Result (List Object)
extract_items (network_policy_list items) = ok items
extract_items (peer_authentication_list items) = ok items
extract_items (authorization_policy_list items) = ok items
extract_items (virtual_service_list items) = ok items
extract_items (service_entry_list items) = ok items
extract_items (sidecar_list items) = ok items
extract_items (other_list type) = err (message "unknown list type %T" (type ∷ []))

-- One round of the outer loop.
unfoldable pub prune_kind :
    Server → Package → List Object → Kind → List Object → List Object × Option Error
unfolding delete_items list_kind filled extract_items
prune_kind server pkg desired kind objects = elim (server.list_error kind) [
  | some e ↦ (objects, some (wrap "list for prune: %w" [] e))
  | none ↦ elim (extract_items (filled kind (list_kind pkg kind objects))) [
    | ok items ↦ delete_items server desired items objects
    | err e ↦ (objects, some e)
  ]
]

unfoldable pub prune_kinds :
    Server → Package → List Object → List Kind → List Object → List Object × Option Error
unfolding prune_kind
prune_kinds server pkg desired [] objects = (objects, none)
prune_kinds server pkg desired (kind ∷ kinds) objects =
    and_then (prune_kind server pkg desired kind objects) (prune_kinds server pkg desired kinds)

unfoldable pub prune_stale :
    Server → Package → List Object → List Object → List Object × Option Error
unfolding prune_kinds managed_list_kinds
prune_stale server pkg desired objects = prune_kinds server pkg desired managed_list_kinds objects
