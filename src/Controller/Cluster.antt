-- ===== src/Controller/Cluster.antt =====
-- What the reconciler sees of the API server: the objects of the cluster, the stored status, and
-- which calls fail. Server-side apply is the server's: `merge` is a parameter.
pub mod Fixed
pub mod Laws
use bigbang_operator.Base.{
  String, Option, none, some, List, [], ◌∷◌, ◌==◌, if◌then◌else◌, Error, wrap,
}
use bigbang_operator.Base.Text.{concat}
use bigbang_operator.Api.Package.{PackageStatus}
use bigbang_operator.Object.{Object, Gvk, Kind}

pub data DeleteError : Type 0 where
  not_found : DeleteError
  failed : Error → DeleteError

-- `none` is a call that succeeds. `merge` takes the object that is there, if any, and the applied
-- one.
pub record Server : Type 0 where
  pub merge : Option Object → Object → Object
  pub patch_error : Object → Option Error
  pub list_error : Kind → Option Error
  pub delete_error : Object → Option DeleteError
  pub update_error : PackageStatus → Option Error

abbrev pub gvk_text : Gvk → String
unfolding concat
gvk_text gvk = concat (gvk.group ∷ "/" ∷ gvk.version ∷ ", Kind=" ∷ gvk.kind ∷ [])

-- `objectKey` of prune.go.
unfoldable pub object_key : Object → String
unfolding concat
object_key o = concat (gvk_text o.gvk ∷ "|" ∷ o.namespace ∷ "|" ∷ o.name ∷ [])

-- The patch of one object: the object of its key is replaced, else the object is created.
unfoldable pub put_object : (Option Object → Object → Object) → Object → List Object → List Object
unfolding object_key
put_object merge obj [] = merge none obj ∷ []
put_object merge obj (o ∷ objects) =
    if object_key o == object_key obj
    then merge (some o) obj ∷ objects
    else o ∷ put_object merge obj objects

-- A step on the objects with an error that stops, and the step behind it.
abbrev pub and_then :
    List Object × Option Error
    → (List Object → List Object × Option Error)
    → List Object × Option Error
and_then (objects, some e) next = (objects, some e)
and_then (objects, none) next = next objects

unfoldable pub apply_one : Server → Object → List Object → List Object × Option Error
unfolding put_object
apply_one server obj objects = elim (server.patch_error obj) [
  | some e ↦ (objects, some (wrap "apply %s/%s: %w" (obj.gvk.kind ∷ obj.name ∷ []) e))
  | none ↦ (put_object server.merge obj objects, none)
]

-- `applyAll` of package_controller.go: the objects after the patches, and the error that stopped
-- them.
unfoldable pub apply_all : Server → List Object → List Object → List Object × Option Error
unfolding apply_one
apply_all server [] objects = (objects, none)
apply_all server (obj ∷ desired) objects =
    and_then (apply_one server obj objects) (apply_all server desired)
