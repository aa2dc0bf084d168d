-- ===== src/Controller/Ownership.antt =====
-- What `Generate` puts on an object and what the pruning of internal/controller/prune.go reads there
-- fit each other.
use bigbang_operator.Base.{◌&&◌, some, List, [], ◌∷◌, ◌==◌, ok, ◌≡◌, refl}
use bigbang_operator.Base.Dict.{lookup}
use bigbang_operator.Base.Lists.{All}
use bigbang_operator.Api.Package.{Package}
use bigbang_operator.Object.{Object, Gvk}
use bigbang_operator.Generator.Codec.{Codec}
use bigbang_operator.Generator.Input.{Input, Kube}
use bigbang_operator.Generator.Metadata.{stamp_metadata, label_package, owner_of, set_owner}
use bigbang_operator.Generator.Metadata.Laws.{lookup-stamp_labels}
use bigbang_operator.Generator.Bare.{IsBare}
use bigbang_operator.Generator.Generate.{generate}
use bigbang_operator.Generator.Generate.Laws.{generate-All}
use bigbang_operator.Generator.Generate.Bare.{unstamped-AreBare}
use bigbang_operator.Controller.Prune.{is_owned}

-- The object is in the package's namespace, the package is its only owner, and the pruning of a
-- package claims it exactly if that package has the same namespace and name.
abbrev pub IsClaimed : Package → Object → Type 0
IsClaimed pkg o =
    (o.namespace ≡ pkg.namespace)
    × (o.owner_references ≡ owner_of pkg ∷ [])
    × ((q : Package) → is_owned q o ≡ (pkg.namespace == q.namespace && pkg.name == q.name))

owned_by_label :
    (pkg q : Package) (o : Object)
    → o.namespace ≡ pkg.namespace
    → lookup label_package o.labels ≡ some pkg.name
    → is_owned q o ≡ (pkg.namespace == q.namespace && pkg.name == q.name)
unfolding is_owned
owned_by_label pkg q o ns label = rw (label, is_owned) (rw ns refl)

claimed : (pkg : Package) (o : Object) → IsBare o → IsClaimed pkg (stamp_metadata pkg o)
unfolding stamp_metadata set_owner
claimed pkg o (ns, owner) =
    let here : (stamp_metadata pkg o).namespace ≡ pkg.namespace = rw ns refl in
    (
      here,
      rw owner refl,
      λ q.
          owned_by_label pkg q (stamp_metadata pkg o) here
            (lookup-stamp_labels label_package pkg.name o.labels),
    )

gvk-IsClaimed :
    (pkg : Package) (o : Object) (gvk : Gvk)
    → IsBare o
    → IsClaimed pkg (record (stamp_metadata pkg o) { gvk = gvk })
unfolding is_owned
gvk-IsClaimed pkg o gvk h = claimed pkg o h

-- Every object that a generation returns for a package is in the package's namespace with the package
-- as its only owner, and the pruning of any package takes it for its own exactly if that package has
-- the same namespace and name.
pub generate-IsClaimed :
    (codec : Codec) (kube : Kube) (input : Input) (pkg : Package) (objs : List Object)
    → input.pkg ≡ some pkg
    → generate codec kube input ≡ ok objs
    → All (IsClaimed pkg) objs
generate-IsClaimed codec kube input pkg objs =
    generate-All pkg IsBare (IsClaimed pkg) (gvk-IsClaimed pkg) codec kube input objs
      (unstamped-AreBare codec kube pkg input)
