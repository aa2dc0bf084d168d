-- ===== src/Controller/Setup.antt =====
-- `SetupWithManager` of package_controller.go: what the controller reconciles, owns and watches.
pub mod Laws
use bigbang_operator.Base.{String, Bool, not, ◌&&◌, List, [], ◌∷◌, ◌++◌, ◌==◌, if◌then◌else◌}
use bigbang_operator.Object.{Kind}

-- The calls of the builder: `For`, `Owns`, and `Watches` of ConfigMaps, whose handler is
-- `packages_for_global_config`.
pub data Registration : Type 0 where
  for_package : Registration
  owns : Kind → Registration
  watches_config_map : Registration

-- The builder that is completed, by the name of the global ConfigMap.
unfoldable pub setup_with_manager : String → String → List Registration
setup_with_manager namespace name =
    let b =
      for_package
      ∷ owns Kind.network_policy
      ∷ owns Kind.peer_authentication
      ∷ owns Kind.authorization_policy
      ∷ owns Kind.virtual_service
      ∷ owns Kind.service_entry
      ∷ owns Kind.sidecar
      ∷ [] in
    if not (namespace == "") && not (name == "") then b ++ watches_config_map ∷ [] else b

-- `Named("package")`
abbrev pub controller_name : String
controller_name = "package"
