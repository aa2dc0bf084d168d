-- ===== src/Controller/Setup/Laws.antt =====
-- What the controller watches, against what it reads.
use bigbang_operator.Base.{
  String, Bool, true, false, List, [], ◌∷◌, ◌==◌, if◌then◌else◌, is_some, Error, ◌≡◌, refl,
  Bool-cases, inl, inr,
}
use bigbang_operator.Base.Dict.{Dict}
use bigbang_operator.Generator.Input.{Kube}
use bigbang_operator.Controller.Config.{Found, failed, shared_config, empty_input}
use bigbang_operator.Controller.Setup.{Registration, watches_config_map, setup_with_manager}

abbrev pub is_watched : List Registration → Bool
is_watched [] = false
is_watched (watches_config_map ∷ more) = true
is_watched (_ ∷ more) = is_watched more

-- The controller watches ConfigMaps exactly if a read of the global ConfigMap has a part in a
-- generation: a failed read is an error of the input exactly with the watch, and without the watch
-- the input is empty whatever the read answers.
pub setup_with_manager-watch :
    (namespace name : String) (kube : Kube) (answer : Found (Dict String)) (e : Error)
    → (is_some (shared_config kube namespace name (failed e)).shared_definitions_error
        ≡ is_watched (setup_with_manager namespace name))
      × (shared_config kube namespace name answer ≡ (
          if is_watched (setup_with_manager namespace name)
          then shared_config kube namespace name answer
          else empty_input))
unfolding setup_with_manager shared_config
setup_with_manager-watch namespace name kube answer e = elim (Bool-cases (namespace == "")) [
  | inl e ↦ rw e (refl, refl)
  | inr e ↦ elim (Bool-cases (name == "")) [
    | inl h ↦ rw (e, h) (refl, refl)
    | inr h ↦ rw (e, h) (refl, refl)
  ]
]
