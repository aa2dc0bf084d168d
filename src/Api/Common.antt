-- ===== src/Api/Common.antt =====
-- Types that the subsystems of api/v1alpha1 share, and the Kubernetes types that they name.
use bigbang_operator.Base.{ℕ, ◌%◌, ◌^◌, String, Bool, Option, List}
use bigbang_operator.Base.Dict.{Dict}

-- `apiextensionsv1.JSON`: the text of a JSON value that the schema does not describe.
abbrev pub RawJson : Type 0
RawJson = String

abbrev pub Labels : Type 0
Labels = Dict String

-- The one-field structs `{ enabled: *bool }` of the default policies.
pub record Toggle : Type 0 where
  pub enabled : Option Bool

-- `intstr.IntOrString`. The integer is an int32, kept as its bit pattern.
pub data IntOrString : Type 0 where
  int : ℕ → IntOrString
  str : String → IntOrString

-- `int32(p)`, `uint32(p)`
abbrev pub to_u32 : ℕ → ℕ
to_u32 p = p % 2 ^ 32

-- `intstr.FromInt`
abbrev pub from_int : ℕ → IntOrString
from_int p = int (to_u32 p)

-- `metav1.LabelSelectorRequirement` and `metav1.LabelSelector`
pub record Requirement : Type 0 where
  pub key : String
  pub operator : String
  pub values : List String

pub record LabelSelector : Type 0 where
  pub match_labels : Labels
  pub match_expressions : List Requirement
