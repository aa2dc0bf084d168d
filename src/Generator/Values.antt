-- ===== src/Generator/Values.antt =====
-- pkg/generator/shorthand.go, second half: the values of the shorthand maps. `encoding/json` gives
-- the anonymous structs of the unmarshalers, here the `Raw` records; what follows is the program's.
pub mod Laws
use bigbang_operator.Base.{String, Bool, true, Option, none, some, [], ◌∷◌, if◌then◌else◌}
use bigbang_operator.Base.Dict.{Dict, lookup, is_empty}
use bigbang_operator.Api.Common.{RawJson, Labels}
use bigbang_operator.Object.{Object}
use bigbang_operator.Generator.Metadata.{merge_maps}

-- An `interface{}` below `matchLabels`, and one below a selector.
pub data Leaf : Type 0 where
  text : String → Leaf
  other : Leaf

pub data Value : Type 0 where
  text : String → Value
  object : Dict Leaf → Value
  other : Value

-- The loops that keep the texts.
unfoldable pub leaf_texts : Dict Leaf → Labels
leaf_texts [] = []
leaf_texts ((k, Leaf.text s) ∷ m) = (k, s) ∷ leaf_texts m
leaf_texts ((k, Leaf.other) ∷ m) = leaf_texts m

unfoldable pub value_texts : Dict Value → Labels
value_texts [] = []
value_texts ((k, Value.text s) ∷ m) = (k, s) ∷ value_texts m
value_texts ((k, Value.object o) ∷ m) = value_texts m
value_texts ((k, Value.other) ∷ m) = value_texts m

abbrev match_labels_of : Dict Value → Option Value → Labels
match_labels_of m (some (Value.object ml)) = leaf_texts ml
match_labels_of m (some (Value.text s)) = value_texts m
match_labels_of m (some Value.other) = value_texts m
match_labels_of m none = value_texts m

-- Of a map that is present.
unfoldable pub flatten_match_labels : Dict Value → Labels
unfolding lookup leaf_texts value_texts
flatten_match_labels m = match_labels_of m (lookup "matchLabels" m)

-- Of a map that may be `nil`; the callers look only at the length of the result.
abbrev flatten_optional : Option (Dict Value) → Labels
flatten_optional none = []
flatten_optional (some m) = flatten_match_labels m

pub record ShorthandMetadata : Type 0 where
  pub labels : Labels
  pub annotations : Labels

pub record ShorthandTarget : Type 0 where
  pub enabled : Bool
  pub pod_selector : Labels
  pub namespace_selector : Labels
  pub metadata : Option ShorthandMetadata

pub record LiteralTarget : Type 0 where
  pub enabled : Bool
  pub metadata : Option ShorthandMetadata
  pub spec : RawJson

pub record ShorthandPeer : Type 0 where
  pub k8s : Dict ShorthandTarget
  pub definition : Dict ShorthandTarget
  pub cidr : Dict ShorthandTarget
  pub literal : Dict LiteralTarget

pub record ShorthandSource : Type 0 where
  pub pod_selector : Labels
  pub metadata : Option ShorthandMetadata
  pub to : Option ShorthandPeer
  pub from : Option ShorthandPeer

pub record RawTarget : Type 0 where
  pub enabled : Option Bool
  pub pod_selector : Option (Dict Value)
  pub namespace_selector : Option (Dict Value)
  pub metadata : Option ShorthandMetadata

-- The bytes `true` or `false`, or the struct.
pub data TargetJson : Type 0 where
  flag : Bool → TargetJson
  body : RawTarget → TargetJson

pub record RawLiteral : Type 0 where
  pub enabled : Option Bool
  pub metadata : Option ShorthandMetadata
  pub spec : RawJson

pub data LiteralJson : Type 0 where
  flag : Bool → LiteralJson
  body : RawLiteral → LiteralJson

pub record RawPeer : Type 0 where
  pub k8s : Dict TargetJson
  pub definition : Dict TargetJson
  pub cidr : Dict TargetJson
  pub literal : Dict LiteralJson

pub record RawSource : Type 0 where
  pub pod_selector : Option (Dict Value)
  pub metadata : Option ShorthandMetadata
  pub to : Option RawPeer
  pub from : Option RawPeer

-- `raw.Enabled == nil || *raw.Enabled`
abbrev pub enabled_unless_false : Option Bool → Bool
enabled_unless_false none = true
enabled_unless_false (some b) = b

unfoldable pub decode_target : TargetJson → ShorthandTarget
unfolding flatten_match_labels
decode_target (TargetJson.flag b) = record {
  enabled = b;
  pod_selector = [];
  namespace_selector = [];
  metadata = none;
}
decode_target (TargetJson.body raw) = record {
  enabled = enabled_unless_false raw.enabled;
  pod_selector = flatten_optional raw.pod_selector;
  namespace_selector = flatten_optional raw.namespace_selector;
  metadata = raw.metadata;
}

unfoldable pub decode_literal : LiteralJson → LiteralTarget
decode_literal (LiteralJson.flag b) = record { enabled = b; metadata = none; spec = "" }
decode_literal (LiteralJson.body raw) = record {
  enabled = enabled_unless_false raw.enabled;
  metadata = raw.metadata;
  spec = raw.spec;
}

map_values {ℓ κ} : {A : Type ℓ} {B : Type κ} → (A → B) → Dict A → Dict B
map_values f [] = []
map_values f ((k, v) ∷ m) = (k, f v) ∷ map_values f m

unfoldable pub decode_peer : RawPeer → ShorthandPeer
unfolding decode_target decode_literal map_values
decode_peer raw = record {
  k8s = map_values decode_target raw.k8s;
  definition = map_values decode_target raw.definition;
  cidr = map_values decode_target raw.cidr;
  literal = map_values decode_literal raw.literal;
}

abbrev decode_optional_peer : Option RawPeer → Option ShorthandPeer
decode_optional_peer none = none
decode_optional_peer (some raw) = some (decode_peer raw)

unfoldable pub decode_source : RawSource → ShorthandSource
unfolding decode_peer flatten_match_labels
decode_source raw = record {
  pod_selector = flatten_optional raw.pod_selector;
  metadata = raw.metadata;
  to = decode_optional_peer raw.to;
  from = decode_optional_peer raw.from;
}

-- Adds one side's labels and annotations to `out`.
abbrev merge_side : ShorthandMetadata → Option ShorthandMetadata → ShorthandMetadata
merge_side out none = out
merge_side out (some side) = record {
  labels = merge_maps out.labels side.labels;
  annotations = merge_maps out.annotations side.annotations;
}

unfoldable pub merge_shorthand_metadata :
    Option ShorthandMetadata → Option ShorthandMetadata → Option ShorthandMetadata
unfolding merge_maps
merge_shorthand_metadata none none = none
merge_shorthand_metadata local remote =
    some (merge_side (merge_side (record { labels = []; annotations = [] }) local) remote)

unfoldable pub apply_shorthand_metadata : Object → Option ShorthandMetadata → Object
unfolding merge_maps
apply_shorthand_metadata obj none = obj
apply_shorthand_metadata obj (some meta) = record obj {
  labels = if is_empty meta.labels then obj.labels else merge_maps meta.labels obj.labels;
  annotations =
      if is_empty meta.annotations
      then obj.annotations
      else merge_maps meta.annotations obj.annotations;
}
