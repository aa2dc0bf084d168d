-- ===== src/Generator/Values/Laws.antt =====
-- Which side's labels and annotations win in pkg/generator/shorthand.go.
use bigbang_operator.Base.{
  String, Bool, true, false, ◌&&◌, Option, none, some, [], ◌∷◌, if◌then◌else◌, ◌≡◌, refl, ap, ◌∙◌,
  sym,
}
use bigbang_operator.Base.Dict.{lookup, insert, insert_all, is_empty}
use bigbang_operator.Base.Dict.Laws.{HasDistinctKeys, first_of_two, insert-HasDistinctKeys}
use bigbang_operator.Api.Common.{Labels}
use bigbang_operator.Object.{Object}
use bigbang_operator.Generator.Metadata.{merge_maps}
use bigbang_operator.Generator.Metadata.Laws.{lookup-merge_maps}
use bigbang_operator.Generator.Values.{
  ShorthandMetadata, merge_shorthand_metadata, apply_shorthand_metadata,
}

insert_all-HasDistinctKeys :
    (out m : Labels) → HasDistinctKeys out → HasDistinctKeys (insert_all out m)
unfolding insert_all
insert_all-HasDistinctKeys out [] d = d
insert_all-HasDistinctKeys out ((k, v) ∷ m) d =
    insert_all-HasDistinctKeys (insert k v out) m (insert-HasDistinctKeys k v out d)

merge_maps-HasDistinctKeys : (a b : Labels) → HasDistinctKeys (merge_maps a b)
unfolding merge_maps
merge_maps-HasDistinctKeys a b = go (is_empty a && is_empty b)
  where
    go : (t : Bool) → HasDistinctKeys (if t then [] else insert_all (insert_all [] a) b)
    go true = tt
    go false = insert_all-HasDistinctKeys (insert_all [] a) b (insert_all-HasDistinctKeys [] a tt)

first_of_none : (o : Option String) → first_of_two o none ≡ o
first_of_none none = refl
first_of_none (some v) = refl

-- One map of an object under the user's metadata.
under :
    (k : String) (user own : Labels)
    → HasDistinctKeys user
    → HasDistinctKeys own
    → lookup k (if is_empty user then own else merge_maps user own)
      ≡ first_of_two (lookup k own) (lookup k user)
under k [] own du d = unfold lookup in sym (first_of_none (lookup k own))
under k (x ∷ user) own du d = lookup-merge_maps k (x ∷ user) own du d

-- The two user maps in one.
both_sides :
    (k : String) (local remote : Labels)
    → HasDistinctKeys local
    → HasDistinctKeys remote
    → lookup k (merge_maps (merge_maps [] local) remote)
      ≡ first_of_two (lookup k remote) (lookup k local)
both_sides k local remote dl dr =
    lookup-merge_maps k (merge_maps [] local) remote (merge_maps-HasDistinctKeys [] local) dr
    ∙ ap (first_of_two (lookup k remote))
        (lookup-merge_maps k [] local tt dl ∙ (unfold lookup in first_of_none (lookup k local)))

-- For maps without double keys: a label, and an annotation, of an object with the metadata of both
-- levels is the generated one, else the remote level's, else the local level's.
pub apply_shorthand_metadata-precedence :
    (k : String) (obj : Object) (local remote : ShorthandMetadata)
    → HasDistinctKeys obj.labels
    → HasDistinctKeys obj.annotations
    → HasDistinctKeys local.labels
    → HasDistinctKeys local.annotations
    → HasDistinctKeys remote.labels
    → HasDistinctKeys remote.annotations
    → (lookup k
          (apply_shorthand_metadata obj
            (merge_shorthand_metadata (some local) (some remote))).labels
        ≡ first_of_two
            (lookup k obj.labels)
            (first_of_two (lookup k remote.labels) (lookup k local.labels)))
      × (lookup k
            (apply_shorthand_metadata obj
              (merge_shorthand_metadata (some local) (some remote))).annotations
          ≡ first_of_two
              (lookup k obj.annotations)
              (first_of_two (lookup k remote.annotations) (lookup k local.annotations)))
unfolding apply_shorthand_metadata merge_shorthand_metadata
apply_shorthand_metadata-precedence k obj local remote dol doa dll dla drl dra = (
  one obj.labels local.labels remote.labels dol dll drl,
  one obj.annotations local.annotations remote.annotations doa dla dra,
)
  where
    one :
        (own l r : Labels)
        → HasDistinctKeys own
        → HasDistinctKeys l
        → HasDistinctKeys r
        → lookup k (
            if is_empty (merge_maps (merge_maps [] l) r)
            then own
            else merge_maps (merge_maps (merge_maps [] l) r) own)
          ≡ first_of_two (lookup k own) (first_of_two (lookup k r) (lookup k l))
    one own l r d dl dr =
        under k (merge_maps (merge_maps [] l) r) own
          (merge_maps-HasDistinctKeys (merge_maps [] l) r) d
        ∙ ap (first_of_two (lookup k own)) (both_sides k l r dl dr)
