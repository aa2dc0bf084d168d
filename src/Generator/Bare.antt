-- ===== src/Generator/Bare.antt =====
-- The builders of pkg/generator leave namespace and owner to `stampMetadata`. These are the lemmas
-- on one object and on the loops and calls that the builders are made of.
use bigbang_operator.Base.{Option, none, some, List, [], ◌∷◌, Result, ◌≡◌}
use bigbang_operator.Base.Lists.{All}
use bigbang_operator.Generator.Made.{AllMade}
use bigbang_operator.Object.{
  Object, Spec, network_policy, peer_authentication, authorization_policy, virtual_service,
  service_entry, sidecar,
}
use bigbang_operator.Generator.Values.{ShorthandMetadata, apply_shorthand_metadata}
use bigbang_operator.Generator.Hbone.{inject_object, inject_hbone_ports}

-- No namespace and no owner yet.
abbrev pub IsBare : Object → Type 0
IsBare o = (o.namespace ≡ "") × (o.owner_references ≡ [])

abbrev pub AreBare : Result (List Object) → Type 0
AreBare m = AllMade IsBare m

pub apply_shorthand_metadata-IsBare :
    (o : Object) (metadata : Option ShorthandMetadata)
    → IsBare o
    → IsBare (apply_shorthand_metadata o metadata)
unfolding apply_shorthand_metadata
apply_shorthand_metadata-IsBare o none h = h
apply_shorthand_metadata-IsBare o (some metadata) h = h

inject_object-IsBare : (o : Object) (spec : Spec) → IsBare o → IsBare (inject_object o spec)
unfolding inject_object
inject_object-IsBare o (network_policy np) h = h
inject_object-IsBare o (peer_authentication m) h = h
inject_object-IsBare o (authorization_policy p) h = h
inject_object-IsBare o (virtual_service v) h = h
inject_object-IsBare o (service_entry s) h = h
inject_object-IsBare o (sidecar s) h = h

pub inject_hbone_ports-IsBare :
    (xs : List Object) → All IsBare xs → All IsBare (inject_hbone_ports xs)
unfolding inject_hbone_ports
inject_hbone_ports-IsBare [] h = tt
inject_hbone_ports-IsBare (o ∷ xs) (b, h) =
    (inject_object-IsBare o o.spec b, inject_hbone_ports-IsBare xs h)
