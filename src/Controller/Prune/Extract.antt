-- ===== src/Controller/Prune/Extract.antt =====
-- `extractItems` on the list types that `pruneStale` lists (internal/controller/prune.go).
use bigbang_operator.Base.{List, ok, ◌≡◌, refl}
use bigbang_operator.Object.{Object, Kind}
use bigbang_operator.Controller.Prune.{filled, extract_items}

-- The list of every kind is known, and has the objects that `r.List` put into it.
pub extract_items-filled :
    (kind : Kind) (items : List Object) → extract_items (filled kind items) ≡ ok items
unfolding filled extract_items
extract_items-filled Kind.network_policy items = refl
extract_items-filled Kind.peer_authentication items = refl
extract_items-filled Kind.authorization_policy items = refl
extract_items-filled Kind.virtual_service items = refl
extract_items-filled Kind.service_entry items = refl
extract_items-filled Kind.sidecar items = refl
