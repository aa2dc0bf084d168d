-- ===== src/Generator/Names.antt =====
-- pkg/generator/names.go: the names of the generated objects.
use bigbang_operator.Base.{ℕ, String, Bool, List, [], ◌∷◌, if◌then◌else◌}
use bigbang_operator.Base.Text.{concat, itoa, replace_char}

abbrev pub cidr_anywhere : String
cidr_anywhere = "0.0.0.0/0"

abbrev pub name_any_pod : String
name_any_pod = "any-pod"

unfoldable pub prepend_name : Bool → String → String → String
unfolding concat
prepend_name prepend release_name name =
    if prepend then concat (release_name ∷ "-" ∷ name ∷ []) else name

unfoldable pub cidr_name_segment : String → String
unfolding replace_char
cidr_name_segment cidr = replace_char b'/' "-" (replace_char b'.' "-" cidr)

-- The loop that appends `-<port>`.
port_list : List ℕ → List String
port_list [] = []
port_list (p ∷ ps) = "-" ∷ itoa p ∷ port_list ps

-- A range that `parse_port_spec` returns has two ports; a range of one would fault in the source,
-- and is spelled like a list here.
unfoldable pub name_port_suffix : List ℕ → Bool → String
unfolding concat itoa port_list
name_port_suffix [] has_range = "any-port"
name_port_suffix (a ∷ []) has_range = concat ("port" ∷ port_list (a ∷ []))
name_port_suffix (a ∷ b ∷ ps) has_range =
    if has_range
    then concat ("ports-" ∷ itoa a ∷ "-thru-" ∷ itoa b ∷ [])
    else concat ("ports" ∷ port_list (a ∷ b ∷ ps))
