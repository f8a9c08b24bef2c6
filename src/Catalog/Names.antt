-- ===== src/Catalog/Names.antt =====
-- The names that the proxy's configuration goes by: internal/servicecatalog/application/proxy_config.go.
use edge_pilot.Base.{◌||◌, [], ◌∷◌, ◌++◌, ◌==◌, if◌then◌else◌}
use edge_pilot.Base.Text.{Text, codes, is_empty, trim_space}
use edge_pilot.Model.Slot.{Slot, unset, blue, green}

-- `strings.ReplaceAll(s, "-", "")`.
unfoldable pub without_dashes : Text → Text
without_dashes [] = []
without_dashes (c ∷ s) = if c == b'-' then without_dashes s else c ∷ without_dashes s

-- The arguments are the texts of the two identifiers.
unfoldable pub backend_name_for_release : Text → Text → Text
unfolding without_dashes
backend_name_for_release service release =
    let svc = without_dashes service in
    let rel = without_dashes (trim_space release) in
    if is_empty svc || is_empty rel then [] else codes "be_" ++ svc ++ codes "_" ++ rel

unfoldable pub server_name : Slot → Text
server_name blue = codes "blue"
server_name green = codes "green"
server_name unset = []
