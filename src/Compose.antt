-- ===== src/Compose.antt =====
-- app/application/services/compose_service.py: the listing of all projects of a node, page by page.
mod Listing
mod Tests
use node_nexus_api.Prelude.{
  ℕ, zero, suc, ◌+◌, Option, none, some, List, [], ◌++◌, ltb, length, if◌then◌else◌,
}

-- The loop of `list_all_projects` on a number of turns: `list_projects` is read with an offset and a limit
-- until a page is short. `none`: the turns are used up.
unfoldable pub list_from :
    {Project : Type 0} → (ℕ → ℕ → List Project) → ℕ → ℕ → List Project → Option (List Project)
list_from list_projects zero offset all_items = none
list_from list_projects (suc turns) offset all_items =
    let page = list_projects offset 100 in
    let rest = list_from list_projects turns (offset + 100) (all_items ++ page) in
    if ltb (length page) 100 then some (all_items ++ page) else rest

unfoldable pub list_all_projects :
    {Project : Type 0} → (ℕ → ℕ → List Project) → ℕ → Option (List Project)
list_all_projects list_projects turns = list_from list_projects turns 0 []
