-- ===== src/Compose/Tests.antt =====
-- A few projects, on one page.
use node_nexus_api.Prelude.{ℕ, some, List, [], ◌∷◌, ◌≡◌, arith}
use node_nexus_api.Compose.{list_all_projects}
use node_nexus_api.Compose.Listing.{rows_at, list_all_projects_complete}

abbrev projects : List ℕ
projects = 4 ∷ 7 ∷ []

list_all_projects_complete_example : list_all_projects (rows_at projects) 1 ≡ some projects
list_all_projects_complete_example = list_all_projects_complete projects 1 (omega arith)
