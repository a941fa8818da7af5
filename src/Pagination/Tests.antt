-- ===== src/Pagination/Tests.antt =====
-- Pages of small listings.
use node_nexus_api.Prelude.{ℕ, some, List, [], ◌∷◌, take, drop, ◌≡◌, refl, arith}
use node_nexus_api.Pagination.{list_page, follow}
use node_nexus_api.Pagination.Pages.{page_start, page_items, follow_all}

abbrev seven : List ℕ
seven = 0 ∷ 1 ∷ 2 ∷ 3 ∷ 4 ∷ 5 ∷ 6 ∷ []

-- Limit 3 from offset 4: the rows 5 and 6, and never row 4.
page_items_example : (list_page seven 4 3).items ≡ take 3 (drop (page_start 4 3) seven)
page_items_example = page_items seven 4 3 (omega arith)

row-skipped : take 3 (drop (page_start 4 3) seven) ≡ 5 ∷ 6 ∷ []
row-skipped = refl

follow_all_example : follow 8 seven 3 (some 0) ≡ seven
follow_all_example = follow_all seven 3 8 (omega arith) (omega arith)
