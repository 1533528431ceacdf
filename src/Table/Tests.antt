-- ===== src/Table/Tests.antt =====
-- The shared table on five rows.
use cont_ained.Base.{
  ℕ, ◌≤◌, ◌<◌, true, not, some, List, [], ◌∷◌, ◌==◌, ◌≡◌, refl, arith, length, if◌then◌else◌,
}
use cont_ained.Table.{
  total_pages, paginated_data, previous_page, next_page, includes, handle_select_row, handle_sort,
  asc, desc, all_selected,
}
use cont_ained.Table.Selection.{includes-handle_select_row}
use cont_ained.Table.Pages.{pages, pages-total_pages, next_page-bounds}

abbrev rows : List ℕ
rows = 1 ∷ 2 ∷ 3 ∷ 4 ∷ 5 ∷ []

-- The last page is short, and a page that lies past the end, as after the data shrank, is empty.
page_test :
    (total_pages 5 2 ≡ 3)
    × (paginated_data 3 2 rows ≡ 5 ∷ [])
    × (paginated_data 4 2 rows ≡ [])
    × (total_pages 0 2 ≡ 1)
unfolding total_pages paginated_data
page_test = (refl, refl, refl, refl)

sort_test :
    handle_sort (some (record { key = "name"; dir = asc })) "name"
    ≡ record { key = "name"; dir = desc }
unfolding handle_sort
sort_test = refl

-- `allSelected` compares the numbers alone: a selection of other rows counts as all.
all_selected_test : all_selected 2 ("x" ∷ "y" ∷ []) ≡ true
unfolding all_selected
all_selected_test = refl

pages-total_pages_example : pages (total_pages (length rows) 2) 0 2 rows ≡ rows
pages-total_pages_example = pages-total_pages 2 rows (omega arith)

next_page-bounds_test :
    (0 < next_page 3 3) × (next_page 3 3 ≤ 3) × (0 < previous_page 3) × (previous_page 3 ≤ 3)
next_page-bounds_test = next_page-bounds 3 3 (omega arith) (omega arith)

includes-handle_select_row_test :
    includes "a" (handle_select_row "a" ("a" ∷ []))
    ≡ (if "a" == "a" then not (includes "a" ("a" ∷ [])) else includes "a" ("a" ∷ []))
includes-handle_select_row_test = includes-handle_select_row "a" "a" ("a" ∷ [])
