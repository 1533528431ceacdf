-- ===== src/Table.antt =====
-- frontend/src/components/shared/DataTable.tsx: pages, the sort key and the selection of the shared
-- table.
pub mod Pages
pub mod Selection
mod Tests
use cont_ained.Base.{
  ℕ, zero, suc, ◌+◌, ◌-◌, ◌*◌, ◌/◌, String, Bool, true, false, ◌&&◌, not, Option, none, some, List,
  [], ◌∷◌, ◌++◌, ◌==◌, length, take, drop, map, filter, any, ltb, eqb, min, if◌then◌else◌,
}

-- `xs.slice(a, b)`.
abbrev pub slice {ℓ} : {A : Type ℓ} → ℕ → ℕ → List A → List A
slice a b xs = take (b - a) (drop a xs)

-- `Math.ceil(data.length / pageSize) || 1`, for a page size above 0.
unfoldable pub total_pages : ℕ → ℕ → ℕ
total_pages count page_size =
    let pages : ℕ = (count + (page_size - 1)) / page_size in if eqb pages 0 then 1 else pages

-- `paginatedData` of a page, counted from 1.
unfoldable pub paginated_data {ℓ} : {A : Type ℓ} → ℕ → ℕ → List A → List A
paginated_data current_page page_size data_ =
    slice ((current_page - 1) * page_size) (current_page * page_size) data_

-- The two buttons: a disabled one changes nothing.
unfoldable pub previous_page : ℕ → ℕ
previous_page p = if eqb p 1 then p else if ltb (p - 1) 1 then 1 else p - 1

unfoldable pub next_page : ℕ → ℕ → ℕ
next_page total p = if eqb p total then p else min (p + 1) total

pub data Dir : Type 0 where
  asc desc : Dir

-- `sort`.
pub record Sort : Type 0 where
  pub key : String
  pub dir : Dir

-- `sort.dir === "asc" ? "desc" : "asc"`.
abbrev pub flip : Dir → Dir
flip asc = desc
flip desc = asc

-- `handleSort`: what it hands to `onSortChange`.
unfoldable pub handle_sort : Option Sort → String → Sort
handle_sort none key = record { key = key; dir = asc }
handle_sort (some s) key =
    if s.key == key then record { key = key; dir = flip s.dir } else record { key = key; dir = asc }

-- `handleSelectAll`.
unfoldable pub handle_select_all : List String → Bool → List String
handle_select_all keys checked = if checked then keys else []

-- `selectedIds.includes(id)`.
abbrev pub includes : String → List String → Bool
includes id ids = any (λ item. item == id) ids

-- `handleSelectRow`.
unfoldable pub handle_select_row : String → List String → List String
handle_select_row id selected =
    if includes id selected then filter (λ item. not (item == id)) selected else selected ++ id ∷ []

-- `allSelected`, from the number of rows.
unfoldable pub all_selected : ℕ → List String → Bool
all_selected count selected = ltb 0 count && eqb (length selected) count
