-- ===== src/Table/Selection.antt =====
-- The selection of the table's rows.
use cont_ained.Base.{
  String, false, ◌||◌, not, List, [], ◌∷◌, ◌++◌, ◌==◌, ◌≡◌, filter, if◌then◌else◌, arith, eq_iff,
  Bool-cases, inl, inr,
}
use cont_ained.Table.{includes, handle_select_row}

includes-filter :
    (id j : String) (ids : List String)
    → includes j (filter (λ item. not (item == id)) ids)
      ≡ (if id == j then false else includes j ids)
includes-filter id j [] = ground arith
includes-filter id j (i ∷ ids) =
    ground (arith, eq_iff i id, eq_iff i j, eq_iff id j, includes-filter id j ids)

includes-append :
    (id j : String) (ids : List String) → includes j (ids ++ id ∷ []) ≡ (id == j || includes j ids)
includes-append id j [] = ground arith
includes-append id j (i ∷ ids) = ground (arith, includes-append id j ids)

-- `handleSelectRow` turns the selection of its row over and leaves that of every other row, whatever
-- was selected.
pub includes-handle_select_row :
    (id j : String) (selected : List String)
    → includes j (handle_select_row id selected)
      ≡ (if id == j then not (includes j selected) else includes j selected)
unfolding handle_select_row
includes-handle_select_row id j selected = elim (Bool-cases (includes id selected)) [
  | inl there ↦
      rw (handle_select_row, there)
        (ground (arith, includes-filter id j selected, eq_iff id j, there))
  | inr absent ↦
      rw (handle_select_row, absent)
        (ground (arith, includes-append id j selected, eq_iff id j, absent))
]
