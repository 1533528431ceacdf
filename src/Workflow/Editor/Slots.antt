-- ===== src/Workflow/Editor/Slots.antt =====
-- Where `handleAddNode` of WorkflowEditor.tsx puts a new node.
use cont_ained.Base.{
  ℕ, zero, suc, ◌+◌, ◌*◌, ◌<◌, ◌≡◌, refl, ◌⊎◌, inl, inr, true, false, List, arith, ltb, leb,
  Bool-cases,
}
use native.Mathlib.Decide.{dec_lt}
use cont_ained.Workflow.Position.{Position}
use cont_ained.Workflow.Editor.{slot, overlaps, slot_loop, free_slot}

-- The slots before (col, row), row by row.
abbrev Taken : List Position → ℕ → ℕ → Type 0
Taken occupied col row = overlaps occupied (slot col row) ≡ true

-- All slots of the first `row` rows, and the first `col` of the next.
abbrev TakenBefore : List Position → ℕ → ℕ → Type 0
TakenBefore occupied col row = (c r : ℕ) → c < 3 → r * 3 + c < row * 3 + col → Taken occupied c r

TakenBefore-next :
    (occupied : List Position) (col row : ℕ)
    → col < 3
    → Taken occupied col row
    → TakenBefore occupied col row
    → TakenBefore occupied (suc col) row
TakenBefore-next occupied col row lt3 taken before c r hc hr =
    elim (dec_lt (r * 3 + c) (row * 3 + col)) [
      | yes earlier ↦ before c r hc earlier
      | no last ↦
          let same_col : c ≡ col = omega arith in
          let same_row : r ≡ row = omega arith in rw (same_col, same_row) taken
    ]

-- The loop ends at a free slot, or has seen all sixty taken.
slot_loop-cases :
    (fuel col row : ℕ) (occupied : List Position)
    → col < 3
    → 60 < row * 3 + col + fuel
    → TakenBefore occupied col row
    → (overlaps occupied (slot_loop fuel col row occupied) ≡ false)
      ⊎ ((slot_loop fuel col row occupied ≡ slot 0 0)
          × ((c r : ℕ) → c < 3 → r < 20 → Taken occupied c r))
unfolding slot_loop
slot_loop-cases zero col row occupied lt3 enough before =
    inr (refl, λ c r hc hr. before c r hc (omega arith))
slot_loop-cases (suc fuel) col row occupied lt3 enough before = elim (Bool-cases (ltb row 20)) [
  | inr over ↦ rw over (inr (refl, λ c r hc hr. before c r hc (ground arith)))
  | inl more ↦ elim (Bool-cases (overlaps occupied (slot col row))) [
    | inr free ↦ rw (more, free) (inl free)
    | inl taken ↦ elim (Bool-cases (leb 3 (col + 1))) [
      | inl wraps ↦
          rw (more, taken, wraps)
            (slot_loop-cases fuel 0 (row + 1) occupied (omega arith) (ground arith) (λ c r hc hr.
              TakenBefore-next occupied col row lt3 taken before c r hc (ground arith)))
      | inr stays ↦
          rw (more, taken, stays)
            (slot_loop-cases fuel (col + 1) row occupied (ground arith) (omega arith) (λ c r hc hr.
              TakenBefore-next occupied col row lt3 taken before c r hc (omega arith)))
    ]
  ]
]

-- `handleAddNode` puts a new node where it overlaps no other one, unless each of the sixty slots of
-- the grid overlaps one; then it goes to the first slot.
pub free_slot-cases :
    (occupied : List Position)
    → (overlaps occupied (free_slot occupied) ≡ false)
      ⊎ ((free_slot occupied ≡ slot 0 0)
          × ((col row : ℕ) → col < 3 → row < 20 → overlaps occupied (slot col row) ≡ true))
unfolding free_slot
free_slot-cases occupied =
    slot_loop-cases 61 0 0 occupied (omega arith) (omega arith) (λ c r hc hr. absurd (omega arith))
