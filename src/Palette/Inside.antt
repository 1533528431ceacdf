-- ===== src/Palette/Inside.antt =====
-- The highlight of CommandPalette.tsx.
use cont_ained.Base.{
  ℕ, ◌+◌, ◌-◌, ◌%◌, ◌<◌, Bool, true, false, List, ◌≡◌, ◌⊎◌, inl, inr, refl, arith, length, ltb,
  Bool-cases, if◌then◌else◌,
}
use native.Mathlib.Nat.{mod-lt}
use cont_ained.Palette.{
  CommandItem, Texts, PaletteState, PaletteEvent, opens, types, arrow_down, arrow_up, enter, escape,
  hovers, clicks, filtered_commands, perform, perform_at, handle_event, open_palette, palette_step,
}

-- The highlight is on a command that is shown, or on the first place.
abbrev pub IsInside : Texts → List CommandItem → PaletteState → Type 0
IsInside t list p =
    (p.selected_index ≡ 0) ⊎ (p.selected_index < length (filtered_commands t p.query list))

perform_at-IsInside :
    (t : Texts) (list : List CommandItem) (i : ℕ) (shown : List CommandItem) (p : PaletteState)
    → IsInside t list p
    → IsInside t list (perform_at i shown p)
unfolding perform_at perform
perform_at-IsInside t list i shown p h = ground arith

-- What an arrow key makes of the index.
moved : (n m : ℕ) → ((if ltb 0 n then m % n else 0) ≡ 0) ⊎ ((if ltb 0 n then m % n else 0) < n)
moved n m = elim (Bool-cases (ltb 0 n)) [
  | inl some_shown ↦ rw some_shown (inr (mod-lt m (ground arith)))
  | inr none_shown ↦ rw none_shown (inl refl)
]

handle_event-IsInside :
    (t : Texts) (list : List CommandItem) (e : PaletteEvent) (p : PaletteState)
    → IsInside t list p
    → IsInside t list (handle_event (filtered_commands t p.query list) e p)
unfolding handle_event
handle_event-IsInside t list opens p h = h
handle_event-IsInside t list (types v) p h = ground arith
handle_event-IsInside t list arrow_down p h =
    moved (length (filtered_commands t p.query list)) (p.selected_index + 1)
handle_event-IsInside t list arrow_up p h =
    moved (length (filtered_commands t p.query list))
      (p.selected_index + length (filtered_commands t p.query list) - 1)
handle_event-IsInside t list enter p h =
    perform_at-IsInside t list p.selected_index (filtered_commands t p.query list) p h
handle_event-IsInside t list escape p h = h
handle_event-IsInside t list (hovers i) p h = ground arith
handle_event-IsInside t list (clicks i) p h =
    perform_at-IsInside t list i (filtered_commands t p.query list) p h

open_event :
    (t : Texts) (list : List CommandItem) (e : PaletteEvent) (p : PaletteState)
    → IsInside t list p
    → IsInside t list (if p.is_open then handle_event (filtered_commands t p.query list) e p else p)
open_event t list e p h =
    either p.is_open (handle_event (filtered_commands t p.query list) e p) p
      (handle_event-IsInside t list e p h) h
  where
    either :
        (b : Bool) (x y : PaletteState)
        → IsInside t list x
        → IsInside t list y
        → IsInside t list (if b then x else y)
    either true x y i j = i
    either false x y i j = j

-- If the highlight is on a command that is shown, or on the first place, then that is so after every
-- event, as long as the list of commands stays the same.
pub palette_step-IsInside :
    (t : Texts) (list : List CommandItem) (e : PaletteEvent) (p : PaletteState)
    → IsInside t list p
    → IsInside t list (palette_step t list e p)
unfolding palette_step open_palette
palette_step-IsInside t list opens p h = ground arith
palette_step-IsInside t list (types v) p h = open_event t list (types v) p h
palette_step-IsInside t list arrow_down p h = open_event t list arrow_down p h
palette_step-IsInside t list arrow_up p h = open_event t list arrow_up p h
palette_step-IsInside t list enter p h = open_event t list enter p h
palette_step-IsInside t list escape p h = open_event t list escape p h
palette_step-IsInside t list (hovers i) p h = open_event t list (hovers i) p h
palette_step-IsInside t list (clicks i) p h = open_event t list (clicks i) p h
