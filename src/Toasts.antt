-- ===== src/Toasts.antt =====
-- frontend/src/components/shared/ToastProvider.tsx: the stack of toasts and the timers that remove
-- them. A timer is the id that it will remove; the ids come from random numbers.
pub mod Expiry
mod Tests
use cont_ained.Base.{
  ℕ, String, Bool, Option, none, some, List, [], ◌∷◌, ◌++◌, ◌==◌, not, filter, ltb, get_or,
  if◌then◌else◌,
}

-- `ToastType`.
pub data ToastType : Type 0 where
  success warning error info : ToastType

-- `ToastMessage`, once its duration is set.
pub record ToastMessage : Type 0 where
  pub id : String
  pub kind : ToastType
  pub title : String
  pub message : Option String
  pub duration : ℕ

-- The toasts that are shown, and the timers with their delay and the id that they remove.
pub record ToastState : Type 0 where
  pub toasts : List ToastMessage
  pub timers : List (ℕ × String)

-- `removeToast`.
unfoldable pub remove_toast : String → ToastState → ToastState
remove_toast id s = record s { toasts = filter (λ t. not (t.id == id)) s.toasts }

-- `toast`; a duration that is not given is 4000 milliseconds, and 0 keeps the toast.
unfoldable pub toast :
    String → ToastType → String → Option String → Option ℕ → ToastState → ToastState
toast id kind title message duration s =
    let ms : ℕ = get_or duration 4000 in
    record {
      toasts =
          s.toasts
          ++ record { id = id; kind = kind; title = title; message = message; duration = ms } ∷ [];
      timers = if ltb 0 ms then s.timers ++ (ms, id) ∷ [] else s.timers;
    }

-- `addToast`, and `success`, `error`, `warning` and `info` with their type.
abbrev pub add_toast : String → String → Option ToastType → ToastState → ToastState
add_toast id message kind s = toast id (get_or kind info) message none none s

abbrev pub toast_of : ToastType → String → String → Option String → ToastState → ToastState
toast_of kind id title message s = toast id kind title message none s

-- The oldest timer that waits for `id` fires.
abbrev pub drop_timer : String → List (ℕ × String) → List (ℕ × String)
drop_timer id [] = []
drop_timer id ((ms, k) ∷ timers) = if k == id then timers else (ms, k) ∷ drop_timer id timers

unfoldable pub fire : String → ToastState → ToastState
unfolding remove_toast
fire id s = remove_toast id (record s { timers = drop_timer id s.timers })

-- What happens to the stack: a call of `toast`, a click on a toast's close button, a timer that fires.
pub data ToastEvent : Type 0 where
  shows : String → ToastType → String → Option String → Option ℕ → ToastEvent
  closes : String → ToastEvent
  fires : String → ToastEvent

unfoldable pub toast_step : ToastEvent → ToastState → ToastState
toast_step (shows id kind title message duration) s = toast id kind title message duration s
toast_step (closes id) s = remove_toast id s
toast_step (fires id) s = fire id s
