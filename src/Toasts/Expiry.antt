-- ===== src/Toasts/Expiry.antt =====
-- The toasts of ToastProvider.tsx against the timers that remove them.
use cont_ained.Base.{
  ℕ, String, Bool, false, ◌||◌, not, ◌&&◌, List, [], ◌∷◌, ◌++◌, ◌==◌, ◌≡◌, refl, any, filter, ltb,
  get_or, if◌then◌else◌, arith, eq_iff, eq_refl, All, All-append, All-filter, Bool-cases, inl, inr,
}
use cont_ained.Toasts.{
  ToastMessage, ToastState, toast, remove_toast, drop_timer, fire, ToastEvent, shows, closes, fires,
  toast_step,
}

-- A timer waits for the id.
abbrev pub awaited : String → List (ℕ × String) → Bool
awaited id timers = any (λ t. t.1 == id) timers

-- The toast stays for good, or a timer waits for it.
abbrev pub Expires : List (ℕ × String) → ToastMessage → Type 0
Expires timers t = (ltb 0 t.duration && not (awaited t.id timers)) ≡ false

abbrev pub IsExpiring : ToastState → Type 0
IsExpiring s = All (Expires s.timers) s.toasts

awaited-append :
    (id : String) (ts us : List (ℕ × String))
    → awaited id (ts ++ us) ≡ (awaited id ts || awaited id us)
awaited-append id [] us = refl
awaited-append id (t ∷ ts) us = ground (arith, awaited-append id ts us)

awaited-drop_timer :
    (id k : String) (ts : List (ℕ × String))
    → (k == id) ≡ false
    → awaited id (drop_timer k ts) ≡ awaited id ts
awaited-drop_timer id k [] h = refl
awaited-drop_timer id k ((ms, j) ∷ ts) h =
    ground (arith, eq_iff j k, eq_iff j id, eq_iff k id, awaited-drop_timer id k ts h)

-- More timers leave what expires as it is.
Expires-append :
    (ts us : List (ℕ × String)) (toasts : List ToastMessage)
    → All (Expires ts) toasts
    → All (Expires (ts ++ us)) toasts
Expires-append ts us [] h = tt
Expires-append ts us (t ∷ toasts) (e, h) =
    (ground (arith, awaited-append t.id ts us), Expires-append ts us toasts h)

-- A timer that fires takes its toasts with it.
Expires-drop_timer :
    (id : String) (ts : List (ℕ × String)) (toasts : List ToastMessage)
    → All (Expires ts) toasts
    → All (Expires (drop_timer id ts)) (filter (λ t. not (t.id == id)) toasts)
Expires-drop_timer id ts [] h = tt
Expires-drop_timer id ts (t ∷ toasts) (e, h) = elim (Bool-cases (t.id == id)) [
  | inl same ↦ rw same (Expires-drop_timer id ts toasts h)
  | inr other ↦ rw other (
    ground (arith, eq_iff t.id id, eq_iff id t.id, awaited-drop_timer t.id id ts),
    Expires-drop_timer id ts toasts h,
  )
]

toast-IsExpiring :
    (id : String) (t : ToastMessage) (ms : ℕ) (s : ToastState)
    → t.id ≡ id
    → t.duration ≡ ms
    → IsExpiring s
    → All (Expires (if ltb 0 ms then s.timers ++ (ms, id) ∷ [] else s.timers)) (s.toasts ++ t ∷ [])
toast-IsExpiring id t ms s e d h = elim (Bool-cases (ltb 0 ms)) [
  | inl timed ↦ rw timed (
      All-append (Expires (s.timers ++ (ms, id) ∷ [])) s.toasts (t ∷ [])
        (Expires-append s.timers ((ms, id) ∷ []) s.toasts h) (new_timer, tt))
  | inr kept ↦ rw kept (All-append (Expires s.timers) s.toasts (t ∷ []) h (rw (d, kept) refl, tt))
]
  where
    new_timer : Expires (s.timers ++ (ms, id) ∷ []) t
    new_timer = rw (awaited-append t.id s.timers ((ms, id) ∷ []), e, eq_refl id) (ground arith)

-- If every toast with a duration above 0 has a timer that waits for it, that is so after every
-- event.
pub toast_step-IsExpiring :
    (e : ToastEvent) (s : ToastState) → IsExpiring s → IsExpiring (toast_step e s)
unfolding toast_step toast remove_toast fire
toast_step-IsExpiring (shows id kind title message duration) s h =
    toast-IsExpiring id
      (record {
        id = id;
        kind = kind;
        title = title;
        message = message;
        duration = get_or duration 4000;
      })
      (get_or duration 4000) s refl refl h
toast_step-IsExpiring (closes id) s h =
    All-filter (Expires s.timers) (λ t. not (t.id == id)) s.toasts h
toast_step-IsExpiring (fires id) s h = Expires-drop_timer id s.timers s.toasts h
