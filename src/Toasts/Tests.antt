-- ===== src/Toasts/Tests.antt =====
-- The stack of toasts on a few events.
use cont_ained.Base.{none, some, [], ◌∷◌, ◌≡◌, refl}
use cont_ained.Toasts.{ToastMessage, ToastState, success, shows, fires, toast, fire, toast_step}
use cont_ained.Toasts.Expiry.{IsExpiring, toast_step-IsExpiring}

abbrev saved_toast : ToastMessage
saved_toast = record { id = "t1"; kind = success; title = "Saved"; message = none; duration = 4000 }

abbrev one_toast : ToastState
one_toast = record { toasts = saved_toast ∷ []; timers = (4000, "t1") ∷ [] }

show_test :
    toast_step (shows "t1" success "Saved" none none) (record { toasts = []; timers = [] })
    ≡ one_toast
unfolding toast_step toast
show_test = refl

fire_test : toast_step (fires "t1") one_toast ≡ record { toasts = []; timers = [] }
unfolding toast_step fire
fire_test = refl

toast_step-IsExpiring_test :
    IsExpiring (toast_step (shows "t2" success "Sent" none (some 100)) one_toast)
toast_step-IsExpiring_test =
    toast_step-IsExpiring (shows "t2" success "Sent" none (some 100)) one_toast (refl, tt)
