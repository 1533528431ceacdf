-- ===== src/Auth/Guards.antt =====
-- What the guards show after any row of calls of the auth slice.
use cont_ained.Base.{
  String, Bool, true, false, ◌&&◌, ◌||◌, not, Option, none, some, List, [], ◌∷◌, ◌==◌, ◌≡◌, refl,
  any, is_some, if◌then◌else◌, arith, Bool-cases,
}
use cont_ained.Auth.{
  UserProfile, AuthState, initial_auth, is_admin, is_filled, set_user, set_token, logout,
  check_auth, AuthCall, sets_user, sets_token, logs_out, checks, auth_step, auth_run, login_page,
  guarded, restricted, auth_guard, user_role, role_guard, admin_guard,
}

-- The flag of the store is what the user's roles say.
abbrev pub IsConsistent : AuthState → Type 0
IsConsistent s = s.is_platform_admin ≡ is_admin s.user

check_auth-IsConsistent :
    (health : Option Bool) (me : Option (Option UserProfile)) (s : AuthState)
    → IsConsistent (check_auth health me s)
unfolding check_auth is_admin
check_auth-IsConsistent none me s = refl
check_auth-IsConsistent (some true) none s = ground (arith, Bool-cases (is_filled s.stored_token))
check_auth-IsConsistent (some true) (some user) s =
    ground (arith, Bool-cases (is_filled s.stored_token))
check_auth-IsConsistent (some false) none s = refl
check_auth-IsConsistent (some false) (some user) s = refl

auth_step-IsConsistent :
    (c : AuthCall) (s : AuthState) → IsConsistent s → IsConsistent (auth_step c s)
unfolding auth_step set_user set_token logout is_admin
auth_step-IsConsistent (sets_user user) s h = refl
auth_step-IsConsistent (sets_token token) s h = h
auth_step-IsConsistent logs_out s h = refl
auth_step-IsConsistent (checks health me) s h = check_auth-IsConsistent health me s

auth_run-IsConsistent :
    (cs : List AuthCall) (s : AuthState) → IsConsistent s → IsConsistent (auth_run cs s)
unfolding auth_run
auth_run-IsConsistent [] s h = h
auth_run-IsConsistent (c ∷ cs) s h =
    auth_run-IsConsistent cs (auth_step c s) (auth_step-IsConsistent c s h)

initial_auth-IsConsistent : (stored : Option String) → IsConsistent (initial_auth stored)
unfolding initial_auth is_admin
initial_auth-IsConsistent stored = refl

-- After any row of calls from the start, `AdminGuard` shows its children exactly to a user one of
-- whose two roles is "admin".
pub auth_run-admin_guard :
    (cs : List AuthCall) (stored : Option String)
    → admin_guard (auth_run cs (initial_auth stored))
      ≡ (if is_admin (auth_run cs (initial_auth stored)).user then guarded else restricted)
unfolding admin_guard
auth_run-admin_guard cs stored =
    by_flag (is_admin (auth_run cs (initial_auth stored)).user)
      (auth_run-IsConsistent cs (initial_auth stored) (initial_auth-IsConsistent stored))
  where
    by_flag :
        (b : Bool)
        → (auth_run cs (initial_auth stored)).is_platform_admin ≡ b
        → (if (auth_run cs (initial_auth stored)).is_platform_admin || b
            then guarded
            else restricted)
          ≡ (if b then guarded else restricted)
    by_flag true e = rw e refl
    by_flag false e = rw e refl

-- Whether a check of the session lets the visitor in: no authentication is needed, or a stored token
-- was accepted. A failed health check leaves what was known before.
abbrev pub admits : Option Bool → Option (Option UserProfile) → AuthState → Bool
admits none me s = not s.is_auth_enabled
admits (some auth_enabled) me s = not auth_enabled || is_filled s.stored_token && is_some me

-- After a check of the session `AuthGuard` shows its children to the visitors that the check lets
-- in, and the login page to all others; it never stays at the spinner.
pub check_auth-auth_guard :
    (health : Option Bool) (me : Option (Option UserProfile)) (s : AuthState)
    → auth_guard (check_auth health me s) ≡ (if admits health me s then guarded else login_page)
unfolding check_auth auth_guard
check_auth-auth_guard none me s = ground (arith, Bool-cases s.is_auth_enabled)
check_auth-auth_guard (some true) none s = ground (arith, Bool-cases (is_filled s.stored_token))
check_auth-auth_guard (some true) (some user) s =
    ground (arith, Bool-cases (is_filled s.stored_token))
check_auth-auth_guard (some false) none s = refl
check_auth-auth_guard (some false) (some user) s = refl

-- While authentication is enabled, a `RoleGuard` with a list without "viewer" and with no
-- fallback shows that access is restricted after a logout, which leaves no token in the store or
-- in localStorage.
pub logout-role_guard :
    (roles : List String) (s : AuthState)
    → s.is_auth_enabled ≡ true
    → any (λ r. r == "viewer") roles ≡ false
    → (role_guard roles false (logout s) ≡ restricted)
      × ((logout s).token ≡ none)
      × ((logout s).stored_token ≡ none)
unfolding role_guard logout user_role
logout-role_guard roles s e v = (rw (e, v) refl, refl, refl)
