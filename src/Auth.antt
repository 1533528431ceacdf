-- ===== src/Auth.antt =====
-- frontend/src/store/authSlice.ts and the guards of frontend/src/components/auth. The replies of the
-- gateway are arguments, `none` for a call that throws; an action runs to its end before the next.
-- `stored_token` is what localStorage holds under `contained_auth_token`.
pub mod Guards
mod Tests
use cont_ained.Base.{
  String, Bool, true, false, ◌&&◌, ◌||◌, not, Option, none, some, List, [], ◌∷◌, ◌==◌, any, is_some,
  if◌then◌else◌,
}

-- `UserProfile`.
pub record UserProfile : Type 0 where
  pub id : String
  pub email : String
  pub display_name : Option String
  pub avatar_url : Option String
  pub provider : Option String
  pub role : Option String
  pub platform_role : Option String
  pub is_active : Option Bool

-- The fields of `AuthSlice` that hold state, and the stored token.
pub record AuthState : Type 0 where
  pub user : Option UserProfile
  pub token : Option String
  pub is_authenticated : Bool
  pub is_auth_enabled : Bool
  pub auth_loading : Bool
  pub is_platform_admin : Bool
  pub stored_token : Option String

-- The state that `createAuthSlice` starts from.
unfoldable pub initial_auth : Option String → AuthState
initial_auth stored = record {
  user = none;
  token = stored;
  is_authenticated = false;
  is_auth_enabled = false;
  auth_loading = true;
  is_platform_admin = false;
  stored_token = stored;
}

-- `r === "admin"` on a field that may be missing.
abbrev pub is_admin_role : Option String → Bool
is_admin_role none = false
is_admin_role (some r) = r == "admin"

-- `!!(user && (user.platform_role === "admin" || user.role === "admin"))`.
unfoldable pub is_admin : Option UserProfile → Bool
is_admin none = false
is_admin (some user) = is_admin_role user.platform_role || is_admin_role user.role

-- `!!token`.
abbrev pub is_filled : Option String → Bool
is_filled none = false
is_filled (some s) = not (s == "")

-- `setUser`.
unfoldable pub set_user : Option UserProfile → AuthState → AuthState
unfolding is_admin
set_user user s = record s {
  user = user;
  is_authenticated = is_some user;
  is_platform_admin = is_admin user;
}

-- `setToken`.
unfoldable pub set_token : Option String → AuthState → AuthState
set_token token s = record s {
  token = token;
  stored_token = if is_filled token then token else none;
}

-- `logout`; whether the call of the gateway succeeds makes no difference.
unfoldable pub logout : AuthState → AuthState
logout s = record s {
  stored_token = none;
  user = none;
  token = none;
  is_authenticated = false;
  is_platform_admin = false;
}

-- `set({ user: null, isAuthenticated: false, isPlatformAdmin: false })`.
abbrev pub sign_out : AuthState → AuthState
sign_out s = record s { user = none; is_authenticated = false; is_platform_admin = false }

-- `set({ user, isAuthenticated: true, isPlatformAdmin: isAdmin })`.
abbrev pub sign_in : Option UserProfile → AuthState → AuthState
sign_in user s = record s {
  user = user;
  is_authenticated = true;
  is_platform_admin = is_admin user;
}

-- `checkAuth` after the health check answered; `me` is the reply of `getMe`.
abbrev identify : Bool → Option (Option UserProfile) → AuthState → AuthState
identify auth_enabled me s =
    if auth_enabled && is_filled s.stored_token
    then elim me [
      | none ↦ record (sign_out s) { stored_token = none; token = none }
      | some user ↦ sign_in user s
    ]
    else if not auth_enabled
    then elim me [ none ↦ sign_out s | some user ↦ sign_in user s ]
    else sign_out s

-- `checkAuth`; `health` is the `auth_enabled` of the health check.
unfoldable pub check_auth : Option Bool → Option (Option UserProfile) → AuthState → AuthState
unfolding is_admin
check_auth health me s =
    let started : AuthState = record s { auth_loading = true } in
    let ended : AuthState = elim health [
      | none ↦ sign_out started
      | some auth_enabled ↦
          identify auth_enabled me (record started { is_auth_enabled = auth_enabled })
    ] in
    record ended { auth_loading = false }

-- The actions of `AuthSlice`.
pub data AuthCall : Type 0 where
  sets_user : Option UserProfile → AuthCall
  sets_token : Option String → AuthCall
  logs_out : AuthCall
  checks : Option Bool → Option (Option UserProfile) → AuthCall

unfoldable pub auth_step : AuthCall → AuthState → AuthState
auth_step (sets_user user) s = set_user user s
auth_step (sets_token token) s = set_token token s
auth_step logs_out s = logout s
auth_step (checks health me) s = check_auth health me s

unfoldable pub auth_run : List AuthCall → AuthState → AuthState
auth_run [] s = s
auth_run (c ∷ cs) s = auth_run cs (auth_step c s)

-- What a guard renders: the spinner, the redirection to the login page, its children, the
-- `fallback` that it was given, or the notice that access is restricted.
pub data GuardView : Type 0 where
  spinner login_page guarded given_fallback restricted : GuardView

-- `AuthGuard`.
unfoldable pub auth_guard : AuthState → GuardView
auth_guard s =
    if s.auth_loading
    then spinner
    else if s.is_auth_enabled && not s.is_authenticated
    then login_page
    else guarded

-- `a || b` on texts that may be missing.
abbrev pub first_filled : Option String → String → String
first_filled none d = d
first_filled (some r) d = if r == "" then d else r

-- `user?.platform_role || user?.role || "viewer"`.
unfoldable pub user_role : Option UserProfile → String
user_role none = "viewer"
user_role (some user) = first_filled user.platform_role (first_filled user.role "viewer")

-- `RoleGuard`; the flag says whether a `fallback` was given.
unfoldable pub role_guard : List String → Bool → AuthState → GuardView
unfolding user_role
role_guard roles has_fallback s =
    if not s.is_auth_enabled
    then guarded
    else if user_role s.user == "admin" || any (λ r. r == user_role s.user) roles
    then guarded
    else if has_fallback
    then given_fallback
    else restricted

-- `AdminGuard`.
unfoldable pub admin_guard : AuthState → GuardView
unfolding is_admin
admin_guard s = if s.is_platform_admin || is_admin s.user then guarded else restricted
