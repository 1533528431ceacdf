-- ===== src/Auth/Tests.antt =====
-- The auth slice and its guards on small states.
use cont_ained.Base.{true, false, none, some, [], ◌∷◌, ◌≡◌, refl, if◌then◌else◌}
use cont_ained.Auth.{
  UserProfile, AuthState, initial_auth, is_admin, check_auth, logout, checks, logs_out, auth_run,
  auth_step, guarded, login_page, restricted, auth_guard, role_guard, admin_guard,
}
use cont_ained.Auth.Guards.{admits, auth_run-admin_guard, check_auth-auth_guard, logout-role_guard}

abbrev ada : UserProfile
ada = record {
  id = "u1";
  email = "ada@example.org";
  display_name = none;
  avatar_url = none;
  provider = none;
  role = some "admin";
  platform_role = none;
  is_active = some true;
}

abbrev visitor : AuthState
visitor = record {
  user = none;
  token = some "t";
  is_authenticated = false;
  is_auth_enabled = true;
  auth_loading = true;
  is_platform_admin = false;
  stored_token = some "t";
}

admin_test :
    admin_guard (auth_run (checks (some true) (some (some ada)) ∷ []) (initial_auth (some "t")))
    ≡ guarded
unfolding admin_guard auth_run auth_step check_auth initial_auth
admin_test = refl

auth_run-admin_guard_example :
    admin_guard (auth_run (checks (some true) none ∷ logs_out ∷ []) (initial_auth none)) ≡ (
      if is_admin (auth_run (checks (some true) none ∷ logs_out ∷ []) (initial_auth none)).user
      then guarded
      else restricted)
auth_run-admin_guard_example = auth_run-admin_guard (checks (some true) none ∷ logs_out ∷ []) none

check_auth-auth_guard_example :
    auth_guard (check_auth (some true) none visitor)
    ≡ (if admits (some true) none visitor then guarded else login_page)
check_auth-auth_guard_example = check_auth-auth_guard (some true) none visitor

logout-role_guard_test :
    (role_guard ("maintainer" ∷ []) false (logout visitor) ≡ restricted)
    × ((logout visitor).token ≡ none)
    × ((logout visitor).stored_token ≡ none)
logout-role_guard_test = logout-role_guard ("maintainer" ∷ []) visitor refl refl
