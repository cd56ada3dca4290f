-- ===== src/Auth/Check.antt =====
-- `check_permissions` and `check_roles` of `PermissionService` (src/auth/rbac.py).
use douyin_data_dashboard.Prelude.{
  ℕ, String, Bool, not, ◌||◌, List, str_eq, if◌then◌else◌, all, any, contains,
}
use douyin_data_dashboard.Auth.Permission.{has_permission}
use douyin_data_dashboard.Auth.Tables.{Tables, get_user_permissions, get_user_roles}

-- What the authorisation code raises.
pub data AuthError : Type 0 where
  value_error : String → AuthError
  insufficient_permission insufficient_role : List String → AuthError

pub data Result {ℓ} (A : Type ℓ) : Type ℓ where
  ok : A → Result A
  err : AuthError → Result A

-- `all(...)` or `any(...)`, and a `ValueError` for another word.
unfoldable pub check_match : String → List String → (String → Bool) → Result Bool
check_match match required holds =
    if not (str_eq match "all" || str_eq match "any")
    then err (value_error "match must be 'all' or 'any'")
    else if str_eq match "all"
    then ok (all required holds)
    else ok (any required holds)

unfoldable pub check_permissions : Tables → ℕ → List String → String → Bool → Result Bool
unfolding check_match
check_permissions t user_id required_perms match wildcard_support =
    let user_perms = get_user_permissions t user_id in
    check_match match required_perms (λ req. has_permission req user_perms wildcard_support)

unfoldable pub check_roles : Tables → ℕ → List String → String → Result Bool
unfolding check_match
check_roles t user_id required_roles match =
    let user_roles = get_user_roles t user_id in
    check_match match required_roles (λ req. contains user_roles req)
