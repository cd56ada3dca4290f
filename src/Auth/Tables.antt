-- ===== src/Auth/Tables.antt =====
-- The role and permission tables of src/auth/models.py, as the rows that the queries of
-- `PermissionRepository` (src/auth/rbac.py) read. A column that no query reads is left out.
use douyin_data_dashboard.Prelude.{
  ℕ, String, Bool, ◌&&◌, List, [], ◌∷◌, map, ◌==◌, if◌then◌else◌, any, keep, contains,
}

pub record UserRole : Type 0 where
  pub user_id : ℕ
  pub role_id : ℕ

pub record RolePermission : Type 0 where
  pub role_id : ℕ
  pub permission_id : ℕ

pub record Role : Type 0 where
  pub id : ℕ
  pub name : String

pub record Permission : Type 0 where
  pub id : ℕ
  pub permission_code : String

pub record Tables : Type 0 where
  pub user_roles : List UserRole
  pub role_permissions : List RolePermission
  pub roles : List Role
  pub permissions : List Permission

-- `.distinct()` and `set(...)`: the last of equal texts is kept.
unfoldable pub distinct : List String → List String
distinct [] = []
distinct (s ∷ ss) = if contains ss s then distinct ss else s ∷ distinct ss

-- The join conditions of the two queries. A row is in the result once for each joined row, and
-- `distinct` makes that at most once.
abbrev pub has_role : Tables → ℕ → ℕ → Bool
has_role t user role = any t.user_roles (λ ur. ur.role_id == role && ur.user_id == user)

abbrev pub has_permission_row : Tables → ℕ → ℕ → Bool
has_permission_row t user permission =
    any t.role_permissions (λ rp. rp.permission_id == permission && has_role t user rp.role_id)

-- `get_user_permissions(user_id)`
unfoldable pub get_user_permissions : Tables → ℕ → List String
get_user_permissions t user = distinct (
    map (λ (p : Permission). p.permission_code)
      (keep (λ p. has_permission_row t user p.id) t.permissions))

-- `get_user_roles(user_id)`
unfoldable pub get_user_roles : Tables → ℕ → List String
get_user_roles t user =
    distinct (map (λ (r : Role). r.name) (keep (λ r. has_role t user r.id) t.roles))
