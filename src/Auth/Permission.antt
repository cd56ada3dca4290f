-- ===== src/Auth/Permission.antt =====
-- Permission codes and their matching: `PermissionService._split_permission` and
-- `_match_permission` of src/auth/rbac.py.
use Prim.Native.Char.{code}
use Prim.Native.String.{[], ◌∷◌}
use mathlib.Core.Option
use douyin_data_dashboard.Prelude.{
  String, Bool, true, false, not, ◌||◌, Option, none, some, List, str_eq, ◌==◌, if◌then◌else◌, any,
  is_empty,
}

-- `perm.split(":", 1)` where `":" in perm`; `none` where there is no colon.
unfoldable pub split_colon : String → Option (String × String)
split_colon [] = none
split_colon (c ∷ s) =
    let rest = split_colon s in
    if code c == b':'
    then some ([], s)
    else Option.map (λ (p : String × String). (c ∷ p.0, p.1)) rest

-- The action is `none` where it is missing or empty.
abbrev pub read_parts : String → Option (String × String) → String × Option String
read_parts perm none = (perm, none)
read_parts perm (some (module_name, action)) =
    (module_name, if is_empty action then none else some action)

unfoldable pub split_permission : String → String × Option String
split_permission perm = read_parts perm (split_colon perm)

-- The tests after the two permissions are split, in the source's order.
unfoldable pub match_parts : String × Option String → String × Option String → Bool
match_parts (req_module, req_action) (user_module, user_action) =
    if not (str_eq req_module user_module) then false else elim req_action [
      | none ↦ false
      | some wanted ↦ elim user_action [
        | none ↦ true
        | some held ↦ if str_eq wanted "*" then true else str_eq held wanted || str_eq held "*"
      ]
    ]

-- `_match_permission(required_perm, user_perm, wildcard_support)`
unfoldable pub match_permission : String → String → Bool → Bool
match_permission required_perm user_perm wildcard_support =
    if not wildcard_support
    then str_eq required_perm user_perm
    else if str_eq required_perm "*"
    then str_eq user_perm "*"
    else if str_eq user_perm "*"
    then true
    else match_parts (split_permission required_perm) (split_permission user_perm)

-- `_has_permission(required_perm, user_perms, wildcard_support)`
unfoldable pub has_permission : String → List String → Bool → Bool
has_permission required_perm user_perms wildcard_support =
    any user_perms (λ user_perm. match_permission required_perm user_perm wildcard_support)
