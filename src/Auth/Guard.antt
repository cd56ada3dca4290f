-- ===== src/Auth/Guard.antt =====
-- The three route dependencies of src/auth/rbac.py: `require_permissions`, `require_roles` and
-- `owner_or_perm`. A dependency returns or raises, and leaves the session behind.
use douyin_data_dashboard.Prelude.{
  ℕ, String, Bool, not, ◌&&◌, Option, none, some, List, [], ◌∷◌, ◌==◌, if◌then◌else◌,
}
use douyin_data_dashboard.Auth.Tables.{Tables}
use douyin_data_dashboard.Auth.Check.{
  AuthError, insufficient_permission, insufficient_role, Result, ok, err, check_permissions,
  check_roles,
}
use douyin_data_dashboard.Auth.Audit.{
  AuditAction, permission_check, role_check, AuditResult, granted, denied, superuser, owner,
  AuditEntry, AuditSession, log, begin_query, Request, extract_client_info,
}

pub record User : Type 0 where
  pub id : ℕ
  pub is_superuser : Bool

abbrev pub Dependency : Type 0
Dependency = Tables → Request → User → AuditSession → Result (Unit {0}) × AuditSession

-- The arguments that every call of `audit_service.log` here passes.
abbrev pub entry : Request → User → AuditAction → AuditResult → List String → AuditEntry
entry request user action result required =
    let (user_agent, ip) = extract_client_info request in
    record {
      action = action;
      result = result;
      actor_id = user.id;
      resource_type = some "api";
      resource_id = some request.path;
      user_agent = user_agent;
      ip = ip;
      required = required;
      bypass = none;
      request_id = request.request_id;
    }

-- What follows the check, which raises before it queries the session or else queries it: an error of
-- its own goes up, a refusal is logged and raised.
abbrev pub conclude :
    Result Bool
    → AuthError
    → AuditEntry
    → AuditEntry
    → AuditSession
    → Result (Unit {0}) × AuditSession
conclude (err e) refusal allowed refused audit = (err e, audit)
conclude (ok has) refusal allowed refused audit =
    if not has
    then (err refusal, log refused (begin_query audit))
    else (ok tt, log allowed (begin_query audit))

-- `none` is the `ValueError` for an empty list, raised when the route is declared.
unfoldable pub require_permissions : List String → String → Bool → Bool → Option Dependency
require_permissions [] match bypass_superuser wildcard_support = none
require_permissions (p ∷ ps) match bypass_superuser wildcard_support =
    some (λ tables request user audit.
      let perms = p ∷ ps in
      let allowed = entry request user permission_check granted perms in
      if bypass_superuser && user.is_superuser
      then (
        ok tt,
        log (record allowed { resource_type = none; resource_id = none; bypass = some superuser })
            audit,
      )
      else conclude (check_permissions tables user.id perms match wildcard_support)
          (insufficient_permission perms) allowed (entry request user permission_check denied perms)
          audit)

unfoldable pub require_roles : List String → String → Bool → Option Dependency
require_roles [] match bypass_superuser = none
require_roles (r ∷ rs) match bypass_superuser = some (λ tables request user audit.
    let roles = r ∷ rs in
    let allowed = entry request user role_check granted roles in
    if bypass_superuser && user.is_superuser
    then (ok tt, log (record allowed { bypass = some superuser }) audit)
    else conclude (check_roles tables user.id roles match) (insufficient_role roles) allowed
        (entry request user role_check denied roles) audit)

-- `get_owner_id(**kwargs)` is the route's callback on its path parameters, here already applied.
-- An empty list of permissions is not refused here.
unfoldable pub owner_or_perm : ℕ → List String → String → Bool → Bool → Dependency
owner_or_perm owner_id perms match bypass_superuser wildcard_support tables request user audit =
    let allowed = entry request user permission_check granted perms in
    if bypass_superuser && user.is_superuser
    then (ok tt, log (record allowed { bypass = some superuser }) audit)
    else if user.id == owner_id
    then (ok tt, log (record allowed { bypass = some owner }) audit)
    else conclude (check_permissions tables user.id perms match wildcard_support)
        (insufficient_permission perms) allowed (entry request user permission_check denied perms)
        audit
