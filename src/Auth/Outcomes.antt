-- ===== src/Auth/Outcomes.antt =====
-- What the three route dependencies decide, and what they leave in the audit log.
use douyin_data_dashboard.Prelude.{
  String, ◌≡◌, inl, inr, ◌⊎◌, Bool, true, false, List, [], ◌∷◌, ◌++◌, inl, inr, str_eq,
  if◌then◌else◌, all, any, contains,
}
use douyin_data_dashboard.Auth.Tables.{Tables, get_user_permissions, get_user_roles}
use douyin_data_dashboard.Auth.Permission.{has_permission}
use douyin_data_dashboard.Auth.Check.{AuthError, Result, ok, err}
use douyin_data_dashboard.Auth.Audit.{granted, AuditEntry, AuditSession, rollback_rows}
use douyin_data_dashboard.Auth.Session.{request_route}
use douyin_data_dashboard.Auth.Guard.{User}

-- Rows are flushed only in a transaction.
abbrev pub IsOpen : AuditSession → Type 0
IsOpen s = (s.in_transaction ≡ true) ⊎ (s.flushed ≡ [])

-- What a request leaves of the audit rows: where the dependency returns, and the handler then writes
-- nothing and returns, one row more, if the database takes it, about the user and granted; where it
-- raises, none, whatever the handler is.
abbrev pub IsAudited :
    Bool
    → AuthError
    → User
    → (AuditSession → Result (Unit {0}) × AuditSession)
    → AuditSession
    → Type 0
IsAudited true refusal user dependency s =
    (e : AuditEntry) × (e.actor_id ≡ user.id)
    × (e.result ≡ granted)
    × ((request_route dependency (λ s'. (ok tt, s')) s).1.committed
        ≡ s.committed ++ (s.flushed ++ (if s.accepts e then e ∷ [] else [])))
IsAudited false refusal user dependency s =
    (handler : AuditSession → Result (Unit {0}) × AuditSession)
    → request_route dependency handler s ≡ (err refusal, rollback_rows s)

-- The dependency returns where `b` holds and raises `refusal` where not, and what the request leaves
-- of the audit rows goes by that.
abbrev pub Settles :
    Bool
    → AuthError
    → User
    → (AuditSession → Result (Unit {0}) × AuditSession)
    → AuditSession
    → Type 0
Settles b refusal user dependency s =
    ((dependency s).0 ≡ (if b then ok tt else err refusal)) × IsAudited b refusal user dependency s

abbrev pub IsMatch : String → Type 0
IsMatch match = (match ≡ "all") ⊎ (match ≡ "any")

-- What `match` asks of the required names.
abbrev pub matched : String → List String → (String → Bool) → Bool
matched match required holds = if str_eq match "all" then all required holds else any required holds

-- The user holds the required permission in the tables.
abbrev pub holds_permission : Tables → User → Bool → String → Bool
holds_permission tables user wildcard req =
    has_permission req (get_user_permissions tables user.id) wildcard

abbrev pub holds_role : Tables → User → String → Bool
holds_role tables user req = contains (get_user_roles tables user.id) req
