-- ===== src/Auth/Audit.antt =====
-- Writing an audit entry: `create_audit_log`, `AuditService.log` and `extract_client_info` of
-- src/audit/service.py.
use douyin_data_dashboard.Prelude.{
  ℕ, String, Bool, true, false, not, Option, none, some, List, [], ◌∷◌, ◌++◌, if◌then◌else◌,
  or_else, is_empty, strip, first_part,
}

pub data AuditAction : Type 0 where
  permission_check role_check : AuditAction

pub data AuditResult : Type 0 where
  granted denied : AuditResult

pub data Bypass : Type 0 where
  superuser owner : Bypass

-- `extra` is the list under "permissions" or "roles" and, where there is one, the "bypass".
pub record AuditEntry : Type 0 where
  pub action : AuditAction
  pub result : AuditResult
  pub actor_id : ℕ
  pub resource_type : Option String
  pub resource_id : Option String
  pub user_agent : Option String
  pub ip : Option String
  pub required : List String
  pub bypass : Option Bypass
  pub request_id : String

-- What a request's session knows of the audit table: the rows that are committed, those that are
-- only flushed in its open transaction, whether it is in one, and which rows the database takes: an
-- insert of any other raises.
pub record AuditSession : Type 0 where
  pub committed : List AuditEntry
  pub flushed : List AuditEntry
  pub in_transaction : Bool
  pub accepts : AuditEntry → Bool

-- `create_audit_log`, which raises (`none`) where the database refuses the row. In a transaction the
-- row is flushed in a savepoint, which a refusal rolls back alone; else it has a transaction of its
-- own, which is committed.
unfoldable pub create_audit_log : AuditEntry → AuditSession → Option AuditSession
create_audit_log e s =
    if not (s.accepts e)
    then none
    else if s.in_transaction
    then some (record s { flushed = s.flushed ++ e ∷ [] })
    else some (record s { committed = s.committed ++ e ∷ [] })

-- `AuditService.log` swallows every exception.
unfoldable pub log : AuditEntry → AuditSession → AuditSession
unfolding create_audit_log
log e s = or_else (create_audit_log e s) s

-- A query of the session begins a transaction where it is in none.
abbrev pub begin_query : AuditSession → AuditSession
begin_query s = record s { in_transaction = true }

-- What `session.commit()` and `session.rollback()` do to the rows.
abbrev pub commit_rows : AuditSession → AuditSession
commit_rows s = record s {
  committed = s.committed ++ s.flushed;
  flushed = [];
  in_transaction = false;
}

abbrev pub rollback_rows : AuditSession → AuditSession
rollback_rows s = record s { flushed = []; in_transaction = false }

pub record Request : Type 0 where
  pub user_agent_header : Option String
  pub forwarded_for : Option String
  pub client_host : Option String
  pub path : String
  pub request_id : String

-- `extract_client_info(request)`
unfoldable pub extract_client_info : Request → Option String × Option String
extract_client_info r = (
  r.user_agent_header,
  elim r.forwarded_for [
    | none ↦ r.client_host
    | some text ↦ if is_empty text then r.client_host else some (strip (first_part text))
  ],
)
