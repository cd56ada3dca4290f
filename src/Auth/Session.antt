-- ===== src/Auth/Session.antt =====
-- The session that a request's dependencies share: `get_session` of src/session.py.
use douyin_data_dashboard.Prelude.{if◌then◌else◌}
use douyin_data_dashboard.Auth.Check.{Result, ok, err}
use douyin_data_dashboard.Auth.Audit.{AuditSession, commit_rows, rollback_rows}

-- `get_session` around all that a request does with the session, once `init_db` has run. What is
-- committed stays, whether the request returns or raises.
unfoldable pub get_session :
    {A : Type 0} → (AuditSession → Result A × AuditSession) → AuditSession → Result A × AuditSession
get_session body s =
    let (outcome, s') = body s in
    elim outcome [
      | ok a ↦ (ok a, if s'.in_transaction then commit_rows s' else s')
      | err e ↦ (err e, if s'.in_transaction then rollback_rows s' else s')
    ]

-- A request to a route: the dependency runs, and the route's handler where it returns.
abbrev pub request_route :
    (AuditSession → Result (Unit {0}) × AuditSession)
    → (AuditSession → Result (Unit {0}) × AuditSession)
    → AuditSession
    → Result (Unit {0}) × AuditSession
request_route dependency handler = get_session (λ s.
    let (outcome, s') = dependency s in elim outcome [ ok _ ↦ handler s' | err e ↦ (err e, s') ])
