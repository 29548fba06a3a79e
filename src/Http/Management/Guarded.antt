-- ===== src/Http/Management/Guarded.antt =====
-- router_2fa.go: what a change of the second factor's tables needs.
pub mod Password
use vibe_terminal.Base.{
  ℕ, String, ◌≡◌, ◌⊎◌, refl, sym, ap, ◌∙◌, true, false, Bool, Option, none, some, List, ◌==◌, arith,
  inl, inr, Option-cases, Bool-cases, not, if◌then◌else◌,
}
use vibe_terminal.Json.{validate_no_duplicate_json_fields}
use vibe_terminal.Limiter.Attempts.{allow_login_attempt, record_login_failure}
use vibe_terminal.Auth.Cookie.{Session, get_session}
use vibe_terminal.Auth.Cookie
use vibe_terminal.Store.Rows.{User, UserTwoFactor, RecoveryCode, AuditEvent, Tables}
use vibe_terminal.Store.Db.{
  Conn, Db, Result, ok, err, not_found, conflict, login_restart_required, invalid_second_factor,
  one_credential, driver, transaction,
}
use vibe_terminal.Store.Table.{find_where}
use vibe_terminal.Store.TwoFactor.{insert_audit_event}
use vibe_terminal.Store.Devices.{get_user_by_id, create_audit_event}
use vibe_terminal.Sessions.{log_event}
use vibe_terminal.Http.{
  Packages, Router, World, App, Http, with_conn, write_error, write_rate_limit, call,
}
use vibe_terminal.Http.Limits.{
  Guard, management, limiter, set_limiter, attempt, reject, clear, request_ip,
  management_limit_keys,
}
use vibe_terminal.Http.Incoming.{
  BodyRead, too_large, unreadable, content, Request, Decoder, decode_body, read_body, is_json,
  read_login_json, found_user, session_user, require_user,
}
use vibe_terminal.Http.Login.{user_event, audit_with}
use vibe_terminal.Http.Issued.{IsRead}
use vibe_terminal.Http.Management.{
  managed, audit_committed_change, invalid_password, invalid_code, management_attempt,
}

-- The tables of the second factor.
abbrev pub settings : App → List UserTwoFactor × List RecoveryCode
settings s = (s.server.conn.tables.user_two_factor, s.server.conn.tables.two_factor_recovery_codes)

-- A handler that does not change them.
abbrev pub LeavesSettings : Http → Type 0
LeavesSettings k = (s : App) → settings (k s).1 ≡ settings s

-- A handler that changes them only if `P` holds of the database before.
abbrev pub ProtectsSettings : (Tables → Type 0) → Http → Type 0
ProtectsSettings P k = (s : App) → (settings (k s).1 ≡ settings s) ⊎ P s.server.conn.tables

set_limiter_lem : (g : Guard) (l : _) (s : App) → (set_limiter g l s).server ≡ s.server
unfolding set_limiter
set_limiter_lem g l s = ground arith

log_event_lem :
    (o : World) (e : AuditEvent) (c : Conn)
    → ((log_event o.outside e c).1.tables.user_two_factor ≡ c.tables.user_two_factor)
      × ((log_event o.outside e c).1.tables.two_factor_recovery_codes
          ≡ c.tables.two_factor_recovery_codes)
unfolding log_event create_audit_event transaction insert_audit_event
log_event_lem o e c = ground arith

pub call_log-LeavesSettings :
    (o : World) (e : AuditEvent) (f : Result AuditEvent → Http)
    → ((r : Result AuditEvent) → LeavesSettings (f r))
    → LeavesSettings (call (log_event o.outside e) f)
unfolding call
call_log-LeavesSettings o e f h s =
    let done = log_event o.outside e s.server.conn in
    h done.0 (with_conn done.1 s) ∙ ground (arith, log_event_lem o e s.server.conn)

audit_with-LeavesSettings :
    (lib : Packages) (r : Router) (o : World) (user_id event_type summary : String)
    (metadata_json : Option String) (k : Http)
    → LeavesSettings k
    → LeavesSettings (audit_with lib r o user_id event_type summary metadata_json k)
unfolding audit_with
audit_with-LeavesSettings lib r o user_id event_type summary none k h = h
audit_with-LeavesSettings lib r o user_id event_type summary (some json) k h =
    call_log-LeavesSettings o (user_event user_id event_type summary json) (λ e. k) (λ e. h)

reject-LeavesSettings :
    (o : World) (keys : List String) (audit : Http → Http) (refuse : Http)
    → ((k : Http) → LeavesSettings k → LeavesSettings (audit k))
    → LeavesSettings refuse
    → LeavesSettings (reject o management keys audit refuse)
unfolding reject set_limiter write_rate_limit
reject-LeavesSettings o keys audit refuse ha hr s =
    let failed = record_login_failure (limiter management s) keys o.record_at in
    elim (Bool-cases failed.1) [
      | inl e ↦
          rw e (ha (write_rate_limit failed.2) (λ t. refl) (set_limiter management failed.0 s))
      | inr e ↦ rw e (hr (set_limiter management failed.0 s))
    ]

pub clear-LeavesSettings :
    (keys : List String) (k : Http) → LeavesSettings k → LeavesSettings (clear management keys k)
unfolding clear set_limiter
clear-LeavesSettings keys k h s = h _

module _ (lib : Packages) (r : Router) (o : World) where
  pub invalid_code-LeavesSettings :
      (u : User) (stage ip : String) (keys : List String)
      → LeavesSettings (invalid_code lib r o u stage ip keys)
  unfolding invalid_code write_error
  invalid_code-LeavesSettings u stage ip keys =
      reject-LeavesSettings o keys _
        (write_error 401 "invalid_two_factor_code" "invalid two factor code")
        (audit_with-LeavesSettings lib r o u.id "management_reauthentication_rate_limited"
          "management reauthentication attempts rate limited" (lib.stage_json stage ip))
        (λ s. refl)

  pub invalid_password-LeavesSettings :
      (u : User) (stage ip : String) (keys : List String)
      → LeavesSettings (invalid_password lib r o u stage ip keys)
  unfolding invalid_password write_error
  invalid_password-LeavesSettings u stage ip keys =
      reject-LeavesSettings o keys _
        (write_error 401 "invalid_credentials" "invalid current password")
        (audit_with-LeavesSettings lib r o u.id "management_reauthentication_rate_limited"
          "management reauthentication attempts rate limited" (lib.stage_json stage ip))
        (λ s. refl)
