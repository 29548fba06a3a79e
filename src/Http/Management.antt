-- ===== src/Http/Management.antt =====
-- server/internal/httpapi/router_2fa.go: what the handlers that manage a second factor share, and
-- the status.
pub mod Setup
pub mod Enable
pub mod RecoveryCodes
pub mod Disable
pub mod Guarded
use vibe_terminal.Base.{ℕ, suc, String, List, [], ◌∷◌, Bool, if◌then◌else◌}
use vibe_terminal.Auth.Cookie.{check_password}
use vibe_terminal.Store.Rows.{User, RecoveryCodeInput}
use vibe_terminal.Store.Db.{Result, ok, err}
use vibe_terminal.Store.Settings.{get_two_factor_status}
use vibe_terminal.Sessions.{log_event}
use vibe_terminal.Http.{
  Packages, Router, World, Body, two_factor_status, Http, write_json, write_error, call,
  unavailable,
}
use vibe_terminal.Http.Limits.{
  management, attempt, reject, clear, request_ip, management_limit_keys,
}
use vibe_terminal.Http.Incoming.{Request, Decoder, require_user, read_login_json}
use vibe_terminal.Http.Login.{user_event, audit_with}

module _ (lib : Packages) (r : Router) (o : World) where
  unfoldable pub write_status : Result (Bool × ℕ) → Http
  write_status (err e) = unavailable
  write_status (ok (enabled, remaining)) = write_json 200 (two_factor_status enabled remaining)

  unfoldable pub handle_two_factor_status : Request → Http
  unfolding write_status
  handle_two_factor_status req =
      require_user lib r o req (λ u. call (get_two_factor_status u.id) write_status)

  unfoldable pub audit_management_rate_limit : String → String → String → Http → Http
  audit_management_rate_limit user_id stage source_ip =
      audit_with lib r o user_id "management_reauthentication_rate_limited"
        "management reauthentication attempts rate limited" (lib.stage_json stage source_ip)

  -- `managementAttempt`, and the handler goes on if it returns true.
  unfoldable pub management_attempt : List String → Http → Http
  management_attempt keys = attempt o management keys

  unfoldable pub write_invalid_management_credential :
      String → String → String → List String → String → String → Http
  unfolding audit_management_rate_limit
  write_invalid_management_credential user_id stage source_ip keys code message =
      reject o management keys (audit_management_rate_limit user_id stage source_ip)
        (write_error 401 code message)

  unfoldable pub invalid_password : User → String → String → List String → Http
  unfolding write_invalid_management_credential
  invalid_password u stage ip keys =
      write_invalid_management_credential u.id stage ip keys "invalid_credentials"
        "invalid current password"

  unfoldable pub invalid_code : User → String → String → List String → Http
  unfolding write_invalid_management_credential
  invalid_code u stage ip keys =
      write_invalid_management_credential u.id stage ip keys "invalid_two_factor_code"
        "invalid two factor code"

  -- `auditCommittedTwoFactorChange`, whose error is only logged.
  unfoldable pub audit_committed_change : User → String → String → Http → Http
  audit_committed_change u event_type summary k =
      call (log_event o.outside (user_event u.id event_type summary "")) (λ e. k)

  -- The beginning of every handler that changes something: the user, the body, and an attempt that
  -- the limiter allows. What follows gets the user, the body, the address and the keys.
  unfoldable pub managed :
      {A : Type 0} → Decoder A → Request → (User → A → String → List String → Http) → Http
  unfolding management_attempt
  managed json req k = require_user lib r o req (λ u. read_login_json lib json req (λ body.
      let ip = request_ip lib req.remote_addr in
      let keys = management_limit_keys u.id ip in management_attempt keys (k u body ip keys)))

  -- The test of the password, in the stage that it is made for.
  unfoldable pub with_password : String → User → String → String → List String → Http → Http
  unfolding invalid_password
  with_password stage u typed ip keys k =
      if check_password lib.cookies u.password_hash typed
      then k
      else invalid_password u stage ip keys

-- The loop that gives each hash an identifier.
unfoldable pub code_inputs : (ℕ → String) → ℕ → List String → List RecoveryCodeInput
code_inputs ids i [] = []
code_inputs ids i (hash ∷ hashes) =
    record { id = ids i; hash = hash } ∷ code_inputs ids (suc i) hashes
