-- ===== src/Http/Login.antt =====
-- server/internal/httpapi/router.go: `handleLogin`, the first step of a login.
use vibe_terminal.Base.{ℕ, String, Option, none, some, List, if◌then◌else◌}
use vibe_terminal.Auth.Challenge.{Claims, issue_login_challenge, verify_login_challenge_at}
use vibe_terminal.Auth.Cookie.{check_password, set_cookie}
use vibe_terminal.Auth.Secrets.{TwoFactorManager}
use vibe_terminal.Store.Rows.{User, UserTwoFactor, AuditEvent}
use vibe_terminal.Store.Db.{Result, ok, err, not_found}
use vibe_terminal.Store.TwoFactor.{create_login_challenge}
use vibe_terminal.Store.Settings.{get_enabled_two_factor}
use vibe_terminal.Store.Devices.{get_user_by_username}
use vibe_terminal.Sessions.{log_event}
use vibe_terminal.Http.{
  Packages, Router, World, Http, user, challenge, write_json, write_error, call, unavailable,
}
use vibe_terminal.Http.Limits.{
  password, attempt, reject, clear, request_ip, password_login_limit_keys,
}
use vibe_terminal.Http.Incoming.{Request, Decoder, read_login_json, require_user}

pub record LoginBody : Type 0 where
  pub username : String
  pub password : String

-- An event of a user with no device and no session.
abbrev pub user_event : String → String → String → String → AuditEvent
user_event user_id event_type summary metadata_json = record {
  id = "";
  user_id = user_id;
  device_id = "";
  session_id = "";
  event_type = event_type;
  summary = summary;
  metadata_json = metadata_json;
  created_at = 0;
}

module _ (lib : Packages) (r : Router) (o : World) where
  unfoldable pub login_event_with : String → ℕ → Option String → Option AuditEvent
  login_event_with user_id now none = none
  login_event_with user_id now (some metadata_json) =
      some (record (user_event user_id "login" "administrator logged in" metadata_json) {
        id = o.event_id;
        created_at = now;
      })

  unfoldable pub login_audit_event : String → String → ℕ → Option AuditEvent
  unfolding login_event_with
  login_audit_event user_id method now = login_event_with user_id now (lib.method_json method)

  -- `auditLoginRateLimit`
  unfoldable pub audit_with : String → String → String → Option String → Http → Http
  audit_with user_id event_type summary none k = k
  audit_with user_id event_type summary (some metadata_json) k =
      call (log_event o.outside (user_event user_id event_type summary metadata_json)) (λ e. k)

  unfoldable pub audit_login_rate_limit : String → String → String → Http → Http
  unfolding audit_with
  audit_login_rate_limit user_id stage source_ip =
      audit_with user_id "login_rate_limited" "login attempts rate limited"
        (lib.stage_json stage source_ip)

  -- `finishLogin`; `Set` has no error.
  unfoldable pub finish_login : User → Http
  finish_login u s = (
    record {
      status = 200;
      retry_after = none;
      cookie = some (set_cookie lib.cookies r.sessions o.cookie_at u.id);
      body = user u;
    },
    s,
  )

  unfoldable pub after_audit : User → Result AuditEvent → Http
  unfolding finish_login
  after_audit u (err e) = write_error 500 "audit_unavailable" "failed to record login audit"
  after_audit u (ok event) = finish_login u

  unfoldable pub log_login : User → Option AuditEvent → Http
  unfolding after_audit
  log_login u none = write_error 500 "session_error" "failed to create session"
  log_login u (some event) = call (log_event o.outside event) (after_audit u)

  unfoldable pub complete_login : User → String → Http
  unfolding log_login login_audit_event
  complete_login u method = log_login u (login_audit_event u.id method o.now)

  unfoldable pub after_challenge : String → Result {0} Unit → Http
  after_challenge token (err e) = unavailable
  after_challenge token (ok _) = write_json 202 (challenge token 300)

  unfoldable pub store_challenge : String → Option Claims → Http
  unfolding after_challenge
  store_challenge token none = unavailable
  store_challenge token (some issued) =
      call
        (create_login_challenge o.outside.clock (record {
          jti = issued.jti;
          user_id = issued.user_id;
          configuration_id = issued.configuration_id;
          expires_at = issued.expires_at;
          consumed_at = none;
          created_at = issued.issued_at;
        }))
        (after_challenge token)

  unfoldable pub check_issued : TwoFactorManager → Option String → Http
  unfolding store_challenge
  check_issued m none = unavailable
  check_issued m (some token) =
      store_challenge token
        (verify_login_challenge_at lib.challenges m.challenge_key token o.verify_at)

  unfoldable pub issue_challenge : User → UserTwoFactor → Option TwoFactorManager → Http
  unfolding check_issued
  issue_challenge u setting none = unavailable
  issue_challenge u setting (some m) = check_issued m (
      issue_login_challenge lib.challenges m.challenge_key u.id setting.configuration_id o.issue_at
        o.jti_bytes)

  unfoldable pub with_setting : User → Result UserTwoFactor → Http
  unfolding complete_login issue_challenge
  with_setting u (err not_found) = complete_login u "password"
  with_setting u (err e) = unavailable
  with_setting u (ok setting) = issue_challenge u setting r.two_factor

  unfoldable pub password_accepted : List String → User → Http
  unfolding with_setting
  password_accepted keys u =
      clear password keys (call (get_enabled_two_factor u.id) (with_setting u))

  -- The user's identifier is empty when there is none.
  unfoldable pub password_refused : List String → String → String → Http
  unfolding audit_login_rate_limit
  password_refused keys ip user_id =
      reject o password keys (audit_login_rate_limit user_id "password" ip)
        (write_error 401 "invalid_credentials" "invalid username or password")

  unfoldable pub check_user : List String → String → String → Result User → Http
  unfolding password_accepted password_refused
  check_user keys ip typed (err not_found) = password_refused keys ip ""
  check_user keys ip typed (err e) =
      write_error 500 "authentication_unavailable" "authentication is unavailable"
  check_user keys ip typed (ok u) =
      if check_password lib.cookies u.password_hash typed
      then password_accepted keys u
      else password_refused keys ip u.id

  unfoldable pub login_with : Request → LoginBody → Http
  unfolding check_user
  login_with req body =
      let ip = request_ip lib req.remote_addr in
      let keys = password_login_limit_keys lib body.username ip in
      attempt o password keys
        (call (get_user_by_username body.username) (check_user keys ip body.password))

  unfoldable pub handle_login : Decoder LoginBody → Request → Http
  unfolding login_with
  handle_login json req = read_login_json lib json req (login_with req)

  unfoldable pub handle_me : Request → Http
  handle_me req = require_user lib r o req (λ u. write_json 200 (user u))
