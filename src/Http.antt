-- ===== src/Http.antt =====
-- server/internal/httpapi/router.go: the state that the handlers of HTTP requests share, the replies,
-- and the actions that the handlers are made of.
pub mod Limits
pub mod Incoming
pub mod Login
pub mod SecondFactor
pub mod Issued
pub mod Management
pub mod Locks
pub mod Tokens
pub mod Register
pub mod Snippets
pub mod Terminals
pub mod Refused
pub mod Registered
pub mod Expiry
use Prim.Native.String.{◌++◌}
use vibe_terminal.Base.{
  ℕ, ◌*◌, ℤ, String, Bool, true, false, Option, none, some, List, if◌then◌else◌,
}
use vibe_terminal.Limiter.{FailureLimiter}
use vibe_terminal.Limiter.Attempts.{
  allow_login_attempt, record_login_failure, clear_login_failures, retry_seconds,
}
use vibe_terminal.Auth.Cookie
use vibe_terminal.Auth.Cookie.{SessionManager, set_cookie}
use vibe_terminal.Auth.Challenge
use vibe_terminal.Auth.Secrets
use vibe_terminal.Auth.Secrets.{TwoFactorManager}
use vibe_terminal.Auth.Totp
use vibe_terminal.Auth.Setup.{UrlPackages}
use vibe_terminal.Store.Rows.{
  User, Device, TerminalSession, CommandSnippet, AgentToken, OutputChunk, AuditEvent,
}
use vibe_terminal.Store.Db.{Conn, Db, Result, ok, err, Error, not_found}
use vibe_terminal.Sessions.{Server, Outside, log_event}

-- The packages that the handlers call. `split_host` is `net.SplitHostPort`, `media_type` is
-- `mime.ParseMediaType`, `method_json` and `stage_json` are `json.Marshal` of the audit's metadata.
pub record Packages : Type 0 where
  pub cookies : Cookie.Packages
  pub challenges : Challenge.Packages
  pub secrets : Secrets.Packages
  pub totp : Totp.Packages
  pub urls : UrlPackages
  pub sha256 : String → String
  pub trim_space : String → String
  pub to_lower : String → String
  pub split_host : String → Option String
  pub media_type : String → Option String
  pub method_json : String → Option String
  pub stage_json : String → String → Option String

-- The fields of `router` that do not change. A nil `twoFactor` is none.
pub record Router : Type 0 where
  pub sessions : SessionManager
  pub two_factor : Option TwoFactorManager

-- What the handling of one request takes from outside: the readings of the clock, by the router, by
-- the limiter before and after an attempt, by the issue and the check of a challenge and by the
-- cookie; what `rand.Read` gives for a challenge, a secret, a nonce, the recovery
-- codes and a token; `uuid.NewString` for an audit event, a new row, a configuration and the recovery
-- codes; and what the store takes.
pub record World : Type 0 where
  pub now : ℕ
  pub allow_at : ℕ
  pub record_at : ℕ
  pub issue_at : ℕ
  pub verify_at : ℕ
  pub cookie_at : ℕ
  pub jti_bytes : Option String
  pub secret_bytes : Option String
  pub nonce : Option String
  pub recovery_reads : List (Option String)
  pub token_bytes : Option String
  pub event_id : String
  pub new_id : String
  pub configuration_id : String
  pub code_id : ℕ → String
  pub outside : Outside

pub record App : Type 0 where
  pub server : Server
  pub password_limiter : FailureLimiter
  pub two_factor_limiter : FailureLimiter
  pub management_limiter : FailureLimiter

-- What the handlers write as JSON.
pub data Body : Type 0 where
  fault : (code : String) (message : String) → Body
  done : Body
  user : User → Body
  challenge : (token : String) (expires_in : ℕ) → Body
  two_factor_status : (enabled : Bool) (recovery_codes_remaining : ℕ) → Body
  setup : (manual_key : String) (otpauth_uri : String) (expires_at : ℕ) → Body
  recovery_codes : List String → Body
  no_content : Body
  agent_token : AgentToken → Option String → Body
  agent_tokens : List AgentToken → Body
  registered : (device_id : String) (credential : String) → Body
  snippet : CommandSnippet → Body
  snippets : List CommandSnippet → Body
  device : Device → (online : Bool) → Body
  devices : List (Device × Bool) → Body
  session : TerminalSession → Body
  sessions : List TerminalSession → Body
  output : List (OutputChunk × String) → Body

-- A response. The session cookie has a value and the time when it expires.
pub record Reply : Type 0 where
  pub status : ℕ
  pub retry_after : Option ℕ
  pub cookie : Option (String × ℕ)
  pub body : Body

abbrev pub Http : Type 0
Http = App → Reply × App

-- `writeJSON`
unfoldable pub write_json : ℕ → Body → Http
write_json status body s =
    (record { status = status; retry_after = none; cookie = none; body = body }, s)

unfoldable pub write_error : ℕ → String → String → Http
unfolding write_json
write_error status code message = write_json status (fault code message)

unfoldable pub write_rate_limit : ℕ → Http
write_rate_limit retry_after s = (
  record {
    status = 429;
    retry_after = some (retry_seconds retry_after);
    cookie = none;
    body = fault "too_many_attempts" "too many login attempts";
  },
  s,
)

abbrev pub with_conn : Conn → App → App
with_conn c s = record s { server = record s.server { conn = c } }

-- A call of the store, and what follows on its result.
unfoldable pub call : {A : Type 0} → Db A → (Result A → Http) → Http
call m f s = let (r, c) = m s.server.conn in f r (with_conn c s)

-- `_ = r.audit.Log(…)`
unfoldable pub log_audit : World → AuditEvent → Http → Http
log_audit o event k = call (log_event o.outside event) (λ e. k)

-- `writeStoreError`
unfoldable pub write_store_error : Error → String → Http
write_store_error not_found resource =
    write_error 404 (resource ++ "_not_found") (resource ++ " not found")
write_store_error e resource =
    write_error 500 (resource ++ "_error") ("failed to access " ++ resource)

unfoldable pub random_token : Packages → World → Option String
random_token lib o = elim o.token_bytes [
  | none ↦ none
  | some bytes ↦ some (lib.cookies.base64_encode bytes)
]

unfoldable pub hash_secret : Packages → String → String
hash_secret lib secret = lib.cookies.base64_encode (lib.sha256 secret)

abbrev pub unavailable : Http
unavailable = write_error 500 "two_factor_unavailable" "two factor authentication is unavailable"

abbrev pub state_conflict : Http
state_conflict =
    write_error 409 "two_factor_state_conflict" "two factor authentication state changed"

abbrev pub restart_required : Http
restart_required = write_error 401 "login_restart_required" "restart login to continue"
