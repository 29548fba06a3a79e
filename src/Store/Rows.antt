-- ===== src/Store/Rows.antt =====
-- server/internal/store/store.go: the structs, which are the rows of the tables of `Migrate`. A
-- time is the number of nanoseconds since Go's zero time, always in UTC; `sql.NullTime`,
-- `sql.NullInt64` are options. An `int` or `int64` is an integer, which the methods only copy and
-- compare.
use vibe_terminal.Base.{ℕ, ℤ, String, Bool, Option, List}

pub record User : Type 0 where
  pub id : String
  pub username : String
  pub password_hash : String
  pub created_at : ℕ
  pub updated_at : ℕ

pub record UserTwoFactor : Type 0 where
  pub user_id : String
  pub configuration_id : String
  pub secret_ciphertext : String
  pub setup_expires_at : Option ℕ
  pub enabled_at : Option ℕ
  pub last_totp_counter : Option ℤ
  pub created_at : ℕ
  pub updated_at : ℕ

pub record LoginChallenge : Type 0 where
  pub jti : String
  pub user_id : String
  pub configuration_id : String
  pub expires_at : ℕ
  pub consumed_at : Option ℕ
  pub created_at : ℕ

-- `RecoveryCodeInput`
pub record RecoveryCodeInput : Type 0 where
  pub id : String
  pub hash : String

-- A row of `two_factor_recovery_codes`.
pub record RecoveryCode : Type 0 where
  pub id : String
  pub user_id : String
  pub code_hash : String
  pub used_at : Option ℕ
  pub created_at : ℕ

pub record AgentToken : Type 0 where
  pub id : String
  pub name : String
  pub token_hash : String
  pub expires_at : ℕ
  pub used_at : Option ℕ
  pub revoked_at : Option ℕ
  pub created_at : ℕ

pub record CreateAgentTokenParams : Type 0 where
  pub id : String
  pub name : String
  pub token_hash : String
  pub expires_at : ℕ

pub record Device : Type 0 where
  pub id : String
  pub name : String
  pub platform : String
  pub agent_version : String
  pub fingerprint : String
  pub credential_hash : String
  pub authorized : Bool
  pub last_seen_at : Option ℕ
  pub created_at : ℕ
  pub updated_at : ℕ

pub record TerminalSession : Type 0 where
  pub id : String
  pub device_id : String
  pub title : String
  pub shell_path : String
  pub working_directory : String
  pub status : String
  pub agent_pid : ℤ
  pub last_output_seq : ℤ
  pub created_at : ℕ
  pub updated_at : ℕ

pub record AuditEvent : Type 0 where
  pub id : String
  pub user_id : String
  pub device_id : String
  pub session_id : String
  pub event_type : String
  pub summary : String
  pub metadata_json : String
  pub created_at : ℕ

pub record OutputChunk : Type 0 where
  pub id : String
  pub session_id : String
  pub start_seq : ℤ
  pub end_seq : ℤ
  pub storage_path : String
  pub byte_size : ℤ
  pub created_at : ℕ

pub record CommandSnippet : Type 0 where
  pub id : String
  pub name : String
  pub command : String
  pub created_at : ℕ
  pub updated_at : ℕ

pub record ConsumeLoginSecondFactorParams : Type 0 where
  pub challenge_jti : String
  pub user_id : String
  pub configuration_id : String
  pub totp_counter : Option ℤ
  pub recovery_hash : String
  pub now : ℕ
  pub audit : AuditEvent

-- The database that `Migrate` sets up.
pub record Tables : Type 0 where
  pub users : List User
  pub user_two_factor : List UserTwoFactor
  pub two_factor_recovery_codes : List RecoveryCode
  pub login_challenges : List LoginChallenge
  pub agent_tokens : List AgentToken
  pub devices : List Device
  pub terminal_sessions : List TerminalSession
  pub audit_events : List AuditEvent
  pub terminal_output_chunks : List OutputChunk
  pub command_snippets : List CommandSnippet

-- `SessionStarting` and so on
abbrev pub session_starting : String
session_starting = "starting"

abbrev pub session_running : String
session_running = "running"

abbrev pub session_exited : String
session_exited = "exited"

abbrev pub session_lost : String
session_lost = "lost"

abbrev pub session_closed : String
session_closed = "closed"
