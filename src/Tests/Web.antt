-- ===== src/Tests/Web.antt =====
-- The HTTP handlers, with functions in place of the packages, on a database with two users: one has a
-- second factor.
mod Cookies
mod Protected
use Prim.Native.String
use vibe_terminal.Base.{
  ℕ, ◌+◌, ◌*◌, ℤ, pos, String, ◌≡◌, refl, true, false, Bool, Option, none, some, List, [], ◌∷◌,
  ◌==◌, any, take,
}
use vibe_terminal.Text.{has_char, split, cut_suffix}
use vibe_terminal.Hub.{new_hub}
use vibe_terminal.Presence.{new_presence}
use vibe_terminal.Json.{Token, open_object, close_object, string}
use vibe_terminal.Limiter.{FailureLimiter, Entry, allow, success}
use vibe_terminal.Limiter.Attempts.{allow_login_attempt, clear_login_failures}
use vibe_terminal.Auth.{unix, from_unix}
use vibe_terminal.Auth.Cookie.{SessionManager, set_cookie}
use vibe_terminal.Auth.Cookie
use vibe_terminal.Auth.Challenge.{ChallengePayload}
use vibe_terminal.Auth.Challenge
use vibe_terminal.Auth.Secrets
use vibe_terminal.Auth.Secrets.{TwoFactorManager, recovery_code_hash}
use vibe_terminal.Auth.Totp
use vibe_terminal.Store.Rows.{User, UserTwoFactor, Tables}
use vibe_terminal.Store.Db.{Conn, transaction}
use vibe_terminal.Sessions.{Server, Outside, log_event}
use vibe_terminal.Http.{Packages, Router, World, App, call}
use vibe_terminal.Http.Limits.{attempt, clear}
use vibe_terminal.Http.Incoming.{content, Request, Decoder}
use vibe_terminal.Http.Login.{LoginBody, handle_login, login_audit_event, finish_login}
use vibe_terminal.Http.Issued.{IsRead}
use vibe_terminal.Http.Issued.Password.{IsPasswordLogin, handle_login-IsPasswordLogin}
use vibe_terminal.Json.{validate_no_duplicate_json_fields}
use vibe_terminal.Http.Limits.{password_login_limit_keys, second_factor_limit_keys}
use vibe_terminal.Http.Incoming.{read_login_json, read_json}
use vibe_terminal.GoMap.{lookup}
use vibe_terminal.Auth.Challenge.{verify_login_challenge_at}
use vibe_terminal.Auth.Cookie.{check_password, get_session}
use vibe_terminal.Auth.Totp.{match_totp}
use vibe_terminal.Store.Db.{◌>>=◌, exec}
use vibe_terminal.Store.Table.{find_where, update_where}
use vibe_terminal.Store.TwoFactor.{
  insert_audit_event, consume_login_second_factor, claim_challenge, use_code, advance_counter,
}
use vibe_terminal.Store.Settings.{get_enabled_two_factor}
use vibe_terminal.Store.Tokens.{usable, use_agent_token_by_hash, mark_used}
use vibe_terminal.Store.Devices.{
  get_user_by_username, get_user_by_id, create_audit_event, create_device, insert_device,
}
use vibe_terminal.Http.{hash_secret, random_token, log_audit, write_json}
use vibe_terminal.Http.SecondFactor.{TwoFactorBody, handle_login_two_factor}
use vibe_terminal.Http.Issued.BothFactors.{
  IsSecondFactorLogin, handle_login_two_factor-IsSecondFactorLogin,
}
use vibe_terminal.Http.Management.Setup.{PasswordBody, handle_two_factor_setup}
use vibe_terminal.Http.Management.RecoveryCodes.{RotationBody, handle_two_factor_recovery_codes}
use vibe_terminal.Http.Management.Disable.{handle_two_factor_disable}
use vibe_terminal.Http.Management.Guarded.{ProtectsSettings}
use vibe_terminal.Http.Management.Guarded.Password.{IsManaged, HasPassword, password_protects}
use vibe_terminal.Http.Register.{RegisterBody, handle_agent_register}
use vibe_terminal.Http.Registered.{IsRegistered, handle_agent_register-IsRegistered}
use vibe_terminal.Tests.Challenges.{cookies, manager, challenges}
use vibe_terminal.Tests.Encoding.{escape, unescape, tally}

abbrev pub secrets : Secrets.Packages
secrets = record {
  hkdf = λ root purpose. some "key";
  nonce_size = 0;
  seal = λ key nonce text. text;
  open_sealed = λ key nonce text. some text;
  base64_encode = λ s. s;
  base64_decode = λ s. some s;
  base32_encode = λ s. s;
  hmac_sha256 = λ key text. text;
  to_upper = λ s. s;
}

abbrev pub totp : Totp.Packages
totp = record {
  trim_space = λ s. s;
  to_upper = λ s. s;
  base32_decode = λ s. some [];
  hmac_sha1 = λ key message. [];
}

abbrev pub packages : Packages
packages = record {
  cookies = cookies;
  challenges = challenges;
  secrets = secrets;
  totp = totp;
  urls = record { query_escape = λ s. s; replace_plus = λ s. s; encode_query = λ q. "" };
  sha256 = λ s. s;
  trim_space = λ s. s;
  to_lower = λ s. s;
  split_host = λ s. some s;
  media_type = λ s. some s;
  method_json = λ method. some "{}";
  stage_json = λ stage ip. some "{}";
}

abbrev pub router : Router
router = record {
  sessions = manager;
  two_factor = some (record { cipher = "c"; recovery_key = "r"; challenge_key = "k" });
}

abbrev pub world : World
world = record {
  now = 62135596810 * 1000000000;
  allow_at = 5;
  record_at = 5;
  issue_at = 5;
  verify_at = 5;
  cookie_at = 2;
  jti_bytes = some "j";
  secret_bytes = some "s";
  nonce = some "";
  recovery_reads = [];
  token_bytes = some "t";
  event_id = "e9";
  new_id = "d9";
  configuration_id = "k9";
  code_id = λ n. "r9";
  outside = record {
    clock = 7;
    id = "e8";
    delivers = λ peer msg. true;
    output = none;
    sync_sessions = λ s. none;
    session_started = λ s. none;
    stdout = λ s. none;
    session_exit = λ s. none;
  };
}

abbrev pub limiter : FailureLimiter
limiter = record { entries = []; max_failures = 5; window = 600; block_for = 900; max_entries = 10 }

abbrev pub user : String → String → User
user id name = record {
  id = id;
  username = name;
  password_hash = "hunter2";
  created_at = 1;
  updated_at = 1;
}

abbrev pub tables : Tables
tables = record {
  users = user "u1" "admin" ∷ user "u2" "guest" ∷ [];
  user_two_factor =
      record {
        user_id = "u1";
        configuration_id = "k1";
        secret_ciphertext = "v1.sealed";
        setup_expires_at = none;
        enabled_at = some 3;
        last_totp_counter = none;
        created_at = 2;
        updated_at = 3;
      }
      ∷ [];
  two_factor_recovery_codes =
      record {
        id = "r1";
        user_id = "u1";
        code_hash = "u1\0abcdef12";
        used_at = none;
        created_at = 3;
      }
      ∷ [];
  login_challenges =
      record {
        jti = "j";
        user_id = "u1";
        configuration_id = "k1";
        expires_at = 62135597100 * 1000000000;
        consumed_at = none;
        created_at = 4;
      }
      ∷ [];
  agent_tokens =
      record {
        id = "t1";
        name = "agent";
        token_hash = "secret";
        expires_at = 62135597000 * 1000000000;
        used_at = none;
        revoked_at = none;
        created_at = 4;
      }
      ∷ [];
  devices = [];
  terminal_sessions = [];
  audit_events = [];
  terminal_output_chunks = [];
  command_snippets = [];
}

abbrev pub app : App
app = record {
  server = record {
    conn = record { tables = tables; faults = λ n. false };
    hub = new_hub;
    presence = new_presence;
    sent = [];
    responses = [];
  };
  password_limiter = limiter;
  two_factor_limiter = limiter;
  management_limiter = limiter;
}

-- A body that decodes to one value.
abbrev pub only : {A : Type 0} → A → Decoder A
only a = record { tokens = λ s. open_object ∷ close_object ∷ []; decode = λ s. some (a, true) }

abbrev pub request : Request
request = record {
  content_type = "application/json";
  remote_addr = "10.0.0.1";
  cookie = none;
  body = content "{}";
}
