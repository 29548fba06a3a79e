-- ===== src/Tests/Logins.antt =====
-- store.go: logins with a second factor, on a database with one user.
use vibe_terminal.Base.{
  ℕ, pos, String, ◌≡◌, ◌≢◌, refl, false, none, some, List, [], ◌∷◌, arith, false→ne,
}
use vibe_terminal.Store.Rows.{
  UserTwoFactor, LoginChallenge, AuditEvent, Tables, ConsumeLoginSecondFactorParams,
}
use vibe_terminal.Store.Db.{ok, Conn, transaction}
use vibe_terminal.Store.Table.{update_where, find_where}
use vibe_terminal.Store.TwoFactor.{
  claim_challenge, advance_counter, use_code, insert_audit_event, consume_login_second_factor,
}
use vibe_terminal.Store.TwoFactor.Consume.{
  IsAtomic, IsAccepted, consumed, consume-IsAtomic, consume_sound, consume_complete,
}
use vibe_terminal.Store.History.{Call, creates, run}
use vibe_terminal.Store.History.CounterReplay.{counter_replay}
use vibe_terminal.Store.History.CodeReplay.{code_replay}
use vibe_terminal.Store.History.ChallengeReplay.{challenge_replay}

abbrev no_audit : AuditEvent
no_audit = record {
  id = "";
  user_id = "";
  device_id = "";
  session_id = "";
  event_type = "";
  summary = "";
  metadata_json = "";
  created_at = 0;
}

abbrev login_audit : AuditEvent
login_audit = record {
  id = "e1";
  user_id = "u1";
  device_id = "";
  session_id = "";
  event_type = "login_success";
  summary = "user logged in";
  metadata_json = "{}";
  created_at = 100;
}

abbrev setting : UserTwoFactor
setting = record {
  user_id = "u1";
  configuration_id = "k1";
  secret_ciphertext = "sealed";
  setup_expires_at = none;
  enabled_at = some 10;
  last_totp_counter = some (pos 6);
  created_at = 5;
  updated_at = 10;
}

abbrev challenge : String → LoginChallenge
challenge jti = record {
  jti = jti;
  user_id = "u1";
  configuration_id = "k1";
  expires_at = 400;
  consumed_at = none;
  created_at = 90;
}

abbrev tables : Tables
tables = record {
  users =
      record {
        id = "u1";
        username = "admin";
        password_hash = "hash";
        created_at = 1;
        updated_at = 1;
      }
      ∷ [];
  user_two_factor = setting ∷ [];
  two_factor_recovery_codes =
      record { id = "r1"; user_id = "u1"; code_hash = "h1"; used_at = none; created_at = 10 } ∷ [];
  login_challenges = challenge "c1" ∷ [];
  agent_tokens = [];
  devices = [];
  terminal_sessions = [];
  audit_events = [];
  terminal_output_chunks = [];
  command_snippets = [];
}

abbrev conn : Conn
conn = record { tables = tables; faults = λ n. false }

abbrev by_totp : ℕ → ConsumeLoginSecondFactorParams
by_totp counter = record {
  challenge_jti = "c1";
  user_id = "u1";
  configuration_id = "k1";
  totp_counter = some (pos counter);
  recovery_hash = "";
  now = 100;
  audit = login_audit;
}

abbrev by_code : ConsumeLoginSecondFactorParams
by_code = record {
  challenge_jti = "c1";
  user_id = "u1";
  configuration_id = "k1";
  totp_counter = none;
  recovery_hash = "h1";
  now = 100;
  audit = no_audit;
}

-- A second challenge is issued before the login is tried again.
abbrev second_challenge : List Call
second_challenge = creates 150 (challenge "c2") ∷ []

totp_login : (consume_login_second_factor (by_totp 7) conn).0 ≡ ok tt
unfolding consume_login_second_factor transaction claim_challenge advance_counter use_code
    insert_audit_event update_where find_where
totp_login = refl

code_login : (consume_login_second_factor by_code conn).0 ≡ ok tt
unfolding consume_login_second_factor transaction claim_challenge advance_counter use_code
    insert_audit_event update_where find_where
code_login = refl

abbrev totp_again : ConsumeLoginSecondFactorParams
totp_again = record (by_totp 7) { challenge_jti = "c2"; now = 160 }

abbrev code_again : ConsumeLoginSecondFactorParams
code_again = record by_code { challenge_jti = "c2"; now = 160 }

abbrev next_counter : ConsumeLoginSecondFactorParams
next_counter = record (by_totp 8) { now = 160 }

counter_replay_example :
    (consume_login_second_factor totp_again
      (run (consume_login_second_factor (by_totp 7) conn).1 second_challenge)).0
    ≢ ok tt
counter_replay_example =
    counter_replay (by_totp 7) totp_again (pos 7) (pos 7) conn second_challenge (tt, tt) refl refl
      (omega arith) refl refl totp_login (tt, tt)

code_replay_example :
    (consume_login_second_factor code_again
      (run (consume_login_second_factor by_code conn).1 second_challenge)).0
    ≢ ok tt
code_replay_example =
    code_replay by_code code_again conn second_challenge refl refl refl refl code_login (tt, tt)

challenge_replay_example :
    (consume_login_second_factor next_counter
      (run (consume_login_second_factor (by_totp 7) conn).1 second_challenge)).0
    ≢ ok tt
challenge_replay_example =
    challenge_replay (by_totp 7) next_counter conn second_challenge (tt, tt) refl totp_login
      ((false→ne "c2" "c1" refl), tt)

consume-IsAtomic_example : IsAtomic conn (consume_login_second_factor (by_totp 6) conn)
consume-IsAtomic_example = consume-IsAtomic (by_totp 6) conn

consume_sound_example :
    IsAccepted (by_totp 7) tables
    × ((consume_login_second_factor (by_totp 7) conn).1.tables ≡ consumed (by_totp 7) tables)
consume_sound_example = consume_sound (by_totp 7) conn totp_login

totp_IsAccepted : IsAccepted (by_totp 7) tables
totp_IsAccepted = (consume_sound (by_totp 7) conn totp_login).0

consume_complete_example : (consume_login_second_factor (by_totp 7) conn).0 ≡ ok tt
consume_complete_example = consume_complete (by_totp 7) conn (λ n. refl) totp_IsAccepted
