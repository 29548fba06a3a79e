-- ===== src/Store/History.antt =====
-- store.go: histories of calls of the login and two-factor methods. The writers of SQLite come one
-- after another, so that calls of several servers are such a history too; each call may fail.
pub mod Rules
pub mod Counter
pub mod Code
pub mod Challenge
pub mod CounterReplay
pub mod CodeReplay
pub mod ChallengeReplay
use vibe_terminal.Base.{ℕ, ℤ, String, List, [], ◌∷◌}
use vibe_terminal.Store.Rows.{
  UserTwoFactor, LoginChallenge, RecoveryCodeInput, Tables, ConsumeLoginSecondFactorParams,
}
use vibe_terminal.Store.Db.{Db, Conn}
use vibe_terminal.Store.Keeps.{Keeps}
use vibe_terminal.Store.TwoFactor.{create_login_challenge, consume_login_second_factor}
use vibe_terminal.Store.Settings.{
  save_pending_two_factor, save_pending_if_unchanged, enable_two_factor, consume_totp_counter,
  consume_recovery_code, replace_recovery_codes, disable_two_factor,
}

pub data Call : Type 0 where
  creates : ℕ → LoginChallenge → Call
  consumes : ConsumeLoginSecondFactorParams → Call
  saves : ℕ → UserTwoFactor → Call
  saves_if_unchanged : ℕ → UserTwoFactor → String → Call
  enables replaces : String → String → ℤ → List RecoveryCodeInput → ℕ → Call
  consumes_counter : String → String → ℤ → ℕ → Call
  consumes_code : String → String → ℕ → Call
  disables : String → Call

unfoldable pub perform : Call → Db Unit
perform (creates clock challenge) = create_login_challenge clock challenge
perform (consumes params) = consume_login_second_factor params
perform (saves clock setting) = save_pending_two_factor clock setting
perform (saves_if_unchanged clock setting previous) =
    save_pending_if_unchanged clock setting previous
perform (enables user_id configuration_id counter codes now) =
    enable_two_factor user_id configuration_id counter codes now
perform (replaces user_id configuration_id counter codes now) =
    replace_recovery_codes user_id configuration_id counter codes now
perform (consumes_counter user_id configuration_id counter now) =
    consume_totp_counter user_id configuration_id counter now
perform (consumes_code user_id hash now) = consume_recovery_code user_id hash now
perform (disables user_id) = disable_two_factor user_id

-- The results of the calls are dropped: a failed one ends only itself.
unfoldable pub run : Conn → List Call → Conn
run c [] = c
run c (call ∷ calls) = run (perform call c).1 calls

abbrev pub Each : (Call → Type 0) → List Call → Type 0
Each F [] = Unit
Each F (call ∷ calls) = F call × Each F calls

pub run_induction :
    (P : Tables → Type 0) (F : Call → Type 0)
    → ((call : Call) → F call → Keeps P (perform call))
    → (c : Conn) (calls : List Call) → Each F calls
    → P c.tables
    → P (run c calls).tables
unfolding run
run_induction P F step c [] f h = h
run_induction P F step c (call ∷ calls) f h =
    run_induction P F step (perform call c).1 calls f.1 ((step call f.0).at c h)
