-- ===== src/Http/Management/Enable.antt =====
-- server/internal/httpapi/router_2fa.go: `handleTwoFactorEnable`.
use vibe_terminal.Base.{ℕ, pos, String, Option, none, some, List}
use vibe_terminal.Auth.Secrets.{TwoFactorManager, decrypt, generate_hashed_codes}
use vibe_terminal.Auth.Totp.{match_totp}
use vibe_terminal.Store.Rows.{User, UserTwoFactor}
use vibe_terminal.Store.Db.{Result, ok, err, not_found, conflict}
use vibe_terminal.Store.Settings.{get_pending_two_factor, enable_two_factor}
use vibe_terminal.Http.{
  Packages, Router, World, recovery_codes, Http, write_json, write_error, call, unavailable,
  state_conflict,
}
use vibe_terminal.Http.Limits.{management, clear}
use vibe_terminal.Http.Incoming.{Request, Decoder}
use vibe_terminal.Http.Management.{managed, invalid_code, audit_committed_change, code_inputs}

pub record CodeBody : Type 0 where
  pub code : String

module _ (lib : Packages) (r : Router) (o : World) where
  -- After the store has committed the change: an audit event, and the new codes.
  unfoldable pub committed : List String → User → String → String → List String → Http
  committed keys u event_type summary raw_codes =
      audit_committed_change lib r o u event_type summary
        (clear management keys (write_json 200 (recovery_codes raw_codes)))

  unfoldable pub after_enable : List String → User → List String → Result {0} Unit → Http
  unfolding committed
  after_enable keys u raw_codes (err conflict) = state_conflict
  after_enable keys u raw_codes (err e) = unavailable
  after_enable keys u raw_codes (ok _) =
      committed keys u "two_factor_enabled" "two factor authentication enabled" raw_codes

  unfoldable pub enable_with :
      List String → User → String → ℕ → Option (List String × List String) → Http
  unfolding after_enable
  enable_with keys u configuration_id counter none = unavailable
  enable_with keys u configuration_id counter (some (raw_codes, hashes)) =
      call
        (enable_two_factor u.id configuration_id (pos counter) (code_inputs o.code_id 0 hashes)
          o.now)
        (after_enable keys u raw_codes)

  unfoldable pub with_match :
      List String → User → String → TwoFactorManager → String → Option (Option ℕ) → Http
  unfolding enable_with
  with_match keys u ip m configuration_id none = unavailable
  with_match keys u ip m configuration_id (some none) = invalid_code lib r o u "enable_totp" ip keys
  with_match keys u ip m configuration_id (some (some counter)) =
      enable_with keys u configuration_id counter
        (generate_hashed_codes lib.secrets m.recovery_key u.id o.recovery_reads)

  unfoldable pub with_secret :
      List String → User → String → TwoFactorManager → String → String → Option String → Http
  unfolding with_match
  with_secret keys u ip m typed configuration_id none = unavailable
  with_secret keys u ip m typed configuration_id (some secret) =
      with_match keys u ip m configuration_id
        (match_totp lib.totp secret (lib.trim_space typed) o.now)

  unfoldable pub with_pending :
      List String → User → String → TwoFactorManager → String → Result UserTwoFactor → Http
  unfolding with_secret
  with_pending keys u ip m typed (err not_found) =
      write_error 409 "two_factor_setup_expired" "two factor setup has expired"
  with_pending keys u ip m typed (err e) = unavailable
  with_pending keys u ip m typed (ok pending) =
      with_secret keys u ip m typed pending.configuration_id
        (decrypt lib.secrets m.cipher pending.secret_ciphertext)

  unfoldable pub pending_with :
      List String → User → String → String → Option TwoFactorManager → Http
  unfolding with_pending
  pending_with keys u ip typed none = unavailable
  pending_with keys u ip typed (some m) =
      call (get_pending_two_factor u.id o.now) (with_pending keys u ip m typed)

  unfoldable pub handle_two_factor_enable : Decoder CodeBody → Request → Http
  unfolding pending_with
  handle_two_factor_enable json req =
      managed lib r o json req (λ u body ip keys. pending_with keys u ip body.code r.two_factor)
