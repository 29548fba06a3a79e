-- ===== src/Http/Management/RecoveryCodes.antt =====
-- server/internal/httpapi/router_2fa.go: `handleTwoFactorRecoveryCodes`.
use vibe_terminal.Base.{ℕ, pos, String, Option, none, some, List}
use vibe_terminal.Auth.Secrets.{TwoFactorManager, decrypt, generate_hashed_codes}
use vibe_terminal.Auth.Totp.{match_totp}
use vibe_terminal.Store.Rows.{User, UserTwoFactor}
use vibe_terminal.Store.Db.{Result, ok, err, not_found, conflict, invalid_second_factor}
use vibe_terminal.Store.Settings.{get_enabled_two_factor, replace_recovery_codes}
use vibe_terminal.Http.{Packages, Router, World, Http, call, unavailable, state_conflict}
use vibe_terminal.Http.Incoming.{Request, Decoder}
use vibe_terminal.Http.Management.{managed, with_password, invalid_code, code_inputs}
use vibe_terminal.Http.Management.Enable.{committed}

pub record RotationBody : Type 0 where
  pub password : String
  pub code : String

module _ (lib : Packages) (r : Router) (o : World) where
  unfoldable pub after_replace : List String → User → String → List String → Result {0} Unit → Http
  after_replace keys u ip raw_codes (err invalid_second_factor) =
      invalid_code lib r o u "recovery_totp" ip keys
  after_replace keys u ip raw_codes (err conflict) = state_conflict
  after_replace keys u ip raw_codes (err e) = unavailable
  after_replace keys u ip raw_codes (ok _) =
      committed lib r o keys u "two_factor_recovery_codes_regenerated"
        "two factor recovery codes regenerated" raw_codes

  unfoldable pub replace_with :
      List String → User → String → String → ℕ → Option (List String × List String) → Http
  unfolding after_replace
  replace_with keys u ip configuration_id counter none = unavailable
  replace_with keys u ip configuration_id counter (some (raw_codes, hashes)) =
      call
        (replace_recovery_codes u.id configuration_id (pos counter) (code_inputs o.code_id 0 hashes)
          o.now)
        (after_replace keys u ip raw_codes)

  unfoldable pub rotation_match :
      List String → User → String → TwoFactorManager → String → Option (Option ℕ) → Http
  unfolding replace_with
  rotation_match keys u ip m configuration_id none = unavailable
  rotation_match keys u ip m configuration_id (some none) =
      invalid_code lib r o u "recovery_totp" ip keys
  rotation_match keys u ip m configuration_id (some (some counter)) =
      replace_with keys u ip configuration_id counter
        (generate_hashed_codes lib.secrets m.recovery_key u.id o.recovery_reads)

  unfoldable pub rotation_secret :
      List String → User → String → TwoFactorManager → String → String → Option String → Http
  unfolding rotation_match
  rotation_secret keys u ip m typed configuration_id none = unavailable
  rotation_secret keys u ip m typed configuration_id (some secret) =
      rotation_match keys u ip m configuration_id
        (match_totp lib.totp secret (lib.trim_space typed) o.now)

  unfoldable pub rotation_setting :
      List String → User → String → TwoFactorManager → String → Result UserTwoFactor → Http
  unfolding rotation_secret
  rotation_setting keys u ip m typed (err not_found) = state_conflict
  rotation_setting keys u ip m typed (err e) = unavailable
  rotation_setting keys u ip m typed (ok setting) =
      rotation_secret keys u ip m typed setting.configuration_id
        (decrypt lib.secrets m.cipher setting.secret_ciphertext)

  unfoldable pub rotation_with :
      List String → User → String → String → Option TwoFactorManager → Http
  unfolding rotation_setting
  rotation_with keys u ip typed none = unavailable
  rotation_with keys u ip typed (some m) =
      call (get_enabled_two_factor u.id) (rotation_setting keys u ip m typed)

  unfoldable pub handle_two_factor_recovery_codes : Decoder RotationBody → Request → Http
  unfolding rotation_with
  handle_two_factor_recovery_codes json req = managed lib r o json req (λ u body ip keys.
      with_password lib r o "recovery_password" u body.password ip keys
        (rotation_with keys u ip body.code r.two_factor))
