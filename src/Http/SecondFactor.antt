-- ===== src/Http/SecondFactor.antt =====
-- server/internal/httpapi/router_2fa.go: `handleLoginTwoFactor`, the second step of a login.
use Prim.Native.String.{len}
use vibe_terminal.Base.{ℕ, ℤ, pos, String, not, Option, none, some, List, ◌==◌, eqb, if◌then◌else◌}
use vibe_terminal.Auth.Challenge.{Claims, verify_login_challenge_at}
use vibe_terminal.Auth.Secrets.{TwoFactorManager, decrypt, recovery_code_hash}
use vibe_terminal.Auth.Totp.{match_totp}
use vibe_terminal.Store.Rows.{User, UserTwoFactor, AuditEvent, ConsumeLoginSecondFactorParams}
use vibe_terminal.Store.Db.{
  Result, ok, err, not_found, login_restart_required, invalid_second_factor,
}
use vibe_terminal.Store.TwoFactor.{consume_login_second_factor}
use vibe_terminal.Store.Settings.{get_enabled_two_factor}
use vibe_terminal.Store.Devices.{get_user_by_id}
use vibe_terminal.Http.{
  Packages, Router, World, Http, write_error, call, unavailable, restart_required,
}
use vibe_terminal.Http.Limits.{
  second_factor, attempt, reject, clear, request_ip, second_factor_limit_keys,
}
use vibe_terminal.Http.Incoming.{Request, Decoder, read_login_json}
use vibe_terminal.Http.Login.{login_audit_event, audit_login_rate_limit, finish_login}

pub record TwoFactorBody : Type 0 where
  pub challenge_token : String
  pub code : String

-- `verifiedLoginCode`
pub record VerifiedLoginCode : Type 0 where
  pub method : String
  pub totp_counter : Option ℤ
  pub recovery_hash : String

-- What `verifyLoginCode` gives. `errInvalidSecondFactor` is `wrong`.
pub data CodeCheck : Type 0 where
  verified : VerifiedLoginCode → CodeCheck
  wrong failure : CodeCheck

unfoldable pub totp_check : Option (Option ℕ) → CodeCheck
totp_check none = failure
totp_check (some none) = wrong
totp_check (some (some counter)) =
    verified (record { method = "totp"; totp_counter = some (pos counter); recovery_hash = "" })

module _ (lib : Packages) (r : Router) (o : World) where
  unfoldable pub secret_check : String → Option String → CodeCheck
  unfolding totp_check
  secret_check trimmed_code none = failure
  secret_check trimmed_code (some secret) =
      totp_check (match_totp lib.totp secret trimmed_code o.now)

  unfoldable pub verify_login_code : TwoFactorManager → UserTwoFactor → String → CodeCheck
  unfolding secret_check
  verify_login_code m setting code =
      let trimmed_code = lib.trim_space code in
      if eqb (len trimmed_code) 6
      then secret_check trimmed_code (decrypt lib.secrets m.cipher setting.secret_ciphertext)
      else verified (record {
        method = "recovery_code";
        totp_counter = none;
        recovery_hash = recovery_code_hash lib.secrets m.recovery_key setting.user_id code;
      })

  unfoldable pub write_invalid_second_factor : String → String → List String → Http
  write_invalid_second_factor user_id source_ip keys =
      reject o second_factor keys (audit_login_rate_limit lib r o user_id "second_factor" source_ip)
        (write_error 401 "invalid_two_factor_code" "invalid two factor code")

  unfoldable pub after_consume : User → String → List String → Result {0} Unit → Http
  unfolding write_invalid_second_factor
  after_consume u ip keys (err login_restart_required) = restart_required
  after_consume u ip keys (err invalid_second_factor) = write_invalid_second_factor u.id ip keys
  after_consume u ip keys (err e) = unavailable
  after_consume u ip keys (ok _) = clear second_factor keys (finish_login lib r o u)

  unfoldable pub consume_params :
      Claims → VerifiedLoginCode → AuditEvent → ConsumeLoginSecondFactorParams
  consume_params challenge code event = record {
    challenge_jti = challenge.jti;
    user_id = challenge.user_id;
    configuration_id = challenge.configuration_id;
    totp_counter = code.totp_counter;
    recovery_hash = code.recovery_hash;
    now = o.now;
    audit = event;
  }

  unfoldable pub consume_with :
      User → Claims → String → List String → VerifiedLoginCode → Option AuditEvent → Http
  unfolding after_consume consume_params
  consume_with u challenge ip keys code none = unavailable
  consume_with u challenge ip keys code (some event) =
      call (consume_login_second_factor (consume_params challenge code event))
        (after_consume u ip keys)

  unfoldable pub with_code : User → Claims → String → List String → CodeCheck → Http
  unfolding consume_with
  with_code u challenge ip keys wrong = write_invalid_second_factor u.id ip keys
  with_code u challenge ip keys failure = unavailable
  with_code u challenge ip keys (verified code) =
      consume_with u challenge ip keys code (login_audit_event lib r o u.id code.method o.now)

  unfoldable pub with_enabled :
      TwoFactorManager → User → Claims → String → String → List String → Result UserTwoFactor → Http
  unfolding with_code verify_login_code
  with_enabled m u challenge typed ip keys (err not_found) = restart_required
  with_enabled m u challenge typed ip keys (err e) = unavailable
  with_enabled m u challenge typed ip keys (ok setting) =
      if not (setting.configuration_id == challenge.configuration_id)
      then restart_required
      else with_code u challenge ip keys (verify_login_code m setting typed)

  unfoldable pub with_user :
      TwoFactorManager → Claims → String → String → List String → Result User → Http
  unfolding with_enabled
  with_user m challenge typed ip keys (err not_found) = restart_required
  with_user m challenge typed ip keys (err e) = unavailable
  with_user m challenge typed ip keys (ok u) =
      call (get_enabled_two_factor challenge.user_id) (with_enabled m u challenge typed ip keys)

  unfoldable pub with_challenge : TwoFactorManager → Request → String → Option Claims → Http
  unfolding with_user
  with_challenge m req typed none = restart_required
  with_challenge m req typed (some challenge) =
      let ip = request_ip lib req.remote_addr in
      let keys = second_factor_limit_keys challenge.user_id ip in
      attempt o second_factor keys
        (call (get_user_by_id challenge.user_id) (with_user m challenge typed ip keys))

  unfoldable pub two_factor_with : Request → Option TwoFactorManager → TwoFactorBody → Http
  unfolding with_challenge
  two_factor_with req none body = unavailable
  two_factor_with req (some m) body =
      with_challenge m req body.code
        (verify_login_challenge_at lib.challenges m.challenge_key body.challenge_token o.now)

  unfoldable pub handle_login_two_factor : Decoder TwoFactorBody → Request → Http
  unfolding two_factor_with
  handle_login_two_factor json req = read_login_json lib json req (two_factor_with req r.two_factor)
