-- ===== src/Http/Management/Setup.antt =====
-- server/internal/httpapi/router_2fa.go: `handleTwoFactorSetup`.
use vibe_terminal.Base.{◌+◌, ◌*◌, String, Option, none, some, List, is_some, if◌then◌else◌}
use vibe_terminal.Auth.{minute}
use vibe_terminal.Auth.Secrets.{TwoFactorManager}
use vibe_terminal.Auth.Setup.{Setup, generate_setup}
use vibe_terminal.Store.Rows.{User, UserTwoFactor}
use vibe_terminal.Store.Db.{Result, ok, err, not_found, conflict}
use vibe_terminal.Store.Settings.{get_user_two_factor, save_pending_if_unchanged}
use vibe_terminal.Http.{
  Packages, Router, World, setup, Http, write_json, call, unavailable, state_conflict,
}
use vibe_terminal.Http.Limits.{management, clear}
use vibe_terminal.Http.Incoming.{Request, Decoder}
use vibe_terminal.Http.Management.{managed, with_password}

-- The body of a request that only has the password.
pub record PasswordBody : Type 0 where
  pub password : String

module _ (lib : Packages) (r : Router) (o : World) where
  unfoldable pub after_pending : List String → Setup → Result {0} Unit → Http
  after_pending keys made (err conflict) = state_conflict
  after_pending keys made (err e) = unavailable
  after_pending keys made (ok _) =
      clear management keys (write_json 200 (setup made.secret made.uri (o.now + 10 * minute)))

  unfoldable pub save_setup : List String → User → String → Option Setup → Http
  unfolding after_pending
  save_setup keys u previous none = unavailable
  save_setup keys u previous (some made) =
      call
        (save_pending_if_unchanged o.outside.clock
          (record {
            user_id = u.id;
            configuration_id = o.configuration_id;
            secret_ciphertext = made.encrypted;
            setup_expires_at = some (o.now + 10 * minute);
            enabled_at = none;
            last_totp_counter = none;
            created_at = o.now;
            updated_at = o.now;
          })
          previous)
        (after_pending keys made)

  unfoldable pub new_setup : List String → User → TwoFactorManager → String → Http
  unfolding save_setup
  new_setup keys u m previous =
      save_setup keys u previous
        (generate_setup lib.secrets lib.urls m "vibe-terminal" u.username o.secret_bytes o.nonce)

  unfoldable pub with_current : List String → User → TwoFactorManager → Result UserTwoFactor → Http
  unfolding new_setup
  with_current keys u m (err not_found) = new_setup keys u m ""
  with_current keys u m (err e) = unavailable
  with_current keys u m (ok current) =
      if is_some current.enabled_at
      then state_conflict
      else new_setup keys u m current.configuration_id

  unfoldable pub setup_with : List String → User → Option TwoFactorManager → Http
  unfolding with_current
  setup_with keys u none = unavailable
  setup_with keys u (some m) = call (get_user_two_factor u.id) (with_current keys u m)

  unfoldable pub handle_two_factor_setup : Decoder PasswordBody → Request → Http
  unfolding setup_with
  handle_two_factor_setup json req = managed lib r o json req (λ u body ip keys.
      with_password lib r o "setup_password" u body.password ip keys
        (setup_with keys u r.two_factor))
