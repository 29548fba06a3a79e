-- ===== src/Http/Management/Disable.antt =====
-- server/internal/httpapi/router_2fa.go: `handleTwoFactorDisable`.
use vibe_terminal.Base.{List, String}
use vibe_terminal.Store.Rows.{User}
use vibe_terminal.Store.Db.{Result, ok, err, not_found}
use vibe_terminal.Store.Settings.{disable_two_factor}
use vibe_terminal.Http.{
  Packages, Router, World, done, Http, write_json, call, unavailable, state_conflict,
}
use vibe_terminal.Http.Limits.{management, clear}
use vibe_terminal.Http.Incoming.{Request, Decoder}
use vibe_terminal.Http.Management.{managed, with_password, audit_committed_change}
use vibe_terminal.Http.Management.Setup.{PasswordBody}

module _ (lib : Packages) (r : Router) (o : World) where
  unfoldable pub after_disable : List String → User → Result {0} Unit → Http
  after_disable keys u (err not_found) = state_conflict
  after_disable keys u (err e) = unavailable
  after_disable keys u (ok _) =
      audit_committed_change lib r o u "two_factor_disabled" "two factor authentication disabled"
        (clear management keys (write_json 200 done))

  unfoldable pub handle_two_factor_disable : Decoder PasswordBody → Request → Http
  unfolding after_disable
  handle_two_factor_disable json req = managed lib r o json req (λ u body ip keys.
      with_password lib r o "disable_password" u body.password ip keys
        (call (disable_two_factor u.id) (after_disable keys u)))
