-- ===== src/Tests/Web/Protected.antt =====
-- Changes of the second factor, and the registration of a device.
use vibe_terminal.Base.{String, ◌≡◌, refl, Bool, some}
use vibe_terminal.Store.Db.{transaction}
use vibe_terminal.Sessions.{log_event}
use vibe_terminal.Http.{call}
use vibe_terminal.Http.Incoming.{content, Decoder}
use vibe_terminal.Http.Incoming.{read_json}
use vibe_terminal.Store.Db.{◌>>=◌, exec}
use vibe_terminal.Store.Table.{find_where}
use vibe_terminal.Store.TwoFactor.{insert_audit_event}
use vibe_terminal.Store.Tokens.{use_agent_token_by_hash, mark_used}
use vibe_terminal.Store.Devices.{create_audit_event, create_device, insert_device}
use vibe_terminal.Http.{log_audit, write_json}
use vibe_terminal.Http.Management.Setup.{PasswordBody, handle_two_factor_setup}
use vibe_terminal.Http.Management.RecoveryCodes.{RotationBody, handle_two_factor_recovery_codes}
use vibe_terminal.Http.Management.Disable.{handle_two_factor_disable}
use vibe_terminal.Http.Management.Guarded.{ProtectsSettings}
use vibe_terminal.Http.Management.Guarded.Password.{IsManaged, HasPassword, password_protects}
use vibe_terminal.Http.Register.{RegisterBody, handle_agent_register}
use vibe_terminal.Http.Registered.{IsRegistered, handle_agent_register-IsRegistered}
use vibe_terminal.Tests.Encoding.{escape}
use vibe_terminal.Tests.Web.{packages, router, world, app, only, request}

abbrev typed : Decoder PasswordBody
typed = only (record { password = "guess" })

abbrev rotation : Decoder RotationBody
rotation = only (record { password = "guess"; code = "000000" })

password_protects_example :
    ProtectsSettings
      (IsManaged packages router world typed request (λ u b t. HasPassword packages u b.password))
      (handle_two_factor_setup packages router world typed request)
    × ProtectsSettings
        (IsManaged packages router world rotation request
          (λ u b t. HasPassword packages u b.password))
        (handle_two_factor_recovery_codes packages router world rotation request)
    × ProtectsSettings
        (IsManaged packages router world typed request (λ u b t. HasPassword packages u b.password))
        (handle_two_factor_disable packages router world typed request)
password_protects_example = password_protects packages router world typed rotation request

abbrev registration : Decoder RegisterBody
registration = only (record {
  token = "secret";
  name = "";
  platform = "linux";
  agent_version = "";
  fingerprint = "f";
})

device_registered : (handle_agent_register packages world registration request app).0.status ≡ 201
unfolding handle_agent_register read_json call use_agent_token_by_hash mark_used ◌>>=◌ find_where
    exec transaction create_device insert_device log_event create_audit_event insert_audit_event
    escape log_audit write_json
device_registered = refl

handle_agent_register_example :
    (text : String) × (body : RegisterBody) × (ends : Bool) × (request.body ≡ content text)
    × (registration.decode text ≡ some (body, ends))
    × IsRegistered packages world body app
        (handle_agent_register packages world registration request app)
handle_agent_register_example =
    handle_agent_register-IsRegistered packages world registration request app device_registered
