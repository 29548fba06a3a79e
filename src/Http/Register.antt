-- ===== src/Http/Register.antt =====
-- server/internal/httpapi/router.go: `handleAgentRegister`, by which an agent becomes a device.
use Prim.Native.String.{◌++◌}
use vibe_terminal.Base.{String, true, ◌||◌, Option, none, some, ◌==◌, if◌then◌else◌}
use vibe_terminal.Store.Rows.{Device, AgentToken}
use vibe_terminal.Store.Db.{Result, ok, err}
use vibe_terminal.Store.Tokens.{use_agent_token_by_hash}
use vibe_terminal.Store.Devices.{create_device}
use vibe_terminal.Sessions.{event_of}
use vibe_terminal.Http.{
  Packages, World, registered, Http, write_json, write_error, call, log_audit, random_token,
  hash_secret,
}
use vibe_terminal.Http.Incoming.{Request, Decoder, read_json}

pub record RegisterBody : Type 0 where
  pub token : String
  pub name : String
  pub platform : String
  pub agent_version : String
  pub fingerprint : String

module _ (lib : Packages) (o : World) where
  unfoldable pub created_device : String → Result Device → Http
  created_device credential (err e) = write_error 500 "device_error" "failed to create device"
  created_device credential (ok device) =
      log_audit o (event_of device.id "" "device_registered" "agent registered a device")
        (write_json 201 (registered device.id credential))

  unfoldable pub register_device : RegisterBody → Option String → Http
  unfolding created_device hash_secret
  register_device body none = write_error 500 "credential_error" "failed to create credential"
  register_device body (some credential) =
      call
        (create_device o.outside.clock (record {
          id = o.new_id;
          name = if body.name == "" then body.platform ++ "-agent" else body.name;
          platform = body.platform;
          agent_version = if body.agent_version == "" then "unknown" else body.agent_version;
          fingerprint = body.fingerprint;
          credential_hash = hash_secret lib credential;
          authorized = true;
          last_seen_at = none;
          created_at = 0;
          updated_at = 0;
        }))
        (created_device credential)

  unfoldable pub after_token : RegisterBody → Result AgentToken → Http
  unfolding register_device random_token
  after_token body (err e) = write_error 401 "invalid_token" "registration token is invalid"
  after_token body (ok token) = register_device body (random_token lib o)

  unfoldable pub register_with : RegisterBody → Http
  unfolding after_token hash_secret
  register_with body =
      if body.token == "" || (body.platform == "" || body.fingerprint == "")
      then write_error 400 "invalid_registration" "token, platform, and fingerprint are required"
      else call (use_agent_token_by_hash (hash_secret lib body.token) o.now) (after_token body)

  unfoldable pub handle_agent_register : Decoder RegisterBody → Request → Http
  unfolding register_with
  handle_agent_register json req = read_json json req.body register_with
