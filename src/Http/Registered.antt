-- ===== src/Http/Registered.antt =====
-- router.go, `handleAgentRegister`: what a registration needs and leaves.
use Prim.Native.String
use vibe_terminal.Base.{
  ℕ, String, ◌≡◌, refl, ap, subst, ◌∙◌, true, false, Bool, Option, none, some, List, [], ◌∷◌, ◌++◌,
  ◌==◌, ◌||◌, arith, inl, inr, Bool-cases, if◌then◌else◌,
}
use vibe_terminal.Store.Rows.{AgentToken, Device, Tables}
use vibe_terminal.Store.Db.{Conn, Result, ok, err, transaction}
use vibe_terminal.Store.Table.{find_where}
use vibe_terminal.Store.Tokens.{usable, use_agent_token_by_hash}
use vibe_terminal.Store.Tokens.Registration.{use_agent_token_lem}
use vibe_terminal.Store.Devices.{create_device, insert_device, create_audit_event}
use vibe_terminal.Store.TwoFactor.{insert_audit_event}
use vibe_terminal.Sessions.{log_event}
use vibe_terminal.Http.{
  Packages, World, App, Reply, Body, registered, with_conn, write_json, write_error, call,
  log_audit, random_token, hash_secret,
}
use vibe_terminal.Http.Incoming.{
  BodyRead, too_large, unreadable, content, Request, Decoder, decode_any, read_json,
}
use vibe_terminal.Http.Register.{
  RegisterBody, created_device, register_device, after_token, register_with, handle_agent_register,
}

abbrev devices_of : App → List Device
devices_of s = s.server.conn.tables.devices

log_event_devices :
    (o : World) (e : _) (c : Conn) → (log_event o.outside e c).1.tables.devices ≡ c.tables.devices
unfolding log_event create_audit_event transaction insert_audit_event
log_event_devices o e c = ground arith

create_device_lem :
    (clock : ℕ) (d row : Device) (c : Conn)
    → (create_device clock d c).0 ≡ ok row
    → ((create_device clock d c).1.tables.devices ≡ c.tables.devices ++ row ∷ [])
      × (row.credential_hash ≡ d.credential_hash)
      × (row.id ≡ d.id)
      × (row.authorized ≡ d.authorized)
unfolding create_device transaction insert_device
create_device_lem clock d row c h = ground arith

module _ (lib : Packages) (o : World) where
  -- A device was registered: the row that was added belongs to the identifier and the credential
  -- that were sent back.
  abbrev pub IsAdded : List Device → List Device → Body → Type 0
  IsAdded before after body =
      (row : Device) × (credential : String) × (after ≡ before ++ row ∷ [])
      × (body ≡ registered row.id credential)
      × (row.credential_hash ≡ hash_secret lib credential)
      × (row.authorized ≡ true)

  created_device_lem :
      (credential : String) (row : Device) (s : App)
      → (devices_of (created_device lib o credential (ok row) s).1 ≡ devices_of s)
        × ((created_device lib o credential (ok row) s).0.body ≡ registered row.id credential)
  unfolding created_device log_audit call write_json
  created_device_lem credential row s = (log_event_devices o _ s.server.conn, refl)

  after_device_lem :
      (credential : String) (asked : Device) (result : Result Device) (s : App)
      (before : List Device)
      → ((row : Device)
          → result ≡ ok row
          → (devices_of s ≡ before ++ row ∷ [])
            × (row.credential_hash ≡ asked.credential_hash)
            × (row.id ≡ asked.id)
            × (row.authorized ≡ asked.authorized))
      → asked.credential_hash ≡ hash_secret lib credential
      → asked.authorized ≡ true
      → (created_device lib o credential result s).0.status ≡ 201
      → IsAdded before
          (devices_of (created_device lib o credential result s).1)
          (created_device lib o credential result s).0.body
  unfolding created_device write_error
  after_device_lem credential asked (err e) s before made hash allowed h =
      absurd (ground (arith, h))
  after_device_lem credential asked (ok row) s before made hash allowed h =
      let (same, body) = created_device_lem credential row s in
      let (added, a, b, c) = made row refl in
      (row, credential, same ∙ added, body, a ∙ hash, c ∙ allowed)

  register_device_lem :
      (body : RegisterBody) (drawn : Option String) (s : App)
      → (register_device lib o body drawn s).0.status ≡ 201
      → IsAdded
          (devices_of s)
          (devices_of (register_device lib o body drawn s).1)
          (register_device lib o body drawn s).0.body
  unfolding register_device call write_error
  register_device_lem body none s h = absurd (ground (arith, h))
  register_device_lem body (some credential) s h =
      let asked : Device = record {
        id = o.new_id;
        name = if body.name == "" then String.◌++◌ body.platform "-agent" else body.name;
        platform = body.platform;
        agent_version = if body.agent_version == "" then "unknown" else body.agent_version;
        fingerprint = body.fingerprint;
        credential_hash = hash_secret lib credential;
        authorized = true;
        last_seen_at = none;
        created_at = 0;
        updated_at = 0;
      } in
      let made = create_device o.outside.clock asked s.server.conn in
      after_device_lem credential asked made.0 (with_conn made.1 s) (devices_of s)
        (λ row e. create_device_lem o.outside.clock asked row s.server.conn e) refl refl h

  -- What a registration needs and leaves.
  abbrev pub IsRegistered : RegisterBody → App → Reply × App → Type 0
  IsRegistered body s result =
      (token : AgentToken) × (find_where (usable (hash_secret lib body.token) o.now)
          s.server.conn.tables.agent_tokens
        ≡ some token)
      × ((body.token == "" || (body.platform == "" || body.fingerprint == "")) ≡ false)
      × IsAdded (devices_of s) (devices_of result.1) result.0.body

  after_token_lem :
      (body : RegisterBody) (used : Result AgentToken) (s : App)
      → (after_token lib o body used s).0.status ≡ 201
      → (token : AgentToken) × (used ≡ ok token)
        × IsAdded
            (devices_of s)
            (devices_of (after_token lib o body used s).1)
            (after_token lib o body used s).0.body
  unfolding after_token write_error
  after_token_lem body (err e) s h = absurd (ground (arith, h))
  after_token_lem body (ok token) s h =
      (token, refl, register_device_lem body (random_token lib o) s h)

  register_with_lem :
      (body : RegisterBody) (s : App)
      → (register_with lib o body s).0.status ≡ 201
      → IsRegistered body s (register_with lib o body s)
  unfolding register_with call write_error
  register_with_lem body s h =
      let missing = body.token == "" || (body.platform == "" || body.fingerprint == "") in
      elim (Bool-cases missing) [
        | inl e ↦ absurd (ground (arith, h, e))
        | inr e ↦
            let hash = hash_secret lib body.token in
            let used = use_agent_token_by_hash hash o.now s.server.conn in
            let (token, f, added) = after_token_lem body used.0 (with_conn used.1 s) (cc (h, e)) in
            let (found, g, _, written) = use_agent_token_lem hash o.now s.server.conn token f in
            let same = ap (λ (t : Tables). t.devices) written in
            (
              found,
              g,
              e,
              rw e (
                  subst
                    (λ (before : List Device).
                      IsAdded before
                        (devices_of (after_token lib o body used.0 (with_conn used.1 s)).1)
                        (after_token lib o body used.0 (with_conn used.1 s)).0.body)
                    same added),
            )
      ]

  decode_any_lem :
      (found : Option (RegisterBody × Bool)) (s : App)
      → (decode_any found (register_with lib o) s).0.status ≡ 201
      → (body : RegisterBody) × (ends : Bool) × (found ≡ some (body, ends))
        × IsRegistered body s (decode_any found (register_with lib o) s)
  unfolding decode_any write_error
  decode_any_lem none s h = absurd (ground (arith, h))
  decode_any_lem (some (body, ends)) s h = (body, ends, refl, register_with_lem body s h)

  read_json_lem :
      (json : Decoder RegisterBody) (read : BodyRead) (s : App)
      → (read_json json read (register_with lib o) s).0.status ≡ 201
      → (text : String) × (body : RegisterBody) × (ends : Bool) × (read ≡ content text)
        × (json.decode text ≡ some (body, ends))
        × IsRegistered body s (read_json json read (register_with lib o) s)
  unfolding read_json write_error
  read_json_lem json too_large s h = absurd (ground (arith, h))
  read_json_lem json unreadable s h = absurd (ground (arith, h))
  read_json_lem json (content text) s h =
      let (body, ends, e, it) = decode_any_lem (json.decode text) s h in
      (text, body, ends, refl, e, it)

  -- An agent that is answered with a device had sent a token that was usable, in a body whose token,
  -- platform and fingerprint are not empty, and exactly one device is added: it is authorized, and
  -- its identifier and its credential, of which the row has the hash, are those of the answer.
  pub handle_agent_register-IsRegistered :
      (json : Decoder RegisterBody) (req : Request) (s : App)
      → (handle_agent_register lib o json req s).0.status ≡ 201
      → (text : String) × (body : RegisterBody) × (ends : Bool) × (req.body ≡ content text)
        × (json.decode text ≡ some (body, ends))
        × IsRegistered body s (handle_agent_register lib o json req s)
  unfolding handle_agent_register
  handle_agent_register-IsRegistered json req s h = read_json_lem json req.body s h
