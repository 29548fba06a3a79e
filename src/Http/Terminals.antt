-- ===== src/Http/Terminals.antt =====
-- server/internal/httpapi/router.go: the handlers of browsers about devices and terminal sessions.
pub mod Web
use vibe_terminal.Base.{
  ℤ, pos, leb_ℤ, String, Bool, true, false, not, Option, none, some, List, [], ◌∷◌, ◌++◌, ◌==◌, map,
  if◌then◌else◌,
}
use vibe_terminal.Protocol.{Message, start_session, close_session}
use vibe_terminal.Presence.{is_online}
use vibe_terminal.Hub.{HubError, bind_session, from_web}
use vibe_terminal.Store.Rows.{
  User, Device, TerminalSession, OutputChunk, session_starting, session_lost, session_closed,
}
use vibe_terminal.Store.Db.{Result, ok, err, Error}
use vibe_terminal.Store.Devices.{get_device, list_devices, update_device_name}
use vibe_terminal.Store.Sessions.{
  create_terminal_session, get_terminal_session, update_terminal_session_status,
  update_terminal_session_title, list_terminal_sessions_for_device, list_output_chunks,
}
use vibe_terminal.Sessions.{Server, Step, update_hub, event_of}
use vibe_terminal.Http.{
  Packages, Router, World, App, Body, device, devices, session, sessions, output, done, Http,
  write_json, write_error, call, log_audit, write_store_error,
}
use vibe_terminal.Http.Incoming.{Request, Decoder, require_user, read_json}

-- `terminal.CreateRequest`, of server/internal/terminal/service.go
pub record CreateRequest : Type 0 where
  pub shell_path : String
  pub working_directory : String
  pub cols : ℤ
  pub rows : ℤ

unfoldable pub normalize_create_request : CreateRequest → CreateRequest
normalize_create_request req = record {
  shell_path = if req.shell_path == "" then "/bin/bash" else req.shell_path;
  working_directory = if req.working_directory == "" then "$HOME" else req.working_directory;
  cols = if leb_ℤ req.cols (pos 0) then pos 80 else req.cols;
  rows = if leb_ℤ req.rows (pos 0) then pos 24 else req.rows;
}

-- A step of the state that sessions share.
unfoldable pub step : Step → Http → Http
step f k s = k (record s { server = f s.server })

-- `r.hub.FromWeb`, and what follows on its error
unfoldable pub send_from_web : World → Message → (Option HubError → Http) → Http
send_from_web o msg k s =
    let (error, messages) = from_web o.outside.delivers s.server.hub msg in
    k error (record s { server = record s.server { sent = s.server.sent ++ messages } })

module _ (lib : Packages) (r : Router) (o : World) where
  unfoldable pub started : User → String → TerminalSession → Option HubError → Http
  started u device_id made (some e) =
      call (update_terminal_session_status o.outside.clock made.id session_lost (pos 0) (pos 0))
        (λ x. write_error 409 "agent_unavailable" "agent is not ready for this session")
  started u device_id made none =
      log_audit o
        (record (event_of device_id made.id "session_created" "terminal session created") {
          user_id = u.id;
        })
        (write_json 201 (session made))

  unfoldable pub created_session : User → String → CreateRequest → Result TerminalSession → Http
  unfolding started step send_from_web
  created_session u device_id body (err e) =
      write_error 500 "session_error" "failed to create session"
  created_session u device_id body (ok made) =
      step (update_hub (λ h. bind_session h made.id device_id)) (
        send_from_web o
          (start_session (record {
            session_id = made.id;
            shell_path = body.shell_path;
            working_directory = body.working_directory;
            cols = body.cols;
            rows = body.rows;
          }))
          (started u device_id made))

  unfoldable pub make_session : User → String → CreateRequest → Http
  unfolding created_session
  make_session u device_id body =
      call
        (create_terminal_session o.outside.clock (record {
          id = o.new_id;
          device_id = device_id;
          title = "shell";
          shell_path = body.shell_path;
          working_directory = body.working_directory;
          status = session_starting;
          agent_pid = pos 0;
          last_output_seq = pos 0;
          created_at = 0;
          updated_at = 0;
        }))
        (created_session u device_id body)

  -- The test that the device is online.
  unfoldable pub when_online : String → Http → Http
  when_online device_id k s =
      if not (is_online device_id s.server.presence)
      then write_error 409 "device_offline" "device is offline" s
      else k s

  unfoldable pub create_on_device :
      Decoder CreateRequest → Request → User → String → Result Device → Http
  unfolding make_session when_online normalize_create_request
  create_on_device json req u device_id (err e) = write_store_error e "device"
  create_on_device json req u device_id (ok row) =
      when_online device_id
        (read_json json req.body (λ body. make_session u device_id (normalize_create_request body)))

  unfoldable pub handle_create_session : Decoder CreateRequest → Request → String → Http
  unfolding create_on_device
  handle_create_session json req device_id =
      require_user lib r o req
        (λ u. call (get_device device_id) (create_on_device json req u device_id))

  unfoldable pub listed_sessions : Result (List TerminalSession) → Http
  listed_sessions (err e) = write_error 500 "session_error" "failed to list sessions"
  listed_sessions (ok rows) = write_json 200 (sessions rows)

  unfoldable pub handle_list_sessions : Request → String → Http
  unfolding listed_sessions
  handle_list_sessions req device_id =
      require_user lib r o req
        (λ u. call (list_terminal_sessions_for_device device_id) listed_sessions)

  unfoldable pub found_session : Result TerminalSession → Http
  found_session (err e) = write_store_error e "session"
  found_session (ok row) = write_json 200 (session row)

  unfoldable pub renamed_session : String → Result {0} Unit → Http
  unfolding found_session
  renamed_session session_id (err e) = write_store_error e "session"
  renamed_session session_id (ok _) = call (get_terminal_session session_id) found_session

  unfoldable pub handle_rename_session : Decoder String → Request → String → Http
  unfolding renamed_session
  handle_rename_session json req session_id = require_user lib r o req (λ u.
      read_json json req.body (λ body.
        let title = lib.trim_space body in
        if title == ""
        then write_error 400 "invalid_title" "title is required"
        else call (update_terminal_session_title o.outside.clock session_id title)
            (renamed_session session_id)))

  unfoldable pub closed_session : String → Result {0} Unit → Http
  unfolding send_from_web
  closed_session session_id (err e) = write_store_error e "session"
  closed_session session_id (ok _) =
      send_from_web o (close_session session_id) (λ e. write_json 200 done)

  unfoldable pub handle_close_session : Request → String → Http
  unfolding closed_session
  handle_close_session req session_id = require_user lib r o req (λ u.
      call
        (update_terminal_session_status o.outside.clock session_id session_closed (pos 0) (pos 0))
        (closed_session session_id))

  unfoldable pub listed_devices : Result (List Device) → Http
  listed_devices (err e) s = write_error 500 "device_error" "failed to list devices" s
  listed_devices (ok rows) s =
      write_json 200 (devices (map (λ (d : Device). (d, is_online d.id s.server.presence)) rows)) s

  unfoldable pub handle_list_devices : Request → Http
  unfolding listed_devices
  handle_list_devices req = require_user lib r o req (λ u. call list_devices listed_devices)

  unfoldable pub found_device : Result Device → Http
  found_device (err e) s = write_store_error e "device" s
  found_device (ok row) s = write_json 200 (device row (is_online row.id s.server.presence)) s

  unfoldable pub renamed_device : String → Result {0} Unit → Http
  unfolding found_device
  renamed_device device_id (err e) = write_store_error e "device"
  renamed_device device_id (ok _) = call (get_device device_id) found_device

  unfoldable pub handle_rename_device : Decoder String → Request → String → Http
  unfolding renamed_device
  handle_rename_device json req device_id = require_user lib r o req (λ u.
      read_json json req.body (λ body.
        let name = lib.trim_space body in
        if name == ""
        then write_error 400 "invalid_name" "name is required"
        else call (update_device_name o.outside.clock device_id name) (renamed_device device_id)))
