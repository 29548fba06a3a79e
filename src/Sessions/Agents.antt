-- ===== src/Sessions/Agents.antt =====
-- router.go: what the server does with the messages of an agent, and at the ends of its connection.
use vibe_terminal.Base.{
  ℤ, pos, String, Bool, true, false, not, ◌&&◌, ◌||◌, Option, none, some, List, [], ◌∷◌, ◌==◌,
  if◌then◌else◌, any, map,
}
use vibe_terminal.Protocol.{
  Envelope, SessionSummary, SessionStarted, Stdout, SessionExit, session_started, stdout,
  session_state, type_heartbeat, type_sync_sessions, type_session_started, type_stdout,
  type_session_exit, type_fs_list_result, type_fs_read_result, type_fs_write_opened,
  type_fs_write_ack, type_fs_write_result, type_fs_error, type_error,
}
use vibe_terminal.Presence.{set_online, set_capabilities}
use vibe_terminal.Hub.{attach_agent, detach_agent, bind_session}
use vibe_terminal.Store.Rows.{
  TerminalSession, session_starting, session_running, session_exited, session_lost, session_closed,
}
use vibe_terminal.Store.Db.{Result, ok, err, not_found}
use vibe_terminal.Store.Devices.{touch_device}
use vibe_terminal.Store.Sessions.{
  create_terminal_session, get_terminal_session, update_terminal_session_status,
  list_terminal_sessions_for_device, create_output_chunk,
}
use vibe_terminal.Sessions.{
  Outside, Step, skip, ◌▷◌, choose, ask, run, update_hub, update_presence, reply, forward, respond,
  error_outbound, value_or, log_event, event_of,
}

abbrev pub is_active : String → Bool
is_active status = status == session_running || status == session_starting

-- `agentOwnsSession`, on what the store returned.
abbrev pub owned_by : String → Result TerminalSession → Bool
owned_by device_id (ok session) = session.device_id == device_id
owned_by device_id (err e) = false

-- What follows a payload that was decoded, or was not.
unfoldable pub decoded : {A : Type 0} → String → String → Option A → (A → Step) → Step
decoded peer message none f = reply peer (error_outbound "invalid_payload" message)
decoded peer message (some msg) f = f msg

-- `case protocol.TypeFsListResult, …`
abbrev pub is_file_response : String → Bool
is_file_response type =
    type == type_fs_list_result
    || type == type_fs_read_result
    || type == type_fs_write_opened
    || type == type_fs_write_ack
    || type == type_fs_write_result
    || type == type_fs_error

module _ (o : Outside) where
  -- `persistOutputChunk`, after the test of `r.output`
  unfoldable pub write_chunk : Stdout → Option (String × ℤ) → Step
  write_chunk msg none = run (
      log_event o
        (event_of "" msg.session_id "output_write_failed" "terminal output chunk failed to write"))
  write_chunk msg (some (path, size)) = run (
      create_output_chunk o.clock (record {
        id = o.id;
        session_id = msg.session_id;
        start_seq = msg.seq;
        end_seq = msg.seq;
        storage_path = path;
        byte_size = size;
        created_at = 0;
      }))

  unfoldable pub persist_output_chunk : Stdout → Step
  persist_output_chunk msg = elim o.output [
    | none ↦ skip
    | some write ↦ write_chunk msg (write msg.session_id msg.seq msg.seq msg.contents)
  ]

  -- The loop of `markDisconnectedSessionsLost`, and the second of `syncAgentSessions`, which passes
  -- over the sessions that were `seen`.
  unfoldable pub mark_lost : List String → List TerminalSession → Step
  mark_lost seen [] = skip
  mark_lost seen (session ∷ sessions) =
      choose (any (λ id. id == session.id) seen || not (is_active session.status)) skip (
        run (
          update_terminal_session_status o.clock session.id session_lost session.agent_pid
            session.last_output_seq))
      ▷ mark_lost seen sessions

  abbrev pub mark_listed : List String → Result (List TerminalSession) → Step
  mark_listed seen (err e) = skip
  mark_listed seen (ok sessions) = mark_lost seen sessions

  unfoldable pub note_stdout : Stdout → Result TerminalSession → Step
  note_stdout msg (err e) = skip
  note_stdout msg (ok session) = run (
      update_terminal_session_status o.clock msg.session_id
        (if session.status == session_starting then session_running else session.status)
        session.agent_pid msg.seq)

  unfoldable pub on_stdout : Stdout → Step
  on_stdout msg =
      ask (get_terminal_session msg.session_id) (note_stdout msg)
      ▷ persist_output_chunk msg
      ▷ forward o (stdout msg)

  -- The end of the branch for `session_exit`, once the status, the process and the sequence number
  -- are chosen.
  abbrev pub exit_with : SessionExit → String → ℤ → ℤ → Step
  exit_with msg status agent_pid last_seq =
      run (update_terminal_session_status o.clock msg.session_id status agent_pid last_seq)
      ▷ forward o (
          session_state
            (record { session_id = msg.session_id; status = status; message = msg.message }))

  unfoldable pub note_exit : SessionExit → Result TerminalSession → Step
  note_exit msg (err e) = exit_with msg session_exited (pos 0) (pos 0)
  note_exit msg (ok session) =
      exit_with msg (if session.status == session_closed then session_closed else session_exited)
        session.agent_pid session.last_output_seq

  unfoldable pub on_session_exit : SessionExit → Step
  on_session_exit msg = ask (get_terminal_session msg.session_id) (note_exit msg)

module _ (o : Outside) (device_id : String) where
  -- The row of `syncAgentSessions` for a session that the store does not know.
  abbrev pub session_of : SessionSummary → TerminalSession
  session_of summary = record {
    id = summary.session_id;
    device_id = device_id;
    title = value_or summary.title "shell";
    shell_path = value_or summary.shell_path "/bin/bash";
    working_directory = value_or summary.working_directory "$HOME";
    status = value_or summary.status session_running;
    agent_pid = summary.agent_pid;
    last_output_seq = summary.last_output_seq;
    created_at = 0;
    updated_at = 0;
  }

  -- One round of the first loop of `syncAgentSessions`.
  unfoldable pub sync_existing : SessionSummary → Result TerminalSession → Step
  sync_existing summary (err not_found) =
      run (create_terminal_session o.clock (session_of summary))
      ▷ update_hub (λ h. bind_session h summary.session_id device_id)
  sync_existing summary (err _) = skip
  sync_existing summary (ok existing) =
      choose (existing.device_id == device_id && not (existing.status == session_closed))
        (update_hub (λ h. bind_session h summary.session_id device_id)
          ▷ run (
              update_terminal_session_status o.clock summary.session_id
                (value_or summary.status session_running) summary.agent_pid
                summary.last_output_seq))
        skip

  unfoldable pub sync_summaries : List SessionSummary → Step
  sync_summaries [] = skip
  sync_summaries (summary ∷ summaries) =
      ask (get_terminal_session summary.session_id) (sync_existing summary)
      ▷ sync_summaries summaries

  unfoldable pub sync_agent_sessions : List SessionSummary → Step
  sync_agent_sessions summaries =
      sync_summaries summaries
      ▷ ask (list_terminal_sessions_for_device device_id)
          (mark_listed o (map (λ summary. summary.session_id) summaries))

  unfoldable pub mark_disconnected_sessions_lost : Step
  mark_disconnected_sessions_lost =
      ask (list_terminal_sessions_for_device device_id) (mark_listed o [])

  -- What follows `agentOwnsSession`.
  unfoldable pub when_owned : String → String → Step → Step
  when_owned peer session_id f = ask (get_terminal_session session_id) λ r.
      choose (owned_by device_id r) f
        (reply peer (error_outbound "session_forbidden" "session does not belong to this device"))

  unfoldable pub on_session_started : SessionStarted → Step
  on_session_started msg =
      run (
        update_terminal_session_status o.clock msg.session_id session_running msg.agent_pid
          msg.last_output_seq)
      ▷ update_hub (λ h. bind_session h msg.session_id device_id)
      ▷ forward o (session_started msg)

  unfoldable pub handle_agent_envelope : Envelope → String → Step
  handle_agent_envelope env peer =
      choose (env.type == type_heartbeat) (run (touch_device o.clock device_id o.clock)) (
        choose (env.type == type_sync_sessions)
          (decoded peer "invalid sync payload" (o.sync_sessions env.payload)
            λ msg. sync_agent_sessions msg.sessions)
          (choose (env.type == type_session_started)
            (decoded peer "invalid session_started payload" (o.session_started env.payload)
              λ msg. when_owned peer msg.session_id (on_session_started msg))
            (choose (env.type == type_stdout)
              (decoded peer "invalid stdout payload" (o.stdout env.payload)
                λ msg. when_owned peer msg.session_id (on_stdout o msg))
              (choose (env.type == type_session_exit)
                (decoded peer "invalid session_exit payload" (o.session_exit env.payload)
                  λ msg. when_owned peer msg.session_id (on_session_exit o msg))
                (choose (is_file_response env.type) (respond env) (
                  choose (env.type == type_error)
                    (run
                      (log_event o (event_of device_id "" "agent_error" "agent reported an error")))
                    (reply peer
                      (error_outbound "unsupported_message" "unsupported agent message"))))))))

  -- `handleAgentWebSocket` once the device is known: the start of the connection, and its deferred
  -- end.
  unfoldable pub connect : List String → List SessionSummary → String → Step
  connect capabilities sessions peer =
      update_presence (set_online device_id true)
      ▷ update_presence (set_capabilities device_id capabilities)
      ▷ run (touch_device o.clock device_id o.clock)
      ▷ update_hub (λ h. attach_agent h device_id peer)
      ▷ sync_agent_sessions sessions

  unfoldable pub disconnect : Step
  disconnect =
      mark_disconnected_sessions_lost
      ▷ update_presence (set_online device_id false)
      ▷ update_hub (λ h. detach_agent h device_id)
