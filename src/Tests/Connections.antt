-- ===== src/Tests/Connections.antt =====
-- router.go: the connection of an agent, on a store with a session of its device and one of another.
use vibe_terminal.Base.{
  pos, String, ◌≡◌, refl, Bool, true, false, none, some, List, [], ◌∷◌, ◌==◌, All, if◌then◌else◌,
}
use vibe_terminal.GoMap.{lookup}
use vibe_terminal.Protocol.{Envelope, SessionSummary, SessionStarted, type_session_started}
use vibe_terminal.Presence.{new_presence}
use vibe_terminal.Hub.{new_hub, Outbound, to_device}
use vibe_terminal.Store.Rows.{TerminalSession, Tables, session_running, session_closed}
use vibe_terminal.Store.Table.{find_where}
use vibe_terminal.Store.Sessions.{is_session}
use vibe_terminal.Sessions.{Server, Outside, error_outbound}
use vibe_terminal.Sessions.Agents.{
  is_active, handle_agent_envelope, sync_agent_sessions, disconnect,
}
use vibe_terminal.Sessions.Rows.{IsKeyed, others}
use vibe_terminal.Sessions.Ownership.{
  Event, connects, receives, disconnects, perform_all, perform_all-others,
}
use vibe_terminal.Sessions.Reconnect.{peer_after, send_to, perform_all-to_device}
use vibe_terminal.Sessions.Disconnect.{disconnect_lem}
use vibe_terminal.Sessions.ClosedRows.{IsClosed}
use vibe_terminal.Sessions.Closed.{sync-disconnect-IsClosed}
use vibe_terminal.Sessions.Reopening.{Runs, handle_agent_envelope-Runs}

abbrev session : String → String → String → TerminalSession
session id device_id status = record {
  id = id;
  device_id = device_id;
  title = "shell";
  shell_path = "/bin/bash";
  working_directory = "$HOME";
  status = status;
  agent_pid = pos 9;
  last_output_seq = pos 3;
  created_at = 5;
  updated_at = 6;
}

abbrev tables : Tables
tables = record {
  users = [];
  user_two_factor = [];
  two_factor_recovery_codes = [];
  login_challenges = [];
  agent_tokens = [];
  devices = [];
  terminal_sessions =
      session "s1" "d1" session_running
      ∷ session "s2" "d2" session_running
      ∷ session "s3" "d1" session_closed
      ∷ [];
  audit_events = [];
  terminal_output_chunks = [];
  command_snippets = [];
}

abbrev server : Server
server = record {
  conn = record { tables = tables; faults = λ n. false };
  hub = new_hub;
  presence = new_presence;
  sent = [];
  responses = [];
}

abbrev started : SessionStarted
started = record { session_id = "s3"; agent_pid = pos 11; title = ""; last_output_seq = pos 4 }

abbrev outside : Outside
outside = record {
  clock = 50;
  id = "e1";
  delivers = λ peer msg. true;
  output = none;
  sync_sessions = λ payload. none;
  session_started = λ payload. some started;
  stdout = λ payload. none;
  session_exit = λ payload. none;
}

abbrev start : Envelope
start = record {
  type = type_session_started;
  request_id = "";
  session_id = "s3";
  payload = "{\"session_id\":\"s3\"}";
}

tables-IsKeyed : IsKeyed tables.terminal_sessions
tables-IsKeyed = (refl, (refl, (refl, tt)))

abbrev events : List (Outside × Event)
events =
    (outside, connects [] [] "agent")
    ∷ (outside, receives start "agent")
    ∷ (outside, disconnects)
    ∷ []

perform_all-others_example :
    (others "d1" (perform_all "d1" events server).conn.tables.terminal_sessions
      ≡ others "d1" tables.terminal_sessions)
    × IsKeyed (perform_all "d1" events server).conn.tables.terminal_sessions
perform_all-others_example = perform_all-others "d1" events server tables-IsKeyed

disconnect_example :
    All
      (λ r. (r.device_id == "d1") ≡ true → is_active r.status ≡ false)
      (disconnect outside "d1" server).conn.tables.terminal_sessions
disconnect_example = disconnect_lem "d1" outside server (λ n. refl)

closed_found :
    find_where (is_session "s3") tables.terminal_sessions ≡ some (session "s3" "d1" session_closed)
unfolding find_where
closed_found = refl

handle_agent_envelope-Runs_example :
    Runs "s3"
      (handle_agent_envelope outside "d1" start "agent" server).conn.tables.terminal_sessions
handle_agent_envelope-Runs_example =
    handle_agent_envelope-Runs outside "d1" "agent" start started server
      (session "s3" "d1" session_closed) (λ n. refl) refl refl closed_found refl

-- The agent still reports the closed session as running.
abbrev reported : SessionSummary
reported = record {
  session_id = "s3";
  title = "";
  shell_path = "";
  working_directory = "";
  status = session_running;
  agent_pid = pos 11;
  last_output_seq = pos 4;
}

s3-IsClosed : IsClosed "s3" tables
s3-IsClosed = record {
  known = refl;
  closed = ((λ e. absurd (cc e)), ((λ e. absurd (cc e)), ((λ e. refl), tt)));
}

sync-disconnect_example :
    IsClosed "s3" (sync_agent_sessions outside "d1" (reported ∷ []) server).conn.tables
    × IsClosed "s3" (disconnect outside "d1" server).conn.tables
sync-disconnect_example =
    sync-disconnect-IsClosed "s3" outside "d1" (reported ∷ []) server s3-IsClosed

abbrev all_deliver : String → Outbound → Bool
all_deliver peer msg = true

-- The agent connects again before its first connection is seen to end.
abbrev reconnected : List (Outside × Event)
reconnected =
    (outside, connects [] [] "old")
    ∷ (outside, connects [] [] "new")
    ∷ (outside, receives start "new")
    ∷ (outside, disconnects)
    ∷ []

abbrev note : Outbound
note = error_outbound "code" "message"

perform_all-to_device_example :
    to_device all_deliver (perform_all "d1" reconnected server).hub "d1" note ≡ (
      if "d1" == "d1"
      then send_to all_deliver (peer_after reconnected (lookup "d1" server.hub.agents)) note
      else to_device all_deliver server.hub "d1" note)
perform_all-to_device_example = perform_all-to_device all_deliver "d1" "d1" reconnected server note
