-- ===== src/Protocol.antt =====
-- server/internal/protocol/messages.go: the messages between server, agents and browsers. Their JSON
-- text is the work of `encoding/json`, which the definitions take as functions.
use vibe_terminal.Base.{ℤ, String, Option, none, some, List, ◌==◌, if◌then◌else◌}

abbrev pub protocol_version : String
protocol_version = "v1"

abbrev pub capability_fs : String
capability_fs = "fs"

abbrev pub type_agent_hello : String
type_agent_hello = "agent_hello"

abbrev pub type_heartbeat : String
type_heartbeat = "heartbeat"

abbrev pub type_sync_sessions : String
type_sync_sessions = "sync_sessions"

abbrev pub type_start_session : String
type_start_session = "start_session"

abbrev pub type_session_started : String
type_session_started = "session_started"

abbrev pub type_stdin : String
type_stdin = "stdin"

abbrev pub type_resize : String
type_resize = "resize"

abbrev pub type_stdout : String
type_stdout = "stdout"

abbrev pub type_session_exit : String
type_session_exit = "session_exit"

abbrev pub type_close_session : String
type_close_session = "close_session"

abbrev pub type_subscribe_session : String
type_subscribe_session = "subscribe_session"

abbrev pub type_session_state : String
type_session_state = "session_state"

abbrev pub type_error : String
type_error = "error"

abbrev pub type_fs_list : String
type_fs_list = "fs_list"

abbrev pub type_fs_list_result : String
type_fs_list_result = "fs_list_result"

abbrev pub type_fs_read : String
type_fs_read = "fs_read"

abbrev pub type_fs_read_result : String
type_fs_read_result = "fs_read_result"

abbrev pub type_fs_write_open : String
type_fs_write_open = "fs_write_open"

abbrev pub type_fs_write_opened : String
type_fs_write_opened = "fs_write_opened"

abbrev pub type_fs_write_chunk : String
type_fs_write_chunk = "fs_write_chunk"

abbrev pub type_fs_write_ack : String
type_fs_write_ack = "fs_write_ack"

abbrev pub type_fs_write_close : String
type_fs_write_close = "fs_write_close"

abbrev pub type_fs_write_result : String
type_fs_write_result = "fs_write_result"

abbrev pub type_fs_error : String
type_fs_error = "fs_error"

pub record SessionSummary : Type 0 where
  pub session_id : String
  pub title : String
  pub shell_path : String
  pub working_directory : String
  pub status : String
  pub agent_pid : ℤ
  pub last_output_seq : ℤ

pub record AgentHello : Type 0 where
  pub device_id : String
  pub credential : String
  pub platform : String
  pub agent_version : String
  pub version : String
  pub capabilities : List String
  pub sessions : List SessionSummary

pub record SyncSessions : Type 0 where
  pub device_id : String
  pub sessions : List SessionSummary

pub record StartSession : Type 0 where
  pub session_id : String
  pub shell_path : String
  pub working_directory : String
  pub cols : ℤ
  pub rows : ℤ

pub record SessionStarted : Type 0 where
  pub session_id : String
  pub agent_pid : ℤ
  pub title : String
  pub last_output_seq : ℤ

pub record Stdin : Type 0 where
  pub session_id : String
  pub contents : String

pub record Resize : Type 0 where
  pub session_id : String
  pub cols : ℤ
  pub rows : ℤ

pub record Stdout : Type 0 where
  pub session_id : String
  pub seq : ℤ
  pub contents : String

pub record SessionExit : Type 0 where
  pub session_id : String
  pub exit_code : ℤ
  pub message : String

pub record SessionState : Type 0 where
  pub session_id : String
  pub status : String
  pub message : String

pub record ErrorMessage : Type 0 where
  pub code : String
  pub message : String

-- A payload, `any` in the source: the types that are sent.
pub data Message : Type 0 where
  start_session : StartSession → Message
  session_started : SessionStarted → Message
  stdin : Stdin → Message
  resize : Resize → Message
  stdout : Stdout → Message
  session_exit : SessionExit → Message
  close_session subscribe_session : String → Message
  session_state : SessionState → Message
  error_message : ErrorMessage → Message

-- `SessionIdentifier`, where the type has it
unfoldable pub session_identifier : Message → Option String
session_identifier (start_session m) = some m.session_id
session_identifier (session_started m) = some m.session_id
session_identifier (stdin m) = some m.session_id
session_identifier (resize m) = some m.session_id
session_identifier (stdout m) = some m.session_id
session_identifier (session_exit m) = some m.session_id
session_identifier (close_session id) = some id
session_identifier (subscribe_session id) = some id
session_identifier (session_state m) = some m.session_id
session_identifier (error_message m) = none

-- An absent field of the JSON object is the empty text.
pub record Envelope : Type 0 where
  pub type : String
  pub request_id : String
  pub session_id : String
  pub payload : String

-- `DecodeEnvelope`, after `json.Unmarshal`
unfoldable pub decode_envelope : (String → Option Envelope) → String → Option Envelope
decode_envelope unmarshal text = elim (unmarshal text) [
  | none ↦ none
  | some env ↦ if env.type == "" then none else some env
]

unfoldable pub encode_envelope_with_request :
    (Message → Option String) → String → String → Message → Option Envelope
encode_envelope_with_request marshal message_type request_id payload = elim (marshal payload) [
  | none ↦ none
  | some raw ↦ some (record {
    type = message_type;
    request_id = request_id;
    session_id = elim (session_identifier payload) [ none ↦ "" | some id ↦ id ];
    payload = raw;
  })
]

unfoldable pub encode_envelope : (Message → Option String) → String → Message → Option Envelope
encode_envelope marshal message_type payload = elim (marshal payload) [
  | none ↦ none
  | some raw ↦ some (record {
    type = message_type;
    request_id = "";
    session_id = elim (session_identifier payload) [ none ↦ "" | some id ↦ id ];
    payload = raw;
  })
]
