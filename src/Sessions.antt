-- ===== src/Sessions.antt =====
-- server/internal/httpapi/router.go: the state that the handlers of terminal sessions share, and the
-- actions they are made of. The text of a payload is decoded by `encoding/json`, a parameter.
pub mod Agents
pub mod Keeps
pub mod Rows
pub mod Owned
pub mod Listed
pub mod Handled
pub mod Steady
pub mod Disconnect
pub mod Reopening
pub mod ClosedRows
pub mod Closed
pub mod Ownership
pub mod Routes
pub mod Reconnect
use vibe_terminal.Base.{
  ℕ, ℤ, String, Bool, true, false, Option, none, some, List, [], ◌∷◌, ◌++◌, ◌==◌, if◌then◌else◌,
}
use vibe_terminal.Protocol.{
  Envelope, Message, error_message, type_error, SyncSessions, SessionStarted, Stdout, SessionExit,
}
use vibe_terminal.Presence.{Presence}
use vibe_terminal.Hub.{Hub, Outbound, from_agent}
use vibe_terminal.Store.Rows.{AuditEvent}
use vibe_terminal.Store.Db.{Conn, Db, Result}
use vibe_terminal.Store.TwoFactor.{or_now}
use vibe_terminal.Store.Devices.{create_audit_event}

pub record Server : Type 0 where
  pub conn : Conn
  pub hub : Hub
  pub presence : Presence
  -- What the hub and the handlers tried to send, in order.
  pub sent : List (String × Outbound)
  -- The responses that went to the file service, in order.
  pub responses : List Envelope

-- What the handling of one message takes from outside: the time, the result of `uuid.NewString`,
-- which it calls at most once, whether a `Send` succeeds, the `OutputWriter`, and the decoders.
pub record Outside : Type 0 where
  pub clock : ℕ
  pub id : String
  pub delivers : String → Outbound → Bool
  pub output : Option (String → ℤ → ℤ → String → Option (String × ℤ))
  pub sync_sessions : String → Option SyncSessions
  pub session_started : String → Option SessionStarted
  pub stdout : String → Option Stdout
  pub session_exit : String → Option SessionExit

abbrev pub Step : Type 0
Step = Server → Server

unfoldable pub skip : Step
skip s = s

infixl 10 ◌▷◌
unfoldable pub ◌▷◌ : Step → Step → Step
◌▷◌ f g s = g (f s)

unfoldable pub choose : Bool → Step → Step → Step
choose true f g = f
choose false f g = g

-- A call of the store, and what follows on its result.
unfoldable pub ask : {A : Type 0} → Db A → (Result A → Step) → Step
ask m f s = let (r, c) = m s.conn in f r (record s { conn = c })

-- `_ = r.store…`
abbrev pub run : {A : Type 0} → Db A → Step
run m = ask m (λ r. skip)

-- A call of the hub that changes its maps.
unfoldable pub update_hub : (Hub → Hub) → Step
update_hub f s = record s { hub = f s.hub }

unfoldable pub update_presence : (Presence → Presence) → Step
update_presence f s = record s { presence = f s.presence }

-- `_ = peer.Send(…)`
unfoldable pub reply : String → Outbound → Step
reply peer msg s = record s { sent = s.sent ++ (peer, msg) ∷ [] }

-- `_ = r.hub.FromAgent(…)`
unfoldable pub forward : Outside → Message → Step
forward o msg s = record s { sent = s.sent ++ (from_agent o.delivers s.hub msg).1 }

-- `_ = r.files.HandleAgentResponse(env)`
unfoldable pub respond : Envelope → Step
respond env s = record s { responses = s.responses ++ env ∷ [] }

unfoldable pub error_outbound : String → String → Outbound
error_outbound code message = record {
  type = type_error;
  session_id = "";
  request_id = "";
  payload = error_message (record { code = code; message = message });
}

unfoldable pub value_or : String → String → String
value_or value fallback = if value == "" then fallback else value

-- `Writer.Log` of server/internal/audit/audit.go
unfoldable pub log_event : Outside → AuditEvent → Db AuditEvent
log_event o event = create_audit_event o.clock (record event {
  id = value_or event.id o.id;
  created_at = or_now o.clock event.created_at;
  metadata_json = value_or event.metadata_json "{}";
})

-- An event with the fields that a handler leaves out.
abbrev pub event_of : String → String → String → String → AuditEvent
event_of device_id session_id event_type summary = record {
  id = "";
  user_id = "";
  device_id = device_id;
  session_id = session_id;
  event_type = event_type;
  summary = summary;
  metadata_json = "";
  created_at = 0;
}
