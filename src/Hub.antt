-- ===== src/Hub.antt =====
-- server/internal/ws/hub.go: `Hub`, which routes messages between browsers and agents. A peer is
-- known by its identity, a text; `delivers` says whether its `Send` succeeds. The methods return the
-- messages that they tried to send, in order.
pub mod Subscriptions
pub mod Routing
pub mod Delivery
use vibe_terminal.Base.{
  String, Bool, true, false, not, Option, none, some, List, [], ◌∷◌, ◌==◌, if◌then◌else◌, any,
  filter,
}
use vibe_terminal.GoMap.{GoMap, lookup, insert, erase}
use vibe_terminal.Protocol.{
  Message, start_session, session_started, stdin, resize, stdout, session_exit, close_session,
  subscribe_session, session_state, error_message, type_start_session, type_session_started,
  type_stdin, type_resize, type_stdout, type_session_exit, type_close_session, type_session_state,
  type_error,
}

pub data HubError : Type 0 where
  no_agent no_session_route send_failed : HubError

pub record Outbound : Type 0 where
  pub type : String
  pub session_id : String
  pub request_id : String
  pub payload : Message

pub record Hub : Type 0 where
  pub agents : GoMap String
  pub session_devices : GoMap String
  pub web_subscribers : GoMap (List String)

unfoldable pub new_hub : Hub
new_hub = record { agents = []; session_devices = []; web_subscribers = [] }

-- What was sent, and how it ended.
abbrev pub Sent : Type 0
Sent = Option HubError × List (String × Outbound)

unfoldable pub attach_agent : Hub → String → String → Hub
attach_agent h device_id peer = record h { agents = insert device_id peer h.agents }

unfoldable pub detach_agent : Hub → String → Hub
detach_agent h device_id = record h { agents = erase device_id h.agents }

abbrev pub send : (String → Outbound → Bool) → String → Outbound → Sent
send delivers peer msg = (if delivers peer msg then none else some send_failed, (peer, msg) ∷ [])

unfoldable pub to_device : (String → Outbound → Bool) → Hub → String → Outbound → Sent
to_device delivers h device_id msg = elim (lookup device_id h.agents) [
  | none ↦ (some no_agent, [])
  | some agent ↦ send delivers agent msg
]

unfoldable pub bind_session : Hub → String → String → Hub
bind_session h session_id device_id = record h {
  session_devices = insert session_id device_id h.session_devices;
}

-- The peers of a session; a missing key reads as the empty map.
abbrev pub peers_of : Option (List String) → List String
peers_of none = []
peers_of (some peers) = peers

abbrev pub has_peer : String → List String → Bool
has_peer peer = any (λ p. p == peer)

abbrev pub add_peer : String → List String → List String
add_peer peer peers = if has_peer peer peers then peers else peer ∷ peers

abbrev pub remove_peer : String → List String → List String
remove_peer peer = filter (λ p. not (p == peer))

unfoldable pub subscribe_web : Hub → String → String → Hub
subscribe_web h session_id peer = record h {
  web_subscribers =
      insert session_id (add_peer peer (peers_of (lookup session_id h.web_subscribers)))
        h.web_subscribers;
}

unfoldable pub unsubscribe_web : Hub → String → String → Hub
unsubscribe_web h session_id peer = elim (lookup session_id h.web_subscribers) [
  | none ↦ h
  | some peers ↦ record h {
    web_subscribers = insert session_id (remove_peer peer peers) h.web_subscribers;
  }
]

-- The loop of `UnsubscribePeer`, which drops the sessions that are left with no subscriber.
abbrev pub keep_session : String → List String → GoMap (List String) → GoMap (List String)
keep_session session_id [] rest = rest
keep_session session_id (p ∷ peers) rest = (session_id, p ∷ peers) ∷ rest

unfoldable pub remove_everywhere : String → GoMap (List String) → GoMap (List String)
remove_everywhere peer [] = []
remove_everywhere peer ((session_id, peers) ∷ m) =
    keep_session session_id (remove_peer peer peers) (remove_everywhere peer m)

unfoldable pub unsubscribe_peer : Hub → String → Hub
unfolding remove_everywhere
unsubscribe_peer h peer = record h { web_subscribers = remove_everywhere peer h.web_subscribers }

unfoldable pub session_id_of : Message → String
session_id_of (stdin m) = m.session_id
session_id_of (resize m) = m.session_id
session_id_of (stdout m) = m.session_id
session_id_of (session_state m) = m.session_id
session_id_of (session_started m) = m.session_id
session_id_of (session_exit m) = m.session_id
session_id_of (close_session id) = id
session_id_of (start_session m) = m.session_id
session_id_of (subscribe_session id) = ""
session_id_of (error_message m) = ""

unfoldable pub type_of : Message → String
type_of (stdin m) = type_stdin
type_of (resize m) = type_resize
type_of (stdout m) = type_stdout
type_of (session_state m) = type_session_state
type_of (session_started m) = type_session_started
type_of (session_exit m) = type_session_exit
type_of (close_session id) = type_close_session
type_of (start_session m) = type_start_session
type_of (subscribe_session id) = type_error
type_of (error_message m) = type_error

abbrev pub outbound : Message → Outbound
outbound msg = record {
  type = type_of msg;
  session_id = session_id_of msg;
  request_id = "";
  payload = msg;
}

unfoldable pub from_web : (String → Outbound → Bool) → Hub → Message → Sent
from_web delivers h msg = elim (lookup (session_id_of msg) h.session_devices) [
  | none ↦ (some no_session_route, [])
  | some device_id ↦ elim (lookup device_id h.agents) [
    | none ↦ (some no_agent, [])
    | some agent ↦ send delivers agent (outbound msg)
  ]
]

-- The loop of `FromAgent`, which ends at the first `Send` that fails.
unfoldable pub broadcast : (String → Outbound → Bool) → Outbound → List String → Sent
broadcast delivers msg [] = (none, [])
broadcast delivers msg (peer ∷ peers) =
    let rest = broadcast delivers msg peers in
    if delivers peer msg
    then (rest.0, (peer, msg) ∷ rest.1)
    else (some send_failed, (peer, msg) ∷ [])

-- `FromAgent`; its `deviceID` is not read.
unfoldable pub from_agent : (String → Outbound → Bool) → Hub → Message → Sent
unfolding broadcast
from_agent delivers h msg =
    broadcast delivers (outbound msg) (peers_of (lookup (session_id_of msg) h.web_subscribers))
