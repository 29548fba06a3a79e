-- ===== src/Sessions/Reconnect.antt =====
-- router.go, `handleAgentWebSocket`: where the messages for a device go while its agent connects,
-- sends and disconnects, also on several connections at the same time.
use vibe_terminal.Base.{
  String, ◌≡◌, Bool, Option, none, some, List, [], ◌∷◌, ◌==◌, if◌then◌else◌, arith,
}
use vibe_terminal.GoMap.{lookup, lookup-insert, lookup-erase}
use vibe_terminal.Hub.{Outbound, Sent, no_agent, send, to_device}
use vibe_terminal.Sessions.{Server, Outside}
use vibe_terminal.Sessions.Agents.{handle_agent_envelope, connect, disconnect}
use vibe_terminal.Sessions.Ownership.{Event, connects, receives, disconnects, perform, perform_all}
use vibe_terminal.Sessions.Routes.{keeps-handle_agent_envelope, disconnect_agents, connect_agents}

-- The peer of a device after some events of its connections: that of the last connection to start,
-- and none once any of the connections has ended since then.
abbrev pub peer_after : List (Outside × Event) → Option String → Option String
peer_after [] peer = peer
peer_after ((o, connects capabilities sessions new) ∷ events) peer = peer_after events (some new)
peer_after ((o, receives env from) ∷ events) peer = peer_after events peer
peer_after ((o, disconnects) ∷ events) peer = peer_after events none

-- What is sent to a peer, if there is one.
abbrev pub send_to : (String → Outbound → Bool) → Option String → Outbound → Sent
send_to delivers none msg = (some no_agent, [])
send_to delivers (some peer) msg = send delivers peer msg

perform_all-lookup :
    (device_id e : String) (events : List (Outside × Event)) (s : Server)
    → lookup e (perform_all device_id events s).hub.agents ≡ (
        if device_id == e then peer_after events (lookup e s.hub.agents) else lookup e s.hub.agents)
unfolding perform_all perform
perform_all-lookup device_id e [] s = ground arith
perform_all-lookup device_id e ((o, connects capabilities sessions peer) ∷ events) s = ground (
  arith,
  perform_all-lookup device_id e events (connect o device_id capabilities sessions peer s),
  connect_agents o device_id capabilities sessions peer s,
  lookup-insert device_id e peer s.hub.agents,
)
perform_all-lookup device_id e ((o, receives env peer) ∷ events) s = ground (
  arith,
  perform_all-lookup device_id e events (handle_agent_envelope o device_id env peer s),
  (keeps-handle_agent_envelope o device_id env peer).after s,
)
perform_all-lookup device_id e ((o, disconnects) ∷ events) s = ground (
  arith,
  perform_all-lookup device_id e events (disconnect o device_id s),
  disconnect_agents o device_id s,
  lookup-erase device_id e s.hub.agents,
)

-- After any events of the connections of a device's agent, whichever statements fail, messages for
-- the device go to the peer of the last connection to start, unless one of the connections, the last
-- or an older one, has ended since then: the device is then unreachable. What is sent to the other
-- devices does not change.
pub perform_all-to_device :
    (delivers : String → Outbound → Bool) (device_id e : String) (events : List (Outside × Event))
    (s : Server) (msg : Outbound)
    → to_device delivers (perform_all device_id events s).hub e msg ≡ (
        if device_id == e
        then send_to delivers (peer_after events (lookup e s.hub.agents)) msg
        else to_device delivers s.hub e msg)
unfolding to_device
perform_all-to_device delivers device_id e events s msg =
    ground (arith, perform_all-lookup device_id e events s)
