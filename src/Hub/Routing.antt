-- ===== src/Hub/Routing.antt =====
-- hub.go: `FromAgent`, `FromWeb` and `ToDevice`, by what they send and to whom.
use vibe_terminal.Base.{
  String, ◌≡◌, refl, Bool, true, none, some, List, [], ◌∷◌, ◌==◌, eq_iff, if◌then◌else◌, any, arith,
}
use vibe_terminal.GoMap.{lookup, lookup-insert, lookup-erase}
use vibe_terminal.Protocol.{Message}
use vibe_terminal.Hub.{
  Hub, no_agent, Outbound, attach_agent, detach_agent, bind_session, send, to_device, peers_of,
  has_peer, broadcast, from_agent, from_web, outbound, session_id_of,
}
use vibe_terminal.Hub.Subscriptions.{subscribed}

-- A peer was sent something.
abbrev pub reached : String → List (String × Outbound) → Bool
reached q = any (λ sent. sent.0 == q)

module _ (delivers : String → Outbound → Bool) (msg : Outbound) where
  reached-broadcast_le :
      (q : String) (ps : List String)
      → reached q (broadcast delivers msg ps).1 ≡ true
      → has_peer q ps ≡ true
  unfolding broadcast
  reached-broadcast_le q [] h = h
  reached-broadcast_le q (p ∷ ps) h = ground (arith, reached-broadcast_le q ps)

  reached-broadcast_ok :
      (q : String) (ps : List String)
      → (broadcast delivers msg ps).0 ≡ none
      → reached q (broadcast delivers msg ps).1 ≡ has_peer q ps
  unfolding broadcast
  reached-broadcast_ok q [] h = refl
  reached-broadcast_ok q (p ∷ ps) h = ground (arith, reached-broadcast_ok q ps)

  broadcast_ok :
      (ps : List String)
      → ((q : String) → has_peer q ps ≡ true → delivers q msg ≡ true)
      → (broadcast delivers msg ps).0 ≡ none
  unfolding broadcast
  broadcast_ok [] h = refl
  broadcast_ok (p ∷ ps) h =
      let first : delivers p msg ≡ true = h p (ground (arith, eq_iff p p)) in
      let others = broadcast_ok ps (λ q m. h q (ground arith)) in ground arith

-- A message of an agent goes to subscribers of its session only; if every send succeeds, it goes
-- to each of them.
pub from_agent_lem :
    (delivers : String → Outbound → Bool) (h : Hub) (msg : Message) (q : String)
    → (reached q (from_agent delivers h msg).1 ≡ true → subscribed h (session_id_of msg) q ≡ true)
      × ((from_agent delivers h msg).0 ≡ none
          → reached q (from_agent delivers h msg).1 ≡ subscribed h (session_id_of msg) q)
unfolding from_agent
from_agent_lem delivers h msg q =
    let peers = peers_of (lookup (session_id_of msg) h.web_subscribers) in
    (
      reached-broadcast_le delivers (outbound msg) q peers,
      reached-broadcast_ok delivers (outbound msg) q peers,
    )

-- If the subscribers of the session accept the message, each of them gets it.
pub from_agent_all :
    (delivers : String → Outbound → Bool) (h : Hub) (msg : Message)
    → ((q : String) → subscribed h (session_id_of msg) q ≡ true → delivers q (outbound msg) ≡ true)
    → (q : String) → reached q (from_agent delivers h msg).1 ≡ subscribed h (session_id_of msg) q
unfolding from_agent
from_agent_all delivers h msg ok q =
    let peers = peers_of (lookup (session_id_of msg) h.web_subscribers) in
    reached-broadcast_ok delivers (outbound msg) q peers
      (broadcast_ok delivers (outbound msg) peers ok)

-- Attaching a peer to a device and detaching one redirects this device's messages, and no other's.
pub to_device_lem :
    (delivers : String → Outbound → Bool) (h : Hub) (d e p : String) (msg : Outbound)
    → (to_device delivers (attach_agent h d p) e msg
        ≡ (if d == e then send delivers p msg else to_device delivers h e msg))
      × (to_device delivers (detach_agent h d) e msg
          ≡ (if d == e then (some no_agent, []) else to_device delivers h e msg))
unfolding to_device attach_agent detach_agent
to_device_lem delivers h d e p msg =
    ground (arith, lookup-insert d e p h.agents, lookup-erase d e h.agents)

-- A browser's message for a session that was bound to a device goes to the peer that is attached to
-- that device, with the message's own session id, whatever was bound or attached before.
pub from_web-bind_session :
    (delivers : String → Outbound → Bool) (h : Hub) (msg : Message) (d p : String)
    → from_web delivers (attach_agent (bind_session h (session_id_of msg) d) d p) msg
      ≡ send delivers p (outbound msg)
unfolding from_web bind_session attach_agent
from_web-bind_session delivers h msg d p = ground (
  arith,
  lookup-insert (session_id_of msg) (session_id_of msg) d h.session_devices,
  lookup-insert d d p h.agents,
  eq_iff d d,
  eq_iff (session_id_of msg) (session_id_of msg),
)
