-- ===== src/Sessions/Ownership.antt =====
-- router.go: what an agent's connections do to the sessions of the other devices.
use vibe_terminal.Base.{String, ◌≡◌, refl, List, [], ◌∷◌}
use vibe_terminal.Protocol.{Envelope, SessionSummary}
use vibe_terminal.Store.Rows.{TerminalSession}
use vibe_terminal.Sessions.{Server, Outside, Step}
use vibe_terminal.Sessions.Agents.{handle_agent_envelope, connect, disconnect}
use vibe_terminal.Sessions.Rows.{IsKeyed, others, IsMine}
use vibe_terminal.Sessions.Keeps.{Stable}
use vibe_terminal.Sessions.Handled.{handle-Stable, connect-Stable, disconnect-Stable}

-- What happens on the connections of an agent.
pub data Event : Type 0 where
  connects : List String → List SessionSummary → String → Event
  receives : Envelope → String → Event
  disconnects : Event

unfoldable pub perform : Outside → String → Event → Step
perform o device_id (connects capabilities sessions peer) =
    connect o device_id capabilities sessions peer
perform o device_id (receives env peer) = handle_agent_envelope o device_id env peer
perform o device_id disconnects = disconnect o device_id

unfoldable pub perform_all : String → List (Outside × Event) → Step
perform_all device_id [] s = s
perform_all device_id ((o, event) ∷ events) s =
    perform_all device_id events (perform o device_id event s)

module _ (device_id : String) where
  perform-Stable :
      (rest : List TerminalSession) (o : Outside) (event : Event)
      → Stable (IsMine device_id rest []) (perform o device_id event)
  unfolding perform
  perform-Stable rest o (connects capabilities sessions peer) =
      connect-Stable device_id rest o capabilities sessions peer
  perform-Stable rest o (receives env peer) = handle-Stable device_id rest o env peer
  perform-Stable rest o disconnects = disconnect-Stable device_id rest o

  perform_all-IsMine :
      (rest : List TerminalSession) (events : List (Outside × Event)) (s : Server)
      → IsMine device_id rest [] s.conn.tables
      → IsMine device_id rest [] (perform_all device_id events s).conn.tables
  unfolding perform_all
  perform_all-IsMine rest [] s h = h
  perform_all-IsMine rest ((o, event) ∷ events) s h =
      perform_all-IsMine rest events (perform o device_id event s)
        ((perform-Stable rest o event).after s h)

-- Whatever an agent sends and however often it connects, and whichever statements fail, the sessions
-- of the other devices stay as they were, and session ids stay distinct.
pub perform_all-others :
    (device_id : String) (events : List (Outside × Event)) (s : Server)
    → IsKeyed s.conn.tables.terminal_sessions
    → (others device_id (perform_all device_id events s).conn.tables.terminal_sessions
        ≡ others device_id s.conn.tables.terminal_sessions)
      × IsKeyed (perform_all device_id events s).conn.tables.terminal_sessions
perform_all-others device_id events s keyed =
    let after =
      perform_all-IsMine device_id _ events s (record { keyed = keyed; same = refl; owned = tt }) in
    (after.same, after.keyed)
