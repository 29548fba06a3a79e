-- ===== src/Sessions/Reopening.antt =====
-- router.go: what an agent that reports the start of a session does to the session's status.
use vibe_terminal.Base.{
  ℕ, suc, ℤ, String, ◌≡◌, sym, subst, true, some, List, [], ◌∷◌, ◌==◌, eq_refl, arith, All,
}
use vibe_terminal.Protocol.{Envelope, SessionStarted, type_session_started}
use vibe_terminal.Store.Rows.{TerminalSession, session_running}
use vibe_terminal.Store.Table.{update_where, find_where}
use vibe_terminal.Store.Sessions.{is_session}
use vibe_terminal.Sessions.{Server, Outside, skip, ◌▷◌, choose, ask, update_hub, forward}
use vibe_terminal.Sessions.Steady.{IsSteady, update_status_rows, get_session_steady}
use vibe_terminal.Sessions.Agents.{decoded, when_owned, on_session_started, handle_agent_envelope}

-- Every session with the id runs.
abbrev pub Runs : String → List TerminalSession → Type 0
Runs id = All (λ r. (r.id == id) ≡ true → r.status ≡ session_running)

updated-Runs :
    (id : String) (pid seq : ℤ) (clock : ℕ) (rows : List TerminalSession)
    → Runs id (
        update_where
          (is_session id)
          (λ r. record r {
            status = session_running;
            agent_pid = pid;
            last_output_seq = seq;
            updated_at = clock;
          })
          rows)
unfolding update_where
updated-Runs id pid seq clock [] = tt
updated-Runs id pid seq clock (r ∷ rows) = ((λ e. ground arith), updated-Runs id pid seq clock rows)

module _ (o : Outside) (device_id peer : String) (env : Envelope) (msg : SessionStarted) where
  started-Runs :
      (s : Server)
      → IsSteady s.conn
      → Runs msg.session_id (on_session_started o device_id msg s).conn.tables.terminal_sessions
  unfolding on_session_started ◌▷◌ ask skip update_hub forward
  started-Runs s steady =
      subst (Runs msg.session_id)
        (sym (
          update_status_rows o.clock msg.session_id session_running msg.agent_pid
            msg.last_output_seq s.conn steady))
        (updated-Runs msg.session_id msg.agent_pid msg.last_output_seq o.clock _)

  -- When no statement fails, a session that its own agent reports as started is running afterwards,
  -- whatever its status was: a session that was closed is open again.
  pub handle_agent_envelope-Runs :
      (s : Server) (found : TerminalSession)
      → IsSteady s.conn
      → env.type ≡ type_session_started
      → o.session_started env.payload ≡ some msg
      → find_where (is_session msg.session_id) s.conn.tables.terminal_sessions ≡ some found
      → found.device_id ≡ device_id
      → Runs msg.session_id
          (handle_agent_envelope o device_id env peer s).conn.tables.terminal_sessions
  unfolding handle_agent_envelope choose decoded when_owned ask
  handle_agent_envelope-Runs s found steady type payload e mine =
      rw
        (
          type,
          payload,
          get_session_steady msg.session_id s.conn found steady e,
          mine,
          eq_refl device_id,
        )
        (started-Runs _ (λ n. steady (suc n)))
