-- ===== src/Sessions/Steady.antt =====
-- store.go: what the methods on sessions read, and what they do when no statement fails.
use vibe_terminal.Base.{ℕ, suc, ℤ, String, ◌≡◌, false, some, arith}
use vibe_terminal.Store.Rows.{TerminalSession}
use vibe_terminal.Store.Db.{query, Conn, next, ok, require_affected, ◌>>=◌}
use vibe_terminal.Store.Table.{update_where, find_where}
use vibe_terminal.Store.Sessions.{
  is_session, list_terminal_sessions_for_device, set_status, get_terminal_session,
  update_terminal_session_status,
}

pub get_session_same : (id : String) (c : Conn) → (get_terminal_session id c).1.tables ≡ c.tables
unfolding get_terminal_session ◌>>=◌
get_session_same id c = ground arith

pub get_session_found :
    (id : String) (c : Conn) (s : TerminalSession)
    → (get_terminal_session id c).0 ≡ ok s
    → find_where (is_session id) c.tables.terminal_sessions ≡ some s
unfolding get_terminal_session ◌>>=◌
get_session_found id c s h = ground arith

pub list_same :
    (device_id : String) (c : Conn)
    → (list_terminal_sessions_for_device device_id c).1.tables ≡ c.tables
unfolding list_terminal_sessions_for_device query
list_same device_id c = ground arith

-- No statement fails.
abbrev pub IsSteady : Conn → Type 0
IsSteady c = (n : ℕ) → c.faults n ≡ false

module _ (clock : ℕ) (id status : String) (pid seq : ℤ) (c : Conn) (steady : IsSteady c) where
  pub update_status_rows :
      (update_terminal_session_status clock id status pid seq c).1.tables.terminal_sessions
      ≡ update_where
          (is_session id)
          (λ r. record r {
            status = status;
            agent_pid = pid;
            last_output_seq = seq;
            updated_at = clock;
          })
          c.tables.terminal_sessions
  unfolding update_terminal_session_status set_status require_affected
  update_status_rows = ground (arith, steady 0, steady 1)

  pub update_status-IsSteady : IsSteady (update_terminal_session_status clock id status pid seq c).1
  unfolding update_terminal_session_status set_status require_affected
  update_status-IsSteady n = ground (arith, steady 0, steady 1, steady (suc (suc n)))

-- A session that is there is found.
pub get_session_steady :
    (id : String) (c : Conn) (found : TerminalSession)
    → IsSteady c
    → find_where (is_session id) c.tables.terminal_sessions ≡ some found
    → get_terminal_session id c ≡ (ok found, next c)
unfolding get_terminal_session ◌>>=◌
get_session_steady id c found steady e = ground (arith, steady 0, e)
