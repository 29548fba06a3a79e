-- ===== src/Store/Sessions.antt =====
-- server/internal/store/store.go: terminal sessions and the chunks of their output.
use vibe_terminal.Base.{
  ℕ, ℤ, ltb_ℤ, String, Bool, not, ◌&&◌, ◌||◌, Option, none, some, List, [], ◌∷◌, ◌++◌, ◌==◌, ltb,
  if◌then◌else◌, count, any, filter,
}
use vibe_terminal.Store.Rows.{TerminalSession, OutputChunk, Tables, session_closed}
use vibe_terminal.Store.Db.{
  Db, not_found, pure, query, exec, or_raise, require_affected, ◌>>=◌, ◌>>◌,
}
use vibe_terminal.Store.Table.{update_where, find_where, order_by}
use vibe_terminal.Store.TwoFactor.{or_now}

abbrev pub is_session : String → TerminalSession → Bool
is_session id r = r.id == id

-- The primary key and `references devices(id)`.
unfoldable pub insert_session : TerminalSession → Tables → Option (ℕ × Tables)
insert_session session t =
    if any (is_session session.id) t.terminal_sessions
      || not (any (λ d. d.id == session.device_id) t.devices)
    then none
    else some (1, record t { terminal_sessions = t.terminal_sessions ++ session ∷ [] })

unfoldable pub create_terminal_session : ℕ → TerminalSession → Db TerminalSession
create_terminal_session clock session =
    let stamped = record session {
      created_at = or_now clock session.created_at;
      updated_at = or_now clock session.updated_at;
    } in
    exec (insert_session stamped) >> pure stamped

abbrev pub find_session : String → Tables → Option TerminalSession
find_session id t = find_where (is_session id) t.terminal_sessions

unfoldable pub get_terminal_session : String → Db TerminalSession
get_terminal_session id = do found ← query (find_session id); or_raise not_found found

unfoldable pub set_status : String → String → ℤ → ℤ → ℕ → Tables → Option (ℕ × Tables)
set_status id status agent_pid last_seq clock t = some (
  count (is_session id) t.terminal_sessions,
  record t {
    terminal_sessions =
        update_where (is_session id)
          (λ r. record r {
            status = status;
            agent_pid = agent_pid;
            last_output_seq = last_seq;
            updated_at = clock;
          })
          t.terminal_sessions;
  },
)

unfoldable pub update_terminal_session_status : ℕ → String → String → ℤ → ℤ → Db Unit
update_terminal_session_status clock id status agent_pid last_seq =
    require_affected (exec (set_status id status agent_pid last_seq clock)) not_found

unfoldable pub set_title : String → String → ℕ → Tables → Option (ℕ × Tables)
set_title id title clock t = some (
  count (is_session id) t.terminal_sessions,
  record t {
    terminal_sessions =
        update_where (is_session id) (λ r. record r { title = title; updated_at = clock })
          t.terminal_sessions;
  },
)

unfoldable pub update_terminal_session_title : ℕ → String → String → Db Unit
update_terminal_session_title clock id title =
    require_affected (exec (set_title id title clock)) not_found

abbrev pub is_listed : String → TerminalSession → Bool
is_listed device_id r = r.device_id == device_id && not (r.status == session_closed)

unfoldable pub list_terminal_sessions_for_device : String → Db (List TerminalSession)
list_terminal_sessions_for_device device_id = query (λ t.
    order_by (λ a b. ltb a.created_at b.created_at)
      (filter (is_listed device_id) t.terminal_sessions))

unfoldable pub insert_chunk : OutputChunk → Tables → Option (ℕ × Tables)
insert_chunk chunk t =
    if any (λ r. r.id == chunk.id) t.terminal_output_chunks
      || not (any (is_session chunk.session_id) t.terminal_sessions)
    then none
    else some (1, record t { terminal_output_chunks = t.terminal_output_chunks ++ chunk ∷ [] })

unfoldable pub create_output_chunk : ℕ → OutputChunk → Db OutputChunk
create_output_chunk clock chunk =
    let stamped = record chunk { created_at = or_now clock chunk.created_at } in
    exec (insert_chunk stamped) >> pure stamped

unfoldable pub list_output_chunks : String → Db (List OutputChunk)
list_output_chunks session_id = query (λ t.
    order_by (λ a b. ltb_ℤ a.start_seq b.start_seq)
      (filter (λ r. r.session_id == session_id) t.terminal_output_chunks))
