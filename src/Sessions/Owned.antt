-- ===== src/Sessions/Owned.antt =====
-- router.go: what a device sees of the sessions through the parts of the handlers of its agent.
use vibe_terminal.Base.{
  ℕ, ℤ, String, ◌≡◌, refl, sym, ◌∙◌, ap, subst, true, false, Option, none, some, List, [], ◌∷◌,
  ◌==◌, arith, inl, inr, Option-cases, Bool-cases,
}
use vibe_terminal.Protocol.{SessionStarted, Stdout, SessionExit}
use vibe_terminal.Store.Rows.{TerminalSession, AuditEvent, OutputChunk, Tables}
use vibe_terminal.Store.Db.{Error, Result, ok, err, not_found}
use vibe_terminal.Store.Table.{find_where}
use vibe_terminal.Store.Keeps.{
  Keeps, Kept, keeps_rules, Keeps-exec, Keeps-bind, Keeps-pure, Keeps-require_affected,
}
use vibe_terminal.Store.TwoFactor.{insert_audit_event}
use vibe_terminal.Store.Devices.{see_device, touch_device, create_audit_event}
use vibe_terminal.Store.Sessions.{
  is_session, create_terminal_session, get_terminal_session, update_terminal_session_status,
  insert_chunk, create_output_chunk,
}
use vibe_terminal.Sessions.{Server, Outside, Step, ask, log_event}
use vibe_terminal.Sessions.Keeps.{Stable, stable_rules, Stable-skip}
use vibe_terminal.Sessions.Rows.{IsMine, found_Owns, set_status-IsMine, insert_session-IsMine}
use vibe_terminal.Sessions.Steady.{get_session_same, get_session_found}
use vibe_terminal.Sessions.Agents.{
  write_chunk, persist_output_chunk, note_stdout, note_exit, on_session_started, on_stdout,
  on_session_exit,
}

module _ (device_id : String) (rest : List TerminalSession) where
  see_device-IsMine :
      (id : String) (at clock : ℕ) (ids : List String) (t : Tables)
      → IsMine device_id rest ids t
      → Kept (IsMine device_id rest ids) (see_device id at clock t)
  unfolding see_device
  see_device-IsMine id at clock ids t h = record { keyed = h.keyed; same = h.same; owned = h.owned }

  insert_chunk-IsMine :
      (chunk : OutputChunk) (ids : List String) (t : Tables)
      → IsMine device_id rest ids t
      → Kept (IsMine device_id rest ids) (insert_chunk chunk t)
  unfolding insert_chunk
  insert_chunk-IsMine chunk ids t h = ground (arith, h.keyed, h.same, h.owned)

  insert_audit_event-IsMine :
      (e : AuditEvent) (ids : List String) (t : Tables)
      → IsMine device_id rest ids t
      → Kept (IsMine device_id rest ids) (insert_audit_event e t)
  unfolding insert_audit_event
  insert_audit_event-IsMine e ids t h = ground (arith, h.keyed, h.same, h.owned)

  pub update_status-Keeps :
      (clock : ℕ) (id status : String) (agent_pid last_seq : ℤ) (ids : List String)
      → Keeps
          (IsMine device_id rest (id ∷ ids))
          (update_terminal_session_status clock id status agent_pid last_seq)
  unfolding update_terminal_session_status
  update_status-Keeps clock id status agent_pid last_seq ids =
      Keeps-require_affected _ not_found
        (Keeps-exec _ (set_status-IsMine device_id rest id status agent_pid last_seq clock ids))

  pub create_session-Keeps :
      (clock : ℕ) (s : TerminalSession)
      → (s.device_id == device_id) ≡ true
      → Keeps (IsMine device_id rest []) (create_terminal_session clock s)
  unfolding create_terminal_session
  create_session-Keeps clock s e =
      Keeps-bind _ _ (Keeps-exec _ (λ t. insert_session-IsMine device_id rest _ t e))
        λ n. Keeps-pure _

  pub get_session-Keeps :
      (id : String) (ids : List String)
      → Keeps (IsMine device_id rest ids) (get_terminal_session id)
  unfolding get_terminal_session
  get_session-Keeps id ids = search keeps_rules

  pub touch-Keeps :
      (clock at : ℕ) (id : String) (ids : List String)
      → Keeps (IsMine device_id rest ids) (touch_device clock id at)
  unfolding touch_device
  touch-Keeps clock at id ids = search (keeps_rules, see_device-IsMine)

  create_chunk-Keeps :
      (clock : ℕ) (chunk : OutputChunk) (ids : List String)
      → Keeps (IsMine device_id rest ids) (create_output_chunk clock chunk)
  unfolding create_output_chunk
  create_chunk-Keeps clock chunk ids = search (keeps_rules, insert_chunk-IsMine)

  pub log-Keeps :
      (o : Outside) (e : AuditEvent) (ids : List String)
      → Keeps (IsMine device_id rest ids) (log_event o e)
  unfolding log_event create_audit_event
  log-Keeps o e ids = search (keeps_rules, insert_audit_event-IsMine)

  -- What an agent may do with a session that it owns.
  write-Stable :
      (o : Outside) (msg : Stdout) (ids : List String) (r : Option (String × ℤ))
      → Stable (IsMine device_id rest ids) (write_chunk o msg r)
  unfolding write_chunk
  write-Stable o msg ids none = search (stable_rules, log-Keeps)
  write-Stable o msg ids (some (path, size)) = search (stable_rules, create_chunk-Keeps)

  persist-Stable :
      (o : Outside) (msg : Stdout) (ids : List String)
      → Stable (IsMine device_id rest ids) (persist_output_chunk o msg)
  unfolding persist_output_chunk
  persist-Stable o msg ids = elim (Option-cases o.output) [
    | inl e ↦ rw e Stable-skip
    | inr (write, e) ↦ rw e (write-Stable _ msg ids _)
  ]

  note_stdout-Stable :
      (o : Outside) (msg : Stdout) (r : Result TerminalSession)
      → Stable (IsMine device_id rest (msg.session_id ∷ [])) (note_stdout o msg r)
  unfolding note_stdout
  note_stdout-Stable o msg (ok session) = search (stable_rules, update_status-Keeps)
  note_stdout-Stable o msg (err e) = Stable-skip

  pub on_stdout-Stable :
      (o : Outside) (msg : Stdout)
      → Stable (IsMine device_id rest (msg.session_id ∷ [])) (on_stdout o msg)
  unfolding on_stdout
  on_stdout-Stable o msg =
      search (stable_rules, get_session-Keeps, note_stdout-Stable, persist-Stable)

  note_exit-Stable :
      (o : Outside) (msg : SessionExit) (r : Result TerminalSession)
      → Stable (IsMine device_id rest (msg.session_id ∷ [])) (note_exit o msg r)
  unfolding note_exit
  note_exit-Stable o msg (ok session) = search (stable_rules, update_status-Keeps)
  note_exit-Stable o msg (err e) = search (stable_rules, update_status-Keeps)

  pub on_exit-Stable :
      (o : Outside) (msg : SessionExit)
      → Stable (IsMine device_id rest (msg.session_id ∷ [])) (on_session_exit o msg)
  unfolding on_session_exit
  on_exit-Stable o msg = search (stable_rules, get_session-Keeps, note_exit-Stable)

  pub on_started-Stable :
      (o : Outside) (msg : SessionStarted)
      → Stable (IsMine device_id rest (msg.session_id ∷ [])) (on_session_started o device_id msg)
  unfolding on_session_started
  on_started-Stable o msg = search (stable_rules, update_status-Keeps)

  -- A session that is read decides what may follow.
  module _ (id : String) (f : Result TerminalSession → Step)
      (mine : (s : TerminalSession)
        → (s.device_id == device_id) ≡ true
        → Stable (IsMine device_id rest (id ∷ [])) (f (ok s)))
      (other : (s : TerminalSession)
        → (s.device_id == device_id) ≡ false
        → Stable (IsMine device_id rest []) (f (ok s)))
      (failed : (e : Error) → Stable (IsMine device_id rest []) (f (err e))) where
    continue_session :
        (r : Result TerminalSession) (s : Server)
        → ((found : TerminalSession)
            → r ≡ ok found
            → find_where (is_session id) s.conn.tables.terminal_sessions ≡ some found)
        → IsMine device_id rest [] s.conn.tables
        → IsMine device_id rest [] (f r s).conn.tables
    continue_session (ok session) s found h = elim (Bool-cases (session.device_id == device_id)) [
      | inl e ↦
          let owned =
            found_Owns device_id id s.conn.tables.terminal_sessions session h.keyed
              (found session refl) e in
          let after =
            (mine session e).after s
              (record { keyed = h.keyed; same = h.same; owned = (owned, tt) }) in
          record { keyed = after.keyed; same = after.same; owned = tt }
      | inr e ↦ (other session e).after s h
    ]
    continue_session (err e) s found h = (failed e).after s h

    pub ask_session-Stable : Stable (IsMine device_id rest []) (ask (get_terminal_session id) f)
    unfolding ask
    ask_session-Stable = record {
      after = λ s h.
          let same = get_session_same id s.conn in
          continue_session (get_terminal_session id s.conn).0 _
            (λ found e.
              ap (λ t. find_where (is_session id) t.terminal_sessions) same
              ∙ get_session_found id s.conn found e)
            (subst (IsMine device_id rest []) (sym same) h);
    }
