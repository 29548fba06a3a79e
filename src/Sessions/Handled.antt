-- ===== src/Sessions/Handled.antt =====
-- router.go: what a device sees of the sessions through the handlers of its agent.
use vibe_terminal.Base.{
  String, ◌≡◌, refl, sym, subst, not, Option, none, some, List, [], ◌∷◌, ◌==◌, map, any, filter,
  eq_refl, ltb, ◌||◌, arith, All,
}
use vibe_terminal.Protocol.{Envelope, SessionSummary}
use vibe_terminal.Store.Rows.{TerminalSession, session_lost}
use vibe_terminal.Store.Db.{
  Conn, Error, Result, ok, err, not_found, conflict, login_restart_required, invalid_second_factor,
  one_credential, driver, query,
}
use vibe_terminal.Store.Table.{order_by, All-order_by}
use vibe_terminal.Store.Sessions.{
  is_listed, get_terminal_session, list_terminal_sessions_for_device,
  update_terminal_session_status,
}
use vibe_terminal.Sessions.{Server, Outside, Step, skip, ◌▷◌, choose, ask, run}
use vibe_terminal.Sessions.Keeps.{
  Stable, stable_rules, Stable-skip, Stable-then, Stable-choose, Stable-reply, Stable-ask,
}
use vibe_terminal.Sessions.Rows.{IsKeyed, Owns, IsMine}
use vibe_terminal.Sessions.Listed.{keyed_owned, All-listed, All-ids}
use vibe_terminal.Sessions.Owned.{
  update_status-Keeps, create_session-Keeps, touch-Keeps, log-Keeps, on_stdout-Stable,
  on_exit-Stable, on_started-Stable, ask_session-Stable,
}
use vibe_terminal.Sessions.Steady.{list_same}
use vibe_terminal.Sessions.Agents.{
  is_active, sync_existing, sync_summaries, mark_lost, mark_listed, sync_agent_sessions,
  mark_disconnected_sessions_lost, decoded, when_owned, handle_agent_envelope, connect, disconnect,
  disconnect,
}

module _ (device_id : String) (rest : List TerminalSession) (o : Outside) where
  when_owned-Stable :
      (peer id : String) (f : Step)
      → Stable (IsMine device_id rest (id ∷ [])) f
      → Stable (IsMine device_id rest []) (when_owned o device_id peer id f)
  unfolding when_owned choose
  when_owned-Stable peer id f sf =
      ask_session-Stable device_id rest id _ (λ s e. Stable-choose _ _ _ sf (Stable-reply _ _))
        (λ s e. rw e (Stable-reply _ _)) (λ e. Stable-reply _ _)

  failed_sync-Stable :
      (summary : SessionSummary) (e : Error)
      → Stable (IsMine device_id rest []) (sync_existing o device_id summary (err e))
  unfolding sync_existing
  failed_sync-Stable summary not_found =
      Stable-then _ _
        (Stable-ask _ _ (create_session-Keeps device_id rest _ _ (eq_refl device_id))
          λ r. Stable-skip)
        (search stable_rules)
  failed_sync-Stable summary conflict = Stable-skip
  failed_sync-Stable summary login_restart_required = Stable-skip
  failed_sync-Stable summary invalid_second_factor = Stable-skip
  failed_sync-Stable summary one_credential = Stable-skip
  failed_sync-Stable summary driver = Stable-skip

  sync_existing-Stable :
      (summary : SessionSummary)
      → Stable
          (IsMine device_id rest [])
          (ask (get_terminal_session summary.session_id) (sync_existing o device_id summary))
  unfolding sync_existing choose
  sync_existing-Stable summary =
      ask_session-Stable device_id rest summary.session_id (sync_existing o device_id summary)
        (λ s e. search (stable_rules, update_status-Keeps)) (λ s e. rw e Stable-skip)
        (failed_sync-Stable summary)

  sync_summaries-Stable :
      (summaries : List SessionSummary)
      → Stable (IsMine device_id rest []) (sync_summaries o device_id summaries)
  unfolding sync_summaries
  sync_summaries-Stable [] = Stable-skip
  sync_summaries-Stable (summary ∷ summaries) =
      Stable-then _ _ (sync_existing-Stable summary) (sync_summaries-Stable summaries)

  mark_lost-IsMine :
      (seen : List String) (sessions : List TerminalSession) (s : Server)
      → IsMine device_id rest (map (λ r. r.id) sessions) s.conn.tables
      → IsMine device_id rest [] (mark_lost o seen sessions s).conn.tables
  unfolding mark_lost skip ◌▷◌
  mark_lost-IsMine seen [] s h = h
  mark_lost-IsMine seen (x ∷ sessions) s h =
      let marked : Stable (IsMine device_id rest (x.id ∷ map (λ r. r.id) sessions)) (
          choose (any (λ id. id == x.id) seen || not (is_active x.status)) skip (
            run (
              update_terminal_session_status o.clock x.id session_lost x.agent_pid
                x.last_output_seq))) =
        search (stable_rules, update_status-Keeps) in
      let after = marked.after s h in
      mark_lost-IsMine seen sessions _
        (record { keyed = after.keyed; same = after.same; owned = after.owned.1 })

  list_owned :
      (c : Conn) (sessions : List TerminalSession)
      → (list_terminal_sessions_for_device device_id c).0 ≡ ok sessions
      → IsKeyed c.tables.terminal_sessions
      → All (Owns device_id c.tables) (map (λ r. r.id) sessions)
  unfolding list_terminal_sessions_for_device query
  list_owned c sessions e k =
      let rows = c.tables.terminal_sessions in
      let listed =
        order_by (λ a b. ltb a.created_at b.created_at) (filter (is_listed device_id) rows) in
      let all : All (Owns device_id c.tables) (map (λ r. r.id) listed) =
        All-ids _ listed
          (All-order_by _ _ _ (All-listed _ device_id rows (keyed_owned device_id rows k))) in
      let same : listed ≡ sessions = ground arith in
      subst (λ xs. All (Owns device_id c.tables) (map (λ r. r.id) xs)) same all

  mark_result-IsMine :
      (seen : List String) (r : Result (List TerminalSession)) (s : Server)
      → ((sessions : List TerminalSession)
          → r ≡ ok sessions
          → All (Owns device_id s.conn.tables) (map (λ r. r.id) sessions))
      → IsMine device_id rest [] s.conn.tables
      → IsMine device_id rest [] (mark_listed o seen r s).conn.tables
  unfolding skip
  mark_result-IsMine seen (err e) s owned h = h
  mark_result-IsMine seen (ok sessions) s owned h =
      mark_lost-IsMine seen sessions s
        (record { keyed = h.keyed; same = h.same; owned = owned sessions refl })

  mark_listed-Stable :
      (seen : List String)
      → Stable
          (IsMine device_id rest [])
          (ask (list_terminal_sessions_for_device device_id) (mark_listed o seen))
  unfolding ask
  mark_listed-Stable seen = record {
    after = λ s h.
        let same = sym (list_same device_id s.conn) in
        mark_result-IsMine seen (list_terminal_sessions_for_device device_id s.conn).0 _
          (λ sessions e.
            subst (λ t. All (Owns device_id t) (map (λ r. r.id) sessions)) same
              (list_owned s.conn sessions e h.keyed))
          (subst (IsMine device_id rest []) same h);
  }

  decoded-Stable :
      {A : Type 0} (peer message : String) (x : Option A) (f : A → Step)
      → ((a : A) → Stable (IsMine device_id rest []) (f a))
      → Stable (IsMine device_id rest []) (decoded peer message x f)
  unfolding decoded
  decoded-Stable peer message none f sf = Stable-reply _ _
  decoded-Stable peer message (some a) f sf = sf a

  sync-Stable :
      (summaries : List SessionSummary)
      → Stable (IsMine device_id rest []) (sync_agent_sessions o device_id summaries)
  unfolding sync_agent_sessions
  sync-Stable summaries = Stable-then _ _ (sync_summaries-Stable summaries) (mark_listed-Stable _)

  pub handle-Stable :
      (env : Envelope) (peer : String)
      → Stable (IsMine device_id rest []) (handle_agent_envelope o device_id env peer)
  unfolding handle_agent_envelope
  handle-Stable env peer =
      search
        (
          stable_rules, touch-Keeps, log-Keeps, decoded-Stable, when_owned-Stable, sync-Stable,
          on_stdout-Stable, on_exit-Stable, on_started-Stable,
        )
        depth 14

  pub connect-Stable :
      (capabilities : List String) (sessions : List SessionSummary) (peer : String)
      → Stable (IsMine device_id rest []) (connect o device_id capabilities sessions peer)
  unfolding connect
  connect-Stable capabilities sessions peer =
      search (stable_rules, touch-Keeps, sync-Stable) depth 12

  pub disconnect-Stable : Stable (IsMine device_id rest []) (disconnect o device_id)
  unfolding disconnect mark_disconnected_sessions_lost
  disconnect-Stable = search (stable_rules, mark_listed-Stable) depth 12
