-- ===== src/Sessions/Closed.antt =====
-- router.go: the sync of an agent's sessions, the end of its connection, and a session that is closed.
use vibe_terminal.Base.{
  String, ◌≡◌, refl, sym, ◌∙◌, ap, subst, Bool, true, false, not, ◌&&◌, some, List, [], ◌∷◌, ◌==◌,
  filter, ltb, eq_iff, arith, All, inl, inr, Bool-cases,
}
use vibe_terminal.Protocol.{SessionSummary}
use vibe_terminal.Store.Rows.{TerminalSession, session_closed}
use vibe_terminal.Store.Db.{
  Conn, Error, Result, ok, err, query, not_found, conflict, login_restart_required,
  invalid_second_factor, one_credential, driver,
}
use vibe_terminal.Store.Table.{find_where, find_where_All, find_where-some, order_by, All-order_by}
use vibe_terminal.Store.Sessions.{
  is_session, is_listed, get_terminal_session, list_terminal_sessions_for_device,
}
use vibe_terminal.Sessions.{Server, Outside, Step, skip, choose, ask}
use vibe_terminal.Sessions.Keeps.{
  Stable, stable_rules, Stable-skip, Stable-then, Stable-ask, Stable-choose,
}
use vibe_terminal.Sessions.Steady.{get_session_same, get_session_found, list_same}
use vibe_terminal.Sessions.Agents.{
  sync_existing, sync_summaries, mark_lost, mark_listed, sync_agent_sessions,
  mark_disconnected_sessions_lost, disconnect,
}
use vibe_terminal.Sessions.ClosedRows.{
  ClosedRow, IsClosed, update_status-Keeps, create_session-Keeps,
}

module _ (id : String) where
  failed-Stable :
      (o : Outside) (device_id : String) (summary : SessionSummary) (e : Error)
      → Stable (IsClosed id) (sync_existing o device_id summary (err e))
  unfolding sync_existing
  failed-Stable o device_id summary not_found = search (stable_rules, create_session-Keeps)
  failed-Stable o device_id summary conflict = Stable-skip
  failed-Stable o device_id summary login_restart_required = Stable-skip
  failed-Stable o device_id summary invalid_second_factor = Stable-skip
  failed-Stable o device_id summary one_credential = Stable-skip
  failed-Stable o device_id summary driver = Stable-skip

  passed-Stable :
      (owned closed : Bool) (f : Step)
      → closed ≡ true
      → Stable (IsClosed id) (choose (owned && not closed) f skip)
  unfolding choose
  passed-Stable true closed f e = rw e Stable-skip
  passed-Stable false closed f e = Stable-skip

  -- A session that is found with the id is closed, and passed over.
  found-Stable :
      (o : Outside) (device_id : String) (summary : SessionSummary) (found : TerminalSession)
      → ((summary.session_id == id) ≡ true → (found.status == session_closed) ≡ true)
      → Stable (IsClosed id) (sync_existing o device_id summary (ok found))
  unfolding sync_existing
  found-Stable o device_id summary found h = elim (Bool-cases (summary.session_id == id)) [
    | inl e ↦ passed-Stable _ _ _ (h e)
    | inr e ↦ search (stable_rules, update_status-Keeps, e)
  ]

  continue-IsClosed :
      (o : Outside) (device_id : String) (summary : SessionSummary) (r : Result TerminalSession)
      (s : Server)
      → ((found : TerminalSession)
          → r ≡ ok found
          → find_where (is_session summary.session_id) s.conn.tables.terminal_sessions ≡ some found)
      → IsClosed id s.conn.tables
      → IsClosed id (sync_existing o device_id summary r s).conn.tables
  continue-IsClosed o device_id summary (err e) s found h =
      (failed-Stable o device_id summary e).after s h
  continue-IsClosed o device_id summary (ok session) s found h =
      let rows = s.conn.tables.terminal_sessions in
      let f = found session refl in
      (found-Stable o device_id summary session (λ e.
          find_where_All (ClosedRow id) (is_session summary.session_id) rows session f h.closed (
            ground (
              arith,
              find_where-some (is_session summary.session_id) rows session f,
              eq_iff session.id summary.session_id,
              eq_iff session.id id,
              eq_iff summary.session_id id,
            )))).after
        s h

  sync_one-Stable :
      (o : Outside) (device_id : String) (summary : SessionSummary)
      → Stable
          (IsClosed id)
          (ask (get_terminal_session summary.session_id) (sync_existing o device_id summary))
  unfolding ask
  sync_one-Stable o device_id summary = record {
    after = λ s h.
        let same = get_session_same summary.session_id s.conn in
        continue-IsClosed o device_id summary (get_terminal_session summary.session_id s.conn).0 _
          (λ found e.
            ap (λ t. find_where (is_session summary.session_id) t.terminal_sessions) same
            ∙ get_session_found summary.session_id s.conn found e)
          (subst (IsClosed id) (sym same) h);
  }

  sync_summaries-Stable :
      (o : Outside) (device_id : String) (summaries : List SessionSummary)
      → Stable (IsClosed id) (sync_summaries o device_id summaries)
  unfolding sync_summaries
  sync_summaries-Stable o device_id [] = Stable-skip
  sync_summaries-Stable o device_id (summary ∷ summaries) =
      Stable-then _ _ (sync_one-Stable o device_id summary)
        (sync_summaries-Stable o device_id summaries)

  -- The sessions that are listed do not have the id.
  mark_lost-Stable :
      (o : Outside) (seen : List String) (sessions : List TerminalSession)
      → All (λ r. (r.id == id) ≡ false) sessions
      → Stable (IsClosed id) (mark_lost o seen sessions)
  unfolding mark_lost
  mark_lost-Stable o seen [] h = Stable-skip
  mark_lost-Stable o seen (x ∷ sessions) h =
      Stable-then _ _
        (Stable-choose _ _ _ Stable-skip
          (Stable-ask _ _ (update_status-Keeps id _ _ _ _ _ h.0) (λ r. Stable-skip)))
        (mark_lost-Stable o seen sessions h.1)

  listed_differ :
      (device_id : String) (rows : List TerminalSession)
      → All (ClosedRow id) rows
      → All (λ r. (r.id == id) ≡ false) (filter (is_listed device_id) rows)
  listed_differ device_id [] h = tt
  listed_differ device_id (r ∷ rows) h = ground (arith, listed_differ device_id rows h.1, h.0)

  list_differ :
      (device_id : String) (c : Conn) (sessions : List TerminalSession)
      → (list_terminal_sessions_for_device device_id c).0 ≡ ok sessions
      → IsClosed id c.tables
      → All (λ r. (r.id == id) ≡ false) sessions
  unfolding list_terminal_sessions_for_device query
  list_differ device_id c sessions e h =
      let rows = filter (is_listed device_id) c.tables.terminal_sessions in
      let listed = order_by (λ a b. ltb a.created_at b.created_at) rows in
      let same : listed ≡ sessions = ground arith in
      subst (All (λ r. (r.id == id) ≡ false)) same
        (All-order_by _ _ rows (listed_differ device_id c.tables.terminal_sessions h.closed))

  mark_result-IsClosed :
      (o : Outside) (seen : List String) (r : Result (List TerminalSession)) (s : Server)
      → ((sessions : List TerminalSession)
          → r ≡ ok sessions
          → All (λ r. (r.id == id) ≡ false) sessions)
      → IsClosed id s.conn.tables
      → IsClosed id (mark_listed o seen r s).conn.tables
  unfolding skip
  mark_result-IsClosed o seen (err e) s differ h = h
  mark_result-IsClosed o seen (ok sessions) s differ h =
      (mark_lost-Stable o seen sessions (differ sessions refl)).after s h

  mark_listed-Stable :
      (o : Outside) (device_id : String) (seen : List String)
      → Stable
          (IsClosed id)
          (ask (list_terminal_sessions_for_device device_id) (mark_listed o seen))
  unfolding ask
  mark_listed-Stable o device_id seen = record {
    after = λ s h.
        mark_result-IsClosed o seen (list_terminal_sessions_for_device device_id s.conn).0 _
          (λ sessions e. list_differ device_id s.conn sessions e h)
          (subst (IsClosed id) (sym (list_same device_id s.conn)) h);
  }

-- A session that is closed stays closed when an agent's sessions are synced and when the connection
-- of an agent ends, whatever the agent says of it, and whichever statements fail.
pub sync-disconnect-IsClosed :
    (id : String) (o : Outside) (device_id : String) (summaries : List SessionSummary) (s : Server)
    → IsClosed id s.conn.tables
    → IsClosed id (sync_agent_sessions o device_id summaries s).conn.tables
      × IsClosed id (disconnect o device_id s).conn.tables
unfolding sync_agent_sessions disconnect mark_disconnected_sessions_lost
sync-disconnect-IsClosed id o device_id summaries s h =
    let synced : Stable (IsClosed id) (sync_agent_sessions o device_id summaries) =
      Stable-then _ _ (sync_summaries-Stable id o device_id summaries)
        (mark_listed-Stable id o device_id _) in
    let marked = mark_listed-Stable id o device_id [] in
    let ended : Stable (IsClosed id) (disconnect o device_id) =
      Stable-then _ _ (Stable-then _ _ marked (search stable_rules)) (search stable_rules) in
    (synced.after s h, ended.after s h)
