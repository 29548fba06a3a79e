-- ===== src/Sessions/Disconnect.antt =====
-- router.go: the sessions of a device when the connection of its agent has ended.
use vibe_terminal.Base.{
  ℕ, suc, ℤ, String, ◌≡◌, refl, sym, ◌∙◌, subst, Bool, true, false, ◌&&◌, List, [], ◌∷◌, ◌==◌, any,
  filter, eq_iff, eq_refl, ltb, arith, All, All-imp, inl, inr, Bool-cases,
}
use vibe_terminal.Store.Rows.{
  TerminalSession, session_running, session_starting, session_lost, session_closed,
}
use vibe_terminal.Store.Db.{Conn, next, ok, query}
use vibe_terminal.Store.Table.{update_where, order_by, any-order_by}
use vibe_terminal.Store.Sessions.{is_session, is_listed, list_terminal_sessions_for_device}
use vibe_terminal.Sessions.{Server, Outside, skip, ◌▷◌, choose, ask, update_hub, update_presence}
use vibe_terminal.Sessions.Steady.{IsSteady, update_status_rows, update_status-IsSteady}
use vibe_terminal.Sessions.Agents.{
  is_active, mark_lost, mark_disconnected_sessions_lost, disconnect,
}

-- An active session in the list with the id of the row.
abbrev has_active : List TerminalSession → TerminalSession → Bool
has_active sessions r = any (λ x. x.id == r.id && is_active x.status) sessions

-- The active rows of the device are in the list.
abbrev CoveredRow : String → List TerminalSession → TerminalSession → Type 0
CoveredRow device_id sessions r =
    (r.device_id == device_id) ≡ true → is_active r.status ≡ true → has_active sessions r ≡ true

abbrev Covered : String → List TerminalSession → List TerminalSession → Type 0
Covered device_id sessions = All (CoveredRow device_id sessions)

any-filter :
    (p q : TerminalSession → Bool) (rows : List TerminalSession)
    → any p (filter q rows) ≡ any (λ r. q r && p r) rows
any-filter p q [] = refl
any-filter p q (r ∷ rows) = ground (arith, any-filter p q rows)

-- The rows of `more` are in `rows`.
abbrev Includes : String → List TerminalSession → List TerminalSession → Type 0
Includes device_id rows = All (λ r.
    (r.device_id == device_id) ≡ true
    → is_active r.status ≡ true
    → any (λ x. is_listed device_id x && (x.id == r.id && is_active x.status)) rows ≡ true)

Includes-cons :
    (device_id : String) (r : TerminalSession) (rows more : List TerminalSession)
    → Includes device_id rows more
    → Includes device_id (r ∷ rows) more
Includes-cons device_id r rows [] h = tt
Includes-cons device_id r rows (x ∷ more) h =
    ((λ e a. ground (arith, h.0 e a)), Includes-cons device_id r rows more h.1)

differs :
    (status known : String)
    → (known == session_closed) ≡ false
    → (status == known) ≡ true
    → (status == session_closed) ≡ false
differs status known f e =
    subst (λ s. (s == session_closed) ≡ false) (sym ((eq_iff status known).0 e)) f

active_not_closed : (status : String) → is_active status ≡ true → (status == session_closed) ≡ false
active_not_closed status a = elim (Bool-cases (status == session_running)) [
  | inl e ↦ differs status session_running refl e
  | inr e ↦ differs status session_starting refl (ground arith)
]

Includes-self : (device_id : String) (rows : List TerminalSession) → Includes device_id rows rows
Includes-self device_id [] = tt
Includes-self device_id (r ∷ rows) = (
  (λ e a. ground (arith, eq_refl r.id, active_not_closed r.status a)),
  Includes-cons device_id r rows rows (Includes-self device_id rows),
)

listed-Covered :
    (device_id : String) (before : TerminalSession → TerminalSession → Bool)
    (rows : List TerminalSession)
    → Covered device_id (order_by before (filter (is_listed device_id) rows)) rows
listed-Covered device_id before rows =
    All-imp _ _
      (λ r h e a.
        any-order_by (λ x. x.id == r.id && is_active x.status) before
          (filter (is_listed device_id) rows)
        ∙ any-filter _ (is_listed device_id) rows
        ∙ h e a)
      rows (Includes-self device_id rows)

module _ (device_id : String) (x : TerminalSession) (sessions : List TerminalSession) where
  pass-Covered :
      (rows : List TerminalSession)
      → is_active x.status ≡ false
      → Covered device_id (x ∷ sessions) rows
      → Covered device_id sessions rows
  pass-Covered rows quiet = All-imp _ _ (λ r h e a. ground (arith, h e a)) rows

  lost-Covered :
      (pid seq : ℤ) (clock : ℕ) (rows : List TerminalSession)
      → Covered device_id (x ∷ sessions) rows
      → Covered device_id sessions (
          update_where
            (is_session x.id)
            (λ r. record r {
              status = session_lost;
              agent_pid = pid;
              last_output_seq = seq;
              updated_at = clock;
            })
            rows)
  unfolding update_where
  lost-Covered pid seq clock [] h = tt
  lost-Covered pid seq clock (r ∷ rows) h = elim (Bool-cases (r.id == x.id)) [
    | inl e ↦ rw e ((λ d a. ground arith), lost-Covered pid seq clock rows h.1)
    | inr e ↦ rw e (
      (λ d a. ground (arith, h.0 d a, eq_iff r.id x.id, eq_iff x.id r.id)),
      lost-Covered pid seq clock rows h.1,
    )
  ]

module _ (device_id : String) (o : Outside) where
  mark_lost-Covered :
      (sessions : List TerminalSession) (s : Server)
      → IsSteady s.conn
      → Covered device_id sessions s.conn.tables.terminal_sessions
      → Covered device_id [] (mark_lost o [] sessions s).conn.tables.terminal_sessions
  unfolding mark_lost skip ◌▷◌ choose ask
  mark_lost-Covered [] s steady h = h
  mark_lost-Covered (x ∷ sessions) s steady h = elim (Bool-cases (is_active x.status)) [
    | inl e ↦ rw e (
        mark_lost-Covered sessions _
          (update_status-IsSteady o.clock x.id session_lost x.agent_pid x.last_output_seq s.conn
            steady)
          (subst (Covered device_id sessions)
            (sym (
              update_status_rows o.clock x.id session_lost x.agent_pid x.last_output_seq s.conn
                steady))
            (lost-Covered device_id x sessions x.agent_pid x.last_output_seq o.clock _ h)))
    | inr e ↦ rw e (mark_lost-Covered sessions s steady (pass-Covered device_id x sessions _ e h))
  ]

  list_steady :
      (c : Conn)
      → IsSteady c
      → list_terminal_sessions_for_device device_id c ≡ (
        ok (
            order_by
              (λ a b. ltb a.created_at b.created_at)
              (filter (is_listed device_id) c.tables.terminal_sessions)),
        next c,
      )
  unfolding list_terminal_sessions_for_device query
  list_steady c steady = ground (arith, steady 0)

  marked-Covered :
      (s : Server)
      → IsSteady s.conn
      → Covered device_id []
          (mark_disconnected_sessions_lost o device_id s).conn.tables.terminal_sessions
  unfolding mark_disconnected_sessions_lost ask
  marked-Covered s steady =
      rw (list_steady s.conn steady)
        (mark_lost-Covered _ _ (λ n. steady (suc n)) (listed-Covered device_id _ _))

  quiet_row :
      (r : TerminalSession)
      → CoveredRow device_id [] r
      → (r.device_id == device_id) ≡ true
      → is_active r.status ≡ false
  quiet_row r h e = elim (Bool-cases (is_active r.status)) [
    | inl a ↦ absurd (cc (h e a))
    | inr a ↦ a
  ]

  -- When no statement fails, the end of an agent's connection leaves no session of its device
  -- running or starting.
  pub disconnect_lem :
      (s : Server)
      → IsSteady s.conn
      → All
          (λ r. (r.device_id == device_id) ≡ true → is_active r.status ≡ false)
          (disconnect o device_id s).conn.tables.terminal_sessions
  unfolding disconnect ◌▷◌ update_hub update_presence
  disconnect_lem s steady =
      All-imp (CoveredRow device_id []) _ quiet_row _ (marked-Covered s steady)
