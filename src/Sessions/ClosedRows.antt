-- ===== src/Sessions/ClosedRows.antt =====
-- router.go: the statements on sessions, and a session that is closed.
use vibe_terminal.Base.{
  ℕ, ℤ, String, ◌≡◌, refl, ◌∙◌, ap, true, false, List, [], ◌∷◌, ◌++◌, ◌==◌, any, eq_iff, arith, All,
  All-append, inl, inr, Bool-cases,
}
use vibe_terminal.Store.Rows.{TerminalSession, Tables, session_closed}
use vibe_terminal.Store.Db.{not_found}
use vibe_terminal.Store.Table.{update_where}
use vibe_terminal.Store.Keeps.{Keeps, Kept, keeps_rules, Keeps-exec, Keeps-require_affected}
use vibe_terminal.Store.Sessions.{
  is_session, insert_session, create_terminal_session, set_status, update_terminal_session_status,
}

-- A row is closed if it has the id.
abbrev pub ClosedRow : String → TerminalSession → Type 0
ClosedRow id r = (r.id == id) ≡ true → (r.status == session_closed) ≡ true

-- There is a session with the id, and it is closed.
pub record IsClosed (id : String) (t : Tables) : Type 0 where
  pub known : any (is_session id) t.terminal_sessions ≡ true
  pub closed : All (ClosedRow id) t.terminal_sessions

module _ (id : String) where
  any-update :
      (other : String) (f : TerminalSession → TerminalSession)
      → ((r : TerminalSession) → (f r).id ≡ r.id)
      → (rows : List TerminalSession)
      → any (is_session id) (update_where (is_session other) f rows) ≡ any (is_session id) rows
  unfolding update_where
  any-update other f same [] = refl
  any-update other f same (r ∷ rows) = ground (arith, same r, any-update other f same rows)

  closed-update :
      (other status : String) (pid seq : ℤ) (clock : ℕ) (rows : List TerminalSession)
      → (other == id) ≡ false
      → All (ClosedRow id) rows
      → All (ClosedRow id) (
          update_where
            (is_session other)
            (λ r. record r {
              status = status;
              agent_pid = pid;
              last_output_seq = seq;
              updated_at = clock;
            })
            rows)
  unfolding update_where
  closed-update other status pid seq clock [] e h = tt
  closed-update other status pid seq clock (r ∷ rows) e h = ground (
    arith,
    closed-update other status pid seq clock rows e h.1,
    h.0,
    eq_iff r.id id,
    eq_iff r.id other,
    eq_iff other id,
  )

  set_status-IsClosed :
      (other status : String) (pid seq : ℤ) (clock : ℕ) (t : Tables)
      → (other == id) ≡ false
      → IsClosed id t
      → Kept (IsClosed id) (set_status other status pid seq clock t)
  unfolding set_status
  set_status-IsClosed other status pid seq clock t e h = record {
    known = any-update other _ (λ r. refl) t.terminal_sessions ∙ h.known;
    closed = closed-update other status pid seq clock t.terminal_sessions e h.closed;
  }

  any-append :
      (rows : List TerminalSession) (s : TerminalSession)
      → any (is_session id) rows ≡ true
      → any (is_session id) (rows ++ s ∷ []) ≡ true
  any-append [] s h = ground arith
  any-append (r ∷ rows) s h = ground (arith, any-append rows s)

  any_eq :
      (other : String) (rows : List TerminalSession)
      → (other == id) ≡ true
      → any (is_session other) rows ≡ any (is_session id) rows
  any_eq other rows e = ap (λ x. any (is_session x) rows) ((eq_iff other id).0 e)

  insert_session-IsClosed :
      (s : TerminalSession) (t : Tables) → IsClosed id t → Kept (IsClosed id) (insert_session s t)
  unfolding insert_session
  insert_session-IsClosed s t h = elim (Bool-cases (s.id == id)) [
    | inl e ↦ ground (arith, any_eq s.id t.terminal_sessions e, h.known)
    | inr e ↦ ground (
      arith,
      any-append t.terminal_sessions s h.known,
      All-append (ClosedRow id) t.terminal_sessions (s ∷ []) h.closed ((λ p. ground arith), tt),
    )
  ]

  pub update_status-Keeps :
      (clock : ℕ) (other status : String) (pid seq : ℤ)
      → (other == id) ≡ false
      → Keeps (IsClosed id) (update_terminal_session_status clock other status pid seq)
  unfolding update_terminal_session_status
  update_status-Keeps clock other status pid seq e =
      Keeps-require_affected _ not_found
        (Keeps-exec _ (λ t. set_status-IsClosed other status pid seq clock t e))

  pub create_session-Keeps :
      (clock : ℕ) (s : TerminalSession) → Keeps (IsClosed id) (create_terminal_session clock s)
  unfolding create_terminal_session
  create_session-Keeps clock s = search (keeps_rules, insert_session-IsClosed)
