-- ===== src/Sessions/Rows.antt =====
-- router.go: a device's view of the rows of sessions, and the statements that keep it.
use vibe_terminal.Base.{
  ℕ, ℤ, String, ◌≡◌, refl, ◌∙◌, true, false, not, some, List, [], ◌∷◌, ◌++◌, ◌==◌, eq_iff, any,
  filter, ◌||◌, arith, All, inl, inr, Bool-cases,
}
use vibe_terminal.Store.Rows.{TerminalSession, Tables}
use vibe_terminal.Store.Table.{update_where, find_where}
use vibe_terminal.Store.Keeps.{Kept}
use vibe_terminal.Store.Sessions.{is_session, insert_session, set_status}

-- `id` is the primary key of the sessions.
abbrev pub IsKeyed : List TerminalSession → Type 0
IsKeyed [] = Unit
IsKeyed (r ∷ rows) = (any (is_session r.id) rows ≡ false) × IsKeyed rows

-- The sessions of the other devices.
abbrev pub others : String → List TerminalSession → List TerminalSession
others device_id = filter (λ r. not (r.device_id == device_id))

-- The device has every session with the id.
abbrev pub OwnsRow : String → String → TerminalSession → Type 0
OwnsRow device_id id r = (r.id == id) ≡ true → (r.device_id == device_id) ≡ true

abbrev pub Owns : String → Tables → String → Type 0
Owns device_id t id = All (OwnsRow device_id id) t.terminal_sessions

module _ (status : String) (agent_pid last_seq : ℤ) (clock : ℕ) where
  abbrev with_status : TerminalSession → TerminalSession
  with_status r = record r {
    status = status;
    agent_pid = agent_pid;
    last_output_seq = last_seq;
    updated_at = clock;
  }

  any-with_status :
      (id at : String) (rows : List TerminalSession)
      → any (is_session at) (update_where (is_session id) with_status rows)
        ≡ any (is_session at) rows
  unfolding update_where
  any-with_status id at [] = refl
  any-with_status id at (r ∷ rows) = ground (arith, any-with_status id at rows)

  with_status-IsKeyed :
      (id : String) (rows : List TerminalSession)
      → IsKeyed rows
      → IsKeyed (update_where (is_session id) with_status rows)
  unfolding update_where
  with_status-IsKeyed id [] k = tt
  with_status-IsKeyed id (r ∷ rows) k =
      ground (arith, with_status-IsKeyed id rows k.1, any-with_status id r.id rows)

  with_status-others :
      (device_id id : String) (rows : List TerminalSession)
      → All (OwnsRow device_id id) rows
      → others device_id (update_where (is_session id) with_status rows) ≡ others device_id rows
  unfolding update_where
  with_status-others device_id id [] h = refl
  with_status-others device_id id (r ∷ rows) h =
      ground (arith, with_status-others device_id id rows h.1, h.0)

  with_status-Owns :
      (device_id id at : String) (rows : List TerminalSession)
      → All (OwnsRow device_id at) rows
      → All (OwnsRow device_id at) (update_where (is_session id) with_status rows)
  unfolding update_where
  with_status-Owns device_id id at [] h = tt
  with_status-Owns device_id id at (r ∷ rows) h =
      ground (arith, with_status-Owns device_id id at rows h.1, h.0)

-- A session that the store finds decides who owns its id.
pub keyed_vacuous :
    (device_id id at : String) (rows : List TerminalSession)
    → any (is_session at) rows ≡ false
    → (at == id) ≡ true
    → All (OwnsRow device_id id) rows
keyed_vacuous device_id id at [] h e = tt
keyed_vacuous device_id id at (r ∷ rows) h e =
    ground (arith, keyed_vacuous device_id id at rows, eq_iff at id)

pub found_Owns :
    (device_id id : String) (rows : List TerminalSession) (s : TerminalSession)
    → IsKeyed rows
    → find_where (is_session id) rows ≡ some s
    → (s.device_id == device_id) ≡ true
    → All (OwnsRow device_id id) rows
unfolding find_where
found_Owns device_id id [] s k f e = tt
found_Owns device_id id (r ∷ rows) s k f e = elim (Bool-cases (r.id == id)) [
  | inl hit ↦ (λ p. ground arith, keyed_vacuous device_id id r.id rows k.0 hit)
  | inr miss ↦ (λ p. ground arith, found_Owns device_id id rows s k.1 (ground arith) e)
]

-- A device's view of the tables: the sessions of the others are `rest`, and it owns the ids.
pub record IsMine (device_id : String) (rest : List TerminalSession) (ids : List String)
    (t : Tables) : Type 0 where
  pub keyed : IsKeyed t.terminal_sessions
  pub same : others device_id t.terminal_sessions ≡ rest
  pub owned : All (Owns device_id t) ids

module _ (device_id : String) (rest : List TerminalSession) where
  owned_later :
      (status : String) (agent_pid last_seq : ℤ) (clock : ℕ) (id : String) (t : Tables)
      (ids : List String)
      → All (Owns device_id t) ids
      → All
          (λ at. All (OwnsRow device_id at) (
            update_where
              (is_session id)
              (with_status status agent_pid last_seq clock)
              t.terminal_sessions))
          ids
  owned_later status agent_pid last_seq clock id t [] h = tt
  owned_later status agent_pid last_seq clock id t (at ∷ ids) h = (
    with_status-Owns status agent_pid last_seq clock device_id id at t.terminal_sessions h.0,
    owned_later status agent_pid last_seq clock id t ids h.1,
  )

  pub set_status-IsMine :
      (id status : String) (agent_pid last_seq : ℤ) (clock : ℕ) (ids : List String) (t : Tables)
      → IsMine device_id rest (id ∷ ids) t
      → Kept (IsMine device_id rest (id ∷ ids)) (set_status id status agent_pid last_seq clock t)
  unfolding set_status
  set_status-IsMine id status agent_pid last_seq clock ids t h = record {
    keyed = with_status-IsKeyed status agent_pid last_seq clock id t.terminal_sessions h.keyed;
    same =
        with_status-others status agent_pid last_seq clock device_id id t.terminal_sessions
          h.owned.0
        ∙ h.same;
    owned = owned_later status agent_pid last_seq clock id t (id ∷ ids) h.owned;
  }

  any-append :
      (id : String) (rows : List TerminalSession) (s : TerminalSession)
      → any (is_session id) (rows ++ s ∷ []) ≡ (any (is_session id) rows || s.id == id)
  any-append id [] s = ground arith
  any-append id (r ∷ rows) s = ground (arith, any-append id rows s)

  append-IsKeyed :
      (rows : List TerminalSession) (s : TerminalSession)
      → IsKeyed rows
      → any (is_session s.id) rows ≡ false
      → IsKeyed (rows ++ s ∷ [])
  append-IsKeyed [] s k h = (refl, tt)
  append-IsKeyed (r ∷ rows) s k h =
      ground (
        arith,
        append-IsKeyed rows s k.1,
        any-append r.id rows s,
        eq_iff r.id s.id,
        eq_iff s.id r.id,
      )

  append-others :
      (rows : List TerminalSession) (s : TerminalSession)
      → (s.device_id == device_id) ≡ true
      → others device_id (rows ++ s ∷ []) ≡ others device_id rows
  append-others [] s e = ground arith
  append-others (r ∷ rows) s e = ground (arith, append-others rows s e)

  pub insert_session-IsMine :
      (s : TerminalSession) (t : Tables)
      → (s.device_id == device_id) ≡ true
      → IsMine device_id rest [] t
      → Kept (IsMine device_id rest []) (insert_session s t)
  unfolding insert_session
  insert_session-IsMine s t e h = ground (
    arith,
    append-IsKeyed t.terminal_sessions s h.keyed,
    append-others t.terminal_sessions s e,
    h.same,
  )
