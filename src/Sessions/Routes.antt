-- ===== src/Sessions/Routes.antt =====
-- router.go: what the handlers of an agent do to the hub's peers of devices.
use vibe_terminal.Base.{
  String, ◌≡◌, refl, ◌∙◌, ap, ℤ, Bool, true, false, Option, none, some, List, [], ◌∷◌, inl, inr,
  Option-cases,
}
use vibe_terminal.GoMap.{insert, erase}
use vibe_terminal.Protocol.{Envelope, Message, SessionSummary, SessionStarted, Stdout, SessionExit}
use vibe_terminal.Presence.{Presence}
use vibe_terminal.Hub.{Outbound, attach_agent, detach_agent, bind_session}
use vibe_terminal.Store.Rows.{TerminalSession}
use vibe_terminal.Store.Db.{
  Db, Result, ok, err, not_found, conflict, login_restart_required, invalid_second_factor,
  one_credential, driver,
}
use vibe_terminal.Store.Sessions.{list_terminal_sessions_for_device}
use vibe_terminal.Sessions.{
  Server, Outside, Step, skip, ◌▷◌, choose, ask, update_hub, update_presence, reply, forward,
  respond,
}
use vibe_terminal.Sessions.Agents.{
  write_chunk, persist_output_chunk, mark_lost, mark_listed, note_stdout, on_stdout, note_exit,
  on_session_exit, sync_existing, sync_summaries, sync_agent_sessions,
  mark_disconnected_sessions_lost, decoded, when_owned, on_session_started, handle_agent_envelope,
  connect, disconnect,
}

-- The step leaves the hub's peers of devices as they are.
pub record KeepsAgents (f : Step) : Type 0 where
  pub after : (s : Server) → (f s).hub.agents ≡ s.hub.agents

keeps-skip : KeepsAgents skip
unfolding skip
keeps-skip = record { after = λ s. refl }

keeps-then : (f g : Step) → KeepsAgents f → KeepsAgents g → KeepsAgents (f ▷ g)
unfolding ◌▷◌
keeps-then f g kf kg = record { after = λ s. kg.after (f s) ∙ kf.after s }

keeps-choose : (b : Bool) (f g : Step) → KeepsAgents f → KeepsAgents g → KeepsAgents (choose b f g)
unfolding choose
keeps-choose true f g kf kg = kf
keeps-choose false f g kf kg = kg

keeps-ask :
    {A : Type 0} (m : Db A) (f : Result A → Step)
    → ((r : Result A) → KeepsAgents (f r))
    → KeepsAgents (ask m f)
unfolding ask
keeps-ask m f kf = record {
  after = λ s. (kf (m s.conn).0).after (record s { conn = (m s.conn).1 });
}

keeps-bind_session :
    (session_id device_id : String)
    → KeepsAgents (update_hub (λ h. bind_session h session_id device_id))
unfolding update_hub bind_session
keeps-bind_session session_id device_id = record { after = λ s. refl }

keeps-update_presence : (f : Presence → Presence) → KeepsAgents (update_presence f)
unfolding update_presence
keeps-update_presence f = record { after = λ s. refl }

keeps-reply : (peer : String) (msg : Outbound) → KeepsAgents (reply peer msg)
unfolding reply
keeps-reply peer msg = record { after = λ s. refl }

keeps-forward : (o : Outside) (msg : Message) → KeepsAgents (forward o msg)
unfolding forward
keeps-forward o msg = record { after = λ s. refl }

keeps-respond : (env : Envelope) → KeepsAgents (respond env)
unfolding respond
keeps-respond env = record { after = λ s. refl }

keeps-decoded :
    {A : Type 0} (peer message : String) (x : Option A) (f : A → Step)
    → ((a : A) → KeepsAgents (f a))
    → KeepsAgents (decoded peer message x f)
unfolding decoded
keeps-decoded peer message none f kf = keeps-reply _ _
keeps-decoded peer message (some a) f kf = kf a

ruleset keeps_rules = (
  keeps-skip, keeps-then, keeps-choose, keeps-ask, keeps-bind_session, keeps-update_presence,
  keeps-reply, keeps-forward, keeps-respond, keeps-decoded,
)

keeps-write_chunk :
    (o : Outside) (msg : Stdout) (r : Option (String × ℤ)) → KeepsAgents (write_chunk o msg r)
unfolding write_chunk
keeps-write_chunk o msg none = search keeps_rules
keeps-write_chunk o msg (some (path, size)) = search keeps_rules

keeps-persist_output_chunk : (o : Outside) (msg : Stdout) → KeepsAgents (persist_output_chunk o msg)
unfolding persist_output_chunk
keeps-persist_output_chunk o msg = elim (Option-cases o.output) [
  | inl e ↦ rw e keeps-skip
  | inr (write, e) ↦ rw e (keeps-write_chunk _ msg _)
]

module _ (o : Outside) where
  keeps-note_stdout :
      (msg : Stdout) (r : Result TerminalSession) → KeepsAgents (note_stdout o msg r)
  unfolding note_stdout
  keeps-note_stdout msg (err e) = keeps-skip
  keeps-note_stdout msg (ok session) = search keeps_rules

  keeps-on_stdout : (msg : Stdout) → KeepsAgents (on_stdout o msg)
  unfolding on_stdout
  keeps-on_stdout msg = search (keeps_rules, keeps-note_stdout, keeps-persist_output_chunk)

  keeps-note_exit :
      (msg : SessionExit) (r : Result TerminalSession) → KeepsAgents (note_exit o msg r)
  unfolding note_exit
  keeps-note_exit msg (err e) = search keeps_rules
  keeps-note_exit msg (ok session) = search keeps_rules

  keeps-on_session_exit : (msg : SessionExit) → KeepsAgents (on_session_exit o msg)
  unfolding on_session_exit
  keeps-on_session_exit msg = search (keeps_rules, keeps-note_exit)

  keeps-mark_lost :
      (seen : List String) (sessions : List TerminalSession)
      → KeepsAgents (mark_lost o seen sessions)
  unfolding mark_lost
  keeps-mark_lost seen [] = keeps-skip
  keeps-mark_lost seen (session ∷ sessions) =
      keeps-then _ _ (search keeps_rules) (keeps-mark_lost seen sessions)

  keeps-mark_listed :
      (seen : List String) (r : Result (List TerminalSession)) → KeepsAgents (mark_listed o seen r)
  keeps-mark_listed seen (err e) = keeps-skip
  keeps-mark_listed seen (ok sessions) = keeps-mark_lost seen sessions

module _ (o : Outside) (device_id : String) where
  keeps-sync_existing :
      (summary : SessionSummary) (r : Result TerminalSession)
      → KeepsAgents (sync_existing o device_id summary r)
  unfolding sync_existing
  keeps-sync_existing summary (err not_found) = search keeps_rules
  keeps-sync_existing summary (err conflict) = keeps-skip
  keeps-sync_existing summary (err login_restart_required) = keeps-skip
  keeps-sync_existing summary (err invalid_second_factor) = keeps-skip
  keeps-sync_existing summary (err one_credential) = keeps-skip
  keeps-sync_existing summary (err driver) = keeps-skip
  keeps-sync_existing summary (ok session) = search keeps_rules

  keeps-sync_summaries :
      (summaries : List SessionSummary) → KeepsAgents (sync_summaries o device_id summaries)
  unfolding sync_summaries
  keeps-sync_summaries [] = keeps-skip
  keeps-sync_summaries (summary ∷ summaries) =
      keeps-then _ _ (search (keeps_rules, keeps-sync_existing)) (keeps-sync_summaries summaries)

  keeps-sync_agent_sessions :
      (summaries : List SessionSummary) → KeepsAgents (sync_agent_sessions o device_id summaries)
  unfolding sync_agent_sessions
  keeps-sync_agent_sessions summaries =
      search (keeps_rules, keeps-sync_summaries, keeps-mark_listed)

  keeps-when_owned :
      (peer session_id : String) (f : Step)
      → KeepsAgents f
      → KeepsAgents (when_owned o device_id peer session_id f)
  unfolding when_owned
  keeps-when_owned peer session_id f kf =
      keeps-ask _ _ (λ r. keeps-choose _ _ _ kf (keeps-reply _ _))

  keeps-on_session_started :
      (msg : SessionStarted) → KeepsAgents (on_session_started o device_id msg)
  unfolding on_session_started
  keeps-on_session_started msg = search keeps_rules

  pub keeps-handle_agent_envelope :
      (env : Envelope) (peer : String) → KeepsAgents (handle_agent_envelope o device_id env peer)
  unfolding handle_agent_envelope
  keeps-handle_agent_envelope env peer =
      search
        (
          keeps_rules, keeps-when_owned, keeps-sync_agent_sessions, keeps-on_stdout,
          keeps-on_session_exit, keeps-on_session_started,
        )
        depth 14

  pub disconnect_agents :
      (s : Server) → (disconnect o device_id s).hub.agents ≡ erase device_id s.hub.agents
  unfolding disconnect mark_disconnected_sessions_lost ◌▷◌ update_hub detach_agent update_presence
  disconnect_agents s =
      let kept : KeepsAgents
          (ask (list_terminal_sessions_for_device device_id) (mark_listed o [])) =
        search (keeps_rules, keeps-mark_listed o) in
      ap (erase device_id) (kept.after s)

  pub connect_agents :
      (capabilities : List String) (sessions : List SessionSummary) (peer : String) (s : Server)
      → (connect o device_id capabilities sessions peer s).hub.agents
        ≡ insert device_id peer s.hub.agents
  unfolding connect ◌▷◌ update_hub attach_agent update_presence ask skip
  connect_agents capabilities sessions peer s = (keeps-sync_agent_sessions sessions).after _
