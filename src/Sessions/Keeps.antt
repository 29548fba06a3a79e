-- ===== src/Sessions/Keeps.antt =====
-- router.go: invariants of the database under steps of the server, one rule for each way to build a
-- step.
use vibe_terminal.Base.{Bool, true, false, String}
use vibe_terminal.Protocol.{Envelope, Message}
use vibe_terminal.Presence.{Presence}
use vibe_terminal.Hub.{Hub, Outbound}
use vibe_terminal.Store.Rows.{Tables}
use vibe_terminal.Store.Db.{Db, Result}
use vibe_terminal.Store.Keeps.{Keeps}
use vibe_terminal.Sessions.{
  Server, Outside, Step, skip, ◌▷◌, choose, ask, update_hub, update_presence, reply, forward,
  respond,
}

-- The step keeps `P`, whichever statements fail.
pub record Stable (P : Tables → Type 0) (f : Step) : Type 0 where
  pub after : (s : Server) → P s.conn.tables → P (f s).conn.tables

module _ {P : Tables → Type 0} where
  pub Stable-skip : Stable P skip
  unfolding skip
  Stable-skip = record { after = λ s h. h }

  pub Stable-then : (f g : Step) → Stable P f → Stable P g → Stable P (f ▷ g)
  unfolding ◌▷◌
  Stable-then f g sf sg = record { after = λ s h. sg.after (f s) (sf.after s h) }

  pub Stable-choose : (b : Bool) (f g : Step) → Stable P f → Stable P g → Stable P (choose b f g)
  unfolding choose
  Stable-choose true f g sf sg = sf
  Stable-choose false f g sf sg = sg

  pub Stable-update_hub : (f : Hub → Hub) → Stable P (update_hub f)
  unfolding update_hub
  Stable-update_hub f = record { after = λ s h. h }

  pub Stable-update_presence : (f : Presence → Presence) → Stable P (update_presence f)
  unfolding update_presence
  Stable-update_presence f = record { after = λ s h. h }

  pub Stable-reply : (peer : String) (msg : Outbound) → Stable P (reply peer msg)
  unfolding reply
  Stable-reply peer msg = record { after = λ s h. h }

  pub Stable-forward : (o : Outside) (msg : Message) → Stable P (forward o msg)
  unfolding forward
  Stable-forward o msg = record { after = λ s h. h }

  pub Stable-respond : (env : Envelope) → Stable P (respond env)
  unfolding respond
  Stable-respond env = record { after = λ s h. h }

  pub Stable-ask :
      {A : Type 0} (m : Db A) (f : Result A → Step)
      → Keeps P m
      → ((r : Result A) → Stable P (f r))
      → Stable P (ask m f)
  unfolding ask
  Stable-ask m f km sf = record { after = λ s h. (sf (m s.conn).0).after _ (km.at s.conn h) }

pub ruleset stable_rules = (
  Stable-skip, Stable-then, Stable-choose, Stable-update_hub, Stable-update_presence, Stable-reply,
  Stable-forward, Stable-respond, Stable-ask,
)
