-- ===== src/Sessions/Listed.antt =====
-- router.go: the sessions that are listed for a device, and who owns them.
use vibe_terminal.Base.{
  String, ◌≡◌, true, false, List, [], ◌∷◌, ◌==◌, map, any, filter, eq_iff, eq_refl, arith, All,
}
use vibe_terminal.Store.Rows.{TerminalSession}
use vibe_terminal.Store.Sessions.{is_session, is_listed}
use vibe_terminal.Sessions.Rows.{IsKeyed, OwnsRow, keyed_vacuous}

-- Every listed session is owned.
All-differ :
    (id : String) (rows : List TerminalSession)
    → any (is_session id) rows ≡ false
    → All (λ r. (id == r.id) ≡ false) rows
All-differ id [] h = tt
All-differ id (r ∷ rows) h = ground (arith, All-differ id rows, eq_iff id r.id, eq_iff r.id id)

extend_owned :
    (device_id : String) (r : TerminalSession) (rows more : List TerminalSession)
    → All (λ x. (r.id == x.id) ≡ false) more
    → All (λ x. (x.device_id == device_id) ≡ true → All (OwnsRow device_id x.id) rows) more
    → All (λ x. (x.device_id == device_id) ≡ true → All (OwnsRow device_id x.id) (r ∷ rows)) more
extend_owned device_id r rows [] differ h = tt
extend_owned device_id r rows (x ∷ more) differ h =
    (λ e. ((λ p. ground (arith, differ.0)), h.0 e), extend_owned device_id r rows more differ.1 h.1)

pub keyed_owned :
    (device_id : String) (rows : List TerminalSession)
    → IsKeyed rows
    → All (λ r. (r.device_id == device_id) ≡ true → All (OwnsRow device_id r.id) rows) rows
keyed_owned device_id [] k = tt
keyed_owned device_id (r ∷ rows) k = (
  (λ e. ((λ p. e), keyed_vacuous device_id r.id r.id rows k.0 (eq_refl r.id))),
  extend_owned device_id r rows rows (All-differ r.id rows k.0) (keyed_owned device_id rows k.1),
)

pub All-listed :
    (P : TerminalSession → Type 0) (device_id : String) (rows : List TerminalSession)
    → All (λ r. (r.device_id == device_id) ≡ true → P r) rows
    → All P (filter (is_listed device_id) rows)
All-listed P device_id [] h = tt
All-listed P device_id (r ∷ rows) h = ground (arith, All-listed P device_id rows h.1, h.0)

pub All-ids :
    (P : String → Type 0) (rows : List TerminalSession)
    → All (λ r. P r.id) rows
    → All P (map (λ r. r.id) rows)
All-ids P [] h = tt
All-ids P (r ∷ rows) h = (h.0, All-ids P rows h.1)
