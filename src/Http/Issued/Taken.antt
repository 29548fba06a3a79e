-- ===== src/Http/Issued/Taken.antt =====
-- router_2fa.go, `handleLoginTwoFactor`: the end of a login with a second factor, in which the database
-- takes the challenge and the credential.
use vibe_terminal.Base.{
  ℕ, String, ◌≡◌, refl, ap, subst, ◌∙◌, Option, none, some, List, ◌==◌, arith, inl, inr, Bool-cases,
}
use vibe_terminal.Auth.Challenge.{Claims}
use vibe_terminal.Auth.Cookie.{set_cookie}
use vibe_terminal.Auth.Secrets.{TwoFactorManager}
use vibe_terminal.Store.Rows.{User, UserTwoFactor, Tables, AuditEvent}
use vibe_terminal.Store.Db.{
  Conn, Result, ok, err, not_found, conflict, login_restart_required, invalid_second_factor,
  one_credential, driver, transaction,
}
use vibe_terminal.Store.Table.{find_where}
use vibe_terminal.Store.TwoFactor.{is_enabled, consume_login_second_factor}
use vibe_terminal.Store.TwoFactor.Consume.{IsAccepted, consumed, consume_sound}
use vibe_terminal.Store.Settings.{get_enabled_two_factor}
use vibe_terminal.Store.Devices.{get_user_by_id}
use vibe_terminal.Sessions.{Server}
use vibe_terminal.Http.{Packages, Router, World, App, write_error, call}
use vibe_terminal.Http.Limits.{clear}
use vibe_terminal.Http.Login.{login_event_with, login_audit_event, finish_login}
use vibe_terminal.Http.SecondFactor.{
  VerifiedLoginCode, CodeCheck, verified, wrong, failure, verify_login_code, after_consume,
  consume_params, consume_with, with_code, with_enabled,
}
use vibe_terminal.Http.Issued.{write_invalid_second_factor-IsCookieless}

pub get_user_by_id_lem :
    (id : String) (c : Conn) (u : User)
    → (get_user_by_id id c).0 ≡ ok u
    → (find_where (λ r. r.id == id) c.tables.users ≡ some u)
      × ((get_user_by_id id c).1.tables ≡ c.tables)
unfolding get_user_by_id transaction
get_user_by_id_lem id c u h = ground arith

pub get_enabled_two_factor_lem :
    (user_id : String) (c : Conn) (setting : UserTwoFactor)
    → (get_enabled_two_factor user_id c).0 ≡ ok setting
    → (find_where (is_enabled user_id) c.tables.user_two_factor ≡ some setting)
      × ((get_enabled_two_factor user_id c).1.tables ≡ c.tables)
unfolding get_enabled_two_factor transaction
get_enabled_two_factor_lem user_id c setting h = ground arith

-- The event of `loginAuditEvent`, field by field.
pub record IsLoginEvent (lib : Packages) (o : World) (user_id method : String) (event : AuditEvent)
    : Type 0 where
  pub id : event.id ≡ o.event_id
  pub user : event.user_id ≡ user_id
  pub type : event.event_type ≡ "login"
  pub summary : event.summary ≡ "administrator logged in"
  pub method_of : lib.method_json method ≡ some event.metadata_json
  pub time : event.created_at ≡ o.now
  pub no_device : event.device_id ≡ ""
  pub no_session : event.session_id ≡ ""

login_event_with_lem :
    (lib : Packages) (r : Router) (o : World) (user_id method : String) (metadata : Option String)
    (event : AuditEvent)
    → lib.method_json method ≡ metadata
    → login_event_with lib r o user_id o.now metadata ≡ some event
    → IsLoginEvent lib o user_id method event
unfolding login_event_with
login_event_with_lem lib r o user_id method none event e h = absurd (cc)
login_event_with_lem lib r o user_id method (some metadata) event e h = record {
  id = ground arith;
  user = ground arith;
  type = ground arith;
  summary = ground arith;
  method_of = e ∙ ground arith;
  time = ground arith;
  no_device = ground arith;
  no_session = ground arith;
}

login_audit_event_lem :
    (lib : Packages) (r : Router) (o : World) (user_id method : String) (event : AuditEvent)
    → login_audit_event lib r o user_id method o.now ≡ some event
    → IsLoginEvent lib o user_id method event
unfolding login_audit_event
login_audit_event_lem lib r o user_id method event h =
    login_event_with_lem lib r o user_id method (lib.method_json method) event refl h

-- The code was accepted from the setting, and the database took the challenge and the credential:
-- the conditions held on the tables before, and those after are what is left.
pub record IsTaken (lib : Packages) (r : Router) (o : World) (m : TwoFactorManager)
    (claims : Claims) (typed : String) (u : User) (setting : UserTwoFactor) (t after : Tables)
    (c : String × ℕ) : Type 0 where
  pub code : VerifiedLoginCode
  pub right : verify_login_code lib r o m setting typed ≡ verified code
  pub event : AuditEvent
  pub logged : IsLoginEvent lib o u.id code.method event
  pub accepted : IsAccepted (consume_params lib r o claims code event) t
  pub spent : after ≡ consumed (consume_params lib r o claims code event) t
  pub cookie : c ≡ set_cookie lib.cookies r.sessions o.cookie_at u.id

module _ (lib : Packages) (r : Router) (o : World) where
  after_consume_lem :
      (u : User) (ip : String) (keys : List String) (res : Result {0} Unit) (s : App)
      (c : String × ℕ)
      → (after_consume lib r o u ip keys res s).0.cookie ≡ some c
      → (res ≡ ok tt)
        × (c ≡ set_cookie lib.cookies r.sessions o.cookie_at u.id)
        × ((after_consume lib r o u ip keys res s).1.server ≡ s.server)
  unfolding after_consume clear finish_login write_error
  after_consume_lem u ip keys (err login_restart_required) s c h = absurd (cc)
  after_consume_lem u ip keys (err invalid_second_factor) s c h =
      absurd (cc (h, write_invalid_second_factor-IsCookieless lib r o u.id ip keys s))
  after_consume_lem u ip keys (err not_found) s c h = absurd (cc)
  after_consume_lem u ip keys (err conflict) s c h = absurd (cc)
  after_consume_lem u ip keys (err one_credential) s c h = absurd (cc)
  after_consume_lem u ip keys (err driver) s c h = absurd (cc)
  after_consume_lem u ip keys (ok tt) s c h = (refl, ground arith, refl)

  consume_with_lem :
      (u : User) (claims : Claims) (ip : String) (keys : List String) (code : VerifiedLoginCode)
      (made : Option AuditEvent) (s : App) (c : String × ℕ)
      → (consume_with lib r o u claims ip keys code made s).0.cookie ≡ some c
      → (event : AuditEvent) × (made ≡ some event)
        × IsAccepted (consume_params lib r o claims code event) s.server.conn.tables
        × (c ≡ set_cookie lib.cookies r.sessions o.cookie_at u.id)
        × ((consume_with lib r o u claims ip keys code made s).1.server.conn.tables
            ≡ consumed (consume_params lib r o claims code event) s.server.conn.tables)
  unfolding consume_with call write_error
  consume_with_lem u claims ip keys code none s c h = absurd (cc)
  consume_with_lem u claims ip keys code (some event) s c h =
      let p = consume_params lib r o claims code event in
      let done = consume_login_second_factor p s.server.conn in
      let (e, cookie, same) = after_consume_lem u ip keys done.0 _ c h in
      let (accepted, written) = consume_sound p s.server.conn e in
      (event, refl, accepted, cookie, ap (λ (x : Server). x.conn.tables) same ∙ written)

  with_code_lem :
      (u : User) (claims : Claims) (ip : String) (keys : List String) (check : CodeCheck) (s : App)
      (c : String × ℕ)
      → (with_code lib r o u claims ip keys check s).0.cookie ≡ some c
      → (code : VerifiedLoginCode) × (event : AuditEvent) × (check ≡ verified code)
        × IsLoginEvent lib o u.id code.method event
        × IsAccepted (consume_params lib r o claims code event) s.server.conn.tables
        × (c ≡ set_cookie lib.cookies r.sessions o.cookie_at u.id)
        × ((with_code lib r o u claims ip keys check s).1.server.conn.tables
            ≡ consumed (consume_params lib r o claims code event) s.server.conn.tables)
  unfolding with_code write_error
  with_code_lem u claims ip keys wrong s c h =
      absurd (cc (h, write_invalid_second_factor-IsCookieless lib r o u.id ip keys s))
  with_code_lem u claims ip keys failure s c h = absurd (cc)
  with_code_lem u claims ip keys (verified code) s c h =
      let (event, made, accepted, cookie, written) =
        consume_with_lem u claims ip keys code (login_audit_event lib r o u.id code.method o.now) s
          c h in
      (
        code,
        event,
        refl,
        login_audit_event_lem lib r o u.id code.method event made,
        accepted,
        cookie,
        written,
      )

  pub with_enabled_lem :
      (m : TwoFactorManager) (u : User) (claims : Claims) (typed ip : String) (keys : List String)
      (found : Result UserTwoFactor) (s : App) (c : String × ℕ)
      → (with_enabled lib r o m u claims typed ip keys found s).0.cookie ≡ some c
      → (setting : UserTwoFactor) × (found ≡ ok setting)
        × IsTaken lib r o m claims typed u setting s.server.conn.tables
            (with_enabled lib r o m u claims typed ip keys found s).1.server.conn.tables
            c
  unfolding with_enabled write_error
  with_enabled_lem m u claims typed ip keys (err not_found) s c h = absurd (cc)
  with_enabled_lem m u claims typed ip keys (err conflict) s c h = absurd (cc)
  with_enabled_lem m u claims typed ip keys (err login_restart_required) s c h = absurd (cc)
  with_enabled_lem m u claims typed ip keys (err invalid_second_factor) s c h = absurd (cc)
  with_enabled_lem m u claims typed ip keys (err one_credential) s c h = absurd (cc)
  with_enabled_lem m u claims typed ip keys (err driver) s c h = absurd (cc)
  with_enabled_lem m u claims typed ip keys (ok setting) s c h =
      elim (Bool-cases (setting.configuration_id == claims.configuration_id)) [
        | inr f ↦ absurd (ground (arith, h, f))
        | inl f ↦
            let checked = verify_login_code lib r o m setting typed in
            let (code, event, right, logged, accepted, cookie, written) =
              with_code_lem u claims ip keys checked s c (cc (h, f)) in
            (
              setting,
              refl,
              record {
                code = code;
                right = right;
                event = event;
                logged = logged;
                accepted = accepted;
                spent = rw f written;
                cookie = cookie;
              },
            )
      ]

  -- A query before does not change what was taken.
  pub IsTaken-query :
      {m : TwoFactorManager} {claims : Claims} {typed : String} {u : User} {setting : UserTwoFactor}
      {t t' after : Tables} {c : String × ℕ}
      → t' ≡ t
      → IsTaken lib r o m claims typed u setting t' after c
      → IsTaken lib r o m claims typed u setting t after c
  IsTaken-query {m} {claims} {typed} {u} {setting} {t} {t'} {after} {c} same =
      subst (λ x. IsTaken lib r o m claims typed u setting x after c) same
