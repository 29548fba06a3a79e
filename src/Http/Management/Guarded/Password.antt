-- ===== src/Http/Management/Guarded/Password.antt =====
-- router_2fa.go: the handlers that ask for the password before they change the second factor.
use vibe_terminal.Base.{
  String, ◌≡◌, ◌⊎◌, refl, ap, subst, ◌∙◌, true, false, Bool, Option, none, some, List, ◌==◌, arith,
  inl, inr, Bool-cases,
}
use vibe_terminal.Json.{validate_no_duplicate_json_fields}
use vibe_terminal.Limiter.Attempts.{allow_login_attempt}
use vibe_terminal.Auth.Cookie.{Session, get_session, check_password}
use vibe_terminal.Auth.Cookie
use vibe_terminal.Store.Rows.{User, UserTwoFactor, RecoveryCode, Tables}
use vibe_terminal.Store.Db.{
  Conn, Result, ok, err, not_found, conflict, login_restart_required, invalid_second_factor,
  one_credential, driver, transaction,
}
use vibe_terminal.Store.Table.{find_where}
use vibe_terminal.Store.Devices.{get_user_by_id}
use vibe_terminal.Http.{
  Packages, Router, World, App, Http, with_conn, write_error, write_rate_limit, call,
}
use vibe_terminal.Http.Limits.{
  management, limiter, set_limiter, attempt, request_ip, management_limit_keys,
}
use vibe_terminal.Http.Incoming.{
  BodyRead, too_large, unreadable, content, Request, Decoder, decode_body, read_body, is_json,
  read_login_json, found_user, session_user, require_user,
}
use vibe_terminal.Http.Issued.{IsRead}
use vibe_terminal.Http.Issued.Taken.{get_user_by_id_lem}
use vibe_terminal.Http.Management.{managed, with_password, management_attempt}
use vibe_terminal.Http.Management.Setup.{PasswordBody, setup_with, handle_two_factor_setup}
use vibe_terminal.Http.Management.RecoveryCodes.{
  RotationBody, rotation_with, handle_two_factor_recovery_codes,
}
use vibe_terminal.Http.Management.Disable.{after_disable, handle_two_factor_disable}
use vibe_terminal.Store.Settings.{disable_two_factor}
use vibe_terminal.Http.Management.Guarded.{
  settings, ProtectsSettings, invalid_password-LeavesSettings,
}

attempt-ProtectsSettings :
    (P : Tables → Type 0) (o : World) (keys : List String) (k : Http)
    → ProtectsSettings P k
    → ProtectsSettings P (attempt o management keys k)
unfolding attempt set_limiter write_rate_limit
attempt-ProtectsSettings P o keys k h s =
    let asked = allow_login_attempt (limiter management s) keys o.allow_at in
    elim (Bool-cases asked.1) [
      | inl e ↦ rw e (h (set_limiter management asked.0 s))
      | inr e ↦ inl (rw e refl)
    ]

module _ {A : Type 0} (P : A → Tables → Type 0) (json : Decoder A) (req : Request) where
  decode_body-ProtectsSettings :
      (Q : A → Tables → Type 0) (found : Option (A × Bool)) (k : A → Http)
      → ((a : A) → found ≡ some (a, true) → ProtectsSettings (Q a) (k a))
      → (s : App)
      → (settings (decode_body found k s).1 ≡ settings s)
        ⊎ ((a : A) × (found ≡ some (a, true)) × Q a s.server.conn.tables)
  unfolding decode_body write_error
  decode_body-ProtectsSettings Q none k h s = inl refl
  decode_body-ProtectsSettings Q (some (a, false)) k h s = inl refl
  decode_body-ProtectsSettings Q (some (a, true)) k h s = elim (h a refl s) [
    | inl e ↦ inl e
    | inr q ↦ inr (a, refl, q)
  ]

  read_body-ProtectsSettings :
      (read : BodyRead) (k : A → Http)
      → req.body ≡ read
      → ((a : A) → ProtectsSettings (P a) (k a))
      → ProtectsSettings (λ t. (it : IsRead json req) × P it.value t) (read_body json read k)
  unfolding read_body write_error
  read_body-ProtectsSettings too_large k sent h s = inl refl
  read_body-ProtectsSettings unreadable k sent h s = inl refl
  read_body-ProtectsSettings (content text) k sent h s =
      elim (Bool-cases (validate_no_duplicate_json_fields (json.tokens text))) [
        | inr e ↦ inl (rw e refl)
        | inl e ↦ rw e (elim (decode_body-ProtectsSettings P (json.decode text) k (λ a f. h a) s) [
          | inl same ↦ inl same
          | inr (a, f, p) ↦
              inr (record { text = text; value = a; sent = sent; unique = e; value_read = f }, p)
        ])
      ]

  read_login_json-ProtectsSettings :
      (lib : Packages) (k : A → Http)
      → ((a : A) → ProtectsSettings (P a) (k a))
      → ProtectsSettings
          (λ t. (it : IsRead json req) × P it.value t)
          (read_login_json lib json req k)
  unfolding read_login_json write_error
  read_login_json-ProtectsSettings lib k h s =
      elim (Bool-cases (is_json (lib.media_type req.content_type))) [
        | inr e ↦ inl (rw e refl)
        | inl e ↦ rw e (read_body-ProtectsSettings req.body k refl h s)
      ]

get_user_by_id_query : (id : String) (c : Conn) → (get_user_by_id id c).1.tables ≡ c.tables
unfolding get_user_by_id transaction
get_user_by_id_query id c = ground arith

abbrev pub HasPassword : Packages → User → String → Type 0
HasPassword lib u typed = check_password lib.cookies u.password_hash typed ≡ true

-- What the first steps of a handler have established when it goes on: whose session the cookie is,
-- and what the body says; with `P` of the user's row and the body.
pub record IsManaged {A : Type 0} (lib : Packages) (r : Router) (o : World) (json : Decoder A)
    (req : Request) (P : User → A → Tables → Type 0) (t : Tables) : Type 0 where
  pub user_id : String
  pub session : get_session lib.cookies r.sessions o.cookie_at req.cookie ≡ Cookie.user user_id
  pub user : User
  pub found : find_where (λ x. x.id == user_id) t.users ≡ some user
  pub read : IsRead json req
  pub holds : P user read.value t

module _ (lib : Packages) (r : Router) (o : World) where
  found_user-ProtectsSettings :
      (Q : User → Tables → Type 0) (asked : Result User) (k : User → Http)
      → ((u : User) → ProtectsSettings (Q u) (k u))
      → (s : App)
      → (settings (found_user k asked s).1 ≡ settings s)
        ⊎ ((u : User) × (asked ≡ ok u) × Q u s.server.conn.tables)
  unfolding found_user write_error
  found_user-ProtectsSettings Q (err not_found) k h s = inl refl
  found_user-ProtectsSettings Q (err conflict) k h s = inl refl
  found_user-ProtectsSettings Q (err login_restart_required) k h s = inl refl
  found_user-ProtectsSettings Q (err invalid_second_factor) k h s = inl refl
  found_user-ProtectsSettings Q (err one_credential) k h s = inl refl
  found_user-ProtectsSettings Q (err driver) k h s = inl refl
  found_user-ProtectsSettings Q (ok u) k h s = elim (h u s) [
    | inl e ↦ inl e
    | inr q ↦ inr (u, refl, q)
  ]

  session_user-ProtectsSettings :
      (Q : User → Tables → Type 0) (session : Session) (k : User → Http)
      → ((u : User) → ProtectsSettings (Q u) (k u))
      → ProtectsSettings
          (λ t.
            (user_id : String) × (session ≡ Cookie.user user_id)
            × (u : User) × (find_where (λ x. x.id == user_id) t.users ≡ some u)
            × Q u t)
          (session_user k session)
  unfolding session_user call write_error
  session_user-ProtectsSettings Q (Cookie.failed e) k h s = inl refl
  session_user-ProtectsSettings Q (Cookie.user user_id) k h s =
      let asked = get_user_by_id user_id s.server.conn in
      let same = get_user_by_id_query user_id s.server.conn in
      let pair : Tables → List UserTwoFactor × List RecoveryCode =
        λ t. (t.user_two_factor, t.two_factor_recovery_codes) in
      elim (found_user-ProtectsSettings Q asked.0 k h (with_conn asked.1 s)) [
        | inl e ↦ inl (e ∙ ap pair same)
        | inr (u, e, q) ↦
            inr (
              user_id,
              refl,
              u,
              (get_user_by_id_lem user_id s.server.conn u e).0,
              subst (Q u) same q,
            )
      ]

  managed-ProtectsSettings :
      {A : Type 0} (json : Decoder A) (req : Request) (P : User → A → Tables → Type 0)
      (k : User → A → String → List String → Http)
      → ((u : User) (a : A) (ip : String) (keys : List String)
          → ProtectsSettings (P u a) (k u a ip keys))
      → ProtectsSettings (IsManaged lib r o json req P) (managed lib r o json req k)
  unfolding managed management_attempt require_user
  managed-ProtectsSettings {A} json req P k h s =
      let ip = request_ip lib req.remote_addr in
      let Q = λ (u : User) (t : Tables). (it : IsRead json req) × P u it.value t in
      let go = λ (u : User) (a : A).
        let keys = management_limit_keys u.id ip in attempt o management keys (k u a ip keys) in
      let rest = λ (u : User). read_login_json-ProtectsSettings (P u) json req lib (go u) (λ a.
        attempt-ProtectsSettings (P u a) o (management_limit_keys u.id ip)
          (k u a ip (management_limit_keys u.id ip)) (h u a ip (management_limit_keys u.id ip))) in
      elim (session_user-ProtectsSettings Q
        (get_session lib.cookies r.sessions o.cookie_at req.cookie)
        (λ u. read_login_json lib json req (go u)) rest s) [
          | inl e ↦ inl e
          | inr (user_id, session, u, found, (it, p)) ↦ inr (record {
            user_id = user_id;
            session = session;
            user = u;
            found = found;
            read = it;
            holds = p;
          })
        ]

  with_password-ProtectsSettings :
      (stage : String) (u : User) (typed ip : String) (keys : List String) (k : Http)
      → ProtectsSettings
          (λ t. HasPassword lib u typed)
          (with_password lib r o stage u typed ip keys k)
  unfolding with_password
  with_password-ProtectsSettings stage u typed ip keys k s =
      elim (Bool-cases (check_password lib.cookies u.password_hash typed)) [
        | inl e ↦ inr e
        | inr e ↦ inl (rw e (invalid_password-LeavesSettings lib r o u stage ip keys s))
      ]

  -- A request to set up a second factor, to replace the recovery codes or to disable the second
  -- factor leaves the tables of the second factor as they are, unless its cookie is the session of a
  -- user and its body, one JSON value with no field twice, has this user's password.
  pub password_protects :
      (json : Decoder PasswordBody) (rotation : Decoder RotationBody) (req : Request)
      → ProtectsSettings
          (IsManaged lib r o json req (λ u b t. HasPassword lib u b.password))
          (handle_two_factor_setup lib r o json req)
        × ProtectsSettings
            (IsManaged lib r o rotation req (λ u b t. HasPassword lib u b.password))
            (handle_two_factor_recovery_codes lib r o rotation req)
        × ProtectsSettings
            (IsManaged lib r o json req (λ u b t. HasPassword lib u b.password))
            (handle_two_factor_disable lib r o json req)
  unfolding handle_two_factor_setup handle_two_factor_recovery_codes handle_two_factor_disable
  password_protects json rotation req = (
    managed-ProtectsSettings json req _
        (λ u body ip keys.
          with_password lib r o "setup_password" u body.password ip keys
            (setup_with lib r o keys u r.two_factor))
        (λ u body ip keys.
          with_password-ProtectsSettings "setup_password" u body.password ip keys _),
    managed-ProtectsSettings rotation req _
        (λ u body ip keys.
          with_password lib r o "recovery_password" u body.password ip keys
            (rotation_with lib r o keys u ip body.code r.two_factor))
        (λ u body ip keys.
          with_password-ProtectsSettings "recovery_password" u body.password ip keys _),
    managed-ProtectsSettings json req _
        (λ u body ip keys.
          with_password lib r o "disable_password" u body.password ip keys
            (call (disable_two_factor u.id) (after_disable lib r o keys u)))
        (λ u body ip keys.
          with_password-ProtectsSettings "disable_password" u body.password ip keys _),
  )
