-- ===== src/Http/Issued/Password.antt =====
-- router.go, `handleLogin`: when it answers with a session cookie.
use vibe_terminal.Base.{
  ℕ, String, ◌≡◌, refl, sym, ap, ◌∙◌, true, none, some, List, ◌==◌, arith, inl, inr, Bool-cases,
}
use vibe_terminal.Auth.Cookie.{check_password, set_cookie}
use vibe_terminal.Store.Rows.{User, UserTwoFactor, Tables}
use vibe_terminal.Store.Db.{
  Conn, Result, ok, err, not_found, conflict, login_restart_required, invalid_second_factor,
  one_credential, driver, transaction,
}
use vibe_terminal.Store.Table.{find_where}
use vibe_terminal.Store.TwoFactor.{is_enabled}
use vibe_terminal.Store.Settings.{get_enabled_two_factor}
use vibe_terminal.Store.Devices.{get_user_by_username}
use vibe_terminal.Http.{Packages, Router, World, App, with_conn, write_error, call}
use vibe_terminal.Http.Limits.{
  password, limiter, set_limiter, clear, request_ip, password_login_limit_keys,
}
use vibe_terminal.Limiter.Attempts.{allow_login_attempt, clear_login_failures}
use vibe_terminal.Http.Incoming.{Request, Decoder}
use vibe_terminal.Http.Login.{
  LoginBody, complete_login, with_setting, check_user, login_with, handle_login,
}
use vibe_terminal.Http.Issued.{
  IsRead, issue_challenge-IsCookieless, password_refused-IsCookieless, read_login_json_lem,
  attempt_lem,
}

-- The row of a user is found, its hash is that of the password, and it has no second factor.
pub record IsPasswordLogin (lib : Packages) (t : Tables) (body : LoginBody) (u : User)
    : Type 0 where
  pub found : find_where (λ r. r.username == body.username) t.users ≡ some u
  pub right : check_password lib.cookies u.password_hash body.password ≡ true
  pub single : find_where (is_enabled u.id) t.user_two_factor ≡ none

get_user_by_username_lem :
    (username : String) (c : Conn) (u : User)
    → (get_user_by_username username c).0 ≡ ok u
    → (find_where (λ r. r.username == username) c.tables.users ≡ some u)
      × ((get_user_by_username username c).1.tables ≡ c.tables)
unfolding get_user_by_username transaction
get_user_by_username_lem username c u h = ground arith

get_enabled_two_factor_lem :
    (user_id : String) (c : Conn)
    → (get_enabled_two_factor user_id c).0 ≡ err not_found
    → find_where (is_enabled user_id) c.tables.user_two_factor ≡ none
unfolding get_enabled_two_factor transaction
get_enabled_two_factor_lem user_id c h = ground arith

abbrev cleared : List String → App → App
cleared keys s = set_limiter password (clear_login_failures (limiter password s) keys) s

module _ (lib : Packages) (r : Router) (o : World) where
  complete_login_lem :
      (u : User) (method : String) (s : App) (c : String × ℕ)
      → (complete_login lib r o u method s).0.cookie ≡ some c
      → c ≡ set_cookie lib.cookies r.sessions o.cookie_at u.id
  unfolding complete_login call write_error
  complete_login_lem u method s c h = ground arith

  with_setting_lem :
      (u : User) (found : Result UserTwoFactor) (s : App) (c : String × ℕ)
      → (with_setting lib r o u found s).0.cookie ≡ some c
      → (found ≡ err not_found) × (c ≡ set_cookie lib.cookies r.sessions o.cookie_at u.id)
  unfolding with_setting write_error
  with_setting_lem u (err not_found) s c h = (refl, complete_login_lem u "password" s c h)
  with_setting_lem u (err conflict) s c h = absurd (cc)
  with_setting_lem u (err login_restart_required) s c h = absurd (cc)
  with_setting_lem u (err invalid_second_factor) s c h = absurd (cc)
  with_setting_lem u (err one_credential) s c h = absurd (cc)
  with_setting_lem u (err driver) s c h = absurd (cc)
  with_setting_lem u (ok setting) s c h =
      absurd (cc (h, issue_challenge-IsCookieless lib r o u setting r.two_factor s))

  check_user_lem :
      (keys : List String) (ip typed : String) (found : Result User) (s : App) (c : String × ℕ)
      → (check_user lib r o keys ip typed found s).0.cookie ≡ some c
      → (u : User) × (found ≡ ok u)
        × (check_password lib.cookies u.password_hash typed ≡ true)
        × (find_where (is_enabled u.id) s.server.conn.tables.user_two_factor ≡ none)
        × (c ≡ set_cookie lib.cookies r.sessions o.cookie_at u.id)
  unfolding check_user call clear write_error
  check_user_lem keys ip typed (err not_found) s c h =
      absurd (cc (h, password_refused-IsCookieless lib r o keys ip "" s))
  check_user_lem keys ip typed (err conflict) s c h = absurd (cc)
  check_user_lem keys ip typed (err login_restart_required) s c h = absurd (cc)
  check_user_lem keys ip typed (err invalid_second_factor) s c h = absurd (cc)
  check_user_lem keys ip typed (err one_credential) s c h = absurd (cc)
  check_user_lem keys ip typed (err driver) s c h = absurd (cc)
  check_user_lem keys ip typed (ok u) s c h =
      elim (Bool-cases (check_password lib.cookies u.password_hash typed)) [
        | inr f ↦ absurd (cc (h, f, password_refused-IsCookieless lib r o keys ip u.id s))
        | inl f ↦
            let (e, set) =
              with_setting_lem u (get_enabled_two_factor u.id s.server.conn).0
                (with_conn (get_enabled_two_factor u.id s.server.conn).1 (cleared keys s)) c
                (cc (h, f)) in
            (u, refl, f, get_enabled_two_factor_lem u.id s.server.conn e, set)
      ]

  -- A login that is answered with a session cookie sent the name and the password of a user who has
  -- no second factor, in a body that is one JSON value with no field twice, and the cookie is this
  -- user's. It does not matter which statements fail and what the limiter holds.
  pub handle_login-IsPasswordLogin :
      (json : Decoder LoginBody) (req : Request) (s : App) (c : String × ℕ)
      → (handle_login lib r o json req s).0.cookie ≡ some c
      → (it : IsRead json req) × (u : User) × IsPasswordLogin lib s.server.conn.tables it.value u
        × (c ≡ set_cookie lib.cookies r.sessions o.cookie_at u.id)
  unfolding handle_login call set_limiter
  handle_login-IsPasswordLogin json req s c h =
      let (it, read, same_reply) =
        read_login_json_lem lib json req (login_with lib r o req) s c h in
      let ip = request_ip lib req.remote_addr in
      let keys = password_login_limit_keys lib it.value.username ip in
      let asked = get_user_by_username it.value.username s.server.conn in
      let (allowed, set) =
        attempt_lem o password keys
          (call (get_user_by_username it.value.username)
            (check_user lib r o keys ip it.value.password))
          s c read in
      let (u, e, right, single, cookie) =
        check_user_lem keys ip it.value.password asked.0
          (with_conn asked.1
            (set_limiter password (allow_login_attempt (limiter password s) keys o.allow_at).0 s))
          c set in
      let (found, same) = get_user_by_username_lem it.value.username s.server.conn u e in
      (
        it,
        u,
        record {
          found = found;
          right = right;
          single =
              ap (λ (t : Tables). find_where (is_enabled u.id) t.user_two_factor) (sym same)
              ∙ single;
        },
        cookie,
      )
