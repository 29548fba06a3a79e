-- ===== src/Http/Issued/BothFactors.antt =====
-- router_2fa.go, `handleLoginTwoFactor`: when it answers with a session cookie.
use vibe_terminal.Base.{ℕ, String, ◌≡◌, refl, sym, ap, subst, ◌∙◌, Option, none, some, List, ◌==◌}
use vibe_terminal.Auth.Challenge.{Claims, verify_login_challenge_at}
use vibe_terminal.Auth.Secrets.{TwoFactorManager}
use vibe_terminal.Store.Rows.{User, UserTwoFactor, Tables}
use vibe_terminal.Store.Db.{
  Result, ok, err, not_found, conflict, login_restart_required, invalid_second_factor,
  one_credential, driver,
}
use vibe_terminal.Store.Table.{find_where}
use vibe_terminal.Store.TwoFactor.{is_enabled}
use vibe_terminal.Store.Settings.{get_enabled_two_factor}
use vibe_terminal.Store.Devices.{get_user_by_id}
use vibe_terminal.Http.{Packages, Router, World, Reply, App, with_conn, write_error, call}
use vibe_terminal.Http.Limits.{
  second_factor, limiter, set_limiter, request_ip, second_factor_limit_keys,
}
use vibe_terminal.Limiter.Attempts.{allow_login_attempt}
use vibe_terminal.Http.Incoming.{Request, Decoder}
use vibe_terminal.Http.SecondFactor.{
  TwoFactorBody, with_user, with_challenge, two_factor_with, handle_login_two_factor,
}
use vibe_terminal.Http.Issued.{IsRead, read_login_json_lem, attempt_lem, attempt_allowed}
use vibe_terminal.Http.Issued.Taken.{
  get_user_by_id_lem, get_enabled_two_factor_lem, IsTaken, IsTaken-query, with_enabled_lem,
}

-- What a login with a second factor went through: the challenge, whose signature and times are
-- right, its user, and this user's setting.
pub record IsSecondFactorLogin (lib : Packages) (r : Router) (o : World) (m : TwoFactorManager)
    (checked : Option Claims) (typed : String) (t after : Tables) (c : String × ℕ) : Type 0 where
  pub claims : Claims
  pub signed : checked ≡ some claims
  pub user : User
  pub found : find_where (λ x. x.id == claims.user_id) t.users ≡ some user
  pub setting : UserTwoFactor
  pub enabled : find_where (is_enabled claims.user_id) t.user_two_factor ≡ some setting
  pub taken : IsTaken lib r o m claims typed user setting t after c

module _ (lib : Packages) (r : Router) (o : World) where
  with_user_lem :
      (m : TwoFactorManager) (claims : Claims) (typed ip : String) (keys : List String)
      (found : Result User) (s : App) (c : String × ℕ)
      → (with_user lib r o m claims typed ip keys found s).0.cookie ≡ some c
      → (u : User) × (setting : UserTwoFactor) × (found ≡ ok u)
        × (find_where (is_enabled claims.user_id) s.server.conn.tables.user_two_factor
            ≡ some setting)
        × IsTaken lib r o m claims typed u setting s.server.conn.tables
            (with_user lib r o m claims typed ip keys found s).1.server.conn.tables
            c
  unfolding with_user call write_error
  with_user_lem m claims typed ip keys (err not_found) s c h = absurd (cc)
  with_user_lem m claims typed ip keys (err conflict) s c h = absurd (cc)
  with_user_lem m claims typed ip keys (err login_restart_required) s c h = absurd (cc)
  with_user_lem m claims typed ip keys (err invalid_second_factor) s c h = absurd (cc)
  with_user_lem m claims typed ip keys (err one_credential) s c h = absurd (cc)
  with_user_lem m claims typed ip keys (err driver) s c h = absurd (cc)
  with_user_lem m claims typed ip keys (ok u) s c h =
      let asked = get_enabled_two_factor claims.user_id s.server.conn in
      let (setting, e, taken) =
        with_enabled_lem lib r o m u claims typed ip keys asked.0 (with_conn asked.1 s) c h in
      let (enabled, same) = get_enabled_two_factor_lem claims.user_id s.server.conn setting e in
      (u, setting, refl, enabled, IsTaken-query lib r o same taken)

  with_challenge_lem :
      (m : TwoFactorManager) (req : Request) (typed : String) (checked : Option Claims) (s : App)
      (c : String × ℕ)
      → (with_challenge lib r o m req typed checked s).0.cookie ≡ some c
      → IsSecondFactorLogin lib r o m checked typed s.server.conn.tables
          (with_challenge lib r o m req typed checked s).1.server.conn.tables
          c
  unfolding with_challenge call write_error set_limiter
  with_challenge_lem m req typed none s c h = absurd (cc)
  with_challenge_lem m req typed (some claims) s c h =
      let ip = request_ip lib req.remote_addr in
      let keys = second_factor_limit_keys claims.user_id ip in
      let asked = get_user_by_id claims.user_id s.server.conn in
      let k = call (get_user_by_id claims.user_id) (with_user lib r o m claims typed ip keys) in
      let (allowed, set) = attempt_lem o second_factor keys k s c h in
      let (u, setting, e, enabled, taken) =
        with_user_lem m claims typed ip keys asked.0
          (with_conn asked.1 (
            set_limiter second_factor
              (allow_login_attempt (limiter second_factor s) keys o.allow_at).0 s))
          c set in
      let (found, same) = get_user_by_id_lem claims.user_id s.server.conn u e in
      let before = λ (t : Tables). find_where (is_enabled claims.user_id) t.user_two_factor in
      record {
        claims = claims;
        signed = refl;
        user = u;
        found = found;
        setting = setting;
        enabled = ap before (sym same) ∙ enabled;
        taken =
            subst
              (λ (x : Reply × App).
                IsTaken lib r o m claims typed u setting s.server.conn.tables x.1.server.conn.tables
                  c)
              (sym (attempt_allowed o second_factor keys k s allowed))
              (IsTaken-query lib r o same taken);
      }

  two_factor_with_lem :
      (req : Request) (two_factor : Option TwoFactorManager) (body : TwoFactorBody) (s : App)
      (c : String × ℕ)
      → (two_factor_with lib r o req two_factor body s).0.cookie ≡ some c
      → (m : TwoFactorManager) × (two_factor ≡ some m)
        × IsSecondFactorLogin lib r o m
            (verify_login_challenge_at lib.challenges m.challenge_key body.challenge_token o.now)
            body.code
            s.server.conn.tables
            (two_factor_with lib r o req two_factor body s).1.server.conn.tables
            c
  unfolding two_factor_with write_error
  two_factor_with_lem req none body s c h = absurd (cc)
  two_factor_with_lem req (some m) body s c h =
      let checked =
        verify_login_challenge_at lib.challenges m.challenge_key body.challenge_token o.now in
      (m, refl, with_challenge_lem m req body.code checked s c h)

  -- A second step that is answered with a session cookie had a challenge that the server signed and
  -- that has not run out, and a code that its user's enabled setting accepts. In the tables the
  -- challenge was open and the counter or the recovery code unused, and what the step leaves is that
  -- both are consumed and that the event of this user's login with this method is added, with the
  -- time and the identifier that were drawn for it. The cookie is the user's.
  pub handle_login_two_factor-IsSecondFactorLogin :
      (json : Decoder TwoFactorBody) (req : Request) (s : App) (c : String × ℕ)
      → (handle_login_two_factor lib r o json req s).0.cookie ≡ some c
      → (it : IsRead json req) × (m : TwoFactorManager) × (r.two_factor ≡ some m)
        × IsSecondFactorLogin lib r o m
            (verify_login_challenge_at lib.challenges m.challenge_key it.value.challenge_token
              o.now)
            it.value.code
            s.server.conn.tables
            (handle_login_two_factor lib r o json req s).1.server.conn.tables
            c
  unfolding handle_login_two_factor
  handle_login_two_factor-IsSecondFactorLogin json req s c h =
      let k = two_factor_with lib r o req r.two_factor in
      let (it, set, same) = read_login_json_lem lib json req k s c h in
      let (m, e, login) = two_factor_with_lem req r.two_factor it.value s c set in
      let claims =
        verify_login_challenge_at lib.challenges m.challenge_key it.value.challenge_token o.now in
      (
        it,
        m,
        e,
        subst
            (λ (x : Reply × App).
              IsSecondFactorLogin lib r o m claims it.value.code s.server.conn.tables
                x.1.server.conn.tables c)
            (sym same) login,
      )
