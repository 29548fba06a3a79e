-- ===== src/Tests/Web/Cookies.antt =====
-- Logins that are answered with a session cookie.
use vibe_terminal.Base.{ℕ, String, ◌≡◌, refl, some}
use vibe_terminal.Text.{split}
use vibe_terminal.Limiter.{allow}
use vibe_terminal.Limiter.Attempts.{allow_login_attempt}
use vibe_terminal.Auth.Cookie.{set_cookie}
use vibe_terminal.Auth.Secrets.{TwoFactorManager, recovery_code_hash}
use vibe_terminal.Store.Rows.{User}
use vibe_terminal.Store.Db.{transaction}
use vibe_terminal.Sessions.{log_event}
use vibe_terminal.Http.{call}
use vibe_terminal.Http.Limits.{attempt, clear}
use vibe_terminal.Http.Incoming.{Decoder}
use vibe_terminal.Http.Login.{LoginBody, handle_login, login_audit_event, finish_login}
use vibe_terminal.Http.Issued.{IsRead}
use vibe_terminal.Http.Issued.Password.{IsPasswordLogin, handle_login-IsPasswordLogin}
use vibe_terminal.Json.{validate_no_duplicate_json_fields}
use vibe_terminal.Http.Limits.{password_login_limit_keys, second_factor_limit_keys}
use vibe_terminal.Http.Incoming.{read_login_json}
use vibe_terminal.GoMap.{lookup}
use vibe_terminal.Auth.Challenge.{verify_login_challenge_at}
use vibe_terminal.Auth.Cookie.{check_password}
use vibe_terminal.Store.Db.{◌>>=◌, exec}
use vibe_terminal.Store.Table.{find_where, update_where}
use vibe_terminal.Store.TwoFactor.{
  insert_audit_event, consume_login_second_factor, claim_challenge, use_code,
}
use vibe_terminal.Store.Settings.{get_enabled_two_factor}
use vibe_terminal.Store.Devices.{get_user_by_username, get_user_by_id, create_audit_event}
use vibe_terminal.Http.SecondFactor.{TwoFactorBody, handle_login_two_factor}
use vibe_terminal.Http.Issued.BothFactors.{
  IsSecondFactorLogin, handle_login_two_factor-IsSecondFactorLogin,
}
use vibe_terminal.Tests.Challenges.{cookies, manager, challenges}
use vibe_terminal.Tests.Encoding.{unescape}
use vibe_terminal.Tests.Web.{packages, router, world, tables, app, only, request}

abbrev login : Decoder LoginBody
login = only (record { username = "guest"; password = "hunter2" })

abbrev guest_cookie : String × ℕ
guest_cookie = set_cookie cookies manager 2 "u2"

logged_in : (handle_login packages router world login request app).0.cookie ≡ some guest_cookie
unfolding handle_login call clear allow_login_attempt read_login_json
    validate_no_duplicate_json_fields attempt password_login_limit_keys allow lookup
    get_user_by_username ◌>>=◌ find_where check_password get_enabled_two_factor log_event
    create_audit_event exec insert_audit_event
logged_in = refl

handle_login-IsPasswordLogin_example :
    (it : IsRead login request) × (u : User) × IsPasswordLogin packages tables it.value u
    × (guest_cookie ≡ set_cookie cookies manager 2 u.id)
handle_login-IsPasswordLogin_example =
    handle_login-IsPasswordLogin packages router world login request app guest_cookie logged_in

abbrev second_step : Decoder TwoFactorBody
second_step = only (record { challenge_token = "p.kp"; code = "abcdef12" })

abbrev admin_cookie : String × ℕ
admin_cookie = set_cookie cookies manager 2 "u1"

logged_in_twice :
    (handle_login_two_factor packages router world second_step request app).0.cookie
    ≡ some admin_cookie
unfolding handle_login_two_factor call clear allow_login_attempt read_login_json
    validate_no_duplicate_json_fields attempt second_factor_limit_keys allow lookup get_user_by_id
    ◌>>=◌ find_where get_enabled_two_factor exec insert_audit_event transaction
    consume_login_second_factor claim_challenge use_code update_where verify_login_challenge_at
    split unescape login_audit_event recovery_code_hash finish_login
logged_in_twice = refl

handle_login_two_factor-IsSecondFactorLogin_example :
    (it : IsRead second_step request) × (m : TwoFactorManager) × (router.two_factor ≡ some m)
    × IsSecondFactorLogin packages router world m
        (verify_login_challenge_at challenges m.challenge_key it.value.challenge_token world.now)
        it.value.code
        tables
        (handle_login_two_factor packages router world second_step request app).1.server.conn.tables
        admin_cookie
handle_login_two_factor-IsSecondFactorLogin_example =
    handle_login_two_factor-IsSecondFactorLogin packages router world second_step request app
      admin_cookie logged_in_twice
