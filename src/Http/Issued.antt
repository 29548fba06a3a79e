-- ===== src/Http/Issued.antt =====
-- router.go and router_2fa.go: which requests are answered with a session cookie.
pub mod Password
pub mod Taken
pub mod BothFactors
use vibe_terminal.Base.{
  ℕ, String, ◌≡◌, refl, true, false, not, Bool, Option, none, some, List, is_some, arith, inl, inr,
  ◌==◌, Option-cases, Bool-cases, eq_iff, if◌then◌else◌,
}
use vibe_terminal.Auth.Challenge.{Claims}
use vibe_terminal.Auth.Secrets.{TwoFactorManager}
use vibe_terminal.Store.Rows.{User, UserTwoFactor}
use vibe_terminal.Store.Db.{
  Db, Result, ok, err, Error, not_found, conflict, login_restart_required, invalid_second_factor,
  one_credential, driver,
}
use vibe_terminal.Http.{
  Packages, Router, World, App, Http, write_json, write_error, write_rate_limit, call,
}
use vibe_terminal.Limiter.Attempts.{record_login_failure, allow_login_attempt}
use vibe_terminal.Sessions.{log_event}
use vibe_terminal.Http.Incoming.{
  BodyRead, too_large, unreadable, content, Request, Decoder, decode_body, read_body, is_json,
  read_login_json,
}
use vibe_terminal.Json.{validate_no_duplicate_json_fields}
use vibe_terminal.Http.Limits.{
  Guard, password, second_factor, limiter, set_limiter, attempt, reject, clear,
}
use vibe_terminal.Http.SecondFactor.{write_invalid_second_factor}
use vibe_terminal.Http.Login.{
  audit_with, audit_login_rate_limit, after_challenge, store_challenge, check_issued,
  issue_challenge, with_setting, user_event, password_refused,
}

-- A handler that never sets the cookie.
abbrev pub IsCookieless : Http → Type 0
IsCookieless k = (s : App) → (k s).0.cookie ≡ none

call-IsCookieless :
    {A : Type 0} (m : Db A) (f : Result A → Http)
    → ((r : Result A) → IsCookieless (f r))
    → IsCookieless (call m f)
unfolding call
call-IsCookieless m f h s = h _ _

reject-IsCookieless :
    (o : World) (g : Guard) (keys : List String) (audit : Http → Http) (refuse : Http)
    → ((k : Http) → IsCookieless k → IsCookieless (audit k))
    → IsCookieless refuse
    → IsCookieless (reject o g keys audit refuse)
unfolding reject
reject-IsCookieless o g keys audit refuse ha hr s =
    elim (Bool-cases (record_login_failure (limiter g s) keys o.record_at).1) [
      | inl e ↦ rw e (
          ha (write_rate_limit (record_login_failure (limiter g s) keys o.record_at).2) (λ t. refl)
            _)
      | inr e ↦ rw e (hr _)
    ]

module _ (lib : Packages) (r : Router) (o : World) where
  issue_challenge-IsCookieless :
      (u : User) (setting : UserTwoFactor) (m : Option TwoFactorManager)
      → IsCookieless (issue_challenge lib r o u setting m)
  unfolding issue_challenge call write_error
  issue_challenge-IsCookieless u setting m s = ground arith

  audit_with-IsCookieless :
      (user_id event_type summary : String) (metadata_json : Option String) (k : Http)
      → IsCookieless k
      → IsCookieless (audit_with lib r o user_id event_type summary metadata_json k)
  unfolding audit_with
  audit_with-IsCookieless user_id event_type summary none k h = h
  audit_with-IsCookieless user_id event_type summary (some json) k h =
      call-IsCookieless (log_event o.outside (user_event user_id event_type summary json)) (λ e. k)
        (λ e. h)

  password_refused-IsCookieless :
      (keys : List String) (ip user_id : String)
      → IsCookieless (password_refused lib r o keys ip user_id)
  unfolding password_refused write_error
  password_refused-IsCookieless keys ip user_id =
      reject-IsCookieless o password keys (audit_login_rate_limit lib r o user_id "password" ip)
        (write_error 401 "invalid_credentials" "invalid username or password")
        (audit_with-IsCookieless user_id "login_rate_limited" "login attempts rate limited"
          (lib.stage_json "password" ip))
        (λ s. refl)

  write_invalid_second_factor-IsCookieless :
      (user_id ip : String) (keys : List String)
      → IsCookieless (write_invalid_second_factor lib r o user_id ip keys)
  unfolding write_invalid_second_factor audit_login_rate_limit write_error
  write_invalid_second_factor-IsCookieless user_id ip keys =
      reject-IsCookieless o second_factor keys
        (audit_login_rate_limit lib r o user_id "second_factor" ip)
        (write_error 401 "invalid_two_factor_code" "invalid two factor code")
        (audit_with-IsCookieless user_id "login_rate_limited" "login attempts rate limited"
          (lib.stage_json "second_factor" ip))
        (λ s. refl)

-- What was read of a request whose answer sets the cookie.
pub record IsRead {A : Type 0} (json : Decoder A) (req : Request) : Type 0 where
  pub text : String
  pub value : A
  pub sent : req.body ≡ content text
  pub unique : validate_no_duplicate_json_fields (json.tokens text) ≡ true
  pub value_read : json.decode text ≡ some (value, true)

decode_body_lem :
    {A : Type 0} (found : Option (A × Bool)) (k : A → Http) (s : App) (c : String × ℕ)
    → (decode_body found k s).0.cookie ≡ some c
    → (value : A) × (found ≡ some (value, true))
      × ((k value s).0.cookie ≡ some c)
      × (decode_body found k s ≡ k value s)
unfolding decode_body write_error
decode_body_lem none k s c h = absurd (cc)
decode_body_lem (some (a, false)) k s c h = absurd (cc)
decode_body_lem (some (a, true)) k s c h = (a, refl, h, refl)

read_body_lem :
    {A : Type 0} (json : Decoder A) (req : Request) (read : BodyRead) (k : A → Http) (s : App)
    (c : String × ℕ)
    → req.body ≡ read
    → (read_body json read k s).0.cookie ≡ some c
    → (it : IsRead json req) × ((k it.value s).0.cookie ≡ some c)
      × (read_body json read k s ≡ k it.value s)
unfolding read_body write_error
read_body_lem json req too_large k s c e h = absurd (cc)
read_body_lem json req unreadable k s c e h = absurd (cc)
read_body_lem json req (content text) k s c e h =
    elim (Bool-cases (validate_no_duplicate_json_fields (json.tokens text))) [
      | inr f ↦ absurd (ground (arith, h, f))
      | inl f ↦
          let (value, value_read, set, same) =
            decode_body_lem (json.decode text) k s c (cc (h, f)) in
          (
            record { text = text; value = value; sent = e; unique = f; value_read = value_read },
            set,
            rw f same,
          )
    ]

pub read_login_json_lem :
    {A : Type 0} (lib : Packages) (json : Decoder A) (req : Request) (k : A → Http) (s : App)
    (c : String × ℕ)
    → (read_login_json lib json req k s).0.cookie ≡ some c
    → (it : IsRead json req) × ((k it.value s).0.cookie ≡ some c)
      × (read_login_json lib json req k s ≡ k it.value s)
unfolding read_login_json write_error
read_login_json_lem lib json req k s c h =
    elim (Bool-cases (is_json (lib.media_type req.content_type))) [
      | inr f ↦ absurd (ground (arith, h, f))
      | inl f ↦
          let (it, set, same) = read_body_lem json req req.body k s c refl (cc (h, f)) in
          (it, set, rw f same)
    ]

pub attempt_lem :
    (o : World) (g : Guard) (keys : List String) (k : Http) (s : App) (c : String × ℕ)
    → (attempt o g keys k s).0.cookie ≡ some c
    → ((allow_login_attempt (limiter g s) keys o.allow_at).1 ≡ true)
      × ((k (set_limiter g (allow_login_attempt (limiter g s) keys o.allow_at).0 s)).0.cookie
          ≡ some c)
unfolding attempt
attempt_lem o g keys k s c h =
    elim (Bool-cases (allow_login_attempt (limiter g s) keys o.allow_at).1) [
      | inr f ↦ absurd (ground (arith, h, f))
      | inl f ↦ (f, cc (h, f))
    ]

pub attempt_allowed :
    (o : World) (g : Guard) (keys : List String) (k : Http) (s : App)
    → (allow_login_attempt (limiter g s) keys o.allow_at).1 ≡ true
    → attempt o g keys k s
      ≡ k (set_limiter g (allow_login_attempt (limiter g s) keys o.allow_at).0 s)
unfolding attempt
attempt_allowed o g keys k s h = rw h
