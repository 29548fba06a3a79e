-- ===== src/Auth/Cookie.antt =====
-- server/internal/auth/auth.go: passwords and session cookies.
use Prim.Native.Char.{Char}
use Prim.Native.String.{◌++◌}
use text.Mathlib.TextLemmas.{append_assoc}
use vibe_terminal.Base.{
  ℕ, ◌+◌, ◌*◌, ◌<◌, String, ◌≡◌, refl, ap, ◌∙◌, Bool, false, not, Option, none, some, List, [], ◌∷◌,
  ◌==◌, eq_refl, ltb, if◌then◌else◌,
}
use vibe_terminal.Text.{has_char, split, split_whole, split-append_one}

-- The packages: `bcrypt`, `hmac` with `sha256`, `base64.RawURLEncoding`, and a time in the layout
-- `RFC3339Nano`.
pub record Packages : Type 0 where
  pub hash_password : String → Option String
  pub compare_password : String → String → Bool
  pub hmac_sha256 : String → String → String
  pub base64_encode : String → String
  pub base64_decode : String → Option String
  pub format_time : ℕ → String
  pub parse_time : String → Option ℕ

unfoldable pub check_password : Packages → String → String → Bool
check_password lib hash password = lib.compare_password hash password

abbrev pub cookie_name : String
cookie_name = "vibe_session"

pub record SessionManager : Type 0 where
  pub secret : String
  pub ttl : ℕ

unfoldable pub sign : Packages → SessionManager → String → String
sign lib m value = lib.base64_encode (lib.hmac_sha256 m.secret value)

-- `Set`: the value of the cookie, and when it expires.
unfoldable pub set_cookie : Packages → SessionManager → ℕ → String → String × ℕ
unfolding sign
set_cookie lib m now user_id =
    let expires = now + m.ttl in
    let value = user_id ++ "|" ++ lib.format_time expires in
    (lib.base64_encode (value ++ "|" ++ sign lib m value), expires)

pub data SessionError : Type 0 where
  no_session invalid_session : SessionError

pub data Session : Type 0 where
  user : String → Session
  failed : SessionError → Session

unfoldable pub check_expiry : String → ℕ → Option ℕ → Session
check_expiry user_id now none = failed invalid_session
check_expiry user_id now (some expires) =
    if ltb expires now then failed invalid_session else user user_id

-- What `Get` does with the parts of the value.
unfoldable pub check_parts : Packages → SessionManager → ℕ → List String → Session
unfolding sign check_expiry
check_parts lib m now (user_id ∷ expires ∷ signature ∷ []) =
    if not (signature == sign lib m (user_id ++ "|" ++ expires))
    then failed invalid_session
    else check_expiry user_id now (lib.parse_time expires)
check_parts lib m now _ = failed invalid_session

unfoldable pub check_raw : Packages → SessionManager → ℕ → Option String → Session
unfolding check_parts
check_raw lib m now none = failed invalid_session
check_raw lib m now (some raw) = check_parts lib m now (split 124 raw)

-- `Get`, on the value of the request's cookie
unfoldable pub get_session : Packages → SessionManager → ℕ → Option String → Session
unfolding check_raw
get_session lib m now none = failed no_session
get_session lib m now (some value) = check_raw lib m now (lib.base64_decode value)

-- The first time that RFC 3339 cannot write, the year 10000: 3652059 days of nanoseconds.
abbrev pub year_10000 : ℕ
year_10000 = 3652059 * 86400000000000

-- What is relied on of `base64` and `time`: decoding undoes encoding, parsing undoes formatting up to
-- the year 9999, and neither writes a bar.
pub record IsFaithful (lib : Packages) : Type 0 where
  pub decodes : (s : String) → lib.base64_decode (lib.base64_encode s) ≡ some s
  pub parses : (t : ℕ) → t < year_10000 → lib.parse_time (lib.format_time t) ≡ some t
  pub no_bar : (s : String) → has_char 124 (lib.base64_encode s) ≡ false
  pub no_bar_in_time : (t : ℕ) → has_char 124 (lib.format_time t) ≡ false

split-three :
    (a b c : String)
    → has_char 124 a ≡ false
    → has_char 124 b ≡ false
    → has_char 124 c ≡ false
    → split 124 ((a ++ "|" ++ b) ++ "|" ++ c) ≡ a ∷ b ∷ c ∷ []
split-three a b c ha hb hc =
    let bar : Char = "|" in
    ap (split 124)
      (append_assoc a ("|" ++ b) ("|" ++ c) ∙ ap (◌++◌ a) (append_assoc "|" b ("|" ++ c)))
    ∙ split-append_one 124 bar a (b ++ "|" ++ c) refl ha
    ∙ ap (◌∷◌ a) (split-append_one 124 bar b c refl hb ∙ ap (◌∷◌ b) (split_whole 124 c hc))

-- A cookie that was set for a user, whose identifier has no bar, and that expires before the year
-- 10000, gives this user back until it expires, and is invalid afterwards.
pub get_session-set_cookie :
    (lib : Packages) (m : SessionManager) (user_id : String) (now later : ℕ)
    → IsFaithful lib
    → has_char 124 user_id ≡ false
    → now + m.ttl < year_10000
    → get_session lib m later (some (set_cookie lib m now user_id).0)
      ≡ (if ltb (now + m.ttl) later then failed invalid_session else user user_id)
unfolding get_session set_cookie
get_session-set_cookie lib m user_id now later faithful no_bar near =
    let time = lib.format_time (now + m.ttl) in
    let value = user_id ++ "|" ++ time in
    let mac = lib.hmac_sha256 m.secret value in
    rw (
      faithful.decodes (value ++ "|" ++ lib.base64_encode mac),
      split-three user_id time (lib.base64_encode mac) no_bar
          (faithful.no_bar_in_time (now + m.ttl)) (faithful.no_bar mac),
      eq_refl (lib.base64_encode mac),
      faithful.parses (now + m.ttl) near,
    )
