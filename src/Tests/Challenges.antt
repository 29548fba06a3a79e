-- ===== src/Tests/Challenges.antt =====
-- challenge.go, auth.go and totp.go, with functions in place of the packages.
use Prim.Native.String
use vibe_terminal.Base.{
  ℕ, ◌*◌, ℤ, pos, negsuc, String, ◌≡◌, refl, ap, Bool, true, false, ◌&&◌, none, some, ◌==◌, eq_iff,
  eqb, if◌then◌else◌, arith, false→ne,
}
use vibe_terminal.Auth.{second}
use vibe_terminal.Auth.Challenge
use vibe_terminal.Auth.Challenge.{
  ChallengePayload, issue_login_challenge, verify_login_challenge_at, Claims,
}
use vibe_terminal.Auth.Challenge.RoundTrip
use vibe_terminal.Auth.Challenge.RoundTrip.{verify-issue}
use vibe_terminal.Auth.Cookie
use vibe_terminal.Auth.Cookie.{SessionManager, get_session, set_cookie, get_session-set_cookie}
use vibe_terminal.Tests.Encoding.{
  escape, unescape, tally, count_letters, unescape-escape, no_dot-escape, no_bar-escape,
  nonempty-escape, count-tally, no_bar-tally,
}

-- The only payload that is written.
abbrev payload : ChallengePayload
payload = record {
  version = pos 2;
  jti = "j";
  user_id = "u1";
  configuration_id = "k1";
  issued_at = pos 0;
  expires_at = pos 300;
}

abbrev eqb_ℤ : ℤ → ℤ → Bool
eqb_ℤ (pos m) (pos n) = eqb m n
eqb_ℤ (negsuc m) (negsuc n) = eqb m n
eqb_ℤ _ _ = false

eqb_ℤ_eq : (m n : ℤ) → eqb_ℤ m n ≡ true → m ≡ n
eqb_ℤ_eq (pos m) (pos n) h = ap pos (ground arith)
eqb_ℤ_eq (negsuc m) (negsuc n) h = ap negsuc (ground arith)
eqb_ℤ_eq (pos m) (negsuc n) h = absurd (cc)
eqb_ℤ_eq (negsuc m) (pos n) h = absurd (cc)

abbrev is_payload : ChallengePayload → Bool
is_payload p =
    p.jti == "j"
    && p.user_id == "u1"
    && p.configuration_id == "k1"
    && eqb_ℤ p.version (pos 2)
    && eqb_ℤ p.issued_at (pos 0)
    && eqb_ℤ p.expires_at (pos 300)

abbrev pub challenges : Challenge.Packages
challenges = record {
  hmac_sha256 = λ key text. String.◌++◌ key text;
  base64_encode = escape;
  base64_decode_strict = unescape;
  marshal = λ p. if is_payload p then some "p" else none;
  unmarshal = λ s. some payload;
}

marshals :
    (p : ChallengePayload) (json : String)
    → challenges.marshal p ≡ some json
    → challenges.unmarshal json ≡ some p
marshals p json h = ground (
  arith,
  eq_iff p.jti "j",
  eq_iff p.user_id "u1",
  eq_iff p.configuration_id "k1",
  eqb_ℤ_eq p.version (pos 2),
  eqb_ℤ_eq p.issued_at (pos 0),
  eqb_ℤ_eq p.expires_at (pos 300),
)

challenges-IsFaithful : RoundTrip.IsFaithful challenges
challenges-IsFaithful = record {
  decodes = unescape-escape;
  no_dot = no_dot-escape;
  nonempty = nonempty-escape;
  marshals = marshals;
}

-- The beginning of 1970.
abbrev start : ℕ
start = 62135596800 * second

token_issued : issue_login_challenge challenges "k" "u1" "k1" start (some "j") ≡ some "p.kp"
unfolding issue_login_challenge escape
token_issued = refl

verify-issue_example :
    verify_login_challenge_at challenges "k" "p.kp" (62135596810 * second)
    ≡ some (record {
      jti = "j";
      user_id = "u1";
      configuration_id = "k1";
      issued_at = start;
      expires_at = 62135597100 * second;
    })
unfolding escape
verify-issue_example =
    verify-issue challenges challenges-IsFaithful "k" "u1" "k1" "j" "p.kp" start
      (62135596810 * second) (false→ne "j" "" refl) token_issued

abbrev pub cookies : Cookie.Packages
cookies = record {
  hash_password = λ s. some s;
  compare_password = λ hash password. hash == password;
  hmac_sha256 = λ key text. String.◌++◌ key text;
  base64_encode = escape;
  base64_decode = unescape;
  format_time = tally;
  parse_time = λ s. some (count_letters s);
}

cookies-IsFaithful : Cookie.IsFaithful cookies
cookies-IsFaithful = record {
  decodes = unescape-escape;
  parses = λ t near. ap some (count-tally t);
  no_bar = no_bar-escape;
  no_bar_in_time = no_bar-tally;
}

abbrev pub manager : SessionManager
manager = record { secret = "s"; ttl = 5 }

get_session-set_cookie_example :
    get_session cookies manager 7 (some (set_cookie cookies manager 2 "u1").0) ≡ Cookie.user "u1"
get_session-set_cookie_example =
    get_session-set_cookie cookies manager "u1" 2 7 cookies-IsFaithful refl (omega arith)
