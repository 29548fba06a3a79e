-- ===== src/Auth/Challenge.antt =====
-- server/internal/auth/challenge.go: the tokens of login challenges.
pub mod RoundTrip
use Prim.Native.String.{◌++◌}
use vibe_terminal.Base.{
  ℕ, ◌+◌, ◌*◌, ℤ, pos, negsuc, String, Bool, true, false, not, ◌||◌, ◌&&◌, Option, none, some, List,
  [], ◌∷◌, ◌==◌, eqb, ltb, if◌then◌else◌,
}
use vibe_terminal.Text.{split}
use vibe_terminal.Auth.{minute, unix, from_unix}

-- `auth.LoginChallenge`
pub record Claims : Type 0 where
  pub jti : String
  pub user_id : String
  pub configuration_id : String
  pub issued_at : ℕ
  pub expires_at : ℕ

pub record ChallengePayload : Type 0 where
  pub version : ℤ
  pub jti : String
  pub user_id : String
  pub configuration_id : String
  pub issued_at : ℤ
  pub expires_at : ℤ

-- `loginChallengeVersion`
abbrev pub login_challenge_version : ℕ
login_challenge_version = 2

abbrev pub is_current : ℤ → Bool
is_current (pos n) = eqb n login_challenge_version
is_current (negsuc n) = false

-- The packages: `hmac` with `sha256`, `base64.RawURLEncoding`, strict or not, and `json`.
pub record Packages : Type 0 where
  pub hmac_sha256 : String → String → String
  pub base64_encode : String → String
  pub base64_decode_strict : String → Option String
  pub marshal : ChallengePayload → Option String
  pub unmarshal : String → Option ChallengePayload

-- `.`
abbrev pub dot : ℕ
dot = 46

unfoldable pub login_challenge_signature : Packages → String → String → String
login_challenge_signature lib challenge_key encoded_payload =
    lib.hmac_sha256 challenge_key encoded_payload

-- `IssueLoginChallenge`: `jti_bytes` is what `rand.Read` gives, or none for its error.
unfoldable pub sign_payload : Packages → String → Option String → Option String
unfolding login_challenge_signature
sign_payload lib challenge_key none = none
sign_payload lib challenge_key (some payload_json) =
    let encoded_payload = lib.base64_encode payload_json in
    some (
      encoded_payload
      ++ "."
      ++ lib.base64_encode (login_challenge_signature lib challenge_key encoded_payload))

abbrev pub new_payload : Packages → String → String → ℕ → String → ChallengePayload
new_payload lib user_id configuration_id now jti_bytes = record {
  version = pos login_challenge_version;
  jti = lib.base64_encode jti_bytes;
  user_id = user_id;
  configuration_id = configuration_id;
  issued_at = unix now;
  expires_at = unix (now + 5 * minute);
}

unfoldable pub issue_login_challenge :
    Packages → String → String → String → ℕ → Option String → Option String
unfolding sign_payload unix
issue_login_challenge lib challenge_key user_id configuration_id now none = none
issue_login_challenge lib challenge_key user_id configuration_id now (some jti_bytes) =
    if user_id == "" || configuration_id == ""
    then none
    else sign_payload lib challenge_key
        (lib.marshal (new_payload lib user_id configuration_id now jti_bytes))

-- The tests of `VerifyLoginChallengeAt` on the payload.
unfoldable pub check_payload : ℕ → Option ChallengePayload → Option Claims
unfolding from_unix
check_payload now none = none
check_payload now (some payload) =
    let issued_at = from_unix payload.issued_at in
    let expires_at = from_unix payload.expires_at in
    if not (is_current payload.version)
    then none
    else if payload.jti == "" || payload.user_id == "" || payload.configuration_id == ""
    then none
    else if ltb expires_at now
    then none
    else if ltb (now + minute) issued_at
    then none
    else some (record {
      jti = payload.jti;
      user_id = payload.user_id;
      configuration_id = payload.configuration_id;
      issued_at = issued_at;
      expires_at = expires_at;
    })

unfoldable pub decode_payload : Packages → ℕ → Option String → Option Claims
unfolding check_payload
decode_payload lib now none = none
decode_payload lib now (some payload_json) = check_payload now (lib.unmarshal payload_json)

-- The test of the signature, on what it decodes to.
unfoldable pub check_signature : Packages → String → String → ℕ → Option String → Option Claims
unfolding login_challenge_signature decode_payload
check_signature lib challenge_key encoded_payload now none = none
check_signature lib challenge_key encoded_payload now (some signature) =
    if not (signature == login_challenge_signature lib challenge_key encoded_payload)
    then none
    else decode_payload lib now (lib.base64_decode_strict encoded_payload)

unfoldable pub verify_parts : Packages → String → ℕ → List String → Option Claims
unfolding check_signature
verify_parts lib challenge_key now (encoded_payload ∷ signature ∷ []) =
    check_signature lib challenge_key encoded_payload now (lib.base64_decode_strict signature)
verify_parts lib challenge_key now _ = none

unfoldable pub verify_login_challenge_at : Packages → String → String → ℕ → Option Claims
unfolding verify_parts
verify_login_challenge_at lib challenge_key token now =
    verify_parts lib challenge_key now (split dot token)
