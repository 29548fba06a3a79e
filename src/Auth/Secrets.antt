-- ===== src/Auth/Secrets.antt =====
-- server/internal/auth/two_factor_crypto.go, and the methods of `TwoFactorManager` that use it: the
-- encryption of secrets, and recovery codes.
use Prim.Native.Char.{code}
use Prim.Native.String.{len, slice, ◌++◌}
use text.Mathlib.Text.{starts_with}
use text.Mathlib.TextPositions.{
  starts_with-append, slice-append_left, slice-append_right, len-append,
}
use vibe_terminal.Base.{
  ℕ, String, ◌≡◌, ap, subst, ◌∙◌, not, Option, none, some, List, [], ◌∷◌, map, eqb, ltb,
  if◌then◌else◌, arith,
}

-- The packages: `hkdf` with `sha256`, `aes` with `cipher.NewGCM`, whose `Seal` and `Open` take the
-- nonce and the text, `base64.RawURLEncoding`, `base32` with no padding, `hmac` with `sha256`, and
-- `strings.ToUpper`. A byte slice is a text.
pub record Packages : Type 0 where
  pub hkdf : String → String → Option String
  pub nonce_size : ℕ
  pub seal : String → String → String → String
  pub open_sealed : String → String → String → Option String
  pub base64_encode : String → String
  pub base64_decode : String → Option String
  pub base32_encode : String → String
  pub hmac_sha256 : String → String → String
  pub to_upper : String → String

unfoldable pub derive_purpose_key : Packages → String → String → Option String
derive_purpose_key lib root purpose = lib.hkdf root ("vibe-terminal/" ++ purpose ++ "/v1")

-- `TwoFactorManager`; its cipher is the encryption key.
pub record TwoFactorManager : Type 0 where
  pub cipher : String
  pub recovery_key : String
  pub challenge_key : String

unfoldable pub new_two_factor_manager : Packages → String → Option TwoFactorManager
unfolding derive_purpose_key
new_two_factor_manager lib root = elim (derive_purpose_key lib root "totp-encryption") [
  | none ↦ none
  | some encryption_key ↦ elim (derive_purpose_key lib root "recovery-codes") [
    | none ↦ none
    | some recovery_key ↦ elim (derive_purpose_key lib root "login-challenge") [
      | none ↦ none
      | some challenge_key ↦ some (record {
        cipher = encryption_key;
        recovery_key = recovery_key;
        challenge_key = challenge_key;
      })
    ]
  ]
]

abbrev pub encrypted_secret_version : String
encrypted_secret_version = "v1."

-- `Encrypt`: `nonce` is what `rand.Read` gives, or none for its error.
unfoldable pub encrypt : Packages → String → Option String → String → Option String
encrypt lib key none secret = none
encrypt lib key (some nonce) secret =
    some (encrypted_secret_version ++ lib.base64_encode (nonce ++ lib.seal key nonce secret))

unfoldable pub decrypt_payload : Packages → String → Option String → Option String
decrypt_payload lib key none = none
decrypt_payload lib key (some payload) =
    if ltb (len payload) lib.nonce_size
    then none
    else lib.open_sealed key (slice payload 0 lib.nonce_size)
        (slice payload lib.nonce_size (len payload))

-- `Decrypt`
unfoldable pub decrypt : Packages → String → String → Option String
unfolding decrypt_payload
decrypt lib key value =
    if not (starts_with value encrypted_secret_version)
    then none
    else decrypt_payload lib key
        (lib.base64_decode (slice value (len encrypted_secret_version) (len value)))

-- `strings.ReplaceAll`, of a character by nothing
unfoldable pub remove_char : ℕ → String → String
remove_char c String.[] = ""
remove_char c (String.◌∷◌ d s) =
    if eqb (code d) c then remove_char c s else String.◌∷◌ d (remove_char c s)

-- `normalizeRecoveryCode`: a dash is 45, a space 32.
unfoldable pub normalize_recovery_code : Packages → String → String
unfolding remove_char
normalize_recovery_code lib code = remove_char 32 (remove_char 45 (lib.to_upper code))

-- `recoveryCodeHash`; `nul` is the text of the byte 0.
unfoldable pub recovery_code_hash : Packages → String → String → String → String
unfolding normalize_recovery_code
recovery_code_hash lib key user_id code =
    lib.base64_encode (lib.hmac_sha256 key (user_id ++ "\0" ++ normalize_recovery_code lib code))

-- One round of `generateRecoveryCodes`.
unfoldable pub format_code : String → String
format_code encoded =
    slice encoded 0 4
    ++ "-"
    ++ slice encoded 4 8
    ++ "-"
    ++ slice encoded 8 12
    ++ "-"
    ++ slice encoded 12 16

-- `generateRecoveryCodes`, on what the calls of `rand.Read` give.
unfoldable pub generate_recovery_codes : Packages → List (Option String) → Option (List String)
unfolding format_code
generate_recovery_codes lib [] = some []
generate_recovery_codes lib (none ∷ reads) = none
generate_recovery_codes lib (some raw ∷ reads) = elim (generate_recovery_codes lib reads) [
  | none ↦ none
  | some codes ↦ some (format_code (lib.base32_encode raw) ∷ codes)
]

-- `GenerateRecoveryCodes`: the codes and their hashes.
unfoldable pub generate_hashed_codes :
    Packages → String → String → List (Option String) → Option (List String × List String)
unfolding generate_recovery_codes recovery_code_hash
generate_hashed_codes lib key user_id reads = elim (generate_recovery_codes lib reads) [
  | none ↦ none
  | some codes ↦ some (codes, map (recovery_code_hash lib key user_id) codes)
]

-- What is relied on of the packages to read a secret back.
pub record IsFaithful (lib : Packages) : Type 0 where
  pub decodes : (s : String) → lib.base64_decode (lib.base64_encode s) ≡ some s
  pub opens :
      (key nonce secret : String)
      → lib.open_sealed key nonce (lib.seal key nonce secret) ≡ some secret

-- What follows a prefix.
slice_rest : (s t : String) → slice (s ++ t) (len s) (len (s ++ t)) ≡ t
slice_rest s t = ap (slice (s ++ t) (len s)) (len-append s t) ∙ slice-append_right s t

decrypt_payload-seal :
    (lib : Packages) (key nonce secret : String)
    → IsFaithful lib
    → len nonce ≡ lib.nonce_size
    → decrypt_payload lib key (some (nonce ++ lib.seal key nonce secret)) ≡ some secret
unfolding decrypt_payload
decrypt_payload-seal lib key nonce secret faithful size =
    let sealed = lib.seal key nonce secret in
    ground (
      arith,
      size,
      len-append nonce sealed,
      slice-append_left nonce sealed,
      slice_rest nonce sealed,
      faithful.opens key nonce secret,
    )

-- A secret that was encrypted under a key with a nonce of the right size is decrypted to itself.
pub decrypt-encrypt :
    (lib : Packages) (key nonce secret stored : String)
    → IsFaithful lib
    → len nonce ≡ lib.nonce_size
    → encrypt lib key (some nonce) secret ≡ some stored
    → decrypt lib key stored ≡ some secret
unfolding encrypt decrypt
decrypt-encrypt lib key nonce secret stored faithful size e =
    let payload = nonce ++ lib.seal key nonce secret in
    let body = lib.base64_encode payload in
    let made : encrypted_secret_version ++ body ≡ stored = cc in
    subst (λ v. decrypt lib key v ≡ some secret) made
      (rw (
        starts_with-append encrypted_secret_version body,
        slice_rest encrypted_secret_version body,
        faithful.decodes payload,
        decrypt_payload-seal lib key nonce secret faithful size,
      ))
