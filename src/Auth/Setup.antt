-- ===== src/Auth/Setup.antt =====
-- server/internal/auth: a new secret, its URI, and `GenerateSetup` of challenge.go.
use Prim.Native.String.{◌++◌}
use vibe_terminal.Base.{String, Option, none, some, List, [], ◌∷◌}
use vibe_terminal.Auth.Secrets.{Packages, TwoFactorManager, encrypt}

-- `url.QueryEscape`, `strings.ReplaceAll` of a plus by `%20`, and `Encode` of `url.Values`.
pub record UrlPackages : Type 0 where
  pub query_escape : String → String
  pub replace_plus : String → String
  pub encode_query : List (String × String) → String

-- `GenerateTOTPSecret`, on what `rand.Read` gives
unfoldable pub generate_totp_secret : Packages → Option String → Option String
generate_totp_secret lib none = none
generate_totp_secret lib (some key) = some (lib.base32_encode key)

unfoldable pub escape_label_part : UrlPackages → String → String
escape_label_part url value = url.replace_plus (url.query_escape value)

unfoldable pub totp_provisioning_uri : UrlPackages → String → String → String → String
unfolding escape_label_part
totp_provisioning_uri url issuer account secret =
    let label = escape_label_part url issuer ++ ":" ++ escape_label_part url account in
    let query =
      ("secret", secret)
      ∷ ("issuer", issuer)
      ∷ ("algorithm", "SHA1")
      ∷ ("digits", "6")
      ∷ ("period", "30")
      ∷ [] in
    "otpauth://totp/" ++ label ++ "?" ++ url.encode_query query

pub record Setup : Type 0 where
  pub secret : String
  pub uri : String
  pub encrypted : String

unfoldable pub encrypted_setup : String → String → Option String → Option Setup
encrypted_setup secret uri none = none
encrypted_setup secret uri (some encrypted) =
    some (record { secret = secret; uri = uri; encrypted = encrypted })

unfoldable pub setup_of :
    Packages
    → UrlPackages
    → TwoFactorManager
    → String
    → String
    → Option String
    → Option String
    → Option Setup
unfolding encrypted_setup totp_provisioning_uri
setup_of lib url m issuer account drawn none = none
setup_of lib url m issuer account drawn (some secret) =
    encrypted_setup secret (totp_provisioning_uri url issuer account secret)
      (encrypt lib m.cipher drawn secret)

-- `GenerateSetup`
unfoldable pub generate_setup :
    Packages
    → UrlPackages
    → TwoFactorManager
    → String
    → String
    → Option String
    → Option String
    → Option Setup
unfolding setup_of generate_totp_secret
generate_setup lib url m issuer account key drawn =
    setup_of lib url m issuer account drawn (generate_totp_secret lib key)
