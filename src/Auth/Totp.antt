-- ===== src/Auth/Totp.antt =====
-- server/internal/auth/totp.go: time-based codes.
pub mod Window
use Prim.Native.Char.{Char, code}
use Prim.Native.String
use Prim.Native.String.{len}
use vibe_terminal.Base.{
  ℕ, zero, suc, ◌+◌, ◌-◌, ◌*◌, ◌/◌, ◌%◌, ◌^◌, ℤ, pos, negsuc, String, Bool, true, false, not, ◌||◌,
  ◌&&◌, Option, none, some, List, [], ◌∷◌, eqb, leb, ltb, if◌then◌else◌,
}
use vibe_terminal.Auth.{unix}

abbrev pub totp_period_seconds : ℕ
totp_period_seconds = 30

-- The packages: `strings`, `base32` with no padding, and `hmac` with `sha1`, whose key, message and
-- digest are bytes.
pub record Packages : Type 0 where
  pub trim_space : String → String
  pub to_upper : String → String
  pub base32_decode : String → Option (List ℕ)
  pub hmac_sha1 : List ℕ → List ℕ → List ℕ

-- `[]byte(code)`, for a text in ASCII
abbrev pub codes : String → List ℕ
codes String.[] = []
codes (String.◌∷◌ c s) = code c ∷ codes s

abbrev pub all_digits : String → Bool
all_digits String.[] = true
all_digits (String.◌∷◌ c s) = (leb 48 (code c) && leb (code c) 57) && all_digits s

abbrev pub same_bytes : List ℕ → List ℕ → Bool
same_bytes [] [] = true
same_bytes (b ∷ bs) (c ∷ cs) = eqb b c && same_bytes bs cs
same_bytes _ _ = false

-- `binary.BigEndian.PutUint64`
abbrev pub big_endian : ℕ → List ℕ
big_endian n =
    (n / 2 ^ 56 % 256)
    ∷ (n / 2 ^ 48 % 256)
    ∷ (n / 2 ^ 40 % 256)
    ∷ (n / 2 ^ 32 % 256)
    ∷ (n / 2 ^ 24 % 256)
    ∷ (n / 2 ^ 16 % 256)
    ∷ (n / 2 ^ 8 % 256)
    ∷ (n % 256)
    ∷ []

-- A byte of the digest; an index that is out of range is a panic, which a digest of 20 bytes rules
-- out.
abbrev pub get_or : List ℕ → ℕ → ℕ → ℕ
get_or [] i d = d
get_or (b ∷ bs) zero d = b
get_or (b ∷ bs) (suc i) d = get_or bs i d

abbrev pub last_or : List ℕ → ℕ → ℕ
last_or [] d = d
last_or (b ∷ bs) d = last_or bs b

-- `%06d`, for a number below a million
unfoldable pub six_digits : ℕ → List ℕ
six_digits n =
    (48 + n / 100000 % 10)
    ∷ (48 + n / 10000 % 10)
    ∷ (48 + n / 1000 % 10)
    ∷ (48 + n / 100 % 10)
    ∷ (48 + n / 10 % 10)
    ∷ (48 + n % 10)
    ∷ []

unfoldable pub truncate : List ℕ → ℕ
truncate digest =
    let offset = last_or digest 0 % 16 in
    (get_or digest offset 0 * 2 ^ 24
      + get_or digest (offset + 1) 0 * 2 ^ 16
      + get_or digest (offset + 2) 0 * 2 ^ 8
      + get_or digest (offset + 3) 0)
    % 2 ^ 31

unfoldable pub hotp_code : Packages → List ℕ → ℕ → List ℕ
unfolding six_digits truncate
hotp_code lib key counter = six_digits (truncate (lib.hmac_sha1 key (big_endian counter)) % 1000000)

-- The counters that are tried and are not negative; Go's `/` rounds towards zero.
unfoldable pub counters : ℤ → List ℕ
counters (pos n) =
    let current = n / totp_period_seconds in
    if eqb current 0 then 0 ∷ 1 ∷ [] else (current - 1) ∷ current ∷ (current + 1) ∷ []
counters (negsuc n) =
    let current = (n + 1) / totp_period_seconds in
    if eqb current 0 then 0 ∷ 1 ∷ [] else if eqb current 1 then 0 ∷ [] else []

-- The loop over the counters.
unfoldable pub first_match : Packages → List ℕ → List ℕ → List ℕ → Option ℕ
first_match lib key bytes [] = none
first_match lib key bytes (counter ∷ more) =
    if same_bytes (hotp_code lib key counter) bytes
    then some counter
    else first_match lib key bytes more

unfoldable pub match_with : Packages → String → ℕ → Option (List ℕ) → Option (Option ℕ)
unfolding counters
match_with lib code now none = none
match_with lib code now (some key) = some (first_match lib key (codes code) (counters (unix now)))

-- `MatchTOTP`: none is an error, and `some none` a code that does not match.
unfoldable pub match_totp : Packages → String → String → ℕ → Option (Option ℕ)
unfolding match_with
match_totp lib secret code now =
    if not (eqb (len code) 6)
    then some none
    else if not (all_digits code)
    then some none
    else match_with lib code now (lib.base32_decode (lib.to_upper (lib.trim_space secret)))
