-- ===== src/Tests/Codes.antt =====
-- totp.go, `validateNoDuplicateJSONFields`, the locks of `managementAuthLocks` and the expiry of tokens.
use vibe_terminal.Base.{
  ℕ, ◌+◌, ◌*◌, ◌/◌, ◌≤◌, ◌<◌, ◌≡◌, ◌↔◌, refl, pos, String, some, [], ◌∷◌, ◌==◌, arith,
  if◌then◌else◌,
}
use vibe_terminal.Auth.{unix}
use vibe_terminal.Auth.Totp
use vibe_terminal.Auth.Totp.{codes, hotp_code, first_match, match_totp}
use vibe_terminal.Auth.Totp.Window.{match_totp_sound}
use vibe_terminal.Json.{validate_no_duplicate_json_fields}
use vibe_terminal.Json.Tree.{
  Json, plain, object, array, member, no_members, element, no_elements, tokens, no_duplicates,
}
use vibe_terminal.Json.Duplicates.{validate-tokens}
use vibe_terminal.Http.Locks.{management_lock_indexes, Waiting, WaitsFor, no_deadlock}
use vibe_terminal.Http.Tokens.{add_hours}
use vibe_terminal.Http.Expiry.{add_hours_lem}

abbrev totp : Totp.Packages
totp = record {
  trim_space = λ s. s;
  to_upper = λ s. s;
  base32_decode = λ s. some [];
  hmac_sha1 = λ key message. [];
}

-- A minute after the beginning of 1970.
abbrev at : ℕ
at = 62135596860 * 1000000000

after_epoch : unix at ≡ pos 60
unfolding unix
after_epoch = refl

matched : match_totp totp "s" "000000" at ≡ some (some 1)
unfolding match_totp hotp_code first_match unix
matched = refl

match_totp_sound_example :
    (hotp_code totp [] 1 ≡ codes "000000") × (1 ≤ 60 / 30 + 1) × (60 / 30 ≤ 1 + 1)
match_totp_sound_example = match_totp_sound totp "s" "000000" at 60 [] refl after_epoch 1 matched

-- An array of an object that has a name twice.
abbrev twice : Json
twice = array (element (object (member "a" plain (member "a" plain no_members))) no_elements)

validate-tokens_example : validate_no_duplicate_json_fields (tokens twice []) ≡ no_duplicates twice
validate-tokens_example = validate-tokens twice

abbrev hash : String → ℕ
hash s = if s == "x" then 1 else if s == "y" then 258 else 3

first_split : 1 ∷ 2 ∷ [] ≡ management_lock_indexes hash ("x" ∷ "y" ∷ [])
unfolding management_lock_indexes
first_split = refl

second_split : 1 ∷ 3 ∷ [] ≡ management_lock_indexes hash ("z" ∷ "x" ∷ [])
unfolding management_lock_indexes
second_split = refl

abbrev waiting_x : Waiting hash
waiting_x = record {
  keys = "x" ∷ "y" ∷ [];
  taken = [];
  next = 1;
  rest = 2 ∷ [];
  split = first_split;
}

abbrev waiting_z : Waiting hash
waiting_z = record {
  keys = "z" ∷ "x" ∷ [];
  taken = 1 ∷ [];
  next = 3;
  rest = [];
  split = second_split;
}

no_deadlock_example : ¬ WaitsFor waiting_z waiting_x
no_deadlock_example = no_deadlock waiting_x (waiting_z ∷ []) (refl, tt)

add_hours_example :
    (add_hours 10 2562048 < 10 ↔ 2562048 ≤ 2562048)
    × (2562048 ≤ 2562047 → add_hours 10 2562048 ≡ 10 + 2562048 * 3600000000000)
add_hours_example = add_hours_lem 10 2562048 (omega arith) (omega arith)
