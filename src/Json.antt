-- ===== src/Json.antt =====
-- server/internal/httpapi/router.go: `validateNoDuplicateJSONFields`, on the tokens that the decoder of
-- `encoding/json` gives. At the end of the text its `Token` gives `io.EOF`.
pub mod Tree
pub mod Duplicates
use vibe_terminal.Base.{
  ℕ, zero, suc, ◌+◌, ◌*◌, String, Bool, true, false, not, Option, none, some, List, [], ◌∷◌, ◌==◌,
  any, length, if◌then◌else◌,
}

-- `bad` is a syntax error, and `scalar` a number, a Boolean or null.
pub data Token : Type 0 where
  open_object close_object open_array close_array scalar bad : Token
  string : String → Token

-- `decoder.More`: another element follows in the array or object.
abbrev pub more : List Token → Bool
more [] = false
more (close_object ∷ tokens) = false
more (close_array ∷ tokens) = false
more (_ ∷ tokens) = true

-- `decoder.Token` where only its error is read.
abbrev pub skip_token : List Token → Option (List Token)
skip_token [] = none
skip_token (bad ∷ tokens) = none
skip_token (_ ∷ tokens) = some tokens

abbrev pub has_key : String → List String → Bool
has_key k = any (λ j. j == k)

-- What follows a field name: none if it is not a new text.
abbrev pub field_name : List String → List Token → Option (String × List Token)
field_name seen (string k ∷ tokens) = if has_key k seen then none else some (k, tokens)
field_name seen _ = none

-- `if err != nil { return err }`
abbrev pub and_then : {A : Type 0} → Option A → (A → Option (List Token)) → Option (List Token)
and_then none f = none
and_then (some a) f = f a

-- A round of a loop while there is more, and the closing delimiter after it.
abbrev pub while_more : Bool → List Token → Option (List Token) → Option (List Token)
while_more true tokens round = round
while_more false tokens round = skip_token tokens

-- `scanJSONValue` and its two loops, with fuel: of two calls in a row, one takes a
-- token. The result is what
-- the decoder has left; none is an error.
unfoldable mutual
  scan_json_value : ℕ → List Token → Option (List Token)
  scan_json_value zero tokens = none
  scan_json_value (suc fuel) (string s ∷ tokens) = some tokens
  scan_json_value (suc fuel) (scalar ∷ tokens) = some tokens
  scan_json_value (suc fuel) (open_object ∷ tokens) = scan_object fuel [] tokens
  scan_json_value (suc fuel) (open_array ∷ tokens) = scan_array fuel tokens
  scan_json_value (suc fuel) _ = none

  scan_object : ℕ → List String → List Token → Option (List Token)
  scan_object zero seen tokens = none
  scan_object (suc fuel) seen tokens = while_more (more tokens) tokens (
      and_then (field_name seen tokens) (λ (k, after_key).
        and_then (scan_json_value fuel after_key)
          (λ after_value. scan_object fuel (k ∷ seen) after_value)))

  scan_array : ℕ → List Token → Option (List Token)
  scan_array zero tokens = none
  scan_array (suc fuel) tokens =
      while_more (more tokens) tokens
        (and_then (scan_json_value fuel tokens) (λ after_value. scan_array fuel after_value))

-- After the value the text has to end.
abbrev pub is_end : Option (List Token) → Bool
is_end (some []) = true
is_end _ = false

-- `validateNoDuplicateJSONFields`: whether it returns no error
unfoldable pub validate_no_duplicate_json_fields : List Token → Bool
unfolding scan_json_value scan_object scan_array
validate_no_duplicate_json_fields tokens = is_end (scan_json_value (2 * length tokens) tokens)
