-- ===== src/Json/Duplicates.antt =====
-- router.go, `validateNoDuplicateJSONFields`, on the tokens of a value.
use vibe_terminal.Base.{
  ℕ, zero, suc, ◌*◌, ◌≤◌, ◌<◌, String, ◌≡◌, refl, ◌∙◌, ap, Bool, true, false, not, ◌&&◌, Option,
  none, some, List, [], ◌∷◌, eq_iff, length, if◌then◌else◌, arith,
}
use vibe_terminal.Json.{
  Token, close_object, close_array, more, has_key, scan_json_value, scan_object, scan_array, is_end,
  validate_no_duplicate_json_fields,
}
use vibe_terminal.Json.Tree.{
  Json, text, plain, object, array, Members, no_members, member, Elements, no_elements, element,
  tokens, member_tokens, element_tokens, keys, are_distinct, no_duplicates, all_members,
  all_elements,
}

-- No name of the first list is in the second.
abbrev apart : List String → List String → Bool
apart seen [] = true
apart seen (k ∷ ks) = not (has_key k seen) && apart seen ks

apart-cons :
    (k : String) (seen ks : List String)
    → apart (k ∷ seen) ks ≡ (not (has_key k ks) && apart seen ks)
apart-cons k seen [] = refl
apart-cons k seen (j ∷ ks) = ground (arith, apart-cons k seen ks, eq_iff k j, eq_iff j k)

apart-nil : (ks : List String) → apart [] ks ≡ true
apart-nil [] = refl
apart-nil (k ∷ ks) = apart-nil ks

mutual
  unfolding tokens member_tokens element_tokens

  tokens_more : (v : Json) (rest : List Token) → more (tokens v rest) ≡ true
  tokens_more (text s) rest = refl
  tokens_more plain rest = refl
  tokens_more (object m) rest = refl
  tokens_more (array e) rest = refl

  length-tokens : (v : Json) (rest : List Token) → length rest < length (tokens v rest)
  length-tokens (text s) rest = omega arith
  length-tokens plain rest = omega arith
  length-tokens (object m) rest = omega (arith, length-member_tokens m (close_object ∷ rest))
  length-tokens (array e) rest = omega (arith, length-element_tokens e (close_array ∷ rest))

  length-member_tokens :
      (m : Members) (rest : List Token) → length rest ≤ length (member_tokens m rest)
  length-member_tokens no_members rest = omega arith
  length-member_tokens (member k v m) rest =
      omega (arith, length-tokens v (member_tokens m rest), length-member_tokens m rest)

  length-element_tokens :
      (e : Elements) (rest : List Token) → length rest ≤ length (element_tokens e rest)
  length-element_tokens no_elements rest = omega arith
  length-element_tokens (element v e) rest =
      omega (arith, length-tokens v (element_tokens e rest), length-element_tokens e rest)

-- A round of the loop over an array.
scan_array_round :
    (fuel : ℕ) (ts after : List Token) (ok : Bool) (r : Option (List Token))
    → more ts ≡ true
    → scan_json_value fuel ts ≡ (if ok then some after else none)
    → scan_array fuel after ≡ r
    → scan_array (suc fuel) ts ≡ (if ok then r else none)
unfolding scan_json_value scan_object scan_array
scan_array_round fuel ts after true r m e f = rw (m, e) f
scan_array_round fuel ts after false r m e f = rw (m, e)

if_both :
    {A : Type 0} (a b : Bool) (r : Option A)
    → (if a then if b then r else none else none) ≡ (if a && b then r else none)
if_both true b r = refl
if_both false b r = refl

mutual
  unfolding tokens member_tokens element_tokens no_duplicates all_members all_elements
      scan_json_value scan_object scan_array

  scan-tokens :
      (v : Json) (fuel : ℕ) (rest : List Token)
      → 2 * length (tokens v rest) ≤ fuel
      → scan_json_value fuel (tokens v rest) ≡ (if no_duplicates v then some rest else none)
  scan-tokens v zero rest h = let longer = length-tokens v rest in absurd (omega arith)
  scan-tokens (text s) (suc fuel) rest h = refl
  scan-tokens plain (suc fuel) rest h = refl
  scan-tokens (object m) (suc fuel) rest h =
      ground (arith, scan-member_tokens m fuel [] rest, apart-nil (keys m))
  scan-tokens (array e) (suc fuel) rest h = scan-element_tokens e fuel rest (omega arith)

  scan-member_tokens :
      (m : Members) (fuel : ℕ) (seen : List String) (rest : List Token)
      → 2 * length (member_tokens m (close_object ∷ rest)) < fuel
      → scan_object fuel seen (member_tokens m (close_object ∷ rest)) ≡ (
          if apart seen (keys m) && (are_distinct (keys m) && all_members m)
          then some rest
          else none)
  scan-member_tokens m zero seen rest h = absurd (omega arith)
  scan-member_tokens no_members (suc fuel) seen rest h = refl
  scan-member_tokens (member k v m) (suc fuel) seen rest h =
      let after = member_tokens m (close_object ∷ rest) in
      let shorter = length-tokens v after in
      ground (
        arith,
        scan-tokens v fuel after,
        scan-member_tokens m fuel (k ∷ seen) rest,
        apart-cons k seen (keys m),
      )

  scan-element_tokens :
      (e : Elements) (fuel : ℕ) (rest : List Token)
      → 2 * length (element_tokens e (close_array ∷ rest)) < fuel
      → scan_array fuel (element_tokens e (close_array ∷ rest))
        ≡ (if all_elements e then some rest else none)
  scan-element_tokens e zero rest h = absurd (omega arith)
  scan-element_tokens no_elements (suc fuel) rest h = refl
  scan-element_tokens (element v e) (suc fuel) rest h =
      let after = element_tokens e (close_array ∷ rest) in
      let shorter = length-tokens v after in
      scan_array_round fuel (tokens v after) after (no_duplicates v)
        (if all_elements e then some rest else none) (tokens_more v after)
        (scan-tokens v fuel after (omega arith)) (scan-element_tokens e fuel rest (omega arith))
      ∙ if_both (no_duplicates v) (all_elements e) (some rest)

-- The text of a value, with nothing after it, is accepted exactly when no object in it, at whatever
-- depth, has two fields of one name.
pub validate-tokens : (v : Json) → validate_no_duplicate_json_fields (tokens v []) ≡ no_duplicates v
unfolding validate_no_duplicate_json_fields
validate-tokens v =
    ap is_end (scan-tokens v (2 * length (tokens v [])) [] (omega arith)) ∙ ground arith

-- Anything after the value is refused, whatever the value is.
pub validate-tokens_rest :
    (v : Json) (t : Token) (rest : List Token)
    → validate_no_duplicate_json_fields (tokens v (t ∷ rest)) ≡ false
unfolding validate_no_duplicate_json_fields
validate-tokens_rest v t rest =
    ap is_end (scan-tokens v (2 * length (tokens v (t ∷ rest))) (t ∷ rest) (omega arith))
    ∙ ground arith
