-- ===== src/Json/Tree.antt =====
-- The values of JSON, and the tokens of their texts.
use vibe_terminal.Base.{String, Bool, true, not, ◌&&◌, List, [], ◌∷◌}
use vibe_terminal.Json.{
  Token, open_object, close_object, open_array, close_array, scalar, string, has_key,
}

mutual
  pub data Json : Type 0 where
    text : String → Json
    plain : Json
    object : Members → Json
    array : Elements → Json

  pub data Members : Type 0 where
    no_members : Members
    member : String → Json → Members → Members

  pub data Elements : Type 0 where
    no_elements : Elements
    element : Json → Elements → Elements

-- The tokens of a value, in front of those that follow.
unfoldable mutual
  pub tokens : Json → List Token → List Token
  tokens (text s) rest = string s ∷ rest
  tokens plain rest = scalar ∷ rest
  tokens (object m) rest = open_object ∷ member_tokens m (close_object ∷ rest)
  tokens (array e) rest = open_array ∷ element_tokens e (close_array ∷ rest)

  pub member_tokens : Members → List Token → List Token
  member_tokens no_members rest = rest
  member_tokens (member k v m) rest = string k ∷ tokens v (member_tokens m rest)

  pub element_tokens : Elements → List Token → List Token
  element_tokens no_elements rest = rest
  element_tokens (element v e) rest = tokens v (element_tokens e rest)

-- The names of an object's fields.
abbrev pub keys : Members → List String
keys no_members = []
keys (member k v m) = k ∷ keys m

abbrev pub are_distinct : List String → Bool
are_distinct [] = true
are_distinct (k ∷ ks) = not (has_key k ks) && are_distinct ks

-- No object of the value, at whatever depth, has two fields of one name.
unfoldable mutual
  pub no_duplicates : Json → Bool
  no_duplicates (text s) = true
  no_duplicates plain = true
  no_duplicates (object m) = are_distinct (keys m) && all_members m
  no_duplicates (array e) = all_elements e

  pub all_members : Members → Bool
  all_members no_members = true
  all_members (member k v m) = no_duplicates v && all_members m

  pub all_elements : Elements → Bool
  all_elements no_elements = true
  all_elements (element v e) = no_duplicates v && all_elements e
