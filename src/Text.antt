-- ===== src/Text.antt =====
-- What the program calls of the package `strings`, on texts as lists of characters.
use Prim.Native.Char.{Char, code}
use Prim.Native.String.{String, ◌++◌}
use text.Mathlib.TextLemmas.{nil-append, cons-append}
use vibe_terminal.Base.{
  ℕ, ◌≡◌, refl, ap, ◌∙◌, Bool, true, false, ◌||◌, List, [], ◌∷◌, Option, none, some, ◌==◌, arith,
  eqb, if◌then◌else◌,
}

-- The character occurs in the text.
abbrev pub has_char : ℕ → String → Bool
has_char c String.[] = false
has_char c (String.◌∷◌ d s) = eqb (code d) c || has_char c s

-- The first part grows by a character.
abbrev pub push_front : Char → List String → List String
push_front d [] = []
push_front d (p ∷ ps) = String.◌∷◌ d p ∷ ps

-- `strings.Split`, where the separator is one character
unfoldable pub split : ℕ → String → List String
split c String.[] = "" ∷ []
split c (String.◌∷◌ d s) = if eqb (code d) c then "" ∷ split c s else push_front d (split c s)

-- `strings.TrimSuffix`, with whether there was one: the text without it.
unfoldable pub cut_suffix : String → String → Option String
cut_suffix suffix String.[] = if "" == suffix then some "" else none
cut_suffix suffix (String.◌∷◌ d s) =
    let rest = cut_suffix suffix s in
    if String.◌∷◌ d s == suffix
    then some ""
    else elim rest [ none ↦ none | some front ↦ some (String.◌∷◌ d front) ]

module _ (c : ℕ) where
  -- A text with no separator is its own only part.
  pub split_whole : (s : String) → has_char c s ≡ false → split c s ≡ s ∷ []
  unfolding split
  split_whole String.[] h = refl
  split_whole (String.◌∷◌ d s) h = ground (arith, split_whole s)

  -- The part before the first separator.
  pub split-append :
      (sep : Char) (s t : String)
      → eqb (code sep) c ≡ true
      → has_char c s ≡ false
      → split c (s ++ String.◌∷◌ sep t) ≡ s ∷ split c t
  unfolding split
  split-append sep String.[] t e h = rw (nil-append (String.◌∷◌ sep t)) (ground arith)
  split-append sep (String.◌∷◌ d s) t e h =
      rw (cons-append d s (String.◌∷◌ sep t)) (ground (arith, split-append sep s t))

  -- The same, where the separator is a text of one character.
  pub split-append_one :
      (sep : Char) (s t : String)
      → eqb (code sep) c ≡ true
      → has_char c s ≡ false
      → split c (s ++ String.◌∷◌ sep "" ++ t) ≡ s ∷ split c t
  split-append_one sep s t e h =
      ap (λ u. split c (s ++ u)) (cons-append sep "" t ∙ ap (String.◌∷◌ sep) (nil-append t))
      ∙ split-append sep s t e h
