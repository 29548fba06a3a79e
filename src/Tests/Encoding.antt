-- ===== src/Tests/Encoding.antt =====
-- Functions in place of the packages that encode: a text without dots and bars, a time, and one
-- payload.
use Prim.Native.Char.{Char, code}
use text.Mathlib.TextEquality.{Char-path}
use vibe_terminal.Base.{
  ℕ, zero, suc, String, ◌≡◌, ◌≢◌, refl, sym, ap, ◌∙◌, Bool, true, false, Option, none, some, eqb,
  arith, if◌then◌else◌, inl, inr, Bool-cases,
}
use vibe_terminal.Text.{has_char}

abbrev tilde : Char
tilde = "~"

unfoldable pub escape : String → String
escape String.[] = String.[]
escape (String.◌∷◌ d s) =
    let rest = escape s in
    if eqb (code d) 46
    then String.◌∷◌ "~" (String.◌∷◌ "d" rest)
    else if eqb (code d) 124
    then String.◌∷◌ "~" (String.◌∷◌ "b" rest)
    else if eqb (code d) 126
    then String.◌∷◌ "~" (String.◌∷◌ "t" rest)
    else String.◌∷◌ d rest

abbrev push : Char → Option String → Option String
push d none = none
push d (some s) = some (String.◌∷◌ d s)

-- The Boolean is whether a tilde was read.
unfoldable unescape_after : Bool → String → Option String
unescape_after b String.[] = if b then none else some String.[]
unescape_after true (String.◌∷◌ d s) =
    let rest = unescape_after false s in
    if eqb (code d) 100
    then push "." rest
    else if eqb (code d) 98
    then push "|" rest
    else if eqb (code d) 116
    then push "~" rest
    else none
unescape_after false (String.◌∷◌ d s) =
    let tail = unescape_after true s in
    let rest = unescape_after false s in if eqb (code d) 126 then tail else push d rest

unfoldable pub unescape : String → Option String
unfolding unescape_after
unescape = unescape_after false

pub unescape-escape : (s : String) → unescape (escape s) ≡ some s
unfolding unescape escape
unescape-escape String.[] = refl
unescape-escape (String.◌∷◌ d s) = elim (Bool-cases (eqb (code d) 46)) [
  | inl e ↦
      rw (e, unescape-escape s)
        (ap (λ c. some (String.◌∷◌ c s)) (Char-path "." d (ground (arith, e))))
  | inr e ↦ elim (Bool-cases (eqb (code d) 124)) [
    | inl f ↦
        rw (e, f, unescape-escape s)
          (ap (λ c. some (String.◌∷◌ c s)) (Char-path "|" d (ground (arith, f))))
    | inr f ↦ elim (Bool-cases (eqb (code d) 126)) [
      | inl g ↦
          rw (e, f, g, unescape-escape s)
            (ap (λ c. some (String.◌∷◌ c s)) (Char-path "~" d (ground (arith, g))))
      | inr g ↦ rw (e, f, g, unescape-escape s, g) refl
    ]
  ]
]

pub no_dot-escape : (s : String) → has_char 46 (escape s) ≡ false
unfolding escape
no_dot-escape String.[] = refl
no_dot-escape (String.◌∷◌ d s) = ground (arith, no_dot-escape s)

pub no_bar-escape : (s : String) → has_char 124 (escape s) ≡ false
unfolding escape
no_bar-escape String.[] = refl
no_bar-escape (String.◌∷◌ d s) = ground (arith, no_bar-escape s)

pub nonempty-escape : (s : String) → s ≢ "" → escape s ≢ ""
unfolding unescape escape
nonempty-escape s h e = let p : some "" ≡ some s = ap unescape (sym e) ∙ unescape-escape s in h (cc)

-- A time as so many letters.
unfoldable pub tally : ℕ → String
tally zero = String.[]
tally (suc n) = String.◌∷◌ "i" (tally n)

abbrev pub count_letters : String → ℕ
count_letters String.[] = 0
count_letters (String.◌∷◌ c s) = suc (count_letters s)

pub count-tally : (n : ℕ) → count_letters (tally n) ≡ n
unfolding tally
count-tally zero = refl
count-tally (suc n) = ap suc (count-tally n)

pub no_bar-tally : (n : ℕ) → has_char 124 (tally n) ≡ false
unfolding tally
no_bar-tally zero = refl
no_bar-tally (suc n) = no_bar-tally n
