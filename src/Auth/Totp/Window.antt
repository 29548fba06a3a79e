-- ===== src/Auth/Totp/Window.antt =====
-- totp.go: which codes match, and at which counters.
use Prim.Native.Char.{Char, code, len_utf8, len_utf8_def}
use Prim.Native.String.{len}
use Prim.Native.String.len as Len
use vibe_terminal.Base.{
  ℕ, ◌+◌, ◌/◌, ◌%◌, ◌≤◌, pos, String, ◌≡◌, refl, sym, ap, ◌∙◌, Bool, true, false, ◌&&◌, some, List,
  [], ◌∷◌, length, any, eqb, leb, arith, inl, inr, Bool-cases,
}
use vibe_terminal.Auth.{unix}
use vibe_terminal.Auth.Totp.{
  Packages, codes, all_digits, same_bytes, hotp_code, six_digits, truncate, big_endian, counters,
  first_match, match_totp,
}

same_bytes_eq : (bs cs : List ℕ) → same_bytes bs cs ≡ true → bs ≡ cs
same_bytes_eq [] [] e = refl
same_bytes_eq [] (c ∷ cs) e = absurd (cc)
same_bytes_eq (b ∷ bs) [] e = absurd (cc)
same_bytes_eq (b ∷ bs) (c ∷ cs) e = ground (arith, same_bytes_eq bs cs)

same_bytes_refl : (bs : List ℕ) → same_bytes bs bs ≡ true
same_bytes_refl [] = refl
same_bytes_refl (b ∷ bs) = ground (arith, same_bytes_refl bs)

-- The bytes are digits.
abbrev are_digits : List ℕ → Bool
are_digits [] = true
are_digits (b ∷ bs) = (leb 48 b && leb b 57) && are_digits bs

all_digits-codes : (s : String) → all_digits s ≡ are_digits (codes s)
all_digits-codes String.[] = refl
all_digits-codes (String.◌∷◌ c s) = ground (arith, all_digits-codes s)

len_utf8-digit : (c : Char) → leb (code c) 57 ≡ true → len_utf8 c ≡ 1
len_utf8-digit c h = (λ i. len_utf8_def c i) ∙ ground arith

len-digits : (s : String) → all_digits s ≡ true → len s ≡ length (codes s)
len-digits String.[] h = refl
len-digits (String.◌∷◌ c s) h =
    (λ i. Len.cons c s i)
    ∙ omega (arith, len_utf8-digit c (ground arith), len-digits s (ground arith))

six_digits-are_digits : (n : ℕ) → are_digits (six_digits n) ≡ true
unfolding six_digits
six_digits-are_digits n = ground arith

hotp_code_shape :
    (lib : Packages) (key : List ℕ) (c : ℕ)
    → (are_digits (hotp_code lib key c) ≡ true) × (length (hotp_code lib key c) ≡ 6)
unfolding hotp_code six_digits
hotp_code_shape lib key c =
    (six_digits-are_digits (truncate (lib.hmac_sha1 key (big_endian c)) % 1000000), refl)

-- The counters that are tried are those at most one away from the current one.
counters_window :
    (n c : ℕ) → any (λ d. eqb d c) (counters (pos n)) ≡ (leb c (n / 30 + 1) && leb (n / 30) (c + 1))
unfolding counters
counters_window n c = ground arith

module _ (lib : Packages) (key bytes : List ℕ) where
  first_match_sound :
      (cs : List ℕ) (c : ℕ)
      → first_match lib key bytes cs ≡ some c
      → (hotp_code lib key c ≡ bytes) × (any (λ d. eqb d c) cs ≡ true)
  unfolding first_match
  first_match_sound [] c e = absurd (cc)
  first_match_sound (d ∷ cs) c e = elim (Bool-cases (same_bytes (hotp_code lib key d) bytes)) [
    | inl hit ↦
        let same : d ≡ c = ground arith in
        (ap (hotp_code lib key) (sym same) ∙ same_bytes_eq _ _ hit, ground arith)
    | inr miss ↦
        let later = first_match_sound cs c (ground arith) in (later.0, ground (arith, later.1))
  ]

  first_match_complete :
      (cs : List ℕ) (c : ℕ)
      → hotp_code lib key c ≡ bytes
      → any (λ d. eqb d c) cs ≡ true
      → (d : ℕ) × (first_match lib key bytes cs ≡ some d)
  unfolding first_match
  first_match_complete [] c h e = absurd (cc)
  first_match_complete (d ∷ cs) c h e = elim (Bool-cases (same_bytes (hotp_code lib key d) bytes)) [
    | inl hit ↦ (d, ground arith)
    | inr miss ↦
        let other : eqb d c ≡ false = elim (Bool-cases (eqb d c)) [
          | inl e ↦
              let same : d ≡ c = ground arith in
              absurd (
                cc (
                  miss,
                  ap (λ x. same_bytes x bytes) (ap (hotp_code lib key) same ∙ h),
                  same_bytes_refl bytes,
                ))
          | inr e ↦ e
        ] in
        let later = first_match_complete cs c h (ground arith) in (later.0, ground (arith, later.1))
  ]

module _ (lib : Packages) (secret code : String) (now n : ℕ) (key : List ℕ)
    (decodes : lib.base32_decode (lib.to_upper (lib.trim_space secret)) ≡ some key)
    (after_epoch : unix now ≡ pos n) where
  -- A code that matches is the one of its counter, and the counter is at most one period away.
  pub match_totp_sound :
      (c : ℕ)
      → match_totp lib secret code now ≡ some (some c)
      → (hotp_code lib key c ≡ codes code) × (c ≤ n / 30 + 1) × (n / 30 ≤ c + 1)
  unfolding match_totp
  match_totp_sound c e =
      let found : first_match lib key (codes code) (counters (pos n)) ≡ some c =
        ground (arith, decodes, after_epoch) in
      let (same, tried) = first_match_sound lib key (codes code) (counters (pos n)) c found in
      (same, ground (arith, counters_window n c), ground (arith, counters_window n c))

  -- The code of a counter that is at most one period away matches.
  pub match_totp_complete :
      (c : ℕ)
      → codes code ≡ hotp_code lib key c
      → c ≤ n / 30 + 1
      → n / 30 ≤ c + 1
      → (d : ℕ) × (match_totp lib secret code now ≡ some (some d))
  unfolding match_totp
  match_totp_complete c same le ge =
      let digits : all_digits code ≡ true =
        all_digits-codes code ∙ ap are_digits same ∙ (hotp_code_shape lib key c).0 in
      let six : len code ≡ 6 =
        len-digits code digits ∙ ap length same ∙ (hotp_code_shape lib key c).1 in
      let (d, found) =
        first_match_complete lib key (codes code) (counters (pos n)) c (sym same)
          (counters_window n c ∙ ground arith) in
      (d, ground (arith, digits, six, decodes, after_epoch, found))
