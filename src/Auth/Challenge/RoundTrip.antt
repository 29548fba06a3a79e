-- ===== src/Auth/Challenge/RoundTrip.antt =====
-- challenge.go: what is verified of a token that was issued, and of any token.
use Prim.Native.Char.{Char}
use Prim.Native.String.{◌++◌}
use vibe_terminal.Base.{
  ℕ, ◌+◌, ◌*◌, ◌/◌, ◌≤◌, String, ◌≡◌, ◌≢◌, refl, ap, subst, ◌∙◌, false, Option, none, some, List,
  [], ◌∷◌, eq_iff, eq_refl, ltb, if◌then◌else◌, arith, inl, inr, Option-cases,
}
use vibe_terminal.Text.{has_char, split, split_whole, split-append_one}
use vibe_terminal.Auth.{second, minute, from_unix-unix}
use vibe_terminal.Auth.Challenge.{
  Claims, ChallengePayload, Packages, dot, new_payload, issue_login_challenge, sign_payload,
  check_payload, decode_payload, check_signature, verify_parts, verify_login_challenge_at,
  login_challenge_signature,
}

-- What is relied on of `base64` and `json`: decoding undoes encoding, and the encoding has no dot.
pub record IsFaithful (lib : Packages) : Type 0 where
  pub decodes : (s : String) → lib.base64_decode_strict (lib.base64_encode s) ≡ some s
  pub no_dot : (s : String) → has_char dot (lib.base64_encode s) ≡ false
  pub nonempty : (s : String) → s ≢ "" → lib.base64_encode s ≢ ""
  pub marshals :
      (p : ChallengePayload) (json : String)
      → lib.marshal p ≡ some json
      → lib.unmarshal json ≡ some p

-- Two encodings that a dot joins are told apart.
split-join :
    (s t : String)
    → has_char dot s ≡ false
    → has_char dot t ≡ false
    → split dot (s ++ "." ++ t) ≡ s ∷ t ∷ []
split-join s t hs ht =
    let sep : Char = "." in split-append_one dot sep s t refl hs ∙ ap (◌∷◌ s) (split_whole dot t ht)

module _ (lib : Packages) (faithful : IsFaithful lib) (key : String) where
  -- A token that was signed verifies to what the checks say of its payload.
  verify-sign_payload :
      (p : ChallengePayload) (json token : String) (later : ℕ)
      → lib.marshal p ≡ some json
      → sign_payload lib key (some json) ≡ some token
      → verify_login_challenge_at lib key token later ≡ check_payload later (some p)
  unfolding sign_payload verify_login_challenge_at
  verify-sign_payload p json token later m e =
      let body = lib.base64_encode json in
      let mac = login_challenge_signature lib key body in
      let joined : split dot token ≡ body ∷ lib.base64_encode mac ∷ [] =
        subst (λ t. split dot t ≡ body ∷ lib.base64_encode mac ∷ []) (cc)
          (split-join body (lib.base64_encode mac) (faithful.no_dot json) (faithful.no_dot mac)) in
      ground (
        arith,
        joined,
        faithful.decodes mac,
        faithful.decodes json,
        faithful.marshals p json m,
        eq_refl mac,
      )

  -- What `check_payload` says of the payload of a new challenge.
  check-new_payload :
      (user_id configuration_id jti_bytes : String) (now later : ℕ)
      → user_id ≢ ""
      → configuration_id ≢ ""
      → jti_bytes ≢ ""
      → check_payload later (some (new_payload lib user_id configuration_id now jti_bytes)) ≡ (
          if ltb ((now + 5 * minute) / second * second) later
          then none
          else if ltb (later + minute) (now / second * second)
          then none
          else some (record {
            jti = lib.base64_encode jti_bytes;
            user_id = user_id;
            configuration_id = configuration_id;
            issued_at = now / second * second;
            expires_at = (now + 5 * minute) / second * second;
          }))
  unfolding check_payload
  check-new_payload user_id configuration_id jti_bytes now later hu hc hj =
      rw (from_unix-unix now, from_unix-unix (now + 5 * minute))
        (ground (
          arith,
          eq_iff user_id "",
          eq_iff configuration_id "",
          eq_iff (lib.base64_encode jti_bytes) "",
          faithful.nonempty jti_bytes hj,
        ))

  -- A token that was issued at `now` verifies at any later or earlier time `at` to the identifiers it
  -- was issued for, except after its five minutes or more than a minute before its issue. Times lose
  -- the part of their second.
  pub verify-issue :
      (user_id configuration_id jti_bytes token : String) (now at : ℕ)
      → jti_bytes ≢ ""
      → issue_login_challenge lib key user_id configuration_id now (some jti_bytes) ≡ some token
      → verify_login_challenge_at lib key token at ≡ (
          if ltb ((now + 5 * minute) / second * second) at
          then none
          else if ltb (at + minute) (now / second * second)
          then none
          else some (record {
            jti = lib.base64_encode jti_bytes;
            user_id = user_id;
            configuration_id = configuration_id;
            issued_at = now / second * second;
            expires_at = (now + 5 * minute) / second * second;
          }))
  unfolding issue_login_challenge
  verify-issue user_id configuration_id jti_bytes token now at hj e =
      let payload = new_payload lib user_id configuration_id now jti_bytes in
      let hu : user_id ≢ "" = ground (arith, eq_iff user_id "") in
      let hc : configuration_id ≢ "" = ground (arith, eq_iff configuration_id "") in
      elim (Option-cases (lib.marshal payload)) [
        | inl m ↦ absurd (ground (arith, m))
        | inr (json, m) ↦
            verify-sign_payload payload json token at m (ground (arith, m))
            ∙ check-new_payload user_id configuration_id jti_bytes now at hu hc hj
      ]

-- A token that verifies carries the signature, under the key, of its own payload, and its times are
-- those of the payload: it is not expired, and issued at most a minute ahead.
pub record IsSigned (lib : Packages) (key token : String) (now : ℕ) (claims : Claims) : Type 0 where
  pub body : String
  pub signature : String
  pub parts : split dot token ≡ body ∷ signature ∷ []
  pub signed : lib.base64_decode_strict signature ≡ some (lib.hmac_sha256 key body)
  pub in_time : (now ≤ claims.expires_at) × (claims.issued_at ≤ now + minute)

check_payload-times :
    (now : ℕ) (o : Option ChallengePayload) (claims : Claims)
    → check_payload now o ≡ some claims
    → (now ≤ claims.expires_at) × (claims.issued_at ≤ now + minute)
unfolding check_payload
check_payload-times now none claims e = absurd (cc)
check_payload-times now (some p) claims e = (ground arith, ground arith)

decode_payload-times :
    (lib : Packages) (now : ℕ) (o : Option String) (claims : Claims)
    → decode_payload lib now o ≡ some claims
    → (now ≤ claims.expires_at) × (claims.issued_at ≤ now + minute)
unfolding decode_payload
decode_payload-times lib now none claims e = absurd (cc)
decode_payload-times lib now (some json) claims e =
    check_payload-times now (lib.unmarshal json) claims e

check_signature-signed :
    (lib : Packages) (key body : String) (now : ℕ) (o : Option String) (claims : Claims)
    → check_signature lib key body now o ≡ some claims
    → (o ≡ some (lib.hmac_sha256 key body))
      × (decode_payload lib now (lib.base64_decode_strict body) ≡ some claims)
unfolding check_signature login_challenge_signature
check_signature-signed lib key body now none claims e = absurd (cc)
check_signature-signed lib key body now (some signature) claims e =
    (ground (arith, eq_iff signature (lib.hmac_sha256 key body)), ground arith)

verify_parts-IsSigned :
    (lib : Packages) (key token : String) (now : ℕ) (parts : List String) (claims : Claims)
    → split dot token ≡ parts
    → verify_parts lib key now parts ≡ some claims
    → IsSigned lib key token now claims
unfolding verify_parts
verify_parts-IsSigned lib key token now (body ∷ signature ∷ []) claims s e =
    let (signed, decoded) =
      check_signature-signed lib key body now (lib.base64_decode_strict signature) claims e in
    record {
      body = body;
      signature = signature;
      parts = s;
      signed = signed;
      in_time = decode_payload-times lib now (lib.base64_decode_strict body) claims decoded;
    }
verify_parts-IsSigned lib key token now [] claims s e = absurd (cc)
verify_parts-IsSigned lib key token now (body ∷ []) claims s e = absurd (cc)
verify_parts-IsSigned lib key token now (body ∷ signature ∷ more ∷ parts) claims s e = absurd (cc)

-- Every token that verifies is signed, and in time.
pub verify-IsSigned :
    (lib : Packages) (key token : String) (now : ℕ) (claims : Claims)
    → verify_login_challenge_at lib key token now ≡ some claims
    → IsSigned lib key token now claims
unfolding verify_login_challenge_at
verify-IsSigned lib key token now claims e =
    verify_parts-IsSigned lib key token now (split dot token) claims refl e
