-- ===== src/Store/History/Challenge.antt =====
-- store.go: consumed login challenges under the statements of the methods.
use vibe_terminal.Base.{
  String, ◌≡◌, ◌≢◌, refl, true, [], ◌∷◌, arith, is_some, All, All-append, All-filter,
}
use vibe_terminal.Store.Rows.{LoginChallenge, Tables}
use vibe_terminal.Store.Table.{All-update_where}
use vibe_terminal.Store.TwoFactor.{
  delete_stale, delete_open, insert_challenge, claim_challenge, claimable, advance_counter,
  use_code, insert_audit_event,
}
use vibe_terminal.Store.Settings.{
  upsert_pending, insert_if_absent, update_pending, enable_setting, delete_codes, insert_code,
  delete_enabled,
}
use vibe_terminal.Store.History.Rules.{Inputs, IsClosed}

module _ (jti : String) where
  abbrev pub ConsumedRow : LoginChallenge → Type 0
  ConsumedRow r = r.jti ≡ jti → is_some r.consumed_at ≡ true

  -- No challenge with this identifier is open.
  abbrev pub IsConsumed : Tables → Type 0
  IsConsumed t = All ConsumedRow t.login_challenges

  -- The identifier is not issued (again).
  abbrev pub OtherChallenge : LoginChallenge → Type 0
  OtherChallenge c = c.jti ≢ jti

  abbrev pub inputs : Inputs
  inputs = record { setting = λ s. Unit; code = λ u x. Unit; challenge = OtherChallenge }

  pub IsConsumed-closed : IsClosed IsConsumed inputs
  unfolding delete_stale delete_open insert_challenge claim_challenge advance_counter use_code
      insert_audit_event upsert_pending insert_if_absent update_pending enable_setting delete_codes
      insert_code delete_enabled
  IsConsumed-closed = record {
    stale = λ now t h. All-filter ConsumedRow _ t.login_challenges h;
    opened = λ u now t h. All-filter ConsumedRow _ t.login_challenges h;
    issued = λ c t f h.
        ground
          (arith, All-append ConsumedRow t.login_challenges (c ∷ []) h ((λ q. absurd (f q)), tt));
    claimed = λ p t h.
        All-update_where ConsumedRow (claimable p) _ (λ r e k q. refl) t.login_challenges h;
    advanced = λ u k c now t h. h;
    used = λ u x now t h. h;
    audited = λ e t h. ground arith;
    upserted = λ s t f h. ground arith;
    inserted = λ s t f h. ground arith;
    updated = λ s previous t f h. h;
    enabled = λ u k c now t h. h;
    dropped = λ u t h. h;
    added = λ u x now t f h. ground arith;
    disabled = λ u t h. h;
  }
