-- ===== src/Store/History/Code.antt =====
-- store.go: used recovery codes under the statements of the methods.
use vibe_terminal.Base.{
  String, ◌≡◌, ◌≢◌, refl, none, true, [], ◌∷◌, arith, is_some, All, All-append, All-filter,
}
use vibe_terminal.Store.Rows.{RecoveryCode, RecoveryCodeInput, Tables}
use vibe_terminal.Store.Table.{All-update_where}
use vibe_terminal.Store.TwoFactor.{
  delete_stale, delete_open, insert_challenge, claim_challenge, advance_counter, unused_code,
  use_code, insert_audit_event,
}
use vibe_terminal.Store.Settings.{
  upsert_pending, insert_if_absent, update_pending, enable_setting, delete_codes, insert_code,
  delete_enabled,
}
use vibe_terminal.Store.History.Rules.{Inputs, IsClosed}

module _ (user_id hash : String) where
  abbrev pub UsedRow : RecoveryCode → Type 0
  UsedRow r = r.user_id ≡ user_id → r.code_hash ≡ hash → is_some r.used_at ≡ true

  -- The user has no unused code with the hash.
  abbrev pub IsUsed : Tables → Type 0
  IsUsed t = All UsedRow t.two_factor_recovery_codes

  -- The code is not issued (again).
  abbrev pub OtherCode : String → RecoveryCodeInput → Type 0
  OtherCode u x = u ≡ user_id → x.hash ≢ hash

  abbrev pub inputs : Inputs
  inputs = record { setting = λ s. Unit; code = OtherCode; challenge = λ c. Unit }

  pub IsUsed-closed : IsClosed IsUsed inputs
  unfolding delete_stale delete_open insert_challenge claim_challenge advance_counter use_code
      insert_audit_event upsert_pending insert_if_absent update_pending enable_setting delete_codes
      insert_code delete_enabled
  IsUsed-closed = record {
    stale = λ now t h. h;
    opened = λ u now t h. h;
    issued = λ c t f h. ground arith;
    claimed = λ p t h. h;
    advanced = λ u k c now t h. h;
    used = λ u x now t h.
        All-update_where UsedRow (unused_code u x) _ (λ r e k p q. refl) t.two_factor_recovery_codes
          h;
    audited = λ e t h. ground arith;
    upserted = λ s t f h. ground arith;
    inserted = λ s t f h. ground arith;
    updated = λ s previous t f h. h;
    enabled = λ u k c now t h. h;
    dropped = λ u t h. All-filter UsedRow _ t.two_factor_recovery_codes h;
    added = λ u x now t f h. ground (
      arith,
      All-append UsedRow t.two_factor_recovery_codes
          (record { id = x.id; user_id = u; code_hash = x.hash; used_at = none; created_at = now }
            ∷ [])
          h ((λ p q. absurd (f p q)), tt),
    );
    disabled = λ u t h. h;
  }
