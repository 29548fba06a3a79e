-- ===== src/Store/History/Counter.antt =====
-- store.go: spent TOTP counters under the statements of the methods.
use vibe_terminal.Base.{
  ℕ, ℤ, String, ◌≡◌, ◌≢◌, sym, ◌∙◌, Bool, true, false, List, [], ◌∷◌, eq_iff, arith, is_some, All,
  All-append, All-filter,
}
use vibe_terminal.Store.Rows.{UserTwoFactor, Tables}
use vibe_terminal.Store.Table.{update_where, All-update_where}
use vibe_terminal.Store.Keeps.{Kept}
use vibe_terminal.Store.TwoFactor.{
  delete_stale, delete_open, insert_challenge, claim_challenge, is_newer, accepts, advance_counter,
  use_code, insert_audit_event,
}
use vibe_terminal.Store.Settings.{
  insert_pending, upsert_pending, insert_if_absent, update_pending, is_pending, is_previous,
  renewed, pending_row, is_enabling, enable_setting, delete_codes, insert_code, delete_enabled,
}
use vibe_terminal.Store.History.Rules.{Inputs, IsClosed}

module _ (user_id configuration_id : String) (counter : ℤ) where
  -- A row of this user and configuration is enabled and does not take the counter.
  abbrev pub SpentRow : UserTwoFactor → Type 0
  SpentRow r =
      r.user_id ≡ user_id
      → r.configuration_id ≡ configuration_id
      → (is_newer counter r.last_totp_counter ≡ false) × (is_some r.enabled_at ≡ true)

  abbrev pub IsSpent : Tables → Type 0
  IsSpent t = All SpentRow t.user_two_factor

  -- Settings of this configuration are not set up (again).
  abbrev pub Elsewhere : UserTwoFactor → Type 0
  Elsewhere s = s.user_id ≡ user_id → s.configuration_id ≢ configuration_id

  abbrev pub inputs : Inputs
  inputs = record { setting = Elsewhere; code = λ u x. Unit; challenge = λ c. Unit }

  advance_keeps :
      (u k : String) (c : ℤ) (now : ℕ) (t : Tables)
      → IsSpent t
      → Kept IsSpent (advance_counter u k c now t)
  unfolding advance_counter
  advance_keeps u k c now t h =
      All-update_where SpentRow (accepts u k c) _ (λ r e s p q. ground (arith, s p q))
        t.user_two_factor h

  pending_keeps :
      (s : UserTwoFactor) (t : Tables) → Elsewhere s → IsSpent t → Kept IsSpent (insert_pending s t)
  unfolding insert_pending
  pending_keeps s t f h =
      ground (arith, All-append SpentRow t.user_two_factor (pending_row s ∷ []) h)

  renewed_keeps :
      (s : UserTwoFactor) (pred : UserTwoFactor → Bool)
      → ((r : UserTwoFactor) → pred r ≡ true → r.user_id ≡ s.user_id)
      → Elsewhere s
      → (rows : List UserTwoFactor) → All SpentRow rows
      → All SpentRow (update_where pred (renewed s) rows)
  renewed_keeps s pred owner f =
      All-update_where SpentRow pred (renewed s) λ r e k p q. absurd (f (sym (owner r e) ∙ p) q)

  upsert_keeps :
      (s : UserTwoFactor) (t : Tables) → Elsewhere s → IsSpent t → Kept IsSpent (upsert_pending s t)
  unfolding upsert_pending
  upsert_keeps s t f h = ground (
    arith,
    pending_keeps s t f h,
    renewed_keeps s (is_pending s.user_id) (λ r e. ground (arith, eq_iff r.user_id s.user_id)) f
        t.user_two_factor h,
  )

  insert_if_absent_keeps :
      (s : UserTwoFactor) (t : Tables)
      → Elsewhere s
      → IsSpent t
      → Kept IsSpent (insert_if_absent s t)
  unfolding insert_if_absent
  insert_if_absent_keeps s t f h = ground (arith, pending_keeps s t f h)

  update_pending_keeps :
      (s : UserTwoFactor) (previous : String) (t : Tables)
      → Elsewhere s
      → IsSpent t
      → Kept IsSpent (update_pending s previous t)
  unfolding update_pending
  update_pending_keeps s previous t f h =
      renewed_keeps s (is_previous s.user_id previous)
        (λ r e. ground (arith, eq_iff r.user_id s.user_id)) f t.user_two_factor h

  enable_keeps :
      (u k : String) (c : ℤ) (now : ℕ) (t : Tables)
      → IsSpent t
      → Kept IsSpent (enable_setting u k c now t)
  unfolding enable_setting
  enable_keeps u k c now t h =
      All-update_where SpentRow (is_enabling u k now) _
        (λ r e s p q. absurd (ground (arith, s p q))) t.user_two_factor h

  delete_enabled_keeps : (u : String) (t : Tables) → IsSpent t → Kept IsSpent (delete_enabled u t)
  unfolding delete_enabled
  delete_enabled_keeps u t h = All-filter SpentRow _ t.user_two_factor h

  pub IsSpent-closed : IsClosed IsSpent inputs
  unfolding delete_stale delete_open insert_challenge claim_challenge use_code insert_audit_event
      delete_codes insert_code
  IsSpent-closed = record {
    stale = λ now t h. h;
    opened = λ u now t h. h;
    issued = λ c t f h. ground arith;
    claimed = λ p t h. h;
    advanced = advance_keeps;
    used = λ u x now t h. h;
    audited = λ e t h. ground arith;
    upserted = upsert_keeps;
    inserted = insert_if_absent_keeps;
    updated = update_pending_keeps;
    enabled = enable_keeps;
    dropped = λ u t h. h;
    added = λ u x now t f h. ground arith;
    disabled = delete_enabled_keeps;
  }
