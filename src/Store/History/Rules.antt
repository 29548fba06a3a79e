-- ===== src/Store/History/Rules.antt =====
-- store.go: from the statements to the methods, and from these to histories of calls.
use vibe_terminal.Base.{ℕ, ℤ, String, Option, none, some, List, [], ◌∷◌, All}
use vibe_terminal.Store.Rows.{
  UserTwoFactor, LoginChallenge, RecoveryCodeInput, AuditEvent, Tables,
  ConsumeLoginSecondFactorParams,
}
use vibe_terminal.Store.Db.{Conn, conflict}
use vibe_terminal.Store.Keeps.{
  Keeps, Kept, keeps_rules, Keeps-pure, Keeps-bind, Keeps-exec, Keeps-branch,
  Keeps-require_affected, Keeps-transaction,
}
use vibe_terminal.Store.TwoFactor.{
  or_now, delete_stale, delete_open, insert_challenge, claim_challenge, advance_counter, use_code,
  insert_audit_event, create_login_challenge, consume_login_second_factor, consume_credential,
}
use vibe_terminal.Store.Settings.{
  upsert_pending, insert_if_absent, update_pending, enable_setting, delete_codes, insert_code,
  insert_recovery_codes, delete_enabled, normalize_pending, save_pending_two_factor,
  save_pending_if_unchanged, enable_two_factor, consume_totp_counter, consume_recovery_code,
  rejected, replayed, replace_recovery_codes, disable_two_factor,
}
use vibe_terminal.Store.History.{
  Call, creates, consumes, saves, saves_if_unchanged, enables, replaces, consumes_counter,
  consumes_code, disables, perform, run, Each, run_induction,
}

-- What the calls of a history may bring in: settings, recovery codes of a user, challenges.
pub record Inputs : Type 1 where
  pub setting : UserTwoFactor → Type 0
  pub code : String → RecoveryCodeInput → Type 0
  pub challenge : LoginChallenge → Type 0

module _ (P : Tables → Type 0) (f : Inputs) where
  -- Each statement keeps `P`, given inputs that are allowed.
  pub record IsClosed : Type 0 where
    pub stale : (now : ℕ) (t : Tables) → P t → Kept P (delete_stale now t)
    pub opened : (u : String) (now : ℕ) (t : Tables) → P t → Kept P (delete_open u now t)
    pub issued :
        (c : LoginChallenge) (t : Tables) → f.challenge c → P t → Kept P (insert_challenge c t)
    pub claimed :
        (p : ConsumeLoginSecondFactorParams) (t : Tables) → P t → Kept P (claim_challenge p t)
    pub advanced :
        (u k : String) (c : ℤ) (now : ℕ) (t : Tables) → P t → Kept P (advance_counter u k c now t)
    pub used : (u x : String) (now : ℕ) (t : Tables) → P t → Kept P (use_code u x now t)
    pub audited : (e : AuditEvent) (t : Tables) → P t → Kept P (insert_audit_event e t)
    pub upserted :
        (s : UserTwoFactor) (t : Tables) → f.setting s → P t → Kept P (upsert_pending s t)
    pub inserted :
        (s : UserTwoFactor) (t : Tables) → f.setting s → P t → Kept P (insert_if_absent s t)
    pub updated :
        (s : UserTwoFactor) (previous : String) (t : Tables)
        → f.setting s
        → P t
        → Kept P (update_pending s previous t)
    pub enabled :
        (u k : String) (c : ℤ) (now : ℕ) (t : Tables) → P t → Kept P (enable_setting u k c now t)
    pub dropped : (u : String) (t : Tables) → P t → Kept P (delete_codes u t)
    pub added :
        (u : String) (x : RecoveryCodeInput) (now : ℕ) (t : Tables)
        → f.code u x
        → P t
        → Kept P (insert_code u x now t)
    pub disabled : (u : String) (t : Tables) → P t → Kept P (delete_enabled u t)

-- The inputs of a call are allowed.
abbrev pub IsFresh : Inputs → Call → Type 0
IsFresh f (creates clock c) =
    f.challenge (record c { created_at = or_now clock c.created_at; consumed_at = none })
IsFresh f (saves clock s) = f.setting (normalize_pending clock s)
IsFresh f (saves_if_unchanged clock s previous) = f.setting (normalize_pending clock s)
IsFresh f (enables u k c codes now) = All (f.code u) codes
IsFresh f (replaces u k c codes now) = All (f.code u) codes
IsFresh f _ = Unit

module _ (P : Tables → Type 0) (f : Inputs) (closed : IsClosed P f) where
  open closed use {
    stale, opened, issued, claimed, advanced, used, audited, upserted, inserted, updated, enabled,
    dropped, added, disabled,
  }

  codes_keep :
      (u : String) (xs : List RecoveryCodeInput) (now : ℕ)
      → All (f.code u) xs
      → Keeps P (insert_recovery_codes u xs now)
  unfolding insert_recovery_codes
  codes_keep u [] now h = Keeps-pure tt
  codes_keep u (x ∷ xs) now h =
      Keeps-bind _ _ (Keeps-exec _ (λ t p. added u x now t h.0 p)) λ n. codes_keep u xs now h.1

  create-Keeps :
      (clock : ℕ) (c : LoginChallenge)
      → f.challenge (record c { created_at = or_now clock c.created_at; consumed_at = none })
      → Keeps P (create_login_challenge clock c)
  unfolding create_login_challenge
  create-Keeps clock c h = Keeps-transaction _ (
      Keeps-bind _ _ (Keeps-exec _ (stale _)) λ a.
        Keeps-bind _ _ (Keeps-exec _ (opened _ _))
          λ b. Keeps-bind _ _ (Keeps-exec _ (λ t p. issued _ t h p)) λ n. Keeps-pure tt)

  credential-Keeps :
      (p : ConsumeLoginSecondFactorParams) (o : Option ℤ) → Keeps P (consume_credential p o)
  credential-Keeps p none = search (keeps_rules, used)
  credential-Keeps p (some c) = search (keeps_rules, advanced)

  consume-Keeps : (p : ConsumeLoginSecondFactorParams) → Keeps P (consume_login_second_factor p)
  unfolding consume_login_second_factor
  consume-Keeps p = search (keeps_rules, claimed, audited, credential-Keeps) depth 12

  replayed-Keeps : (c : ℤ) (o : Option ℤ) → Keeps P (replayed c o)
  replayed-Keeps c none = search keeps_rules
  replayed-Keeps c (some last) = search keeps_rules

  rejected-Keeps : (k : String) (c : ℤ) (o : Option UserTwoFactor) → Keeps P (rejected k c o)
  rejected-Keeps k c none = search keeps_rules
  rejected-Keeps k c (some r) = search (keeps_rules, replayed-Keeps)

  perform-Keeps : (call : Call) → IsFresh f call → Keeps P (perform call)
  unfolding perform save_pending_two_factor save_pending_if_unchanged enable_two_factor
      replace_recovery_codes consume_totp_counter consume_recovery_code disable_two_factor
  perform-Keeps (creates clock c) h = create-Keeps clock c h
  perform-Keeps (consumes p) h = consume-Keeps p
  perform-Keeps (saves clock s) h =
      Keeps-require_affected _ conflict (Keeps-exec _ (λ t p. upserted _ t h p))
  perform-Keeps (saves_if_unchanged clock s previous) h = Keeps-require_affected _ conflict (
      Keeps-branch _ _ _ (Keeps-exec _ (λ t p. inserted _ t h p))
        (Keeps-exec _ (λ t p. updated _ previous t h p)))
  perform-Keeps (enables u k c codes now) h =
      search (keeps_rules, enabled, dropped, codes_keep, h) depth 12
  perform-Keeps (replaces u k c codes now) h =
      search (keeps_rules, advanced, dropped, rejected-Keeps, codes_keep, h) depth 12
  perform-Keeps (consumes_counter u k c now) h = search (keeps_rules, advanced) depth 12
  perform-Keeps (consumes_code u x now) h = search (keeps_rules, used) depth 12
  perform-Keeps (disables u) h = search (keeps_rules, dropped, disabled) depth 12

  -- Any history of calls with allowed inputs keeps `P`.
  pub run_keeps :
      (c : Conn) (calls : List Call) → Each (IsFresh f) calls → P c.tables → P (run c calls).tables
  run_keeps = run_induction P (IsFresh f) perform-Keeps
