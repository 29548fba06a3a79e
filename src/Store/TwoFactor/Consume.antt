-- ===== src/Store/TwoFactor/Consume.antt =====
-- store.go, `ConsumeLoginSecondFactor`: what it checks and what it writes.
use vibe_terminal.Base.{
  ℕ, ℤ, ◌≡◌, ◌<◌, inl, inr, true, false, Option, none, some, ◌==◌, ◌++◌, ◌∷◌, [], if◌then◌else◌,
  count, any, is_some, arith, Option-cases, eq_iff,
}
use vibe_terminal.Store.Rows.{UserTwoFactor, Tables, ConsumeLoginSecondFactorParams}
use vibe_terminal.Store.Db.{Result, ok, err, Conn, transaction}
use vibe_terminal.Store.Table.{update_where, find_where}
use vibe_terminal.Store.TwoFactor.{
  claimable, claim_challenge, is_enabled, accepts, advance_counter, unused_code, use_code,
  insert_audit_event, consume_login_second_factor,
}

-- An outcome that leaves no trace unless it is a success.
abbrev pub IsAtomic : {A : Type 0} → Conn → Result A × Conn → Type 0
IsAtomic c (ok a, c') = Unit
IsAtomic c (err e, c') = c'.tables ≡ c.tables

-- A login that fails, for whatever reason and whichever statement fails, writes nothing.
pub consume-IsAtomic :
    (p : ConsumeLoginSecondFactorParams) (c : Conn) → IsAtomic c (consume_login_second_factor p c)
unfolding consume_login_second_factor transaction
consume-IsAtomic p c = ground arith

-- The conditions under which a second factor is accepted, each of its own table.
abbrev pub CredentialFits : ConsumeLoginSecondFactorParams → Tables → Option ℤ → Type 0
CredentialFits p t (some counter) =
    (p.recovery_hash ≡ "")
    × (0 < count (accepts p.user_id p.configuration_id counter) t.user_two_factor)
CredentialFits p t none =
    ((p.recovery_hash == "") ≡ false)
    × (0 < count (unused_code p.user_id p.recovery_hash) t.two_factor_recovery_codes)

pub record IsAccepted (p : ConsumeLoginSecondFactorParams) (t : Tables) : Type 0 where
  pub challenge : 0 < count (claimable p) t.login_challenges
  pub setting : UserTwoFactor
  pub enabled : find_where (is_enabled p.user_id) t.user_two_factor ≡ some setting
  pub configuration : (setting.configuration_id == p.configuration_id) ≡ true
  pub credential : CredentialFits p t p.totp_counter
  pub fresh_audit :
      (p.audit.event_type == "") ≡ false → any (λ r. r.id == p.audit.id) t.audit_events ≡ false

-- What is left of the tables after the credential is spent.
abbrev pub spent_credential : ConsumeLoginSecondFactorParams → Option ℤ → Tables → Tables
spent_credential p (some counter) t = record t {
  user_two_factor =
      update_where (accepts p.user_id p.configuration_id counter)
        (λ r. record r { last_totp_counter = some counter; updated_at = p.now }) t.user_two_factor;
}
spent_credential p none t = record t {
  two_factor_recovery_codes =
      update_where (unused_code p.user_id p.recovery_hash) (λ r. record r { used_at = some p.now })
        t.two_factor_recovery_codes;
}

-- The database after an accepted second factor: the challenge is consumed, the credential spent and
-- the audit event, if there is one, appended.
abbrev pub consumed : ConsumeLoginSecondFactorParams → Tables → Tables
consumed p t = record (spent_credential p p.totp_counter t) {
  login_challenges =
      update_where (claimable p) (λ r. record r { consumed_at = some p.now }) t.login_challenges;
  audit_events =
      if p.audit.event_type == "" then t.audit_events else t.audit_events ++ p.audit ∷ [];
}

module _ (p : ConsumeLoginSecondFactorParams) (c : Conn)
    (h : (consume_login_second_factor p c).0 ≡ ok tt) where
  sound_challenge : 0 < count (claimable p) c.tables.login_challenges
  unfolding consume_login_second_factor transaction claim_challenge
  sound_challenge = ground arith

  sound_enabled : is_some (find_where (is_enabled p.user_id) c.tables.user_two_factor) ≡ true
  unfolding consume_login_second_factor transaction claim_challenge
  sound_enabled = ground arith

  sound_configuration :
      (s : UserTwoFactor)
      → find_where (is_enabled p.user_id) c.tables.user_two_factor ≡ some s
      → (s.configuration_id == p.configuration_id) ≡ true
  unfolding consume_login_second_factor transaction claim_challenge
  sound_configuration s e = ground arith

  sound_credential : CredentialFits p c.tables p.totp_counter
  unfolding consume_login_second_factor transaction claim_challenge advance_counter use_code
  sound_credential = ground (arith, eq_iff p.recovery_hash "")

  sound_audit :
      (p.audit.event_type == "") ≡ false
      → any (λ r. r.id == p.audit.id) c.tables.audit_events ≡ false
  unfolding consume_login_second_factor transaction claim_challenge advance_counter use_code
      insert_audit_event
  sound_audit e = ground arith

  sound_tables : (consume_login_second_factor p c).1.tables ≡ consumed p c.tables
  unfolding consume_login_second_factor transaction claim_challenge advance_counter use_code
      insert_audit_event
  sound_tables = ground arith

  -- A success means that the conditions held, and writes exactly `consumed`.
  pub consume_sound :
      IsAccepted p c.tables × ((consume_login_second_factor p c).1.tables ≡ consumed p c.tables)
  consume_sound = elim (Option-cases (find_where (is_enabled p.user_id) c.tables.user_two_factor)) [
    | inl e ↦ absurd (cc (sound_enabled, e))
    | inr (s, e) ↦ (
      record {
        challenge = sound_challenge;
        setting = s;
        enabled = e;
        configuration = sound_configuration s e;
        credential = sound_credential;
        fresh_audit = sound_audit;
      },
      sound_tables,
    )
  ]

-- When no statement fails and the conditions hold, the second factor is accepted.
pub consume_complete :
    (p : ConsumeLoginSecondFactorParams) (c : Conn)
    → ((n : ℕ) → c.faults n ≡ false)
    → IsAccepted p c.tables
    → (consume_login_second_factor p c).0 ≡ ok tt
unfolding consume_login_second_factor transaction claim_challenge advance_counter use_code
    insert_audit_event
consume_complete p c steady a = ground (
  arith,
  a.enabled,
  a.challenge,
  a.configuration,
  a.credential,
  a.fresh_audit,
  eq_iff p.recovery_hash "",
  steady 0,
  steady 1,
  steady 2,
  steady 3,
  steady 4,
  steady 5,
  steady 6,
  steady 7,
  steady 8,
)
