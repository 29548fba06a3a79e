-- ===== src/Store/TwoFactor.antt =====
-- server/internal/store/store.go: login challenges, the settings of two-factor authentication and
-- the recovery codes. `clock` is what `time.Now` returns in a method that reads it.
pub mod Consume
use Prim.Native.String.{compare}
use text.Mathlib.Text.{is_lt}
use vibe_terminal.Base.{
  ℕ, ℤ, ltb_ℤ, leb_ℤ, String, Bool, true, false, not, ◌&&◌, ◌||◌, Option, none, some, List, [], ◌∷◌,
  ◌++◌, ◌==◌, eqb, ltb, leb, if◌then◌else◌, filter, count, any, take, is_some,
}
use vibe_terminal.Store.Rows.{
  UserTwoFactor, LoginChallenge, RecoveryCode, RecoveryCodeInput, AuditEvent, Tables,
  ConsumeLoginSecondFactorParams,
}
use vibe_terminal.Store.Db.{
  Db, not_found, conflict, login_restart_required, invalid_second_factor, one_credential, pure,
  raise, branch, query, exec, or_raise, rows_affected, require_affected, transaction, ◌>>=◌, ◌>>◌,
}
use vibe_terminal.Store.Table.{update_where, delete_where, find_where, order_by}

abbrev pub or_now : ℕ → ℕ → ℕ
or_now clock t = if eqb t 0 then clock else t

-- `references users(id)`
abbrev pub has_user : Tables → String → Bool
has_user t id = any (λ u. u.id == id) t.users

-- The statements of `CreateLoginChallenge`.
abbrev pub expires_before : LoginChallenge → LoginChallenge → Bool
expires_before a b =
    ltb a.expires_at b.expires_at || (eqb a.expires_at b.expires_at && is_lt (compare a.jti b.jti))

unfoldable pub stale_challenges : ℕ → Tables → List LoginChallenge
stale_challenges now t =
    take 100 (order_by expires_before (filter (λ r. ltb r.expires_at now) t.login_challenges))

unfoldable pub delete_stale : ℕ → Tables → Option (ℕ × Tables)
delete_stale now t =
    let stale = stale_challenges now t in
    let old = λ (r : LoginChallenge). any (λ s. s.jti == r.jti) stale in
    some (
      count old t.login_challenges,
      record t { login_challenges = delete_where old t.login_challenges },
    )

abbrev pub is_open : String → ℕ → LoginChallenge → Bool
is_open user_id now r = r.user_id == user_id && not (is_some r.consumed_at) && leb now r.expires_at

unfoldable pub delete_open : String → ℕ → Tables → Option (ℕ × Tables)
delete_open user_id now t = some (
  count (is_open user_id now) t.login_challenges,
  record t { login_challenges = delete_where (is_open user_id now) t.login_challenges },
)

unfoldable pub insert_challenge : LoginChallenge → Tables → Option (ℕ × Tables)
insert_challenge c t =
    if any (λ r. r.jti == c.jti) t.login_challenges || not (has_user t c.user_id)
    then none
    else some (1, record t { login_challenges = t.login_challenges ++ c ∷ [] })

unfoldable pub create_login_challenge : ℕ → LoginChallenge → Db Unit
create_login_challenge clock challenge =
    let created = or_now clock challenge.created_at in
    transaction (do
      exec (delete_stale created)
      exec (delete_open challenge.user_id created)
      exec (insert_challenge (record challenge { created_at = created; consumed_at = none }))
      pure tt)

-- The statements of `ConsumeLoginSecondFactor`.
abbrev pub claimable : ConsumeLoginSecondFactorParams → LoginChallenge → Bool
claimable p r =
    r.jti == p.challenge_jti
    && r.user_id == p.user_id
    && r.configuration_id == p.configuration_id
    && not (is_some r.consumed_at)
    && leb p.now r.expires_at

unfoldable pub claim_challenge : ConsumeLoginSecondFactorParams → Tables → Option (ℕ × Tables)
claim_challenge p t = some (
  count (claimable p) t.login_challenges,
  record t {
    login_challenges =
        update_where (claimable p) (λ r. record r { consumed_at = some p.now }) t.login_challenges;
  },
)

abbrev pub is_enabled : String → UserTwoFactor → Bool
is_enabled user_id r = r.user_id == user_id && is_some r.enabled_at

-- `last_totp_counter is null or last_totp_counter < ?`
abbrev pub is_newer : ℤ → Option ℤ → Bool
is_newer counter none = true
is_newer counter (some last) = ltb_ℤ last counter

abbrev pub accepts : String → String → ℤ → UserTwoFactor → Bool
accepts user_id configuration_id counter r =
    is_enabled user_id r
    && r.configuration_id == configuration_id
    && is_newer counter r.last_totp_counter

unfoldable pub advance_counter : String → String → ℤ → ℕ → Tables → Option (ℕ × Tables)
advance_counter user_id configuration_id counter now t = some (
  count (accepts user_id configuration_id counter) t.user_two_factor,
  record t {
    user_two_factor =
        update_where (accepts user_id configuration_id counter)
          (λ r. record r { last_totp_counter = some counter; updated_at = now }) t.user_two_factor;
  },
)

abbrev pub unused_code : String → String → RecoveryCode → Bool
unused_code user_id hash r = r.user_id == user_id && r.code_hash == hash && not (is_some r.used_at)

unfoldable pub use_code : String → String → ℕ → Tables → Option (ℕ × Tables)
use_code user_id hash now t = some (
  count (unused_code user_id hash) t.two_factor_recovery_codes,
  record t {
    two_factor_recovery_codes =
        update_where (unused_code user_id hash) (λ r. record r { used_at = some now })
          t.two_factor_recovery_codes;
  },
)

-- `insertAuditEvent`
unfoldable pub insert_audit_event : AuditEvent → Tables → Option (ℕ × Tables)
insert_audit_event e t =
    if any (λ r. r.id == e.id) t.audit_events
    then none
    else some (1, record t { audit_events = t.audit_events ++ e ∷ [] })

-- The credential of `ConsumeLoginSecondFactor`: a counter, or else a recovery code.
abbrev pub consume_credential : ConsumeLoginSecondFactorParams → Option ℤ → Db Unit
consume_credential p (some counter) =
    require_affected (exec (advance_counter p.user_id p.configuration_id counter p.now))
      invalid_second_factor
consume_credential p none =
    require_affected (exec (use_code p.user_id p.recovery_hash p.now)) invalid_second_factor

abbrev pub current_configuration : String → Tables → Option UserTwoFactor
current_configuration user_id t = find_where (is_enabled user_id) t.user_two_factor

unfoldable pub consume_login_second_factor : ConsumeLoginSecondFactorParams → Db Unit
consume_login_second_factor p =
    let has_totp = is_some p.totp_counter in
    let has_recovery = not (p.recovery_hash == "") in
    branch (if has_totp then has_recovery else not has_recovery) (raise one_credential) (
      transaction (do
        require_affected (exec (claim_challenge p)) login_restart_required
        found ← query (current_configuration p.user_id)
        setting ← or_raise login_restart_required found
        branch (setting.configuration_id == p.configuration_id) (pure tt)
            (raise login_restart_required)
        consume_credential p p.totp_counter
        branch (p.audit.event_type == "") (pure tt)
            (do exec (insert_audit_event p.audit); pure tt)))
