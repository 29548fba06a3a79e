-- ===== src/Store/Settings.antt =====
-- server/internal/store/store.go: the two-factor settings of a user and the recovery codes outside
-- of a login.
use vibe_terminal.Base.{
  ℕ, ◌+◌, ℤ, leb_ℤ, String, Bool, false, not, ◌&&◌, ◌||◌, Option, none, some, List, [], ◌∷◌, ◌++◌,
  ◌==◌, eqb, ltb, if◌then◌else◌, count, any, is_some,
}
use vibe_terminal.Store.Rows.{UserTwoFactor, RecoveryCode, RecoveryCodeInput, Tables}
use vibe_terminal.Store.Db.{
  Db, not_found, conflict, invalid_second_factor, pure, raise, branch, query, exec, or_raise,
  rows_affected, require_affected, transaction, ◌>>=◌, ◌>>◌,
}
use vibe_terminal.Store.Table.{update_where, delete_where, find_where}
use vibe_terminal.Store.TwoFactor.{
  or_now, has_user, is_enabled, advance_counter, use_code, current_configuration,
}

-- `normalizePendingTwoFactor`
abbrev pub normalize_pending : ℕ → UserTwoFactor → UserTwoFactor
normalize_pending clock s = record s {
  created_at = or_now clock s.created_at;
  updated_at = or_now clock s.updated_at;
}

abbrev pub owns : String → UserTwoFactor → Bool
owns user_id r = r.user_id == user_id

-- The row that a setup inserts.
abbrev pub pending_row : UserTwoFactor → UserTwoFactor
pending_row s = record s { enabled_at = none; last_totp_counter = none }

-- The row that a setup updates.
abbrev pub renewed : UserTwoFactor → UserTwoFactor → UserTwoFactor
renewed s r = record r {
  configuration_id = s.configuration_id;
  secret_ciphertext = s.secret_ciphertext;
  setup_expires_at = s.setup_expires_at;
  enabled_at = none;
  last_totp_counter = none;
  updated_at = s.updated_at;
}

abbrev pub is_pending : String → UserTwoFactor → Bool
is_pending user_id r = r.user_id == user_id && not (is_some r.enabled_at)

unfoldable pub insert_pending : UserTwoFactor → Tables → Option (ℕ × Tables)
insert_pending s t =
    if has_user t s.user_id
    then some (1, record t { user_two_factor = t.user_two_factor ++ pending_row s ∷ [] })
    else none

-- `insert … on conflict(user_id) do update … where user_two_factor.enabled_at is null`
unfoldable pub upsert_pending : UserTwoFactor → Tables → Option (ℕ × Tables)
unfolding insert_pending
upsert_pending s t =
    if any (owns s.user_id) t.user_two_factor
    then some (
      count (is_pending s.user_id) t.user_two_factor,
      record t {
        user_two_factor = update_where (is_pending s.user_id) (renewed s) t.user_two_factor;
      },
    )
    else insert_pending s t

unfoldable pub save_pending_two_factor : ℕ → UserTwoFactor → Db Unit
save_pending_two_factor clock setting =
    require_affected (exec (upsert_pending (normalize_pending clock setting))) conflict

-- `insert … on conflict(user_id) do nothing`
unfoldable pub insert_if_absent : UserTwoFactor → Tables → Option (ℕ × Tables)
unfolding insert_pending
insert_if_absent s t =
    if any (owns s.user_id) t.user_two_factor then some (0, t) else insert_pending s t

abbrev pub is_previous : String → String → UserTwoFactor → Bool
is_previous user_id previous r = is_pending user_id r && r.configuration_id == previous

unfoldable pub update_pending : UserTwoFactor → String → Tables → Option (ℕ × Tables)
update_pending s previous t = some (
  count (is_previous s.user_id previous) t.user_two_factor,
  record t {
    user_two_factor = update_where (is_previous s.user_id previous) (renewed s) t.user_two_factor;
  },
)

unfoldable pub save_pending_if_unchanged : ℕ → UserTwoFactor → String → Db Unit
save_pending_if_unchanged clock setting previous =
    let s = normalize_pending clock setting in
    require_affected
      (branch (previous == "") (exec (insert_if_absent s)) (exec (update_pending s previous)))
      conflict

unfoldable pub get_user_two_factor : String → Db UserTwoFactor
get_user_two_factor user_id = do
  found ← query (λ t. find_where (owns user_id) t.user_two_factor)
  or_raise not_found found

unfoldable pub get_enabled_two_factor : String → Db UserTwoFactor
get_enabled_two_factor user_id = do
  found ← query (current_configuration user_id)
  or_raise not_found found

-- `setup_expires_at > ?`
abbrev pub is_after : ℕ → Option ℕ → Bool
is_after now none = false
is_after now (some expires) = ltb now expires

unfoldable pub get_pending_two_factor : String → ℕ → Db UserTwoFactor
get_pending_two_factor user_id now = do
  found ← query (λ t.
      find_where (λ r. is_pending user_id r && is_after now r.setup_expires_at) t.user_two_factor)
  or_raise not_found found

abbrev pub is_enabling : String → String → ℕ → UserTwoFactor → Bool
is_enabling user_id configuration_id now r =
    is_pending user_id r
    && r.configuration_id == configuration_id
    && is_after now r.setup_expires_at

unfoldable pub enable_setting : String → String → ℤ → ℕ → Tables → Option (ℕ × Tables)
enable_setting user_id configuration_id counter now t = some (
  count (is_enabling user_id configuration_id now) t.user_two_factor,
  record t {
    user_two_factor =
        update_where (is_enabling user_id configuration_id now)
          (λ r. record r {
            enabled_at = some now;
            setup_expires_at = none;
            last_totp_counter = some counter;
            updated_at = now;
          })
          t.user_two_factor;
  },
)

abbrev pub owns_code : String → RecoveryCode → Bool
owns_code user_id r = r.user_id == user_id

unfoldable pub delete_codes : String → Tables → Option (ℕ × Tables)
delete_codes user_id t = some (
  count (owns_code user_id) t.two_factor_recovery_codes,
  record t {
    two_factor_recovery_codes = delete_where (owns_code user_id) t.two_factor_recovery_codes;
  },
)

-- The primary key, `unique(user_id, code_hash)` and `references users(id)`.
unfoldable pub insert_code : String → RecoveryCodeInput → ℕ → Tables → Option (ℕ × Tables)
insert_code user_id code now t =
    if any (λ r. r.id == code.id || r.user_id == user_id && r.code_hash == code.hash)
        t.two_factor_recovery_codes
      || not (has_user t user_id)
    then none
    else some (
      1,
      record t {
        two_factor_recovery_codes =
            t.two_factor_recovery_codes
            ++ record {
              id = code.id;
              user_id = user_id;
              code_hash = code.hash;
              used_at = none;
              created_at = now;
            }
              ∷ [];
      },
    )

unfoldable pub insert_recovery_codes : String → List RecoveryCodeInput → ℕ → Db Unit
insert_recovery_codes user_id [] now = pure tt
insert_recovery_codes user_id (code ∷ codes) now = do
  exec (insert_code user_id code now)
  insert_recovery_codes user_id codes now

unfoldable pub enable_two_factor : String → String → ℤ → List RecoveryCodeInput → ℕ → Db Unit
enable_two_factor user_id configuration_id counter codes now = transaction (do
  require_affected (exec (enable_setting user_id configuration_id counter now)) conflict
  exec (delete_codes user_id)
  insert_recovery_codes user_id codes now)

unfoldable pub consume_totp_counter : String → String → ℤ → ℕ → Db Unit
consume_totp_counter user_id configuration_id counter now =
    require_affected (exec (advance_counter user_id configuration_id counter now)) conflict

unfoldable pub consume_recovery_code : String → String → ℕ → Db Unit
consume_recovery_code user_id hash now =
    require_affected (exec (use_code user_id hash now)) not_found

abbrev pub is_unused : String → RecoveryCode → Bool
is_unused user_id r = r.user_id == user_id && not (is_some r.used_at)

unfoldable pub count_recovery_codes : String → Db ℕ
count_recovery_codes user_id = query (λ t. count (is_unused user_id) t.two_factor_recovery_codes)

-- `count(codes.id)` over the settings joined with the unused codes of their users.
unfoldable pub joined_codes : String → List RecoveryCode → List UserTwoFactor → ℕ
joined_codes user_id codes [] = 0
joined_codes user_id codes (r ∷ rows) =
    (if is_enabled user_id r then count (is_unused r.user_id) codes else 0)
    + joined_codes user_id codes rows

unfoldable pub get_two_factor_status : String → Db (Bool × ℕ)
get_two_factor_status user_id = query (λ t. (
  any (is_enabled user_id) t.user_two_factor,
  joined_codes user_id t.two_factor_recovery_codes t.user_two_factor,
))

-- Why no row was advanced: the counter was used, or the setting has changed.
abbrev pub replayed : ℤ → Option ℤ → Db Unit
replayed counter none = raise conflict
replayed counter (some last) =
    branch (leb_ℤ counter last) (raise invalid_second_factor) (raise conflict)

abbrev pub rejected : String → ℤ → Option UserTwoFactor → Db Unit
rejected configuration_id counter none = raise conflict
rejected configuration_id counter (some current) =
    branch (not (current.configuration_id == configuration_id)) (raise conflict)
      (replayed counter current.last_totp_counter)

unfoldable pub replace_recovery_codes : String → String → ℤ → List RecoveryCodeInput → ℕ → Db Unit
replace_recovery_codes user_id configuration_id counter codes now = transaction (do
  result ← exec (advance_counter user_id configuration_id counter now)
  affected ← rows_affected result
  branch (eqb affected 0)
      (do
        current ← query (current_configuration user_id)
        rejected configuration_id counter current)
      (do exec (delete_codes user_id); insert_recovery_codes user_id codes now))

unfoldable pub delete_enabled : String → Tables → Option (ℕ × Tables)
delete_enabled user_id t = some (
  count (is_enabled user_id) t.user_two_factor,
  record t { user_two_factor = delete_where (is_enabled user_id) t.user_two_factor },
)

unfoldable pub disable_two_factor : String → Db Unit
disable_two_factor user_id =
    transaction
      (do exec (delete_codes user_id); require_affected (exec (delete_enabled user_id)) not_found)
