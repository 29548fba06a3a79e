-- ===== src/Store/History/CounterReplay.antt =====
-- store.go: a second login with a TOTP counter that was accepted.
use vibe_terminal.Base.{
  ℕ, ℤ, ◌≤ℤ◌, String, ◌≡◌, ◌≢◌, refl, sym, subst, ◌∙◌, inl, inr, Bool-cases, true, some, List, [],
  ◌∷◌, eq_iff, arith, count, is_some, All, All-imp,
}
use vibe_terminal.Store.Rows.{UserTwoFactor, Tables, ConsumeLoginSecondFactorParams}
use vibe_terminal.Store.Db.{Conn, ok}
use vibe_terminal.Store.Table.{update_where, find_where, find_where-some, find_where_All}
use vibe_terminal.Store.TwoFactor.{is_enabled, accepts, consume_login_second_factor}
use vibe_terminal.Store.TwoFactor.Consume.{
  IsAccepted, consume_sound, consumed, CredentialFits, spent_credential,
}
use vibe_terminal.Store.History.{Call, run, Each}
use vibe_terminal.Store.History.Rules.{IsFresh, run_keeps}
use vibe_terminal.Store.History.Counter
use vibe_terminal.Store.History.Counter.{SpentRow, IsSpent, IsSpent-closed}

-- `user_id` is the primary key of the settings.
abbrev pub IsKeyed : List UserTwoFactor → Type 0
IsKeyed [] = Unit
IsKeyed (r ∷ rows) = All (λ s. s.user_id ≢ r.user_id) rows × IsKeyed rows

-- So a user with an enabled setting has no other.
All-enabled :
    (user_id : String) (rows : List UserTwoFactor) (s : UserTwoFactor)
    → IsKeyed rows
    → find_where (is_enabled user_id) rows ≡ some s
    → All (λ r. r.user_id ≡ user_id → is_some r.enabled_at ≡ true) rows
unfolding find_where
All-enabled user_id [] s k e = tt
All-enabled user_id (r ∷ rows) s k e = elim (Bool-cases (is_enabled user_id r)) [
  | inl hit ↦
      let mine : r.user_id ≡ user_id = ground (arith, eq_iff r.user_id user_id) in
      (
        λ q. ground arith,
        All-imp (λ x. x.user_id ≢ r.user_id) _ (λ x ne q. absurd (ne (q ∙ sym mine))) rows k.0,
      )
  | inr miss ↦
      let found : find_where (is_enabled user_id) rows ≡ some s = ground arith in
      let other : s.user_id ≢ r.user_id = find_where_All _ _ rows s found k.0 in
      let owner = find_where-some (is_enabled user_id) rows s found in
      (
        λ q. absurd (other (ground (arith, owner, eq_iff s.user_id user_id))),
        All-enabled user_id rows s k.1 found,
      )
]

module _ (user_id configuration_id : String) (counter : ℤ) where
  count_spent :
      (m : ℤ) (rows : List UserTwoFactor)
      → m ≤ℤ counter
      → All (SpentRow user_id configuration_id counter) rows
      → count (accepts user_id configuration_id m) rows ≡ 0
  count_spent m [] le h = refl
  count_spent m (r ∷ rows) le h = ground (
    arith,
    count_spent m rows le h.1,
    h.0,
    eq_iff r.user_id user_id,
    eq_iff r.configuration_id configuration_id,
  )

  -- An advance to the counter leaves it spent, if every row of the user is enabled.
  advanced_spent :
      (now : ℕ) (rows : List UserTwoFactor)
      → All (λ r. r.user_id ≡ user_id → is_some r.enabled_at ≡ true) rows
      → All (SpentRow user_id configuration_id counter) (
          update_where
            (accepts user_id configuration_id counter)
            (λ r. record r { last_totp_counter = some counter; updated_at = now })
            rows)
  unfolding update_where
  advanced_spent now [] e = tt
  advanced_spent now (r ∷ rows) e = (
    λ p q.
        ground (arith, e.0, eq_iff r.user_id user_id, eq_iff r.configuration_id configuration_id),
    advanced_spent now rows e.1,
  )

consumed-IsSpent :
    (p : ConsumeLoginSecondFactorParams) (n : ℤ) (t : Tables)
    → IsKeyed t.user_two_factor
    → p.totp_counter ≡ some n
    → IsAccepted p t
    → IsSpent p.user_id p.configuration_id n (consumed p t)
consumed-IsSpent p n t keyed e a =
    subst (λ o. IsSpent p.user_id p.configuration_id n (spent_credential p o t)) (sym e)
      (advanced_spent p.user_id p.configuration_id n p.now t.user_two_factor
        (All-enabled p.user_id t.user_two_factor a.setting keyed a.enabled))

IsSpent-refuses :
    (q : ConsumeLoginSecondFactorParams) (n m : ℤ) (t : Tables)
    → q.totp_counter ≡ some m
    → m ≤ℤ n
    → IsSpent q.user_id q.configuration_id n t
    → ¬ IsAccepted q t
IsSpent-refuses q n m t e le spent a =
    let fits : CredentialFits q t (some m) = subst (CredentialFits q t) e a.credential in
    omega (arith, fits.1, count_spent q.user_id q.configuration_id n m t.user_two_factor le spent)

-- Take a login that was accepted with the counter `n`, any calls afterwards that do not set the same
-- configuration up again, and then a login of the same user and configuration with a counter
-- `m ≤ n`, be its challenge another one. It is not accepted.
pub counter_replay :
    (p q : ConsumeLoginSecondFactorParams) (n m : ℤ) (c : Conn) (calls : List Call)
    → IsKeyed c.tables.user_two_factor
    → p.totp_counter ≡ some n
    → q.totp_counter ≡ some m
    → m ≤ℤ n
    → q.user_id ≡ p.user_id
    → q.configuration_id ≡ p.configuration_id
    → (consume_login_second_factor p c).0 ≡ ok tt
    → Each (IsFresh (Counter.inputs p.user_id p.configuration_id n)) calls
    → (consume_login_second_factor q (run (consume_login_second_factor p c).1 calls)).0 ≢ ok tt
counter_replay p q n m c calls keyed pn qm le qu qk accepted fresh again =
    let (a, written) = consume_sound p c accepted in
    let after = (consume_login_second_factor p c).1 in
    let first : IsSpent p.user_id p.configuration_id n after.tables =
      rw written (consumed-IsSpent p n c.tables keyed pn a) in
    let later =
      run_keeps (IsSpent p.user_id p.configuration_id n) _
        (IsSpent-closed p.user_id p.configuration_id n) after calls fresh first in
    let same : IsSpent q.user_id q.configuration_id n (run after calls).tables =
      rw (qu, qk) later in
    IsSpent-refuses q n m (run after calls).tables qm le same
      (consume_sound q (run after calls) again).0
