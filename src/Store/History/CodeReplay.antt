-- ===== src/Store/History/CodeReplay.antt =====
-- store.go: a second login with a recovery code that was accepted.
use vibe_terminal.Base.{
  ℕ, String, ◌≡◌, ◌≢◌, refl, sym, subst, none, some, List, [], ◌∷◌, eq_iff, arith, count, All,
}
use vibe_terminal.Store.Rows.{RecoveryCode, Tables, ConsumeLoginSecondFactorParams}
use vibe_terminal.Store.Db.{Conn, ok}
use vibe_terminal.Store.Table.{update_where}
use vibe_terminal.Store.TwoFactor.{unused_code, consume_login_second_factor}
use vibe_terminal.Store.TwoFactor.Consume.{
  IsAccepted, consume_sound, consumed, CredentialFits, spent_credential,
}
use vibe_terminal.Store.History.{Call, run, Each}
use vibe_terminal.Store.History.Rules.{IsFresh, run_keeps}
use vibe_terminal.Store.History.Code
use vibe_terminal.Store.History.Code.{UsedRow, IsUsed, IsUsed-closed}

code_spent :
    (user_id hash : String) (rows : List RecoveryCode)
    → All (UsedRow user_id hash) rows
    → count (unused_code user_id hash) rows ≡ 0
code_spent user_id hash [] h = refl
code_spent user_id hash (r ∷ rows) h = ground (
  arith,
  code_spent user_id hash rows h.1,
  h.0,
  eq_iff r.user_id user_id,
  eq_iff r.code_hash hash,
)

used-Spent :
    (user_id hash : String) (now : ℕ) (rows : List RecoveryCode)
    → All
        (UsedRow user_id hash)
        (update_where (unused_code user_id hash) (λ r. record r { used_at = some now }) rows)
unfolding update_where
used-Spent user_id hash now [] = tt
used-Spent user_id hash now (r ∷ rows) = (
  λ p q. ground (arith, eq_iff r.user_id user_id, eq_iff r.code_hash hash),
  used-Spent user_id hash now rows,
)

consumed-IsUsed :
    (p : ConsumeLoginSecondFactorParams) (t : Tables)
    → p.totp_counter ≡ none
    → IsUsed p.user_id p.recovery_hash (consumed p t)
consumed-IsUsed p t e =
    subst (λ o. IsUsed p.user_id p.recovery_hash (spent_credential p o t)) (sym e)
      (used-Spent p.user_id p.recovery_hash p.now t.two_factor_recovery_codes)

IsUsed-refuses :
    (q : ConsumeLoginSecondFactorParams) (t : Tables)
    → q.totp_counter ≡ none
    → IsUsed q.user_id q.recovery_hash t
    → ¬ IsAccepted q t
IsUsed-refuses q t e spent a =
    let fits : CredentialFits q t none = subst (CredentialFits q t) e a.credential in
    omega (arith, fits.1, code_spent q.user_id q.recovery_hash t.two_factor_recovery_codes spent)

-- Take a login that was accepted with a recovery code, any calls afterwards that do not issue a code
-- with the same hash to the user again, and then a login of the same user with the same code, be
-- its challenge and configuration others. It is not accepted.
pub code_replay :
    (p q : ConsumeLoginSecondFactorParams) (c : Conn) (calls : List Call)
    → p.totp_counter ≡ none
    → q.totp_counter ≡ none
    → q.user_id ≡ p.user_id
    → q.recovery_hash ≡ p.recovery_hash
    → (consume_login_second_factor p c).0 ≡ ok tt
    → Each (IsFresh (Code.inputs p.user_id p.recovery_hash)) calls
    → (consume_login_second_factor q (run (consume_login_second_factor p c).1 calls)).0 ≢ ok tt
code_replay p q c calls pn qn qu qh accepted fresh again =
    let (a, written) = consume_sound p c accepted in
    let after = (consume_login_second_factor p c).1 in
    let first : IsUsed p.user_id p.recovery_hash after.tables =
      rw written (consumed-IsUsed p c.tables pn) in
    let later =
      run_keeps (IsUsed p.user_id p.recovery_hash) _ (IsUsed-closed p.user_id p.recovery_hash) after
        calls fresh first in
    let same : IsUsed q.user_id q.recovery_hash (run after calls).tables = rw (qu, qh) later in
    IsUsed-refuses q (run after calls).tables qn same (consume_sound q (run after calls) again).0
