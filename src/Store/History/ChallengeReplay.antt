-- ===== src/Store/History/ChallengeReplay.antt =====
-- store.go: a second login with a challenge that was accepted.
use vibe_terminal.Base.{
  ◌≡◌, ◌≢◌, refl, sym, ◌∙◌, inl, inr, Bool-cases, some, List, [], ◌∷◌, eq_iff, arith, count, All,
  All-imp, ◌<◌,
}
use vibe_terminal.Store.Rows.{LoginChallenge, Tables, ConsumeLoginSecondFactorParams}
use vibe_terminal.Store.Db.{Conn, ok}
use vibe_terminal.Store.Table.{update_where}
use vibe_terminal.Store.TwoFactor.{claimable, consume_login_second_factor}
use vibe_terminal.Store.TwoFactor.Consume.{consume_sound, consumed}
use vibe_terminal.Store.History.{Call, run, Each}
use vibe_terminal.Store.History.Rules.{IsFresh, run_keeps}
use vibe_terminal.Store.History.Challenge
use vibe_terminal.Store.History.Challenge.{ConsumedRow, IsConsumed, IsConsumed-closed}

-- `jti` is the primary key of the challenges.
abbrev pub IsKeyedByJti : List LoginChallenge → Type 0
IsKeyedByJti [] = Unit
IsKeyedByJti (r ∷ rows) = All (λ s. s.jti ≢ r.jti) rows × IsKeyedByJti rows

unclaimed :
    (p : ConsumeLoginSecondFactorParams) (rows : List LoginChallenge)
    → All (λ s. s.jti ≢ p.challenge_jti) rows
    → All
        (ConsumedRow p.challenge_jti)
        (update_where (claimable p) (λ r. record r { consumed_at = some p.now }) rows)
unfolding update_where
unclaimed p [] h = tt
unclaimed p (r ∷ rows) h =
    (λ q. ground (arith, h.0, eq_iff r.jti p.challenge_jti), unclaimed p rows h.1)

count_unclaimable :
    (p : ConsumeLoginSecondFactorParams) (rows : List LoginChallenge)
    → All (λ s. s.jti ≢ p.challenge_jti) rows
    → count (claimable p) rows ≡ 0
count_unclaimable p [] h = refl
count_unclaimable p (r ∷ rows) h =
    ground (arith, h.0, eq_iff r.jti p.challenge_jti, count_unclaimable p rows h.1)

claimed_consumed :
    (p : ConsumeLoginSecondFactorParams) (rows : List LoginChallenge)
    → IsKeyedByJti rows
    → 0 < count (claimable p) rows
    → All
        (ConsumedRow p.challenge_jti)
        (update_where (claimable p) (λ r. record r { consumed_at = some p.now }) rows)
unfolding update_where
claimed_consumed p [] k h = tt
claimed_consumed p (r ∷ rows) k h =
    let others = λ (e : r.jti ≡ p.challenge_jti).
      All-imp (λ x. x.jti ≢ r.jti) (λ x. x.jti ≢ p.challenge_jti) (λ x ne q. ne (q ∙ sym e)) rows
        k.0 in
    elim (Bool-cases (claimable p r)) [
      | inl hit ↦
          let mine : r.jti ≡ p.challenge_jti = ground (arith, eq_iff r.jti p.challenge_jti) in
          (λ q. ground arith, unclaimed p rows (others mine))
      | inr miss ↦
          let more : 0 < count (claimable p) rows = ground arith in
          (
            λ q.
                let e : r.jti ≡ p.challenge_jti = ground arith in
                absurd (omega (arith, count_unclaimable p rows (others e))),
            claimed_consumed p rows k.1 more,
          )
    ]

claimed_spent :
    (p : ConsumeLoginSecondFactorParams) (rows : List LoginChallenge)
    → All (ConsumedRow p.challenge_jti) rows
    → count (claimable p) rows ≡ 0
claimed_spent p [] h = refl
claimed_spent p (r ∷ rows) h =
    ground (arith, h.0, eq_iff r.jti p.challenge_jti, claimed_spent p rows h.1)

consumed-IsConsumed :
    (p : ConsumeLoginSecondFactorParams) (t : Tables)
    → IsKeyedByJti t.login_challenges
    → 0 < count (claimable p) t.login_challenges
    → IsConsumed p.challenge_jti (consumed p t)
consumed-IsConsumed p t k h = claimed_consumed p t.login_challenges k h

-- Take a login that was accepted, any calls afterwards that do not issue a challenge with the same
-- `jti` again, and then a login with the same challenge, be its code, user and time others. It is not
-- accepted.
pub challenge_replay :
    (p q : ConsumeLoginSecondFactorParams) (c : Conn) (calls : List Call)
    → IsKeyedByJti c.tables.login_challenges
    → q.challenge_jti ≡ p.challenge_jti
    → (consume_login_second_factor p c).0 ≡ ok tt
    → Each (IsFresh (Challenge.inputs p.challenge_jti)) calls
    → (consume_login_second_factor q (run (consume_login_second_factor p c).1 calls)).0 ≢ ok tt
challenge_replay p q c calls keyed qj accepted fresh again =
    let (a, written) = consume_sound p c accepted in
    let after = (consume_login_second_factor p c).1 in
    let first : IsConsumed p.challenge_jti after.tables =
      rw written (consumed-IsConsumed p c.tables keyed a.challenge) in
    let later =
      run_keeps (IsConsumed p.challenge_jti) _ (IsConsumed-closed p.challenge_jti) after calls fresh
        first in
    let same : IsConsumed q.challenge_jti (run after calls).tables = rw qj later in
    let b = (consume_sound q (run after calls) again).0 in
    omega (arith, b.challenge, claimed_spent q (run after calls).tables.login_challenges same)
