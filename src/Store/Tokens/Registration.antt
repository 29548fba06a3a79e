-- ===== src/Store/Tokens/Registration.antt =====
-- store.go, `UseAgentTokenByHash`: what it checks, what it writes, and a second use.
use vibe_terminal.Base.{
  ℕ, String, ◌≡◌, ◌≢◌, refl, sym, ◌∙◌, inl, inr, none, some, List, [], ◌∷◌, eq_iff, All, All-imp,
  arith, Option-cases, Bool-cases,
}
use vibe_terminal.Store.Rows.{AgentToken}
use vibe_terminal.Store.Db.{ok, Conn, transaction}
use vibe_terminal.Store.Table.{update_where, find_where, find_where-some, find_where_All}
use vibe_terminal.Store.TwoFactor.Consume.{IsAtomic}
use vibe_terminal.Store.Tokens.{has_id, usable, mark_used, use_agent_token_by_hash}
use vibe_terminal.Store.Tokens.SingleUse.{Call, run, Each, IsFresh, Spent, IsSpent, run-IsSpent}

-- `token_hash` is unique.
abbrev pub IsKeyed : List AgentToken → Type 0
IsKeyed [] = Unit
IsKeyed (r ∷ rows) = All (λ s. s.token_hash ≢ r.token_hash) rows × IsKeyed rows

abbrev pub mark : ℕ → AgentToken → AgentToken
mark at r = record r { used_at = some at }

others-Spent :
    (hash id : String) (at : ℕ) (rows : List AgentToken)
    → All (λ s. s.token_hash ≢ hash) rows
    → All (Spent hash) (update_where (has_id id) (mark at) rows)
unfolding update_where
others-Spent hash id at [] h = tt
others-Spent hash id at (r ∷ rows) h =
    (λ q. absurd (h.0 (ground arith)), others-Spent hash id at rows h.1)

used-Spent :
    (hash : String) (at : ℕ) (rows : List AgentToken) (token : AgentToken)
    → IsKeyed rows
    → find_where (usable hash at) rows ≡ some token
    → All (Spent hash) (update_where (has_id token.id) (mark at) rows)
unfolding update_where find_where
used-Spent hash at [] token k e = tt
used-Spent hash at (r ∷ rows) token k e = elim (Bool-cases (usable hash at r)) [
  | inl hit ↦
      let mine : r.token_hash ≡ hash = ground (arith, eq_iff r.token_hash hash) in
      let same : r.id ≡ token.id = ground arith in
      (
        λ q. ground (arith, eq_iff r.id token.id),
        others-Spent hash token.id at rows
            (All-imp (λ x. x.token_hash ≢ r.token_hash) _ (λ x ne q. ne (q ∙ sym mine)) rows k.0),
      )
  | inr miss ↦
      let found : find_where (usable hash at) rows ≡ some token = ground arith in
      let other : token.token_hash ≢ r.token_hash = find_where_All _ _ rows token found k.0 in
      let owner = find_where-some (usable hash at) rows token found in
      (
        λ q.
            let e' : r.token_hash ≡ hash = ground arith in
            absurd (other (ground (arith, owner, eq_iff token.token_hash hash))),
        used-Spent hash at rows token k.1 found,
      )
]

module _ (hash : String) (at : ℕ) (c : Conn) where
  -- A registration that fails, for whatever reason and whichever statement fails, writes nothing.
  pub use_agent_token-IsAtomic : IsAtomic c (use_agent_token_by_hash hash at c)
  unfolding use_agent_token_by_hash mark_used transaction
  use_agent_token-IsAtomic = ground arith

  -- The token that a registration uses was there with this hash, unused, unrevoked and unexpired. It
  -- is returned marked as used, and the row with its id is marked so: nothing else is written.
  pub use_agent_token_lem :
      (token : AgentToken)
      → (use_agent_token_by_hash hash at c).0 ≡ ok token
      → (found : AgentToken) × (find_where (usable hash at) c.tables.agent_tokens ≡ some found)
        × (token ≡ mark at found)
        × ((use_agent_token_by_hash hash at c).1.tables ≡ record c.tables {
          agent_tokens = update_where (has_id found.id) (mark at) c.tables.agent_tokens;
        })
  unfolding use_agent_token_by_hash mark_used transaction
  use_agent_token_lem token h =
      elim (Option-cases (find_where (usable hash at) c.tables.agent_tokens)) [
        | inl e ↦ absurd (ground arith)
        | inr (found, e) ↦ (found, e, ground arith, ground arith)
      ]

find-Spent :
    (hash : String) (at : ℕ) (rows : List AgentToken)
    → All (Spent hash) rows
    → find_where (usable hash at) rows ≡ none
unfolding find_where
find-Spent hash at [] h = refl
find-Spent hash at (r ∷ rows) h =
    ground (arith, find-Spent hash at rows h.1, h.0, eq_iff r.token_hash hash)

IsSpent-refuses :
    (hash : String) (at : ℕ) (c : Conn) (token : AgentToken)
    → IsSpent hash c.tables
    → (use_agent_token_by_hash hash at c).0 ≢ ok token
IsSpent-refuses hash at c token h e =
    let (found, f, _, _) = use_agent_token_lem hash at c token e in
    cc (f, find-Spent hash at c.tables.agent_tokens h)

-- Once a token was used, it is not accepted again, whatever calls come in between, at any time, as
-- long as no token with the same hash is created.
pub token_single_use :
    (hash : String) (at later : ℕ) (c : Conn) (token again : AgentToken) (calls : List Call)
    → IsKeyed c.tables.agent_tokens
    → (use_agent_token_by_hash hash at c).0 ≡ ok token
    → Each (IsFresh hash) calls
    → (use_agent_token_by_hash hash later (run (use_agent_token_by_hash hash at c).1 calls)).0
      ≢ ok again
token_single_use hash at later c token again calls keyed used fresh =
    let (found, f, _, written) = use_agent_token_lem hash at c token used in
    let after = (use_agent_token_by_hash hash at c).1 in
    let first : IsSpent hash after.tables =
      rw written (used-Spent hash at c.tables.agent_tokens found keyed f) in
    IsSpent-refuses hash later (run after calls) again (run-IsSpent hash after calls fresh first)
