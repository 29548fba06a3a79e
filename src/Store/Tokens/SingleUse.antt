-- ===== src/Store/Tokens/SingleUse.antt =====
-- store.go: histories of calls on the registration tokens.
use vibe_terminal.Base.{
  ℕ, String, ◌≡◌, ◌≢◌, refl, true, ◌||◌, List, [], ◌∷◌, is_some, All, All-append, All-filter, arith,
}
use vibe_terminal.Store.Rows.{AgentToken, CreateAgentTokenParams, Tables}
use vibe_terminal.Store.Db.{Conn}
use vibe_terminal.Store.Table.{All-update_where}
use vibe_terminal.Store.Keeps.{Keeps, Kept, keeps_rules}
use vibe_terminal.Store.Tokens.{
  insert_token, create_agent_token, has_id, revoke, revoke_agent_token, delete_token,
  delete_revoked_agent_token, mark_used, use_agent_token_by_hash,
}

-- The calls that change the tokens.
pub data Call : Type 0 where
  creates : ℕ → CreateAgentTokenParams → Call
  revokes : String → ℕ → Call
  deletes : String → Call
  uses : String → ℕ → Call

unfoldable pub perform : Call → Conn → Conn
perform (creates clock params) c = (create_agent_token clock params c).1
perform (revokes id at) c = (revoke_agent_token id at c).1
perform (deletes id) c = (delete_revoked_agent_token id c).1
perform (uses hash at) c = (use_agent_token_by_hash hash at c).1

unfoldable pub run : Conn → List Call → Conn
run c [] = c
run c (call ∷ calls) = run (perform call c) calls

-- No token with the hash can be used (any more).
abbrev pub Spent : String → AgentToken → Type 0
Spent hash r = r.token_hash ≡ hash → (is_some r.used_at || is_some r.revoked_at) ≡ true

abbrev pub IsSpent : String → Tables → Type 0
IsSpent hash t = All (Spent hash) t.agent_tokens

-- The call does not create a token with the hash.
abbrev pub IsFresh : String → Call → Type 0
IsFresh hash (creates clock params) = params.token_hash ≢ hash
IsFresh hash _ = Unit

abbrev pub Each : (Call → Type 0) → List Call → Type 0
Each F [] = Unit
Each F (call ∷ calls) = F call × Each F calls

module _ (hash : String) where
  insert_keeps :
      (token : AgentToken) (t : Tables)
      → token.token_hash ≢ hash
      → IsSpent hash t
      → Kept (IsSpent hash) (insert_token token t)
  unfolding insert_token
  insert_keeps token t ne h =
      ground
        (arith, All-append (Spent hash) t.agent_tokens (token ∷ []) h ((λ q. absurd (ne q)), tt))

  revoke_keeps :
      (id : String) (at : ℕ) (t : Tables) → IsSpent hash t → Kept (IsSpent hash) (revoke id at t)
  unfolding revoke
  revoke_keeps id at t h =
      All-update_where (Spent hash) (has_id id) _ (λ r e k q. ground arith) t.agent_tokens h

  mark_used_keeps :
      (id : String) (at : ℕ) (t : Tables) → IsSpent hash t → Kept (IsSpent hash) (mark_used id at t)
  unfolding mark_used
  mark_used_keeps id at t h =
      All-update_where (Spent hash) (has_id id) _ (λ r e k q. refl) t.agent_tokens h

  delete_keeps :
      (id : String) (t : Tables) → IsSpent hash t → Kept (IsSpent hash) (delete_token id t)
  unfolding delete_token
  delete_keeps id t h = All-filter (Spent hash) _ t.agent_tokens h

  ruleset token_rules = (keeps_rules, insert_keeps, revoke_keeps, mark_used_keeps, delete_keeps)

  create_Keeps :
      (clock : ℕ) (params : CreateAgentTokenParams)
      → params.token_hash ≢ hash
      → Keeps (IsSpent hash) (create_agent_token clock params)
  unfolding create_agent_token
  create_Keeps clock params ne = search (token_rules, ne) depth 12

  revoke_Keeps : (id : String) (at : ℕ) → Keeps (IsSpent hash) (revoke_agent_token id at)
  unfolding revoke_agent_token
  revoke_Keeps id at = search token_rules depth 12

  delete_Keeps : (id : String) → Keeps (IsSpent hash) (delete_revoked_agent_token id)
  unfolding delete_revoked_agent_token
  delete_Keeps id = search token_rules depth 12

  use_Keeps : (other : String) (at : ℕ) → Keeps (IsSpent hash) (use_agent_token_by_hash other at)
  unfolding use_agent_token_by_hash
  use_Keeps other at = search token_rules depth 12

  perform-IsSpent :
      (call : Call) (c : Conn)
      → IsFresh hash call
      → IsSpent hash c.tables
      → IsSpent hash (perform call c).tables
  unfolding perform
  perform-IsSpent (creates clock params) c f h = (create_Keeps clock params f).at c h
  perform-IsSpent (revokes id at) c f h = (revoke_Keeps id at).at c h
  perform-IsSpent (deletes id) c f h = (delete_Keeps id).at c h
  perform-IsSpent (uses other at) c f h = (use_Keeps other at).at c h

  pub run-IsSpent :
      (c : Conn) (calls : List Call)
      → Each (IsFresh hash) calls
      → IsSpent hash c.tables
      → IsSpent hash (run c calls).tables
  unfolding run
  run-IsSpent c [] f h = h
  run-IsSpent c (call ∷ calls) f h =
      run-IsSpent (perform call c) calls f.1 (perform-IsSpent call c f.0 h)
