-- ===== src/Store/Tokens.antt =====
-- server/internal/store/store.go: the registration tokens of agents.
pub mod SingleUse
pub mod Registration
use vibe_terminal.Base.{
  ℕ, String, Bool, true, false, not, ◌&&◌, ◌||◌, Option, none, some, List, [], ◌∷◌, ◌++◌, ◌==◌, eqb,
  ltb, if◌then◌else◌, count, any, is_some,
}
use vibe_terminal.Store.Rows.{AgentToken, CreateAgentTokenParams, Tables}
use vibe_terminal.Store.Db.{
  Db, not_found, conflict, pure, raise, branch, query, exec, or_raise, rows_affected,
  require_affected, transaction, ◌>>=◌, ◌>>◌,
}
use vibe_terminal.Store.Table.{update_where, delete_where, find_where, order_by}

-- The primary key and `token_hash text not null unique`.
unfoldable pub insert_token : AgentToken → Tables → Option (ℕ × Tables)
insert_token token t =
    if any (λ r. r.id == token.id || r.token_hash == token.token_hash) t.agent_tokens
    then none
    else some (1, record t { agent_tokens = t.agent_tokens ++ token ∷ [] })

unfoldable pub create_agent_token : ℕ → CreateAgentTokenParams → Db AgentToken
create_agent_token clock params =
    let token : AgentToken = record {
      id = params.id;
      name = params.name;
      token_hash = params.token_hash;
      expires_at = params.expires_at;
      used_at = none;
      revoked_at = none;
      created_at = clock;
    } in
    exec (insert_token token) >> pure token

unfoldable pub list_agent_tokens : Db (List AgentToken)
list_agent_tokens = query (λ t. order_by (λ a b. ltb a.created_at b.created_at) t.agent_tokens)

abbrev pub has_id : String → AgentToken → Bool
has_id id r = r.id == id

unfoldable pub revoke : String → ℕ → Tables → Option (ℕ × Tables)
revoke id revoked_at t = some (
  count (has_id id) t.agent_tokens,
  record t {
    agent_tokens =
        update_where (has_id id) (λ r. record r { revoked_at = some revoked_at }) t.agent_tokens;
  },
)

unfoldable pub revoke_agent_token : String → ℕ → Db AgentToken
revoke_agent_token id revoked_at = transaction (do
  found ← query (λ t. find_where (has_id id) t.agent_tokens)
  token ← or_raise not_found found
  branch (is_some token.revoked_at) (pure token)
      (do exec (revoke id revoked_at); pure (record token { revoked_at = some revoked_at })))

unfoldable pub delete_token : String → Tables → Option (ℕ × Tables)
delete_token id t = some (
  count (has_id id) t.agent_tokens,
  record t { agent_tokens = delete_where (has_id id) t.agent_tokens },
)

-- Two statements with no transaction around them.
unfoldable pub delete_revoked_agent_token : String → Db Unit
delete_revoked_agent_token id = do
  found ← query (λ t. find_where (has_id id) t.agent_tokens)
  token ← or_raise not_found found
  branch (not (is_some token.revoked_at)) (raise conflict)
      (require_affected (exec (delete_token id)) not_found)

abbrev pub usable : String → ℕ → AgentToken → Bool
usable token_hash used_at r =
    r.token_hash == token_hash
    && not (is_some r.used_at)
    && not (is_some r.revoked_at)
    && ltb used_at r.expires_at

unfoldable pub mark_used : String → ℕ → Tables → Option (ℕ × Tables)
mark_used id used_at t = some (
  count (has_id id) t.agent_tokens,
  record t {
    agent_tokens =
        update_where (has_id id) (λ r. record r { used_at = some used_at }) t.agent_tokens;
  },
)

unfoldable pub use_agent_token_by_hash : String → ℕ → Db AgentToken
use_agent_token_by_hash token_hash used_at = transaction (do
  found ← query (λ t. find_where (usable token_hash used_at) t.agent_tokens)
  token ← or_raise not_found found
  exec (mark_used token.id used_at)
  pure (record token { used_at = some used_at }))
