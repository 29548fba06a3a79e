-- ===== src/Http/Tokens.antt =====
-- server/internal/httpapi/router.go: the handlers of registration tokens.
use vibe_terminal.Base.{
  ℕ, ◌+◌, ◌-◌, ◌*◌, ◌%◌, ◌^◌, ltb, ℤ, pos, leb_ℤ, pos_part, String, ◌||◌, Option, none, some, List,
  ◌==◌, if◌then◌else◌,
}
use vibe_terminal.Text.{has_char, cut_suffix}
use vibe_terminal.Auth.{minute}
use vibe_terminal.Store.Rows.{User, AgentToken}
use vibe_terminal.Store.Db.{Result, ok, err, not_found, conflict}
use vibe_terminal.Store.Tokens.{
  create_agent_token, list_agent_tokens, revoke_agent_token, delete_revoked_agent_token,
}
use vibe_terminal.Http.{
  Packages, Router, World, agent_token, agent_tokens, no_content, Http, write_json, write_error,
  call, log_audit, random_token, hash_secret,
}
use vibe_terminal.Http.Incoming.{Request, Decoder, require_user, read_json}
use vibe_terminal.Http.Login.{user_event}

pub record TokenBody : Type 0 where
  pub name : String
  pub ttl_hours : ℤ

-- `now.Add(time.Duration(hours) * time.Hour)`: a duration is a signed number of 64 bits.
unfoldable pub add_hours : ℕ → ℕ → ℕ
add_hours now hours =
    let d = hours * (60 * minute) % 2 ^ 64 in if ltb d (2 ^ 63) then now + d else now - (2 ^ 64 - d)

module _ (lib : Packages) (r : Router) (o : World) where
  abbrev pub token_not_found : Http
  token_not_found = write_error 404 "not_found" "agent token not found"

  unfoldable pub created_token : User → String → Result AgentToken → Http
  created_token u raw (err e) = write_error 500 "token_error" "failed to save token"
  created_token u raw (ok token) =
      log_audit o (user_event u.id "agent_token_created" "agent registration token created" "")
        (write_json 201 (agent_token token (some raw)))

  unfoldable pub create_with : User → TokenBody → Option String → Http
  unfolding created_token hash_secret add_hours
  create_with u body none = write_error 500 "token_error" "failed to create token"
  create_with u body (some raw) =
      call
        (create_agent_token o.outside.clock (record {
          id = o.new_id;
          name = if body.name == "" then "agent" else body.name;
          token_hash = hash_secret lib raw;
          expires_at =
              add_hours o.now
                (if leb_ℤ body.ttl_hours (pos 0) then 24 else pos_part body.ttl_hours);
        }))
        (created_token u raw)

  unfoldable pub handle_create_agent_token : Decoder TokenBody → Request → Http
  unfolding create_with random_token
  handle_create_agent_token json req =
      require_user lib r o req
        (λ u. read_json json req.body (λ body. create_with u body (random_token lib o)))

  unfoldable pub listed_tokens : Result (List AgentToken) → Http
  listed_tokens (err e) = write_error 500 "token_error" "failed to list tokens"
  listed_tokens (ok tokens) = write_json 200 (agent_tokens tokens)

  unfoldable pub handle_list_agent_tokens : Request → Http
  unfolding listed_tokens
  handle_list_agent_tokens req =
      require_user lib r o req (λ u. call list_agent_tokens listed_tokens)

  unfoldable pub deleted_token : User → Result {0} Unit → Http
  deleted_token u (err not_found) = token_not_found
  deleted_token u (err conflict) =
      write_error 409 "token_active" "agent token must be revoked before permanent deletion"
  deleted_token u (err e) = write_error 500 "token_error" "failed to delete token"
  deleted_token u (ok _) =
      log_audit o
        (user_event u.id "agent_token_deleted" "agent registration token permanently deleted" "")
        (write_json 204 no_content)

  unfoldable pub handle_delete_revoked_agent_token : User → String → Http
  unfolding deleted_token
  handle_delete_revoked_agent_token u id =
      if id == "" || has_char 47 id
      then token_not_found
      else call (delete_revoked_agent_token id) (deleted_token u)

  unfoldable pub revoked_token : User → Result AgentToken → Http
  revoked_token u (err not_found) = token_not_found
  revoked_token u (err e) = write_error 500 "token_error" "failed to revoke token"
  revoked_token u (ok token) =
      log_audit o (user_event u.id "agent_token_revoked" "agent registration token revoked" "")
        (write_json 200 (agent_token token none))

  -- The handler after the test of the suffix.
  unfoldable pub revoke_or_delete : User → String → Option String → Http
  unfolding handle_delete_revoked_agent_token revoked_token
  revoke_or_delete u id (some front) = handle_delete_revoked_agent_token u front
  revoke_or_delete u id none =
      if id == "" || has_char 47 id
      then token_not_found
      else call (revoke_agent_token id o.now) (revoked_token u)

  -- `id` is the path after `/api/agent-tokens/`.
  unfoldable pub handle_revoke_agent_token : Request → String → Http
  unfolding revoke_or_delete cut_suffix
  handle_revoke_agent_token req id =
      require_user lib r o req (λ u. revoke_or_delete u id (cut_suffix "/permanent" id))
