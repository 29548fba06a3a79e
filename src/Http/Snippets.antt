-- ===== src/Http/Snippets.antt =====
-- server/internal/httpapi/router.go: the handlers of command snippets.
use vibe_terminal.Base.{String, Bool, not, ◌||◌, ◌&&◌, List, ◌==◌, if◌then◌else◌}
use vibe_terminal.Text.{has_char}
use vibe_terminal.Store.Rows.{CommandSnippet}
use vibe_terminal.Store.Db.{Result, ok, err}
use vibe_terminal.Store.Devices.{
  list_command_snippets, create_command_snippet, update_command_snippet, delete_command_snippet,
}
use vibe_terminal.Http.{
  Packages, Router, World, snippet, snippets, no_content, Http, write_json, write_error, call,
  write_store_error,
}
use vibe_terminal.Http.Incoming.{Request, Decoder, require_user, read_json}

pub record SnippetBody : Type 0 where
  pub name : String
  pub command : String

-- `normalize`: the body afterwards, and the answer.
unfoldable pub normalize : Packages → SnippetBody → SnippetBody × Bool
normalize lib b =
    let name = lib.trim_space b.name in
    (record b { name = name }, not (name == "") && not (lib.trim_space b.command == ""))

-- `snippetIDFromPath`, after the prefix; a slash is 47.
unfoldable pub snippet_id_from_path : String → String
snippet_id_from_path id = if id == "" || has_char 47 id then "" else id

module _ (lib : Packages) (r : Router) (o : World) where
  unfoldable pub listed_snippets : Result (List CommandSnippet) → Http
  listed_snippets (err e) = write_error 500 "snippet_error" "failed to list snippets"
  listed_snippets (ok rows) = write_json 200 (snippets rows)

  unfoldable pub handle_list_snippets : Request → Http
  unfolding listed_snippets
  handle_list_snippets req =
      require_user lib r o req (λ u. call list_command_snippets listed_snippets)

  unfoldable pub created_snippet : Result CommandSnippet → Http
  created_snippet (err e) = write_error 500 "snippet_error" "failed to create snippet"
  created_snippet (ok row) = write_json 201 (snippet row)

  -- The test of the body, and what follows.
  unfoldable pub with_snippet : SnippetBody × Bool → (SnippetBody → Http) → Http
  with_snippet (body, valid) k =
      if not valid
      then write_error 400 "invalid_snippet" "name and command are required"
      else k body

  unfoldable pub handle_create_snippet : Decoder SnippetBody → Request → Http
  unfolding with_snippet normalize created_snippet
  handle_create_snippet json req = require_user lib r o req (λ u. read_json json req.body (λ body.
      with_snippet (normalize lib body) (λ b.
        call
          (create_command_snippet o.outside.clock (record {
            id = o.new_id;
            name = b.name;
            command = b.command;
            created_at = 0;
            updated_at = 0;
          }))
          created_snippet)))

  unfoldable pub updated_snippet : Result CommandSnippet → Http
  updated_snippet (err e) = write_store_error e "snippet"
  updated_snippet (ok row) = write_json 200 (snippet row)

  -- `path` is what follows `/api/snippets/`.
  unfoldable pub handle_update_snippet : Decoder SnippetBody → Request → String → Http
  unfolding with_snippet normalize updated_snippet snippet_id_from_path
  handle_update_snippet json req path = require_user lib r o req (λ u.
      let id = snippet_id_from_path path in
      if id == ""
      then write_error 404 "not_found" "snippet not found"
      else read_json json req.body (λ body.
        with_snippet (normalize lib body)
          (λ b. call (update_command_snippet o.outside.clock id b.name b.command) updated_snippet)))

  unfoldable pub deleted_snippet : Result {0} Unit → Http
  deleted_snippet (err e) = write_store_error e "snippet"
  deleted_snippet (ok _) = write_json 204 no_content

  unfoldable pub handle_delete_snippet : Request → String → Http
  unfolding deleted_snippet snippet_id_from_path
  handle_delete_snippet req path = require_user lib r o req (λ u.
      let id = snippet_id_from_path path in
      if id == ""
      then write_error 404 "not_found" "snippet not found"
      else call (delete_command_snippet id) deleted_snippet)
