-- ===== src/Http/Incoming.antt =====
-- server/internal/httpapi/router.go: what is read of a request.
use vibe_terminal.Base.{
  String, Bool, true, false, not, Option, none, some, List, ◌==◌, if◌then◌else◌,
}
use vibe_terminal.Json.{Token, validate_no_duplicate_json_fields}
use vibe_terminal.Auth.Cookie.{Session, user, failed, get_session}
use vibe_terminal.Store.Rows.{User}
use vibe_terminal.Store.Db.{Result, ok, err, not_found}
use vibe_terminal.Store.Devices.{get_user_by_id}
use vibe_terminal.Http.{Packages, Router, World, Http, write_error, call}

-- What `io.ReadAll` gives of the body, under `http.MaxBytesReader` with `maxLoginJSONBytes`.
pub data BodyRead : Type 0 where
  too_large unreadable : BodyRead
  content : String → BodyRead

pub record Request : Type 0 where
  pub content_type : String
  pub remote_addr : String
  pub cookie : Option String
  pub body : BodyRead

-- `encoding/json` on a body: its tokens, and what `Decode` gives for the type of the handler, with
-- whether the body ends there.
pub record Decoder (A : Type 0) : Type 0 where
  pub tokens : String → List Token
  pub decode : String → Option (A × Bool)

unfoldable pub is_json : Option String → Bool
is_json none = false
is_json (some media_type) = media_type == "application/json"

module _ {A : Type 0} where
  unfoldable pub decode_body : Option (A × Bool) → (A → Http) → Http
  decode_body none k = write_error 400 "invalid_json" "request body must be valid JSON"
  decode_body (some (a, false)) k =
      write_error 400 "invalid_json" "request body must contain exactly one JSON value"
  decode_body (some (a, true)) k = k a

  unfoldable pub read_body : Decoder A → BodyRead → (A → Http) → Http
  unfolding decode_body
  read_body json too_large k =
      write_error 413 "request_too_large" "request body exceeds the login size limit"
  read_body json unreadable k =
      write_error 400 "invalid_json" "request body must be valid JSON without duplicate fields"
  read_body json (content text) k =
      if not (validate_no_duplicate_json_fields (json.tokens text))
      then write_error 400 "invalid_json" "request body must be valid JSON without duplicate fields"
      else decode_body (json.decode text) k

  -- `readLoginJSON`, and the handler goes on if it returns true.
  unfoldable pub read_login_json : Packages → Decoder A → Request → (A → Http) → Http
  unfolding read_body is_json
  read_login_json lib json req k =
      if not (is_json (lib.media_type req.content_type))
      then write_error 415 "unsupported_media_type" "content type must be application/json"
      else read_body json req.body k

unfoldable pub decode_any : {A : Type 0} → Option (A × Bool) → (A → Http) → Http
decode_any none k = write_error 400 "invalid_json" "request body must be valid JSON"
decode_any (some (a, ends)) k = k a

-- `readJSON`, which leaves the rest of the body, and the handler goes on if it returns true. Without
-- a limit no body is too large.
unfoldable pub read_json : {A : Type 0} → Decoder A → BodyRead → (A → Http) → Http
unfolding decode_any
read_json json (content text) k = decode_any (json.decode text) k
read_json json read k = write_error 400 "invalid_json" "request body must be valid JSON"

unfoldable pub found_user : (User → Http) → Result User → Http
found_user k (ok u) = k u
found_user k (err not_found) = write_error 401 "unauthorized" "login required"
found_user k (err e) = write_error 500 "authentication_unavailable" "authentication is unavailable"

unfoldable pub session_user : (User → Http) → Session → Http
unfolding found_user
session_user k (failed e) = write_error 401 "unauthorized" "login required"
session_user k (user user_id) = call (get_user_by_id user_id) (found_user k)

-- `requireUser`, and the handler goes on if it returns true.
unfoldable pub require_user : Packages → Router → World → Request → (User → Http) → Http
unfolding session_user
require_user lib r o req k =
    session_user k (get_session lib.cookies r.sessions o.cookie_at req.cookie)
