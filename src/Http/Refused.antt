-- ===== src/Http/Refused.antt =====
-- router.go and router_2fa.go: the handlers that start with `requireUser`, without a session.
use vibe_terminal.Base.{String, ◌≡◌, refl, none}
use vibe_terminal.Auth.Cookie
use vibe_terminal.Auth.Cookie.{SessionError, get_session}
use vibe_terminal.Store.Rows.{User}
use vibe_terminal.Http.{Packages, Router, World, Http, App, fault, write_error}
use vibe_terminal.Http.Incoming.{Request, Decoder, session_user, require_user}
use vibe_terminal.Http.Login.{handle_me}
use vibe_terminal.Http.Management.{handle_two_factor_status, managed}
use vibe_terminal.Http.Management.Setup.{PasswordBody, handle_two_factor_setup}
use vibe_terminal.Http.Management.Enable.{CodeBody, handle_two_factor_enable}
use vibe_terminal.Http.Management.RecoveryCodes.{RotationBody, handle_two_factor_recovery_codes}
use vibe_terminal.Http.Management.Disable.{handle_two_factor_disable}
use vibe_terminal.Http.Tokens.{
  TokenBody, handle_create_agent_token, handle_list_agent_tokens, handle_revoke_agent_token,
}
use vibe_terminal.Http.Snippets.{
  SnippetBody, handle_list_snippets, handle_create_snippet, handle_update_snippet,
  handle_delete_snippet,
}
use vibe_terminal.Http.Terminals.{
  CreateRequest, handle_create_session, handle_list_sessions, handle_rename_session,
  handle_close_session, handle_list_devices, handle_rename_device,
}

-- The JSON of the bodies.
pub record Decoders : Type 0 where
  pub password : Decoder PasswordBody
  pub code : Decoder CodeBody
  pub rotation : Decoder RotationBody
  pub token : Decoder TokenBody
  pub snippet : Decoder SnippetBody
  pub create : Decoder CreateRequest
  pub text : Decoder String

-- The requests that ask for a user; `String` is the identifier in the path.
pub data Action : Type 0 where
  me two_factor_status two_factor_setup two_factor_enable recovery_codes two_factor_disable : Action
  create_token list_tokens : Action
  revoke_token : String → Action
  list_snippets create_snippet : Action
  update_snippet delete_snippet : String → Action
  get_devices : Action
  rename_device create_session list_sessions rename_session close_session : String → Action

module _ (lib : Packages) (r : Router) (o : World) (json : Decoders) (req : Request) where
  -- The handler of each.
  unfoldable pub serve : Action → Http
  serve me = handle_me lib r o req
  serve two_factor_status = handle_two_factor_status lib r o req
  serve two_factor_setup = handle_two_factor_setup lib r o json.password req
  serve two_factor_enable = handle_two_factor_enable lib r o json.code req
  serve recovery_codes = handle_two_factor_recovery_codes lib r o json.rotation req
  serve two_factor_disable = handle_two_factor_disable lib r o json.password req
  serve create_token = handle_create_agent_token lib r o json.token req
  serve list_tokens = handle_list_agent_tokens lib r o req
  serve (revoke_token id) = handle_revoke_agent_token lib r o req id
  serve list_snippets = handle_list_snippets lib r o req
  serve create_snippet = handle_create_snippet lib r o json.snippet req
  serve (update_snippet id) = handle_update_snippet lib r o json.snippet req id
  serve (delete_snippet id) = handle_delete_snippet lib r o req id
  serve get_devices = handle_list_devices lib r o req
  serve (rename_device id) = handle_rename_device lib r o json.text req id
  serve (create_session id) = handle_create_session lib r o json.create req id
  serve (list_sessions id) = handle_list_sessions lib r o req id
  serve (rename_session id) = handle_rename_session lib r o json.text req id
  serve (close_session id) = handle_close_session lib r o req id

  module _ (e : SessionError)
      (invalid : get_session lib.cookies r.sessions o.cookie_at req.cookie ≡ Cookie.failed e) where
    require_user_lem :
        (k : User → Http)
        → require_user lib r o req k ≡ write_error 401 "unauthorized" "login required"
    unfolding require_user session_user
    require_user_lem k = rw invalid refl

    abbrev IsRefused : Http → App → Type 0
    IsRefused k s =
        ((k s).1 ≡ s)
        × ((k s).0.status ≡ 401)
        × ((k s).0.body ≡ fault "unauthorized" "login required")
        × ((k s).0.cookie ≡ none)

    require_user-IsRefused : (k : User → Http) (s : App) → IsRefused (require_user lib r o req k) s
    unfolding write_error
    require_user-IsRefused k s = rw (require_user_lem k) (refl, refl, refl, refl)

    -- Without a valid session cookie, every request that asks for a user is answered with the
    -- status 401, and the state is left as it is, whatever the body and the path are.
    pub serve_refused :
        (a : Action) (s : App)
        → ((serve a s).1 ≡ s)
          × ((serve a s).0.status ≡ 401)
          × ((serve a s).0.body ≡ fault "unauthorized" "login required")
          × ((serve a s).0.cookie ≡ none)
    unfolding serve handle_two_factor_status handle_two_factor_setup handle_two_factor_enable
        handle_two_factor_recovery_codes handle_two_factor_disable managed handle_create_agent_token
        handle_list_agent_tokens handle_revoke_agent_token handle_list_snippets
        handle_create_snippet handle_update_snippet handle_delete_snippet handle_create_session
        handle_list_sessions handle_rename_session handle_close_session handle_list_devices
        handle_rename_device handle_me
    serve_refused two_factor_status s = require_user-IsRefused _ s
    serve_refused two_factor_setup s = require_user-IsRefused _ s
    serve_refused two_factor_enable s = require_user-IsRefused _ s
    serve_refused recovery_codes s = require_user-IsRefused _ s
    serve_refused two_factor_disable s = require_user-IsRefused _ s
    serve_refused create_token s = require_user-IsRefused _ s
    serve_refused list_tokens s = require_user-IsRefused _ s
    serve_refused (revoke_token id) s = require_user-IsRefused _ s
    serve_refused list_snippets s = require_user-IsRefused _ s
    serve_refused create_snippet s = require_user-IsRefused _ s
    serve_refused (update_snippet id) s = require_user-IsRefused _ s
    serve_refused (delete_snippet id) s = require_user-IsRefused _ s
    serve_refused get_devices s = require_user-IsRefused _ s
    serve_refused (rename_device id) s = require_user-IsRefused _ s
    serve_refused (create_session id) s = require_user-IsRefused _ s
    serve_refused (list_sessions id) s = require_user-IsRefused _ s
    serve_refused (rename_session id) s = require_user-IsRefused _ s
    serve_refused (close_session id) s = require_user-IsRefused _ s
    serve_refused me s = require_user-IsRefused _ s
