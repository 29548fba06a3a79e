-- ===== src/Http/Terminals/Web.antt =====
-- server/internal/httpapi/router.go: the messages of a browser on its connection.
use vibe_terminal.Base.{String, Option, none, some, ◌++◌, ◌==◌, if◌then◌else◌}
use vibe_terminal.Protocol.{
  Envelope, Message, Stdin, Resize, stdin, resize, session_state, type_subscribe_session,
  type_stdin, type_resize, type_session_state,
}
use vibe_terminal.Hub.{HubError, bind_session, subscribe_web, unsubscribe_peer, from_web}
use vibe_terminal.Store.Rows.{TerminalSession}
use vibe_terminal.Store.Db.{Result, ok, err}
use vibe_terminal.Store.Sessions.{get_terminal_session}
use vibe_terminal.Sessions.{Step, Outside, skip, ◌▷◌, ask, update_hub, reply, error_outbound}

-- `encoding/json` on the payloads of a browser, and the text of an error of the hub.
pub record WebDecoder : Type 0 where
  pub subscribe_session : String → Option String
  pub stdin : String → Option Stdin
  pub resize : String → Option Resize
  pub error_text : HubError → String

module _ (o : Outside) (json : WebDecoder) (peer : String) where
  unfoldable pub subscribe_found : Result TerminalSession → Step
  subscribe_found (err e) = reply peer (error_outbound "session_not_found" "session not found")
  subscribe_found (ok session) =
      update_hub (λ h. bind_session h session.id session.device_id)
      ▷ update_hub (λ h. subscribe_web h session.id peer)
      ▷ reply peer (record {
        type = type_session_state;
        session_id = session.id;
        request_id = "";
        payload =
            session_state
              (record { session_id = session.id; status = session.status; message = "" });
      })

  unfoldable pub on_subscribe : Option String → Step
  unfolding subscribe_found
  on_subscribe none = reply peer (error_outbound "invalid_payload" "invalid subscribe payload")
  on_subscribe (some session_id) = ask (get_terminal_session session_id) subscribe_found

  unfoldable pub web_failed : Option HubError → Step
  web_failed none = skip
  web_failed (some e) = reply peer (error_outbound "agent_unavailable" (json.error_text e))

  -- `r.hub.FromWeb` on a connection
  unfoldable pub pass_on : Message → Step
  unfolding web_failed
  pass_on msg s =
      let (error, messages) = from_web o.delivers s.hub msg in
      web_failed error (record s { sent = s.sent ++ messages })

  unfoldable pub on_stdin : Option Stdin → Step
  unfolding pass_on
  on_stdin none = reply peer (error_outbound "invalid_payload" "invalid stdin payload")
  on_stdin (some msg) = pass_on (stdin msg)

  unfoldable pub on_resize : Option Resize → Step
  unfolding pass_on
  on_resize none = reply peer (error_outbound "invalid_payload" "invalid resize payload")
  on_resize (some msg) = pass_on (resize msg)

  unfoldable pub on_envelope : Envelope → Step
  unfolding on_subscribe on_stdin on_resize
  on_envelope env =
      if env.type == type_subscribe_session
      then on_subscribe (json.subscribe_session env.payload)
      else if env.type == type_stdin
      then on_stdin (json.stdin env.payload)
      else if env.type == type_resize
      then on_resize (json.resize env.payload)
      else reply peer (error_outbound "unsupported_message" "unsupported web message")

  -- A round of the loop of `handleWebWebSocket`, on what `DecodeEnvelope` gives.
  unfoldable pub on_web_message : Option Envelope → Step
  unfolding on_envelope
  on_web_message none = reply peer (error_outbound "invalid_envelope" "invalid protocol envelope")
  on_web_message (some env) = on_envelope env

  -- The deferred call at the end of the connection.
  unfoldable pub end_web : Step
  end_web = update_hub (λ h. unsubscribe_peer h peer)
