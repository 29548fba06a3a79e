-- ===== src/Tests/Routes.antt =====
-- hub.go: two browsers, of which one subscribes to the session "s", and an agent.
use vibe_terminal.Base.{
  String, pos, ◌≡◌, refl, Bool, true, false, some, List, [], ◌∷◌, ◌==◌, if◌then◌else◌,
}
use vibe_terminal.GoMap.{lookup, insert}
use vibe_terminal.Protocol.{Message, stdin, stdout}
use vibe_terminal.Hub.{
  new_hub, Outbound, no_agent, attach_agent, detach_agent, bind_session, subscribe_web,
  unsubscribe_peer, send, to_device, from_web, from_agent, outbound, session_id_of,
}
use vibe_terminal.Hub.Routing.{reached, to_device_lem, from_web-bind_session}
use vibe_terminal.Hub.Delivery.{
  Call, attach, bind, subscribe, leave, perform, perform_all, wanted_by, from_agent_sound,
}

abbrev all_deliver : String → Outbound → Bool
all_deliver peer msg = true

abbrev output : Message
output = stdout (record { session_id = "s"; seq = pos 1; contents = "hi" })

abbrev input : Message
input = stdin (record { session_id = "s"; contents = "ls" })

abbrev calls : List Call
calls =
    attach "d" "agent"
    ∷ bind "s" "d"
    ∷ subscribe "s" "web1"
    ∷ subscribe "s" "web2"
    ∷ leave "web2"
    ∷ []

web1_reached : reached "web1" (from_agent all_deliver (perform_all calls new_hub) output).1 ≡ true
unfolding perform_all perform attach_agent bind_session subscribe_web new_hub from_agent lookup
    insert session_id_of unsubscribe_peer
web1_reached = refl

from_agent_sound_example : wanted_by calls (λ t p. false) (session_id_of output) "web1" ≡ true
from_agent_sound_example = from_agent_sound all_deliver calls output "web1" web1_reached

to_device_example :
    (to_device all_deliver (attach_agent new_hub "d" "agent") "d" (outbound input) ≡ (
      if "d" == "d"
      then send all_deliver "agent" (outbound input)
      else to_device all_deliver new_hub "d" (outbound input)))
    × (to_device all_deliver (detach_agent new_hub "d") "d" (outbound input) ≡ (
        if "d" == "d"
        then (some no_agent, [])
        else to_device all_deliver new_hub "d" (outbound input)))
to_device_example = to_device_lem all_deliver new_hub "d" "d" "agent" (outbound input)

from_web_example :
    from_web all_deliver
      (attach_agent (bind_session new_hub (session_id_of input) "d") "d" "agent")
      input
    ≡ send all_deliver "agent" (outbound input)
from_web_example = from_web-bind_session all_deliver new_hub input "d" "agent"
