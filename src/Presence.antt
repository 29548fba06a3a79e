-- ===== src/Presence.antt =====
-- server/internal/devices/service.go: `Presence`, which devices are online, and what they can do.
use vibe_terminal.Base.{String, Bool, false, none, some, List, [], ◌==◌, if◌then◌else◌, any}
use vibe_terminal.GoMap.{GoMap, lookup, insert, erase}

pub record Presence : Type 0 where
  pub online : GoMap Bool
  pub capabilities : GoMap (List String)

unfoldable pub new_presence : Presence
new_presence = record { online = []; capabilities = [] }

unfoldable pub set_online : String → Bool → Presence → Presence
set_online device_id online p = record p {
  online = insert device_id online p.online;
  capabilities = if online then p.capabilities else erase device_id p.capabilities;
}

-- A missing key reads as `false`.
unfoldable pub is_online : String → Presence → Bool
is_online device_id p = elim (lookup device_id p.online) [ none ↦ false | some online ↦ online ]

-- A set of capabilities is kept as the list it is made from.
unfoldable pub set_capabilities : String → List String → Presence → Presence
set_capabilities device_id capabilities p = record p {
  capabilities = insert device_id capabilities p.capabilities;
}

unfoldable pub has_capability : String → String → Presence → Bool
has_capability device_id capability p = elim (lookup device_id p.capabilities) [
  | none ↦ false
  | some capabilities ↦ any (λ c. c == capability) capabilities
]
