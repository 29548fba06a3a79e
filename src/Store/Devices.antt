-- ===== src/Store/Devices.antt =====
-- server/internal/store/store.go: users, devices, audit events and command snippets.
use vibe_terminal.Base.{
  ℕ, String, Bool, ◌&&◌, ◌||◌, Option, none, some, List, [], ◌∷◌, ◌++◌, ◌==◌, eqb, ltb,
  if◌then◌else◌, count, any,
}
use Prim.Native.String.{compare}
use text.Mathlib.Text.{is_lt}
use vibe_terminal.Store.Rows.{User, Device, AuditEvent, CommandSnippet, Tables}
use vibe_terminal.Store.Db.{
  Db, not_found, pure, query, exec, or_raise, require_affected, ◌>>=◌, ◌>>◌,
}
use vibe_terminal.Store.Table.{update_where, delete_where, find_where, order_by}
use vibe_terminal.Store.TwoFactor.{or_now, insert_audit_event}

unfoldable pub insert_user : User → Tables → Option (ℕ × Tables)
insert_user user t =
    if any (λ r. r.id == user.id || r.username == user.username) t.users
    then none
    else some (1, record t { users = t.users ++ user ∷ [] })

unfoldable pub create_user : ℕ → User → Db User
create_user clock user =
    let stamped = record user {
      created_at = or_now clock user.created_at;
      updated_at = or_now clock user.updated_at;
    } in
    exec (insert_user stamped) >> pure stamped

unfoldable pub get_user_by_username : String → Db User
get_user_by_username username = do
  found ← query (λ t. find_where (λ r. r.username == username) t.users)
  or_raise not_found found

unfoldable pub get_user_by_id : String → Db User
get_user_by_id id = do
  found ← query (λ t. find_where (λ r. r.id == id) t.users)
  or_raise not_found found

unfoldable pub insert_device : Device → Tables → Option (ℕ × Tables)
insert_device device t =
    if any (λ r. r.id == device.id) t.devices
    then none
    else some (1, record t { devices = t.devices ++ device ∷ [] })

unfoldable pub create_device : ℕ → Device → Db Device
create_device clock device =
    let stamped = record device {
      created_at = or_now clock device.created_at;
      updated_at = or_now clock device.updated_at;
    } in
    exec (insert_device stamped) >> pure stamped

abbrev pub is_device : String → Device → Bool
is_device id r = r.id == id

unfoldable pub get_device : String → Db Device
get_device id = do
  found ← query (λ t. find_where (is_device id) t.devices)
  or_raise not_found found

unfoldable pub list_devices : Db (List Device)
list_devices = query (λ t. order_by (λ a b. ltb a.created_at b.created_at) t.devices)

unfoldable pub rename_device : String → String → ℕ → Tables → Option (ℕ × Tables)
rename_device id name clock t = some (
  count (is_device id) t.devices,
  record t {
    devices =
        update_where (is_device id) (λ r. record r { name = name; updated_at = clock }) t.devices;
  },
)

unfoldable pub update_device_name : ℕ → String → String → Db Unit
update_device_name clock id name = require_affected (exec (rename_device id name clock)) not_found

unfoldable pub see_device : String → ℕ → ℕ → Tables → Option (ℕ × Tables)
see_device id seen_at clock t = some (
  count (is_device id) t.devices,
  record t {
    devices =
        update_where (is_device id)
          (λ r. record r { last_seen_at = some seen_at; updated_at = clock }) t.devices;
  },
)

unfoldable pub touch_device : ℕ → String → ℕ → Db Unit
touch_device clock id seen_at = require_affected (exec (see_device id seen_at clock)) not_found

unfoldable pub create_audit_event : ℕ → AuditEvent → Db AuditEvent
create_audit_event clock event =
    let stamped = record event { created_at = or_now clock event.created_at } in
    exec (insert_audit_event stamped) >> pure stamped

unfoldable pub insert_snippet : CommandSnippet → Tables → Option (ℕ × Tables)
insert_snippet snippet t =
    if any (λ r. r.id == snippet.id) t.command_snippets
    then none
    else some (1, record t { command_snippets = t.command_snippets ++ snippet ∷ [] })

unfoldable pub create_command_snippet : ℕ → CommandSnippet → Db CommandSnippet
create_command_snippet clock snippet =
    let stamped = record snippet {
      created_at = or_now clock snippet.created_at;
      updated_at = or_now clock snippet.updated_at;
    } in
    exec (insert_snippet stamped) >> pure stamped

abbrev pub is_snippet : String → CommandSnippet → Bool
is_snippet id r = r.id == id

unfoldable pub get_command_snippet : String → Db CommandSnippet
get_command_snippet id = do
  found ← query (λ t. find_where (is_snippet id) t.command_snippets)
  or_raise not_found found

-- `order by created_at, id`
abbrev pub listed_before : CommandSnippet → CommandSnippet → Bool
listed_before a b =
    ltb a.created_at b.created_at || (eqb a.created_at b.created_at && is_lt (compare a.id b.id))

unfoldable pub list_command_snippets : Db (List CommandSnippet)
list_command_snippets = query (λ t. order_by listed_before t.command_snippets)

unfoldable pub edit_snippet : String → String → String → ℕ → Tables → Option (ℕ × Tables)
edit_snippet id name command clock t = some (
  count (is_snippet id) t.command_snippets,
  record t {
    command_snippets =
        update_where (is_snippet id)
          (λ r. record r { name = name; command = command; updated_at = clock }) t.command_snippets;
  },
)

unfoldable pub update_command_snippet : ℕ → String → String → String → Db CommandSnippet
update_command_snippet clock id name command = do
  require_affected (exec (edit_snippet id name command clock)) not_found
  get_command_snippet id

unfoldable pub remove_snippet : String → Tables → Option (ℕ × Tables)
remove_snippet id t = some (
  count (is_snippet id) t.command_snippets,
  record t { command_snippets = delete_where (is_snippet id) t.command_snippets },
)

unfoldable pub delete_command_snippet : String → Db Unit
delete_command_snippet id = require_affected (exec (remove_snippet id)) not_found
