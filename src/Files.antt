-- ===== src/Files.antt =====
-- server/internal/files/service.go: `Service`, which asks the agent of a device to list, read and write
-- files. Each request has an identifier, by which the agent's answer finds the call that waits for it.
pub mod Messages
pub mod Slots
pub mod Transfers
pub mod Download
pub mod Endless
pub mod Upload
use vibe_terminal.Base.{
  ℕ, suc, ◌+◌, ◌-◌, ◌*◌, ℤ, String, Bool, true, false, not, Option, none, some, List, [], ◌∷◌, ◌==◌,
  eqb, leb, if◌then◌else◌,
}
use vibe_terminal.GoMap.{GoMap, lookup, insert, erase}
use vibe_terminal.Protocol.{Envelope, capability_fs, type_fs_error}
use vibe_terminal.Files.Messages.{FsRequest, FsError}

pub record OpError : Type 0 where
  pub code : String
  pub message : String

-- How an operation ends. `io_error` is an error of the reader or the writer, passed on.
pub data Op (A : Type 0) : Type 0 where
  done : A → Op A
  failed : OpError → Op A
  io_error : Op A

abbrev pub error_of : {A : Type 0} → String → String → Op A
error_of code message = failed (record { code = code; message = message })

-- `pending` has the requests that wait, and `active` the number of operations of each device.
pub record Service : Type 0 where
  pub chunk_size : ℕ
  pub max_per_device : ℕ
  pub pending : GoMap {0} Unit
  pub active : GoMap ℕ

unfoldable pub new_service : Service
new_service = record { chunk_size = 256 * 1024; max_per_device = 4; pending = []; active = [] }

-- What happens to a request that was sent: an answer, the end of the time, or of the context.
pub data Outcome : Type 0 where
  answer : (type : String) (payload : String) → Outcome
  timed_out cancelled : Outcome

-- What the service takes from outside: the presence, the hub, `uuid.NewString`, the agent, which
-- answers the n-th request, and `fmt.Sprintf` of the type of a reply.
pub record Outside : Type 0 where
  pub is_capable : String → String → Bool
  pub sends : String → String → String → FsRequest → Bool
  pub new_id : ℕ → String
  pub respond : ℕ → FsRequest → Outcome
  pub fs_error : String → Option FsError
  pub unexpected_reply : String → String

-- `HandleAgentResponse`: whether the envelope was taken.
unfoldable pub take_pending : Envelope → Service → Option {0} Unit → Bool × Service
take_pending env s none = (false, s)
take_pending env s (some u) = (true, record s { pending = erase env.request_id s.pending })

unfoldable pub handle_agent_response : Envelope → Service → Bool × Service
unfolding take_pending
handle_agent_response env s =
    if env.request_id == ""
    then (false, s)
    else take_pending env s (lookup env.request_id s.pending)

unfoldable pub active_of : String → Service → ℕ
active_of device_id s = elim (lookup device_id s.active) [ none ↦ 0 | some n ↦ n ]

-- `acquire`: none is the error
unfoldable pub acquire : String → Service → Option Service
unfolding active_of
acquire device_id s =
    let n = active_of device_id s in
    if leb s.max_per_device n
    then none
    else some (record s { active = insert device_id (suc n) s.active })

unfoldable pub release : String → Service → Service
unfolding active_of
release device_id s =
    let n = active_of device_id s - 1 in
    if leb n 0
    then record s { active = erase device_id (insert device_id n s.active) }
    else record s { active = insert device_id n s.active }

-- The service in the course of an operation, how many requests it has made, and what a download has
-- given so far: the size that `onSize` got, and the bytes that were written.
pub record Progress : Type 0 where
  pub service : Service
  pub requests : ℕ
  pub size : Option ℤ
  pub bytes : List ℕ

-- `cleanup`
unfoldable pub cleanup : String → Progress → Progress
cleanup id p = record p { service = record p.service { pending = erase id p.service.pending } }

unfoldable pub start_request : String → Progress → Progress
start_request id p = record p {
  service = record p.service { pending = insert id tt p.service.pending };
  requests = suc p.requests;
}

-- The `select` of `roundTrip`; an answer comes through `HandleAgentResponse`.
unfoldable pub wait : String → Outcome → Progress → Op Envelope × Progress
unfolding cleanup handle_agent_response
wait id (answer type payload) p =
    let env : Envelope = record {
      type = type;
      request_id = id;
      session_id = "";
      payload = payload;
    } in
    let (taken, service) = handle_agent_response env p.service in
    (done env, record p { service = service })
wait id timed_out p = (error_of "timeout" "agent did not respond in time", cleanup id p)
wait id cancelled p = (error_of "timeout" "request cancelled", cleanup id p)

unfoldable pub round_trip :
    Outside → String → String → FsRequest → Progress → Op Envelope × Progress
unfolding wait start_request cleanup
round_trip o device_id message_type payload p =
    let id = o.new_id p.requests in
    let started = start_request id p in
    if o.sends device_id message_type id payload
    then wait id (o.respond p.requests payload) started
    else (error_of "agent_offline" "agent not connected", cleanup id started)

abbrev pub decoded_error : {A : Type 0} → Option FsError → Op A
decoded_error none = error_of "agent_error" "invalid agent error payload"
decoded_error (some e) = error_of e.code e.message

abbrev pub decoded_payload : {A : Type 0} → Option A → Op A
decoded_payload none = error_of "agent_error" "invalid agent payload"
decoded_payload (some a) = done a

unfoldable pub decode_result :
    {A : Type 0} → Outside → (String → Option A) → String → Envelope → Op A
decode_result o unmarshal want_type env =
    if env.type == type_fs_error
    then decoded_error (o.fs_error env.payload)
    else if not (env.type == want_type)
    then error_of "agent_error" (o.unexpected_reply env.type)
    else decoded_payload (unmarshal env.payload)

unfoldable pub check_device : Outside → String → Bool
check_device o device_id = o.is_capable device_id capability_fs
