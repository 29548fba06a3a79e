-- ===== src/Lib.antt =====
-- vibe-terminal lets browsers use terminals that run on remote machines. An agent on each machine and
-- the browsers connect to a server, whose Go code is what is modelled here.
--
-- Parts, and the files that model them:
--
-- The failure limiter, server/internal/auth/limiter.go, is in Limiter.antt: the state of
-- `FailureLimiter` as a record, `Allow`, `RecordFailure` and `Success` as functions from a limiter to
-- the next. Limiter/Attempts models its use in server/internal/httpapi/router.go, where an attempt to
-- log in has several keys. Limiter/Evict and Limiter/Capacity bound the entries, Limiter/Streak counts
-- failures, Limiter/Blocking and Limiter/Isolation compare the methods with each other.
--
-- The store, server/internal/store/store.go, is in Store: Store/Rows has the structs, and `Tables` for
-- the database. Store/Db is a monad for the methods: a statement may fail at any time, as an oracle in
-- the connection says, and a transaction that does not commit leaves no trace. Each SQL statement is a
-- function on the tables, with the constraints of the schema that it may violate: Store/Table has what
-- the statements share. Store/TwoFactor, Store/Settings, Store/Tokens, Store/Devices and Store/Sessions
-- have the methods. Store/Keeps has rules for invariants of actions; Store/History and Store/Tokens use
-- them for histories of calls, in which any call may fail at any statement.
--
-- The messages, server/internal/protocol/messages.go, are in Protocol.antt. JSON is a parameter.
--
-- The hub, server/internal/ws/hub.go, is in Hub.antt: it knows the peer of each device, the device of
-- each session and the browsers that subscribe to each session. A peer is its identity; whether its
-- `Send` succeeds is a parameter, and the methods return what they tried to send. Hub/Subscriptions
-- describes the subscriptions as a set of pairs, Hub/Routing says where messages go, and Hub/Delivery
-- puts the two together for histories of calls.
--
-- The handlers of an agent's connection, server/internal/httpapi/router.go, are in Sessions: the state
-- that they share is a record of the connection to the database, the hub, who is online, and what was
-- sent. Sessions/Agents has `handleAgentEnvelope`, `syncAgentSessions` and what the start and the end
-- of a connection do, as functions from a state to the next; Presence.antt has
-- server/internal/devices/service.go, and `log_event` is `Log` of server/internal/audit/audit.go.
-- Sessions/Keeps lifts the rules of Store/Keeps to them; Sessions/Rows, Sessions/Owned, Sessions/Listed
-- and Sessions/Handled follow what a device sees of the sessions through each handler, which
-- Sessions/Ownership puts together; Sessions/ClosedRows and Sessions/Closed follow a closed session.
-- Sessions/Routes and Sessions/Reconnect follow the peer of a device through its connections.
-- Sessions/Steady, Sessions/Disconnect and Sessions/Reopening run handlers on a store whose statements
-- do not fail.
--
-- Passwords, session cookies, login challenges and codes, server/internal/auth, are in Auth: Auth/Cookie
-- has `SessionManager`, Auth/Challenge the tokens of a challenge, Auth/Totp the codes of an authenticator,
-- Auth/Secrets and Auth/Setup the encryption of secrets and the recovery codes. Hashes, ciphers,
-- encodings, JSON and random bytes are parameters, records called `Packages`; what a round trip relies
-- on is a record `IsFaithful`. Auth/Totp/Window says which codes match.
--
-- Json.antt has `validateNoDuplicateJSONFields` of router.go on the tokens of a body, Json/Tree the
-- values that the tokens stand for, and Json/Duplicates compares the two.
--
-- The handlers of HTTP requests, server/internal/httpapi/router.go and router_2fa.go, are in Http: a
-- handler is a function from the state `App`, which has the state of Sessions and the three limiters, to
-- a reply and the next state. What is read from outside, the clock, random bytes and identifiers, is in
-- `World`; the handlers return early, so that a test takes the rest of the handler as an argument, and
-- each branch on a result of the store is a function by clauses. Http/Limits has the keys and the use of
-- the limiters, Http/Incoming the reading of bodies and of the session, Http/Login and Http/SecondFactor
-- the two steps of a login, Http/Management the handlers of the second factor, Http/Tokens,
-- Http/Snippets, Http/Register and Http/Terminals the others, and Http/Terminals/Web the messages of a
-- browser. Http/Issued follows a reply with a session cookie back to what the request had to be, and
-- Http/Management/Guarded the changes of the second factor's tables; Http/Registered does so for a new
-- device, Http/Refused for a request without a session, and Http/Expiry looks at the time of a token.
-- Http/Locks has the order of the locks in `managementLockIndexes`.
--
-- The file service, server/internal/files/service.go, is in Files: its state, its slots and a request
-- with its answer, for an agent that is a parameter; Files/Messages has the messages about files,
-- Files/Transfers `List` and `Download`, Files/Upload `Upload`. Files/Slots is about histories of slots,
-- Files/Download and Files/Endless about agents that answer and that do not, Files/Upload/Whole about
-- readers that end or fail.
--
-- Text has what is used of the package `strings`, Base the shared helpers, GoMap a model of Go's maps with string keys, Tests the concrete runs.
--
-- Time is a number of nanoseconds since Go's zero time, read by the caller and passed on. Mutexes make
-- the methods of the limiter and of the hub atomic steps. Three loops run on fuel: the second of `evict`,
-- where the number of entries is enough, as a round removes one; the scanner of JSON, where twice the
-- number of tokens is enough; and the loops of `Download` and `Upload`, whose length is the agent's and
-- the reader's choice, and which are still running, none, when the fuel ends.
--
-- Not modelled: SQLite and its driver beyond what the statements mean, and foreign keys that cascade on
-- deletions which the program never makes; statements of other connections between those of one
-- handler (a handler of Sessions and of Http runs as a whole, while a method of the store may be followed
-- by any other); the dispatch of paths, the headers of a reply other than the cookie and the time to wait,
-- the handlers of file requests, of a session's output and of the end of a session cookie; WebSockets, output files,
-- configuration, the agent and the web client.
pub mod Base
pub mod Text
pub mod Json
pub mod Auth
pub mod Http
pub mod Files
pub mod GoMap
pub mod Limiter
pub mod Protocol
pub mod Hub
pub mod Store
pub mod Presence
pub mod Sessions
pub mod Tests
