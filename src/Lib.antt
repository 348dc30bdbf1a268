-- ===== src/Lib.antt =====
-- Open Remote Commander: a server that lets a remote client run tools on a user's own devices. A
-- device's agent keeps a WebSocket connection to the server (internal/ws); the server's relay
-- (internal/relay) sends it calls as frames (internal/protocol) and takes back results; clients are
-- authenticated (internal/authn) and served by internal/mcpserver, devices are paired, listed,
-- revoked and connected over HTTP (internal/controlplane), the devices, pairings and audit events
-- are in a store (internal/store), to which a queue carries the events (internal/audit). On the
-- device, tools (internal/executor) work on files below allowed roots (internal/pathpolicy), run
-- processes (internal/processmgr) and searches (internal/searchmgr). The commands are not modelled.
--
-- Each component is a module, and its proofs are in the modules below it, named for what they prove.
-- Its module `Tests` holds runs on concrete inputs.
--
--   Prelude   shared: native numbers and integers, lists, Go's string maps as association lists,
--             texts, results for errors.
--   Process   internal/processmgr/manager.go. Ring: the `ring` of a process's output, `write` and
--             `read`. Command: `commandFor` and the checks of the environment in `Start`. Manager:
--             `Start` (launch, register, start), the goroutine that waits for the process (exit,
--             release, forget), `Read`, `Write`, `Terminate`, `CleanupExited` and `List`. The
--             manager's heap of process objects is a list, and a pointer is a position in it.
--   Store     internal/store/store.go; Memory: every method of internal/store/memory.go. `run` is a
--             sequence of calls at their times.
--   Ws        internal/ws/ws.go: `readFrame`, `writeFrame`, `ReadMessage`, `WriteMessage` and
--             `Close` over a connection `Wire` with the peer's bytes and the bytes written.
--   Search    internal/searchmgr/manager.go: `Start`, `GetMore`, `Stop`, `List`; Walk: the goroutine
--             `run` over a file tree, with filepath.WalkDir.
--   Auth      internal/authn/authn.go: HMACVerifier, `Require`, `BearerToken`; Introspections:
--             IntrospectionVerifier with its cache; internal/authn/trusted.go: LoopbackTrust.
--   Relay     internal/relay/hub.go: `Register`, `Disconnect`, `IsOnline`, `Call`, `readLoop`,
--             `close`; internal/protocol/frame.go: `Validate`.
--   Limiter   internal/controlplane/limiter.go: `allow`.
--   Control   internal/controlplane/http.go, over Store.Memory, Relay and Limiter. Pairing:
--             `startPairing`, `approvePairing`, `consumePairing`, `pairApproveForm`. Devices:
--             `listDevices`, `revokeDevice`, `agentConnect`. Codes: `humanCode`,
--             `normalizeUserCode`. Routes: `Register`, `cors`, `options`; `handle` answers one
--             request and `serve_all` a list of them.
--   Audit     internal/audit/writer.go: `Record`, `Close` and the goroutine `loop`.
--   Config    internal/config/config.go: `LoadServer`; Agents: `LoadAgent`.
--   Disk      what the program uses of path/filepath and os: Abs, Clean, EvalSymlinks, Lstat over a
--             disk that says what stands at each place. A cleaned absolute path is its list of
--             names.
--   Paths     internal/pathpolicy/pathpolicy.go: `New`, `ResolveExisting`, `ResolveForCreate`,
--             `allowed`.
--   Executor  internal/executor/executor.go. Reads: `readFile`, `readMultipleFiles`,
--             `listDirectory`, `getFileInfo`. Writes: `writeFile`, `editBlock`, `atomicWrite`;
--             Moves: `createDirectory`, `moveFile`; each giving its answer and the disk after it.
--             Edits: bytes.Count and bytes.ReplaceAll. Tools: `toolHandlers`.
--   Mcp       internal/mcpserver/server.go: `callTool`; Served: `serveHTTP`. Headers:
--             `validateProtocolHeaders`. Tools: the table of tools. A request leads to an answer,
--             the calls that it makes of the hub and the audit events that it records.
--
-- Concurrency. Where goroutines share state (Process.Manager, Search.Active, Relay, Audit) a step is
-- one critical section of the code, and the theorems hold of every state that any order of steps
-- leads to, the relation `Reach`. Store.Memory, Limiter and the cache of Auth hold one mutex for a
-- whole operation on their state, so there a history is a list of operations. In Control a request
-- is handled from start to end before the next. The introspection cache is unlocked while the
-- provider is asked; a history takes such a call at the moment when its answer is stored.
--
-- Numbers. ℕ is the native type. Go's int and int64 appear as ℤ where the code tests for values
-- below 0 or 1, and as ℕ for lengths, limits and counters; no addition of the modelled code comes
-- near 2^63. A byte is a number below 256; the two and eight bytes of a frame's length are written
-- with % 256, and the test of the 64th bit of a length compares with 2^63. A time is a number of
-- nanoseconds since Go's zero time, or of Unix seconds. The limiter counts parts of a token exactly
-- where the code uses float64; both rates of the code, one in five seconds and one in a second, fill
-- their buckets of 5 and 10 within half an hour.
--
-- Loops. All are structural recursion (EvalSymlinks on the number of links left and then on the
-- names of the path) but one: the loop of `ReadMessage` runs on fuel, one more than the bytes of the
-- input. Each turn takes at least two of them, and the theorem on it says which messages are
-- returned with that fuel, so the fuel is enough.
--
-- Arguments of the model are what the code takes from outside itself: the operating system's answers
-- to `Start` (the record Os), the hash of a token (store.HashSecret), random identifiers and masks,
-- SHA-256, HMAC, base64 and JSON (the record Codec, with the laws IsFaithful), the provider's
-- answers, regexp, the environment (the record Library of Config), the Unicode tables and path
-- cleaning (the record Library of Search), what a file tree holds, the system's answers to the calls
-- that a write makes (the record Os of Executor), and what Hub.Call returns to the MCP server, and
-- what the router and the decoders find in a request (Control.Request). What other programs do to
-- the disk while a tool runs is left out.
--
-- Not modelled: internal/store/neonhttp.go (SQL over HTTP), internal/osproc, the handlers of the
-- executor that only pass arguments on to processes and searches, cmd/orc-agent, cmd/orc-server,
-- cmd/orc-token, pkg/api (types), the handshakes of internal/ws (net/http and TLS), the modes of
-- directories, logging, deadlines of connections, and the texts that are only shown to people.
pub mod Prelude
pub mod Process
pub mod Store
pub mod Ws
pub mod Search
pub mod Auth
pub mod Relay
pub mod Limiter
pub mod Audit
pub mod Config
pub mod Control
pub mod Disk
pub mod Paths
pub mod Executor
pub mod Mcp
