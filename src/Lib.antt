-- ===== src/Lib.antt =====
-- AD4M wind tunnel: performance and convergence tests for AD4M executors (TypeScript, under src/).
-- The runner boots executors and runs scenarios against them; a scenario speaks to an executor over
-- a WebSocket RPC client, provisions users, lets WebRTC peers call each other in a mesh or through
-- an SFU, and installs link languages whose replicas must converge.
--
-- Parts and files:
-- - Rpc (src/client.ts, class InstrumentedClient): `Client` holds `requestId`, `pendingRequests` and
--   what has been sent and settled; `ws_call`, `on_message`, `on_close`, `on_timeout` are `wsCall`
--   and its handlers, `step` and `run` their interleaving. Rpc/Pending and Rpc/Once prove that
--   promises are settled once; Rpc/Metrics is `timed`, Rpc/Latency is `getStats`, over the
--   sorting of Rpc/Sorting.
-- - Peer (src/peer.ts): Peer/Sdp is `mungeAnswerForSimulcast`, over the lines of Peer/Lines;
--   Peer/Stats is `aggregateStats`, its theorems in Peer/Stats/Totals and Peer/Stats/Pair;
--   Peer/Tones is `AudioFingerprinter` and `getDetectedTones`, its theorems in Peer/Tones/Result.
-- - Mesh (src/mesh.ts): `MeshHost` and `connectAll`, whose peers report the statistics of Peer;
--   theorems in Mesh/Full, over the ids of Mesh/Ids, and Mesh/Totals.
-- - Users (src/users.ts): provisioning over the RPC client and SFU membership; theorems in
--   Users/Provision and Users/Members.
-- - Renegotiation (src/renegotiation.ts): `wireRenegotiation`; theorem in Renegotiation/Serial.
-- - PeerServer (src/peer-server.ts): the HTTP front of one peer, with its arguments in
--   PeerServer/Arguments; theorems in PeerServer/Candidates and PeerServer/Started.
-- - Convergence (src/convergence/): Convergence/Registry with Hosted and Gateways is the registry of
--   link languages, Convergence/Provision the accounts they need; theorems in
--   Convergence/Registry/Templates, Convergence/Registry/Entries and Convergence/Provision/Handle.
-- - Scenario and Runner (src/scenario.ts, src/main.ts): Runner is `runScenariosForBranch`,
--   Runner/CommandLine is `parseArgs`, Runner/Exit is `main`; theorems in Runner/Processes,
--   Runner/Verdict and Runner/Exit/Failures.
-- - Config (src/config.ts): the configuration that the runner takes its paths, token and port from;
--   theorem in Config/Precedence.
-- - Report (src/reporters.ts): `comparisonReport` over the results that Runner keeps; theorem in
--   Report/Cells. Report/Command (src/report.ts) is the command that loads results and compares them.
-- - Mcp (src/mcp-client.ts, class McpClient): `rpc`, `readSseForId` and, in Mcp/Tools, the calls of
--   tools; theorems in Mcp/Frames, Mcp/Chunks and Mcp/Answers.
-- - Events (src/events.ts, class EventsClient): subscriptions over a heap of listener sets; Events/Spec
--   is what they promise, the theorem in Events/Refines/Kept/Runs, over Events/Heap, Events/Refines
--   and Events/Refines/Kept.
-- - GitShim (infra/git-data-shim.mjs): the server of git objects and refs that the git link language
--   writes to, with its trees (GitShim/Trees), handlers (GitShim/Objects, GitShim/Refs) and router
--   (GitShim/Routes); theorems in GitShim/Trees/RoundTrip, over GitShim/Trees/Paths, GitShim/Trees/Parts
--   and GitShim/Trees/Reads, and in GitShim/Routes/Serve, over GitShim/Heads, GitShim/Refs/Moves,
--   GitShim/Objects/Apart and GitShim/Routes/Safe.
-- - ConvergenceScenario (src/scenarios/c1-convergence.ts): the scenario that installs a language of
--   Convergence in two executors. ConvergenceScenario/Polls is its poll loop, ConvergenceScenario/Run
--   the run; theorems in ConvergenceScenario/Links and ConvergenceScenario/Run/Verdict, over
--   ConvergenceScenario/Polls/Agree.
-- - GroupShim (infra/ap-group-shim.mjs): the server whose groups hand on what the members' link
--   languages post; theorem in GroupShim/Outbox/Served, over GroupShim/Firsts and GroupShim/Outbox.
-- - Cascade (src/cascade.ts): `startCluster` and `shutdown` with their effects; theorem in
--   Cascade/Peers. Cascade/Pod (src/agent-pod.ts) has the arguments of a container.
-- - WebrtcRun (src/run-webrtc.ts): `main` of the command that runs the WebRTC scenarios, its
--   arguments (WebrtcRun/Arguments) and choice of scenarios (WebrtcRun/Picks); theorem in
--   WebrtcRun/Live.
-- - Topology (src/scenarios/t5-topology-table.ts): the table that chooses mesh, server or cascade, and
--   the scenario over its cells.
-- - Net (src/net.ts): delays, losses and partitions as the commands that make them; theorem in
--   Net/Partition.
-- - Executor (src/executor.ts): the build of an executor with its snapshots, over a file system and
--   the commands of git and cargo; theorem in Executor/Snapshots. Executor/Process has its arguments,
--   health rounds and signals.
-- - Departure (src/scenarios/t13-peer-departure-media.ts): four peers in a room of which one departs;
--   theorem in Departure/Closing.
-- - Prelude: texts, maps, list and Boolean helpers, and `Outcome`, what an awaited call ends in.
--
-- Conventions. A string is the list of its UTF-16 code units, a Map an association list in insertion
-- order, a rejection or exception a constructor with its message. Counters and durations are natural
-- numbers. Loops over a list or up to a given count are structural. `take_frames` runs on fuel, the
-- length of the buffer, of which each round takes at least two characters. The trees of GitShim are
-- read and written to the depth `stack`, beyond which a call fails as it does on a full call stack.
--
-- Code outside src/ is a parameter: the executor's answers, the git library, the commands of the
-- system (tc, iptables, git, cargo), the file system, JSON and URI escapes,
-- WebRTC pairing and media, the tone magnitude, the matrix and AT Proto servers, SHA-256
-- and what a scenario's body does. Hypotheses on them are named where they are used.
--
-- The exit of a process that was told to stop, an `rmSync` that throws, a `close` event of a socket
-- that `connect` has replaced, and a peer that cannot be made by the peer server are left out.
--
-- Not modelled: console output and the writing of files, the measurement scenarios, and shell scripts.
pub mod Prelude
pub mod Rpc
pub mod Peer
pub mod Mesh
pub mod Topology
pub mod Net
pub mod Executor
pub mod Departure
pub mod Users
pub mod WebrtcRun
pub mod Scenario
pub mod Runner
pub mod Convergence
pub mod Renegotiation
pub mod Report
pub mod PeerServer
pub mod Mcp
pub mod Cascade
pub mod Events
pub mod GitShim
pub mod Config
pub mod GroupShim
pub mod ConvergenceScenario
