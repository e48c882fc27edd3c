-- ===== src/Lib.antt =====
-- Kadran: a single-host deployment platform. The daemon kadrand keeps apps, releases and alarms in a
-- store, starts containers through a privileged executor, and brings a reverse proxy (Caddy) in
-- line with the releases that are active. This library models its core as functions over
-- explicit states, and states what makes each part correct.
--
-- The parts, and the files that model them:
--   Kit          names of the libraries passed on, Boolean tests, lists, maps as association lists, texts split
--                and joined at a separator, insertion sorts, the `Result` of fallible code.
--   Admit        what an app may be: Spec and Volumes (internal/api/appvalidate.go, volumevalidate.go, and `appFromProto` of
--                apps.go), Create and Source (internal/exec/validate.go, gitsource.go, repoallow.go, and the request of
--                `CreateReplica` in internal/execclient/container.go), over Checks, Patterns and Path (`path.Clean`); Agree,
--                Accepted, Inside and Apart hold the proofs.
--   Connproto    internal/connproto: the identity of a caller (Role: its role and deploy scope, Scope: the
--                proofs on scopes), and the preamble that carries it over a socket (Preamble, Wire).
--   Peercred     internal/peercred: the policy on a peer's user and groups, and its handshake.
--   Api          internal/api: the handshake of a caller (Credentials: credentials.go) and the authorisation of
--                each RPC (Authz: authz.go), with Access for the proofs; Handling (what the handlers share: record.go,
--                `appError`, `actorFromContext`), Redaction (redact.go), Deploying (deploy.go, and `ImageBuild` of
--                internal/execclient/build.go), Pruning (appprune.go) and Reverting (rollback.go); Defining (what apps.go and
--                appupdate.go do to the table of apps); Recorded, Phases, Settled, Stages, Spared and Reverted hold the proofs on
--                the handlers, Arranged, Rows, Defined and Lifecycle those on the table of apps.
--   Alarm        internal/store/alarms.go (Table) and internal/alarm/alarm.go (Manager); Rows, History and
--                Listing hold the proofs.
--   Records      the records of internal/store and internal/execclient that the parts share.
--   Store        internal/store: Deployments (deployments.go: the history table and its statements), Releases (releases.go, and
--                `DeleteApp` of appdelete.go), Apps (apps.go and appupdate.go), AuditLog (the audit log of store.go); History, Numbering,
--                Counting, Final, Merging, Paging and Appended hold the proofs.
--   Health       internal/health/supervisor.go: Options (`Options`, `New`, `backoff`), Supervisor (`visit`, `heal`,
--                `markHealthy`, `Cycle`); Backoff, Local, Guard, Steady and Cycle hold the proofs.
--   Liveness     internal/liveness/liveness.go: Watchdog (the beats of the loops, the check and the notification);
--                Alive holds the proofs.
--   Proxy        internal/proxydrv: Config (config.go: `NewUpstream`, `BuildConfig`) and Live (client.go: `Load`,
--                `MissingHosts`, `Matches`, `LiveUpstreams`); Routes and Same hold the proofs.
--   Audit        internal/audit/audit.go: Record (records, their bytes, sealing, the verifier); Encoding, Chain and Tamper
--                hold the proofs.
--   Exec         internal/exec/journal.go: Journal (the executor's own chain in a file: `Append`, `OpenJournal`, `Read`);
--                Reopening, Appending and Unsynced hold the proofs.
--   Deploy       internal/deploy: World (what it calls, and the trace of the calls), Reconcile and Repair
--                (reconcile.go), Replicas and Rollout (rollout.go); proofs: Gate and Streak on the gate, Protocol,
--                Steps, Waiting, Draining, Switch and Healing on the order of the calls, Routing and Stale on the lists of upstreams
--                and of old releases, Restored on repairs.
--
-- How they meet: the supervisor measures and heals through `Check` and `Heal` of the rollout and raises alarms
-- through the manager; the rollout writes the active release to the store and reconciles the proxy; the
-- API decides who may ask for a deployment, and its handlers call the store, the executor and the rollout,
-- which answer as they please: the theorems on the handlers hold of all answers. The supervisor takes the
-- healer as an argument, as the Go interface `Healer` does, so its theorems hold of every healer. The
-- journal of the executor builds on the records and the verifier of the audit package. A definition goes from the
-- API's checks through the store and the rollout's options to the executor's checks, which judge it again.
--
-- What stands for code outside: the kernel's peer credentials, the JSON codec of the preamble, net/netip,
-- the store behind rollout, supervisor and handlers, the executor, the prober, the proxy's admin socket, SHA-256,
-- decimals, the codec of the journal's lines and the clock are arguments, records of functions over a
-- state of the world. Where a theorem relies on one of them, the law is a hypothesis (`ClockLaws`, that a map
-- of texts encodes as JSON, the laws of `LineCodec`, the length of a digest, that decimals differ). `strings.EqualFold` and
-- `strings.TrimSpace` are arguments too. The
-- stream of a build is the messages that come before its end. Errors are texts or constructors, and `none` is `nil`.
--
-- Numbers and bounds: the backoff doubles a 64-bit pattern and wraps, as do the numbers of the audit chains; the counter of
-- releases is refused beyond 32 bits and the count of containers removed wraps there; other counters and
-- times are natural numbers. The theorems on chains are on fewer than 2^64 records. A Go map is a list of entries in the order of insertion, one of the
-- orders that Go may walk. The loop of the gate has no bound in Go and takes fuel here: a round brings the
-- clock on by an interval at least, so fuel for the timeout in intervals and one round more is
-- enough. `VerifyAuditChain` takes fuel for a page per row and one more, and a page holds a row at least. Statements of the store may fail, which a Boolean says at each call; a transaction that fails
-- changes nothing.
--
-- Not modelled: log lines and the wording of errors, cancelling other than by a cut sleep, the mutexes (one
-- call at a time is taken), the HTTP transport of the proxy client, the other handlers of the API, the
-- audit records and the reconciling of the proxy that `CreateApp` and `UpdateApp` go on with, the copies of the
-- store, a write that tears a journal line in two, the other parts of the executor and the Docker driver.
pub mod Kit
pub mod Admit
pub mod Audit
pub mod Exec
pub mod Connproto
pub mod Peercred
pub mod Api
pub mod Alarm
pub mod Records
pub mod Store
pub mod Health
pub mod Liveness
pub mod Proxy
pub mod Deploy
