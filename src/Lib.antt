-- ===== src/Lib.antt =====
-- Verification of the EMLy API server, a Go service over a MySQL database.
--
-- The server keeps a fleet of mail clients: it filters requests, hands out a policy document that
-- operators publish in revisions, and tracks which clients are connected. This development models
-- the parts whose state and decisions are the server's own:
--
-- Middleware/RateLimit    internal/middleware/ratelimit.ban.go, the two-tier rate limiter: `handler`
--                         is RateLimiter.Handler, `record_request` is record, `cleanup` one round of
--                         cleanupLoop.
-- Middleware/BanList      internal/middleware/ban.go: `reload` is Reload, `match` is match, `handler`
--                         is Handler, and `run` the rounds of Run.
-- Middleware/ClientAddress  getIP and clientIP of those two files, over the headers of
--                         Middleware/Request.
-- TtlCache                internal/ttlcache/ttlcache.go: `acquire` and `rebuild` are the parts of Get
--                         under its two locks, and `get` their composition; TtlCache/Interleaving
--                         runs them for any number of callers.
-- PresenceHub             internal/presencehub/presencehub.go: `connect`, `disconnect`, `online`, and
--                         `fire`, the callback of a timer. PresenceHub/Steps is a step relation of
--                         calls and timers in any order.
-- RemoteConfig            internal/remoteconfig: Document is types.go and problem.go, Validate is
--                         parse.go, MergePatch is mergepatch.go, Match and Effective are match.go.
-- ConfigApi               internal/configapi/config.route.go over internal/models/
--                         remote_config_revision.go: the table remote_config_revisions, its SQL
--                         statements as functions; Wire is Parse and Canonical from bytes, and
--                         Handlers the four handlers that write the table.
--                         Reading and Preview are the handlers that read it.
--                         Transitions is the step relation that every request stays within.
-- ConfigMirror            internal/configmirror/configmirror.go: `sync_once` is syncOnce and
--                         `store_replicated_revision` is storeReplicatedRevision, on the same table.
-- EventPrune              internal/eventprune/eventprune.go: `run` is Run, and `prune_loop` its loop of
--                         batched deletions.
-- Updates                 internal/updates: Rows, Requests and Releases are updates.route.go over
--                         internal/models/release.go, where `update_tx` is the transaction that its
--                         three updating handlers share, and Manifest is buildManifest and
--                         ListReleases. Filename, UpdaterRows and Updaters are updater.route.go over
--                         internal/models/updater_release.go. Slots holds the lemmas on tables with a
--                         unique text key and flags that one row at most may hold.
-- UpdaterClient           internal/updaterclient/updaterclient.go: Identities are its two constructors,
--                         `upsert` is Upsert, `insert_event` is insertEvent, `record_event` is
--                         RecordEvent, and Versions is compareDottedVersions.
-- DbValue                 internal/dbvalue/dbvalue.go.
-- StatsHub                internal/statshub/statshub.go: `subscribe`, `cancel`, `active` and `publish`.
-- Base                    shared names, lists, maps, texts, addresses and signed numbers.
--
-- The rate limiter and the ban list stand in one chain of middlewares and read the client's address
-- each for itself. The configuration API and the mirror store only what RemoteConfig has parsed
-- without a problem, in the same table.
--
-- The releases and the updater releases are two tables over one bucket of files. A text that a
-- unique key or a WHERE compares is compared by the collation of the database, a parameter with the
-- laws of an equivalence (Base/Sql); whether RowsAffected counts the rows found or only those that
-- change is a parameter as well. A handler of these tables is a do block of early returns
-- (Base/Result). The bucket is a map from keys to contents, as S3 documents it.
--
-- A moment is a number of nanoseconds, or of seconds where the code reads a time from a text, and
-- each reading of the clock is an argument. A Go map is a function, or a list of pairs where the
-- code ranges over it; a loop over a map runs in the order of the list. Each loop is a recursion on
-- a list, but for that of EventPrune: it runs on fuel, one unit a round, and more units than the
-- table has batches of 5000 rows are enough. The generations of PresenceHub wrap at 2^64 as uint64
-- does; its invariants hold for runs that issue fewer connections than that. The counters of the
-- rate limiter are not bounded. Texts are sequences of code points, and every separator is ASCII.
--
-- A request of the rate limiter is one step here: in Go other requests can come between its look-up
-- of a ban, its recording and the storing of a new ban. A sighting of the updater client is one step
-- as well, though Upsert is four statements that each commit by itself. What is stated of these two
-- is for requests and sightings one after another. The transactions on a table run one after another
-- as well. The two locked parts of TtlCache and the calls and timers of PresenceHub do interleave.
--
-- Code outside the repository is a parameter: the parsers of `net` (NetParser), strings.ToLower,
-- url.Parse, time.Parse, strings.EqualFold and strconv (Lib), encoding/json of each section (Codec) and
-- of a document, SHA-256 and len of bytes (Wire). A failure of a database statement is a Boolean
-- (Faults), and a transaction that is not committed leaves the old table.
--
-- Not modelled: the HTTP router and JSON of responses, logging, the listing and the warnings of
-- the configuration API, internal/remoteconfig/unknown.go, and the parts that mostly run SQL, sockets,
-- files or S3 (admin, bans routes, bugreports, clientws, config, database,
-- health, logfile, session, stats, storage, telemetry, timing, the downloads of updates).
pub mod Base
pub mod Middleware
pub mod TtlCache
pub mod PresenceHub
pub mod RemoteConfig
pub mod ConfigApi
pub mod ConfigMirror
pub mod EventPrune
pub mod StatsHub
pub mod Updates
pub mod UpdaterClient
pub mod DbValue
