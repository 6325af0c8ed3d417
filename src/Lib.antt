-- ===== src/Lib.antt =====
-- A verification library for object-repository: repositories of JSON records over
-- exchangeable backends, with a serializable query language, decorators that add policies,
-- replicas that synchronize through a server, and a transport that exposes a backend.
-- It models the parts below, with the theorems that make them correct.
--
-- How the parts interact. A client writes a query plan whose filter is an expression. A backend
-- that cannot push the plan down scans its rows with it. Writes are queued and flushed by one
-- `persist`. A decorator holds a backend and rewrites plans or refuses writes. A replica is a
-- backend over a local backend that stamps its writes with a hybrid logical clock, pulls the
-- changes of a sync target and merges them. The adapter answers the requests of a transport with
-- a backend and runs commands. A SQL backend compiles what it can of a plan to a statement of its
-- dialect and leaves the rest to the scan. A repository caches the instances and the results that
-- its reads made of a backend's rows, and its query builder makes the plans; the durable sync target
-- keeps its log through one.
--
-- Files, and the code they model (paths of the repository):
--   Json.antt, Json/: JSON values (src/core/types.ts) with the equality of JavaScript's `===`, the
--     text of a number and `JSON.stringify`. Numbers are any type with the laws of Json.Number,
--     which are those of IEEE floats that the code relies on; the tests use whole numbers.
--   Expressions/Path.antt: getPath (src/expressions/path.ts).
--   Expressions/Compare.antt: compareJson and relate (src/expressions/nodes.ts).
--   Expressions/Plan.antt: the node and plan types of src/core/QueryPlan.ts.
--   Expressions/Dates.antt, Values.antt: evaluation of value expressions (src/expressions/values.ts);
--     the host's calendar is a record of functions, a parameter.
--   Expressions/Nodes.antt: the filter classes and `matches` (src/expressions/nodes.ts).
--   Expressions/Wire.antt: serialize, parse and parseValue (nodes.ts, values.ts and
--     src/expressions/parse.ts).
--   Expressions/Aggregate.antt: src/expressions/aggregateReduce.ts.
--   Expressions/Window.antt: src/expressions/windowReduce.ts. A row stands with its position in the
--     input, which tells it from the others as its identity does in the code.
--   Backends/Contract.antt: the changes, results and index types of src/core/Backend.ts.
--   Backends/Scan.antt: src/backends/util/scan.ts.
--   Backends/Unique.antt: src/backends/util/unique.ts.
--   Backends/Memory.antt, Memory/Index.antt: src/backends/memory/InMemoryBackend.ts. The maps are
--     association lists in the order of insertion, the two queues are lists, fresh uuids come
--     from a given supply, and the listeners are the events that `persist` returns. Memory/Models.antt
--     holds the step relation of a client, `Reach`.
--   Backends/Policy.antt: src/backends/decorators/PolicyBackend.ts.
--   Backends/Retry.antt: the retry loop of src/backends/sql/resilience.ts. The operation is a
--     function from a state to a state and an outcome, the waits are collected in a list.
--   Backends/Copy.antt: the loop of copyBackend for one model (src/backends/util/copy.ts).
--   Backends/Sql/Fragment.antt: src/backends/sql/valueSql.ts. Sql/Dialect.antt, Sql/Servers.antt: the
--     interface and both dialects of src/backends/sql/dialect.ts, a record of functions;
--     Sql/Engines.antt is about what the compiler relies on of them.
--   Backends/Sql/Compile.antt, Compile/Where.antt, Compile/Select.antt: src/backends/sql/compile.ts.
--   Backends/Sql/Rows.antt, Reads.antt, Writes.antt: the codec of rows, the reads and the flush of
--     src/backends/sql/SqlBackend.ts. The executor is a parameter, and so is the host's JSON.parse.
--   Backends/Sql/Migrate.antt: src/backends/sql/migrate.ts over an engine that is a parameter. The
--     tracking table stands in the engine's state, where the statements of a migration reach it.
--   Sync/Clock.antt: src/sync/hlc.ts. Times are whole milliseconds, an argument of each call. The
--     parts of a received stamp are digits; the signs, fractions, exponents and blanks that the
--     code's Number reads too are outside the model.
--   Sync/Contract.antt, Target.antt: src/core/SyncTarget.ts and src/sync/InMemorySyncTarget.ts.
--   Sync/Durable.antt: src/sync/BackendSyncTarget.ts, with the rows of its log and its counter.
--   Sync/Merge.antt: mergeByField of src/sync/SyncBackend.ts.
--   Sync/Replica.antt, Replica/Pull.antt: SyncBackend, over any local backend and remote. A read and a
--     flush of the local backend may throw; its save and its remove queue a write and do not.
--   Transport/Command.antt: the server side of src/transport/command.ts.
--   Transport/Adapter.antt: src/transport/BackendAdapter.ts, with the requests and responses of
--     src/core/Transport.ts.
--   Repository/Projection.antt: neededFields and valueFieldPaths of src/repository/projection.ts.
--   Repository/Patch.antt: applyPatch (src/repository/patch.ts).
--   Repository/Dirty.antt, Live.antt: computeDirty, liveWhere and changeAffects of
--     src/repository/Repository.ts.
--   Repository/Cache.antt: src/repository/QueryCache.ts, and the change feed and runQuery of
--     Repository.ts. A read is one step: no event arrives while it waits. An instance is a value; how
--     a row is decoded and how a filter over a relation is rewritten are parameters.
--   Repository/Hash.antt: planHash of Repository.ts, the JSON text of a plan.
--   Repository/Collection.antt: the query builder and the keyset pages of
--     src/repository/QueryCollection.ts.
--   Base.antt, Base/: Boolean tests, lists, dictionaries, outcomes, texts, decimals and a stable
--     insertion sort, shared by all parts. Tests/ holds the runs at concrete inputs.
--
-- Conventions. An operation that mutates takes the state and returns it beside its result. A
-- promise is its outcome: `ok`, or `err` with what was thrown. An undefined value is `none`.
--
-- Bounds and termination. Every loop of the code is structural recursion: over the rows, the
-- changes, the fields, or the retries that are left, but four, which recur on fuel. The copy of a
-- model and the traversal of a query's pages have as fuel the number of pages that they may read;
-- one page more than there are records is enough, since each page but the last has a record. The
-- chunks of a flush have the number of its changes, since each chunk takes one at least. The decimal
-- text of a number has the number itself, which is more than its digits. The stamps of a clock are
-- texts of fixed width: `Fits` says that the time is below 10 ^ 15 and the counter below 10 ^ 6.
--
-- Not modelled: the drivers of the databases and the network (input and output), timers, the
-- provisioning of SQL tables and the unique check before a SQL write, the compilation to Mongo, the
-- relations and cascades of a repository and its manager, the property declarations, the
-- multi-write, hook and observability decorators, the push of a replica's outbox, change
-- subscriptions over a transport, the order in which concurrent promises settle (each operation is
-- one step).

pub mod Base
pub mod Json
pub mod Expressions
pub mod Backends
pub mod Sync
pub mod Transport
pub mod Repository
pub mod Tests
