-- ===== src/Lib.antt =====
-- Verification of dasher, a consumer of change-data-capture events on Redis streams (Go).
--
-- An instance of dasher loads its configuration, and runs one consumer for each stream that the
-- configuration binds. A consumer reads the entries of its stream by a consumer group, parses each
-- into an event, and hands it to a handler; it acknowledges the entry when the handler succeeds,
-- retries it when the handler fails for a while, and leaves it pending and stops the process when it
-- fails for good. Handlers may enrich an event by lookups, which a cache stands in front of, and
-- emit it to another stream by a producer.
--
-- The files, by the part of the program:
-- - Errors, Event, Event/Parse, Handler: dasher/dasher.go and dasher/internal/event/event.go: the
--   error chain (`is_poison` is IsPoison), Event, Parse (`parse`, `req_str`, `decode_json`), the
--   contracts of handlers and policies. Value holds Go's `any`.
-- - Produce: dasher/internal/produce/produce.go (`new`, `close`, `emit`). Produce/RoundTrip sets it
--   against Parse.
-- - Consume, with Options, Process, Commands and Group below it: dasher/internal/consume/consume.go:
--   the Consumer and its options (`new`), `process` with its loops (`handle_loop`, `ack_loop`),
--   ensureGroup, selfReclaim, peerReclaim, gcConsumers, a tick of heartbeatLoop, and Run;
--   Consume/Group/Loops: reclaimLoop, consumerGCLoop and heartbeatLoop over a ticker. A run keeps
--   the world, the entry in flight and the list of its deeds, the last one first. Redis, the
--   context and the clock are parameters over that world (`Redis` of Consume/Commands, `Runtime`).
-- - Config, Config/Load, Config/Validate, Config/Cycles, Ident: dasher/internal/config/config.go:
--   Load, validateInstance and detectEmitCycles, with the environment, the file, the YAML reader and
--   the readers of numbers and durations as parameters (`System`). Ident also has ValidColumn of
--   dasher/internal/lookup/bind.go.
-- - Lookup/Cache: dasher/internal/lookup/cache.go: the map, the list of elements and the heap that the
--   elements stand in. Lookup/Cache/Spec is its abstract view, a list of entries in the order of use.
-- - Lookup/Bind, Lookup/Runner, Lookup/Cached: ResolveBind of dasher/internal/lookup/bind.go, Run of
--   runner.go, and the caching lookup of cached.go with MakeCacheKey of cache.go. The database is a
--   parameter, and so are the printing and reading of values.
-- - Lookup/Registry, Lookup/Sql: dasher/internal/lookup/lookup.go and sql.go: factories and their
--   registry, and the SQL lookup. Catalog: buildLookupCatalog of dasher/cmd/dasher/main.go.
-- - Services: dasher/internal/services: the two HTTP clients (Services/Internal, Services/Gateway with
--   getToken and authenticate), and New and Close (Services/Bundle). `net/http`, JSON, base64 and
--   pgxpool are parameters.
-- - Memory: the objects that goroutines share behind pointers: the gateway client, the producer and
--   the caches.
-- - Handlers: Forward and selectClient of dasher/internal/handlers/handlers.go, and the registry of
--   dasher/internal/registry/registry.go.
-- - Middleware: Enrich and EmitAfter of dasher/internal/middleware.
-- - Pipeline: buildHandler of dasher/cmd/dasher/main.go, which composes these around a handler.
-- - Startup, Startup/Boot: main of dasher/cmd/dasher/main.go: the consumer of a binding (`consumer_of`),
--   the start of the process with the loop that starts its consumers (`start`; `halted` is the error
--   with which it exits within that loop), and the closing behind them (`shut_down`).
-- - Common: the names and the lemmas that these share. Tests: the values that the witnesses share, and
--   the witnesses.
--
-- Durations and times are integers of nanoseconds without a bound, but for the lifetime of a cache
-- entry, which is the sum of two int64 and wraps (`to_int64`); the size of the pool wraps to int32.
-- Loops run on fuel. `detect_emit_cycles` gives its walk one call more than there are edges: each
-- call marks a key, and the last one may find no edge. `process` needs as much as there are
-- failures to come and two more, and `self_reclaim` one page more than there are pending entries.
-- `peer_reclaim` needs one page more than there are pending entries, and a background loop one turn
-- more than there are ticks until the context is cancelled. `Run` loops until it is cancelled, so
-- no fuel is enough for it.
--
-- Consume/Group/Beats takes the heartbeats of a consumer, the passing of time and the reclaims of
-- its peers as steps on one entry in flight, in any order. Consume/Group/Course does so for the
-- reads, the processing, the reclaims and the removals of all consumers of a group, each processing
-- of an entry being one step; in Consume/Group/Owed the commands of others may come between any two
-- commands of a consumer, as part of the world's answer.
--
-- Not modelled: interleavings of the background loops within the processing of one entry that are
-- finer than those named above, the error group and the status that the process exits with, panics of
-- the background loops (`Run` records that it starts them), the mutex of getToken, each call of which
-- is taken as atomic, and the texts of log lines; the reading of YAML, JSON and times
-- (parameters), the delivery of signals, which cancel the context of a parameter, and the Redis
-- client itself.
pub mod Common
pub mod Value
pub mod Errors
pub mod Event
pub mod Handler
pub mod Produce
pub mod Consume
pub mod Ident
pub mod Config
pub mod Lookup
pub mod Services
pub mod Memory
pub mod Catalog
pub mod Handlers
pub mod Middleware
pub mod Pipeline
pub mod Startup
pub mod Tests
