-- ===== src/Lib.antt =====
-- UAOP: the core of the platform's services, and its gateway. The library backend/services/common
-- is linked by every service: it gives them their configuration, results and errors, a guard
-- against duplicate messages, sequence numbers, an in-memory stream for development and tests,
-- logs, health checks, metrics, the listener that serves the latter two, and identifiers. The
-- template tools/service-template shows how a service is built on it: a domain (the link monitor),
-- a use case (link supervision) and a port for publishing events. The desktop ground station
-- simulates a vehicle, keeps its panels in a registry, shows them in workspaces, and draws maps
-- from tiles. The gateway lets clients in, forwards their commands, and relays telemetry and
-- events to them.
--
-- Files, and the code they model:
--   Base: numbers, byte strings, ordered dictionaries, decimals, signed integers and `uint64_t`.
--     A `std::string` is a list of bytes (`Base.Text`), a `std::map` is a list sorted by key
--     (`Base.Dict`), `uint64_t` wraps around by `% 2 ^ 64` (`Base.Words`), and `Base.Bits` has
--     laws of masks.
--   Common.Result: backend/services/common/include/uaop/common/result.h and error.h. All fallible
--     operations return this `Result`.
--   Common.Config: src/config.cpp and config.h of the same library. `Line` is `parse_config_line`
--     with `trim` and `strip_quotes`, `Store` is `ConfigStore`; a method that changes the store
--     returns the new one. The proofs stand in `Trim`, `Written` and `Sound` (lines), `Loading`,
--     `Layers` and `File` (files and environment), `Numbers` and `Require`.
--   Common.Dedup: dedup.h. `insert` takes the time and returns the new set with its answer.
--   Common.Sequence: sequence.h.
--   Common.Stream: in_memory_jetstream.cpp, in_memory_jetstream.h and jetstream.h. `publish` and
--     `redeliver` call the handlers with the lock released, so a handler may call the stream
--     again: what calling a handler does to the stream and to the rest of the program is the
--     parameter `invoke`. `Once` puts a handler on the stream that guards its work by a `DedupSet`.
--   Common.Logger: logger.cpp and logger.h. `Lifecycle` follows an event from its construction to
--     its destructor, moves included; the stream is the text written so far. `Stamp` is the time
--     stamp of a line, and `Object`, `Members` and `Emitted` read a line back as a JSON
--     object.
--   Common.Health: health.cpp and health.h.
--   Common.Json: strings of RFC 8259, the reference for what the logger and the health registry
--     write; no code of the platform reads them.
--   Common.Metrics: metrics.cpp and metrics.h. A `shared_ptr` is a position in a heap or nothing.
--     `Scraper` and `Exposition` are a client's view of the text that the registry renders.
--   Common.Server: health_metrics_server.cpp and its header, over `Common.Health` and
--     `Common.Metrics`; the process's open sockets are part of its state. `Loop` is the accept
--     thread beside a call of `stop`: a step is one access of `running_` or one call that
--     returns, and calls without a time limit may wait for ever (`Stopping`).
--     `Scrape` and `Probe` go through all of it: calls on a registry, a request, and what the
--     client reads.
--   Common.Uuid: uuid.h. The time and the two random draws are arguments; `Layout` reads a text
--     back as a UUID of version 7, and `Order` is about sorting the texts.
--   Link: tools/service-template/src. `Monitor` is domain/link_monitor.h, `Supervise` is
--     app/supervise_link.h over any publisher (ports/event_publisher.h), `Stdout` is
--     adapters/stdout_publisher.h, and `Program` is main.cpp over any publisher.
--   Gcs: frontend/qt-desktop-gcs/src. `Panels` and `Workspaces` are core/PanelRegistry.cpp and
--     core/WorkspaceManager.cpp with their headers, `Wiring` is what main.cpp puts into them,
--     `Startup` is the rest of main.cpp, and `Tiles` is map/SlippyMath.h, its projections in
--     `Tiles.Projection`. The signals of a workspace manager are counted. `Mbtiles` is
--     map/MbtilesProvider.cpp; `Outcome` is about the images it gives out. `Telemetry` is
--     TelemetryController.cpp and its header: `Simulation` the timer's slot, `Settings` and
--     `Properties` the setters and the properties they belong to, `Flight` any sequence of ticks,
--     calls and writes; the signals emitted are a list, the newest first, and a `QString` is the
--     list of its characters.
--   Gateway: backend/api-gateway/src, in JavaScript. `Value` has the values of JSON and how the
--     language converts them. `Streams` and `Session` are streams/websocket.js: a handler that
--     awaits waits in the session for its turn, so events can come in any order (`Events`), and
--     `Client` is a client's view of one stream. `Access` is auth, `Routes` is routes and the
--     chain of index.js; `Tokens` and `Forwarding` are about them.
-- Each component's theorems at concrete inputs, and runs of its code, stand in its `Tests`.
--
-- Parameters: the contents of a file (nothing if it cannot be opened), `getenv`, `std::from_chars`
-- for `double`, the clocks, `std::put_time`, the printing of `double`, the arithmetic of `double`
-- in gauges, in the simulation (`DoubleOps`) and in the projections (`MapOps`), random draws, the
-- handlers of the stream, the publisher, what the socket calls return, Qt's texts, images and
-- database, JavaScript's numbers (`Numbers`), and the libraries of the gateway: jsonwebtoken
-- (`Jwt`, `IsJwt`) and Redis (`Redis`, `IsRedis`). Where a theorem needs something of them it is a
-- hypothesis: the text of a double has no control characters, spaces or punctuation of JSON, and
-- where a log line is read back it is a number of JSON, `socket` returns no descriptor that is
-- already open, the operations on doubles keep a charge within its bounds (`IsOrdered`), an image
-- that nothing was loaded into is null, the texts of seconds sort by time, and a random draw is
-- within the bounds asked for.
--
-- Mutexes are not modelled: each locked section is one step, and a sequence of steps stands for
-- any interleaving of them. `std::isspace`, `std::toupper` and `std::tolower` are those of the "C"
-- locale. Printing a number n recurses with fuel n + 1, and every round divides by ten, so the
-- fuel is enough; a loop of `Program` has as fuel more than its last time, and each round moves the
-- time on; all other recursion is structural.
--
-- Not modelled: the QML engine, the gateway's settings and its gRPC clients, SQL, protocol
-- definitions, Python tools, QML and build files.
pub mod Base
pub mod Common
pub mod Gateway
pub mod Gcs
pub mod Link
