-- ===== src/Lib.antt =====
-- Mini Serverless Cloud Platform: a model of the API process, the build consumers, the workers, the
-- process in the container, and of the scripts that drive a deployment.
--
-- An account registers functions and uploads their source; a build turns the source into an image, a
-- version of the function; an invocation runs the newest version on a worker. PostgreSQL holds the
-- accounts, functions, versions, builds and invocations, Redis the worker registry and the streams.
--
-- Schema: the rows of prisma/schema.prisma. Prisma: the queries that the services make, an interface
-- with the documented behaviour of each (unique constraints, P2002 and P2025, cascading deletes,
-- transactions); any query may also fail and then changes nothing. Prisma.Memory fills it.
-- Prisma.Lists: the queries that list rows (findMany with an order and a limit), in the same way.
-- Redis: the hash commands and JSON codecs, in the same way, filled by Redis.Memory.
-- Stream: a Redis stream with its consumer group (XGROUP CREATE, XREADGROUP, XAUTOCLAIM, XACK), in the
-- same way, filled by Stream.Memory.
-- Registry: src/worker-registry (heartbeat, deregister, list_workers, has_spare_capacity);
-- Registry.Refinement: the finite map that it promises to be.
-- Functions: src/functions (register, get, remove, invoke, the response of the invoke route);
-- Functions.Listings: its reads (list, list_invocations, get_metrics_summary) and listVersions;
-- Functions.Validation: its dto, register-function.dto.ts.
-- Build: src/build/build.service.ts and build.controller.ts (submit_build, create_version, get_build,
-- run_build); Build.Executors: codebuild-executor.ts and local-docker-build-executor.ts.
-- BuildConsumer: src/build/build-stream-consumer.service.ts (handle_message, process);
-- BuildConsumer.Loop: its start, its loop and its shutdown (on_module_init, pass, passes).
-- BuildRelay: src/build/build-outbox-relay.service.ts, any number of relays as a step relation;
-- BuildRelay.Tick: its code, relay_once and the ticks of the timer.
-- Pipeline: the relay and the consumer together, from a pending row that is not yet published to
-- a finished build.
-- Auth: src/auth (sign_up, login with its token of two hours, API keys, the two guards); Auth.Account:
-- the api-keys routes of src/auth/auth.controller.ts, behind AuthGuard only, and listApiKeys.
-- Access: the routes of src/functions/functions.controller.ts behind the guards (receive).
-- Dispatch: src/invocation/invocation-dispatch.service.ts (the stream message, the waiting promises);
-- Dispatch.Calls: one call of it, with its subscription.
-- Worker: src/worker/worker.service.ts (handle_message, reclaim_from_dead_workers); Worker.Life: its
-- start, heartbeat, loop and shutdown; Worker.EcrLogin: src/worker/ecr-login.ts; Worker.RoundTrip: a
-- dispatcher and a worker together.
-- Container: src/containerExecutor.ts (docker_args, react); Container.Shim: runtime/shim.js, the
-- process inside; Execution: the outcome type that they share.
-- InProcess: src/executor.ts (execute_function). Runner: src/run.ts and src/run-container.ts.
-- Metrics: src/metrics (get_metrics, the listener of a process without an HTTP server).
-- Storage: src/storage/object-storage.service.ts. LoadTest: loadtest/invoke-load.js and smoke.js.
-- Base holds the shared notation and lemmas, Samples encodings for test data; the modules named Tests
-- apply theorems to concrete data.
--
-- A theorem on the database assumes the queries' documented behaviour (`IsPrisma`, `IsPrismaLists`),
-- one on the registry that of Redis (`IsRedis`), one on the consumer's loop that of a consumer group
-- (`IsStreams`), one on a tick of a relay that of its scan (`IsScan`), one on a session that of a JWT
-- library whose tokens run out after their lifetime (`IsSigner`); a theorem that something is
-- reached assumes of the calls on the way that they answer (`IsAnswering`, `IsResponsive`, `IsSteady`,
-- which excludes errors of the two queries that it names); these hypotheses are met by the
-- implementations in memory.
--
-- A method is an action on the state it changes (`Action`): its result or exception, and the state
-- left behind, also when it throws. `createApiKey` and the like take the random values as arguments,
-- and times are readings of the clock. An id is a number, a duration an integer, since the clock may
-- go back. bcrypt, SHA-256, the JWT library, the S3 client, CodeBuild, docker, Prometheus and JSON are
-- parameters.
--
-- The loops `while (this.running)` end only with the process: `passes n` is their state after n
-- rounds, for every n, so that no number of rounds is a bound. What Redis answers in a round is any
-- answer that a consumer group gives (BuildConsumer.Loop), or an argument of the round (Worker.Life).
-- The loops with a bound are the polling of CodeBuild (100) and of the load test (40), and a tick of
-- the relay takes at most 20 rows: these are the bounds of the source; every other function is total
-- as it stands.
--
-- Not modelled: the timers themselves (a beat or a tick is a call), the registry of the Prometheus
-- client and its text (a counter or a histogram is the list of what it was given), logging, the sample
-- functions, module wiring and the providers of Redis and Prisma clients, which are I/O or glue.
-- Messages of one worker are handled one after another, as its loop does; the heartbeats that fall
-- between them are calls of their own.
mod Base
mod Samples
pub mod Schema
pub mod Prisma
pub mod Redis
pub mod Stream
pub mod Registry
pub mod Execution
pub mod Functions
pub mod Build
pub mod BuildConsumer
pub mod Auth
pub mod BuildRelay
pub mod Dispatch
pub mod Worker
pub mod Container
pub mod Metrics
pub mod Storage
pub mod LoadTest
pub mod Runner
pub mod Pipeline
pub mod InProcess
pub mod Access
