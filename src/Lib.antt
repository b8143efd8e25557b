-- ===== src/Lib.antt =====
-- A verification library for the Hyperscale job scheduler.
--
-- The program keeps jobs in MongoDB and, for each job type, a sorted set of due times in Redis.
-- One instance leads; while it leads, its poll loop takes due jobs from the sets and hands them to
-- the executor, which claims each job, runs its handler, and stores the outcome or asks the retry
-- service for another attempt. Jobs without attempts left become dead letters. Events go to
-- RabbitMQ.
--
-- Files, with the code that each of them is about:
--   Base, Exec          lists, tests and options; asynchronous methods that return or throw, as
--                       explicit state passing, with rules for what a method keeps (Exec.Keeps)
--   Types, Constants    src/shared/types/index.ts and src/shared/constants/index.ts
--   Jobs                src/domains/job/job.repository.ts with the hook and the schema (Jobs.Schema)
--                       of job.model.ts. Jobs.Update has
--                       filters and updates as data, Jobs.Collection the database as an interface,
--                       Jobs.Repository one function for each method (claim_job is claimJob), and
--                       Jobs.Repository.Lifecycle the status diagram and the histories of calls;
--                       Jobs.Queries has the calls that only read
--   Pages               the listings by page of job.repository.ts and dead.letter.repository.ts
--   Queue               src/domains/scheduler/redis-job-queue.ts: Queue.SortedSets has the Redis
--                       commands as an interface, Queue.RedisJobQueue the class
--   Poll                src/domains/scheduler/poll-loop.ts: one tick, the timer, in Poll.Interleaving
--                       its awaits as steps among the other callbacks, with every timeout that is
--                       set, and in Poll.Drain the wait for
--                       the jobs in flight. The queue is the interface Poll.Source, which
--                       Poll.RedisQueue fills; Poll.Reference has one queue of all due jobs
--   Services            the outside services as interfaces, with the documents and events that they
--                       take: src/infra/config/rabbitmq.consumer.ts, src/infra/models/OutboxModel.ts,
--                       src/domains/execution/execution.model.ts, dead-letter.model.ts
--   DeadLetters         src/domains/dead-letter/dead-letter.servivce.ts and dead.letter.repository.ts;
--                       DeadLetters.Queries reads and resolves them
--   Execution           src/domains/execution/job-executor.ts, worker.ts and retry.service.ts, the
--                       heartbeats of src/domains/watchdog/heartbeat-watchdog.ts, and
--                       src/infra/messaging/rabbitmq-publisher.ts
--   JobService          src/domains/job/job.service.ts, with the keys and limits of
--                       src/shared/constants/JOB_DEFINITIONS.ts in JobService.Definitions
--   Watchdog            src/domains/watchdog/heartbeat-watchdog.ts
--   OutboxPoller        src/shared/utils/outbox-poller.ts
--   Election            src/domains/election/leader-election.ts and redlock.ts, with the callbacks of
--                       src/bootStrap.ts; Election.Instances has several instances over one Redis, with
--                       the lock service of Election.Leases, whose locks expire, and
--                       Election.Interrupted a stop during a tick of the watch timer, and
--                       Election.Timing the timer of the poll loop through the callbacks
--   Connections         src/infra/config/database.ts (Connections.MongoDb) and src/infra/config/redis.ts
--   Http                src/app.ts (Http.App), src/domains/job/job.routes.ts and job.controller.ts
--                       (Http.Jobs), job.validator.ts (Http.Schemas), the middleware of
--                       src/infra/middleware (Http.Middleware, Http.Errors), Http.Service, which puts the
--                       job service behind the routes, and dead-letter-controller.ts (Http.Letters)
--   Startup             src/bootStrap.ts, src/shutdown.ts and src/server.ts, over Election, Poll, Watchdog
--                       and the timer of OutboxPoller
--   Workers             the handlers of src/domains/workers, and in Workers.Wiring the executor that
--                       src/bootStrap.ts builds with them
--   Examples            in-memory services that meet the laws, and each theorem at an input
--
-- State and time: a method is a function of the state of the services that it calls; what it
-- awaits is a call on that state, which may throw and still have changed it. Dates are
-- milliseconds. A method that reads the clock either reads it from the state or has the time as
-- its last argument. The drivers for MongoDB, Redis, RabbitMQ and the lock service are parameters,
-- whose documented behaviour is stated by the laws of their interfaces.
--
-- The documents of a collection are seen in two ways: Jobs.Collection and Services.Letters have
-- the calls that write jobs and dead letters, Services.Documents the calls that query, page and
-- resolve; Http.Service has the queries read the collection that the other calls write. A write of
-- a dead letter or of an event takes the session of its transaction, or none. Filter and sort
-- objects are tests and orders of documents there. An error that reaches the HTTP error handler
-- has a name, a code and a message. The paths of requests are compared as they are written.
--
-- Bounds: the loops on a count are the connections to the broker and to MongoDB, with ten and five
-- attempts as in the source. A signal that finds its shutdown rejected tries it again, as often as
-- asked. The wait for the jobs in flight runs on fuel: 62 looks are enough, since a pause takes
-- 500 ms and the wait gives up after 30 seconds. The slots of a tick are natural numbers, and the
-- code's test for none left is the test for zero. Pages are numbers from 1 on; the first number to
-- skip may be negative for page 0, and is then refused by the driver.
--
-- Not modelled: log lines and metrics, which nothing reads back; the checks of Joi, the token
-- library, Express and its other middleware, which are parameters; two shutdowns at a time; a
-- shutdown during a tick of the election, of which Election.Interrupted has what the tick does
-- afterwards; the order in which the runs of one batch and the two reads of a page interleave;
-- findById, which has no caller.
pub mod Base
pub mod Exec
pub mod Types
pub mod Constants
pub mod Jobs
pub mod Queue
pub mod Poll
pub mod Services
pub mod DeadLetters
pub mod Execution
pub mod JobService
pub mod Watchdog
pub mod OutboxPoller
pub mod Election
pub mod Connections
pub mod Http
pub mod Pages
pub mod Startup
pub mod Workers
pub mod Examples
