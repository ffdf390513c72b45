-- ===== src/Lib.antt =====
-- pi_bully: a cluster of nodes that elect a leader by the Bully algorithm; the leader schedules tasks
-- on the other nodes, through a PostgreSQL database that holds the tasks, their history and the leases
-- of the workers.
--
-- The parts and the files that model them:
--   election/state.go            Election/State.antt: the record under the mutex, and one function for
--                                each method, which is one critical section.
--   election/engine.go           Election/Engine.antt: the handlers, and `startElection` cut where it
--                                blocks. Election/Retry.antt: the loops that send and collect messages.
--                                Election/Node.antt: the goroutines of one node, interleaved.
--                                Election/Network.antt: a network of such nodes.
--   election/client.go, server/worker_client.go, scheduler/dispatcher.go
--                                Client.antt: the calls of other nodes.
--   server/election.go           Election/Server.antt: the answers to the calls of other nodes.
--   cluster/                     Cluster/Members.antt, Cluster/Event.antt: the map of the members and
--                                the notifications that change it. Cluster/Node.antt: a new node.
--   task/store.go, task/sql/,    Task/Model.antt (the tables and structs), Task/Query.antt (the
--   migrations/                  queries), Task/Tx.antt (transactions), Task/Store.antt (the methods).
--                                Task/Lifecycle.antt is the life of one task as docs/design.md has it,
--                                with the history of its statuses.
--   worker/engine.go             Worker/Engine.antt: the calls that a worker makes of its leader.
--   worker/task_executor.go      Worker/Executor.antt: the execution of one task.
--   server/scheduler.go,         Worker/Server.antt: the leader's answers to them, and a worker's to the
--   server/worker_server.go      leader. Worker/Delivery.antt puts both ends together.
--   scheduler/                   Scheduler/Strategy.antt (round robin), Scheduler/Engine.antt (a tick).
--   config/                      Config.antt: the loaders. Config/Seeds.antt: the list of seeds.
--   storage/client.go            Storage.antt: the client, over a map of objects and a file system.
--   health/handler.go            Health.antt: what a node tells of itself.
--   cmd/node/main.go             Node.antt: what the process does to the outside, in order.
-- Task/Store/ holds the proofs on the store: Atomic (failing calls), Effects and Refine (the methods
-- on one task), Table (the leases), Loops, Scan, Rows and Ready (the loops over rows), Advance, Marks
-- and Sound (every method, over the whole database), History (every sequence of calls), Recovered (the
-- leader's recovery). Scheduler/Engine/ holds those on a tick: Dispatch, Free, Choice and Tick (what
-- it sends), Sound (it is such a sequence), Progress, Sends and Waiting (the oldest task that waits).
-- System.antt puts the ticks of any nodes and the reports of any workers together. Scheduler/Strategy/
-- has Fair (successive calls) and Order (the order of the map), Election/Retry/End.antt the deadline
-- of the retry loops, Election/Engine/ the branches of an election (Elect, Progress), the ends of its
-- wait (Wait), whose claims a node repeats (Origin), and a channel that nobody reads (Blocked).
-- Text.antt and its children hold what the code uses of Go's packages strings, strconv and
-- path/filepath.
-- Prelude.antt and its children hold the shared names and lemmas; Tests.antt and its children hold the
-- theorems at concrete inputs.
--
-- How they interact: the cluster's events and the calls of other nodes are steps of a node in
-- Election/Node.antt; a move of a network in Election/Network.antt is a step of one of its nodes,
-- which hears of a leader only what some node has said, or an attempt of one of them to announce
-- itself; the scheduler asks the election whether its node leads, takes the members from the cluster,
-- and calls the store; the store's recoveries take the members that are alive.
--
-- Conventions. Numbers are natural numbers. Terms, identifiers and the round robin counter are uint64:
-- sums are taken modulo 2 ^ 64, and theorems that need room say so. A worker's identifier goes into
-- the database as a signed 64-bit integer, by two's complement. A mutated object is passed in and out.
-- A buffered channel is the list of the values in it, oldest first; a send that would block returns
-- its event. The duration of a lease is not negative; an interval of a retry loop is an int64 that wraps
-- when it is doubled. A loop recurs on a list of tasks, rows, members, events, attempts or characters;
-- only the writing of a number runs on fuel, which is one more than the number. A text that the code
-- takes apart is the list of its code points; one that it only passes on or compares is a native text.
--
-- What comes from outside is a parameter: whether a call of the database is answered, fails, or takes
-- effect and loses its answer (`Reply`); how the database's driver reads a nullable text and a BIGINT
-- (`scan_text`, `scan_uint64`); how a node's metadata are encoded and decoded (encoding/json), a
-- duration is parsed (time.ParseDuration, which computes with floats), a host name resolved and a
-- task's identifier read as a UUID; the making of a connection and the answer of a generated stub; the
-- outcome of each attempt to send, and of each call of the object storage, of the file system and of
-- the membership library; the process that runs a task's script, and what it changes in the file system
-- and in the object storage; the members at each election; and the instant of each transaction.
--
-- Simplifications. The transactions of the store run one after another, so that the newest row of
-- `task_status` is the one inserted last; row locks play no part. A handler of the election engine
-- runs without interruption, and a goroutine between two places where it blocks. Logging, metrics
-- and contexts are left out, but for the deadline of the retry loops. In System.antt a tick of the scheduler is not interrupted by other nodes. In
-- Election/Network.antt an announcement that is still under way may always arrive.
-- Not modelled are the generated protocol code and the connection pool of task/postgres.go, which only
-- call libraries; the HTTP server and the JSON of the health handler; the set-up of the logger; the
-- example scripts, the mocks and the tests.
mod Prelude
pub mod Cluster
pub mod Election
pub mod Task
pub mod Scheduler
pub mod Worker
pub mod Text
pub mod Config
pub mod Storage
pub mod Health
pub mod System
pub mod Node
pub mod Client
mod Tests
