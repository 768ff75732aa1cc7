-- ===== src/Lib.antt =====
-- SlurmLite: a gang scheduler for a cluster of nodes, driven by one controller.
--
-- The program. Clients submit jobs to the controller; a job asks for a number of nodes and of CPUs
-- on each. The job manager keeps the jobs and the queue of pending ones, the registry keeps the
-- nodes, and the scheduler takes the head of the queue, chooses a gang of free nodes, reserves them
-- all or none, and marks the job running. Nodes report the end of their share of the work.
--
-- Which file models which part (paths from the repository's root):
--   Prelude, Prelude/*     what the parts share: tests, int64 and int32 arithmetic on signed
--                          integers with their wrap-around, lists, Go maps as association lists,
--                          times and durations, the test of strings.TrimSpace, results of fallible
--                          calls.
--   Jobs/Model             internal/job/job.go: Job, Spec, Status, New, Validate, CanTransition,
--                          Transition and the Mark methods.
--   Jobs/Manager, Changes  internal/job/manager.go: Submit, Get, List, PeekPending; MarkRunning,
--                          MarkCompleted, MarkFailed, FailRunningJob, Cancel, ReportNodeEvent.
--   Jobs/Effects           the methods as one step function, and the effects that a call can have;
--                          Jobs/Outcomes has what an end of a job does.
--   Jobs/Invariant, Lifecycle, Errors, Completion, Order   theorems about the manager.
--   Cluster/Registry, Reservations   internal/cluster/registry.go.
--   Cluster/Invariant, Listing, Gangs   theorems about the registry.
--   Cluster/Reaper, Monitor   internal/cluster/reaper.go and heartbeat.go; Cluster/Lost has their
--                          theorems.
--   Scheduling/Resources   internal/scheduler/resources.go; Scheduling/Gang has its theorems.
--   Scheduling/Dispatch, Schedule   internal/scheduler/scheduler.go: assignments and trySchedule, over
--                          a dispatcher with a state of its own.
--   Scheduling/AllOrNothing, Placed, Progress   theorems about a scheduling step.
--   Protocol               api/proto/v1/scheduler.pb.go: enums and messages as data.
--   Controller/Hub         internal/controller/hub.go: Hub and Failer, over a store of channels.
--   Controller/Channels, Mailboxes, History, Delivery   theorems about the hub.
--   Controller/Wiring      the hub as the scheduler's dispatcher, Failer as the monitor's job failure.
--   Controller/Convert     internal/controller/convert.go; Controller/Roundtrip and Sorted have its
--                          theorems.
--   Controller/Server, Reports, Streams   internal/controller/server.go: the handlers, with
--                          ReportJobStatus and the loop of WatchWork apart; Controller/Service and
--                          Requests have what they keep.
--   Agent/Executor         internal/node/executor.go; Agent/Slot has the theorem on its slot,
--                          Agent/Environment what mergeEnv gives to a job's process.
--   Agent/Node             internal/node/agent.go and cmd/node/main.go, over a client with a state
--                          of its own; Agent/Answers has its theorems.
--   Cli/Tables, Commands   cmd/slctl/commands.go and main.go; Cli/Submission has what the controller
--                          reads of a submission, Cli/Cancellation what a cancellation does.
--   System/Controller      cmd/controller/main.go: the server's state with the scheduler, the
--                          monitor and the streams over it, and its serial steps.
--   System/Coupling        how jobs and nodes belong together; System/Assignment, Nodes, Requests,
--                          Reports, Placement, Losses   what keeps them together.
--   System/History         the states that the controller reaches serially, and what holds in them;
--                          System/Loop has the scheduler's loop.
--   System/Races           handlers with other calls between theirs.
--   System/Completion      the last report of a job's gang.
--   System/Membership, Execution   an agent that calls the controller's handlers.
--   Jobs/Tests, Cluster/Tests, Scheduling/Tests, Scheduling/PlacedTests, Controller/Tests,
--   Agent/Tests, Cli/Tests, System/Tests, System/Tests/Agents,
--   System/Tests/Races     runs on small inputs, and the theorems at them.
--
-- How the code is read. A method holds its lock for its whole body, so it is a function from the
-- state to the new state and its result; the state is returned with an error too. time.Now() is an
-- argument. A map is an association list whose order stands for the order in which range visits it.
-- An int is a signed integer, and its sums and differences wrap at 64 bits. Error texts are
-- constructors that hold the values which the texts print. A nil slice that means "none" is none.
-- The jobs are values: the manager is the only holder of its pointers, since Get and List clone.
-- One loop needs fuel, the scheduler's, which tries the queue until nothing starts: one step more
-- than there are pending jobs is enough. Every other loop is over a list or a map. strconv.Itoa
-- writes at most twenty digits, which every int64 fits. In System/Controller
-- and in all that is proved of its histories, a handler, a scheduling step, a beat, a tick and a turn of
-- a stream each run alone, from start to end at one instant, and follow each other in any order. The
-- program does not ensure this: it locks the registry, the job manager and the hub for single calls, so
-- that calls of one goroutine can come between those of another, and the coupling of jobs and nodes can
-- then break. System/Races has two such runs of the handlers, of CancelJob and of ReportJobStatus; no
-- other interleaving is modelled. What holds of single calls of the job manager or the hub holds
-- whatever runs at the same time. Durations and timestamps of the
-- protocol are a parameter with the functions that the code calls, and so are the clients of the
-- agent and of the command line. An int32 of a message is a signed integer, in range where a
-- theorem needs it.
--
-- Not modelled: gRPC and its transport, the generated code but for its data, flag parsing, logging,
-- signals, and the shell scripts. What os/exec and the operating system do to a job's process is
-- the way in which its run ends.
pub mod Prelude
pub mod Jobs
pub mod Cluster
pub mod Scheduling
pub mod Protocol
pub mod Controller
pub mod Agent
pub mod Cli
pub mod System
