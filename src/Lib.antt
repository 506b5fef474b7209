-- ===== src/Lib.antt =====
-- The domain core of the crew service and its removal of workspaces, and theorems about them.
--
-- The service takes development tasks from a managed run to landed work. A task is a record that
-- only checked transitions change; a worker receives a pinned brief and sends sparse reports; its
-- work is judged from sealed evidence, delivered, merged under an approval and cleaned up, or
-- discarded: then a durable record goes through its stages while the coordinator releases the
-- managed run, detaches the runtime and removes the workspace through its ports. An
-- initiative joins several tasks by a graph of dependencies. The packages around the domain (the
-- store, the coordinators, the adapters) call these functions and keep their results.
--
-- Which file models what; the paths are below internal/domain, those of Scheduler below
-- internal/application:
--   Field             validation.go, attachment.go and the text validators of error.go
--   Lifecycle         the enums of task.go, and nextTaskState of task_transition.go; Lifecycle/Graph
--                     and Lifecycle/Reach are about single events and runs of events
--   Task              the Task record; Task/Validate is Task.Validate in its groups of checks,
--                     Task/Brief is brief.go, Task/Apply is ApplyTransition and binding.go,
--                     Task/Report is report.go and report_transition.go
--   Contract          contract_artifact.go and contract_artifact_content.go
--   Initiative        the types of initiative.go; Initiative/Validate is its validator,
--                     Initiative/Cycle is hasCycle, Initiative/Ready is DependencyReadyTasks,
--                     Initiative/Authority is the integration lane, Initiative/Stale the stale sets
--                     of contract_artifact.go
--   Evidence          the types of evidence.go; Evidence/Validate is its validator, Evidence/Seal
--                     seals and parses
--   Judge             candidate_judge.go
--   Merge, Landed     merge_approval.go and landed_proof.go
--   Backlog           backlog.go
--   Operation         operation.go and the failures of error.go
--   Scheduler         the types, limits and task index of initiative_scheduler.go and
--                     initiative_scheduler_usage.go; Scheduler/Launch is launchDependencyReason,
--                     Scheduler/Plan is scheduleOneInitiative, Scheduler/Allocate the rounds that
--                     offer slots, Scheduler/Derive the aggregate state, Scheduler/Fleet is
--                     ScheduleInitiatives over these, with initiative_scheduler_artifacts.go
--   Cleanup           the types of internal/application/cleanup.go and discard.go;
--                     Cleanup/Tables, Cleanup/Rows, Cleanup/Database and Cleanup/Write are the rows
--                     and the steps that the transactions of internal/store/sqlite share
--                     (mutations.go, repository.go, mutation_helpers.go, service_events.go,
--                     integration_reservation_guard.go), Cleanup/Safety, Cleanup/Origin and
--                     Cleanup/Proof are cleanup_safety.go there with parts of replace.go and
--                     decision_cancel.go, Cleanup/Begin, Cleanup/Store and Cleanup/Complete are
--                     cleanup.go there with audit.go, Cleanup/Discard is discard.go there;
--                     Cleanup/Ports, Cleanup/Verify, Cleanup/Coordinator and Cleanup/Commands are
--                     the CleanupCoordinator of internal/application with landed_evidence.go and
--                     the failures of mutations.go; Cleanup/Stages says what a call may do to
--                     the stages, Cleanup/History what a log of port calls has to hold
--   Command           internal/store/sqlite/commit_skeleton.go; Command/Stop is pause.go and
--                     cancel_task.go there, Command/HostCancel is cancel.go there, Command/Replay
--                     and Command/Stopped are about commands that are sent again and about
--                     cancelled tasks
-- Base holds what all share: tests on numbers, lists, int64 counters, results, clocks and sorting.
-- Text holds byte strings with their equality, order, patterns and UTF-8. Tests holds concrete
-- records and the theorems applied to them.
--
-- How the code corresponds: a Go string is its list of bytes. A string type with constants is a
-- data type with those constants and one constructor for any other text. A Validate method returns
-- the first error, with field and reason. A method that returns a record and an error returns the
-- pair, so that what it hands back beside an error is part of the model. A Go map that is built and
-- only read is a list of its entries or a function; where the code ranges over a map, its result
-- does not depend on the order. An int64 is a signed integer whose increment wraps. A time is an
-- instant and whether it is in UTC. A number that an error message prints stays its verb.
--
-- A database is a record of the rows of its tables, a transaction a function that returns either
-- its answer with the database it commits, or an error with what it commits nevertheless. The
-- coordinator is an action on a world: everything outside the service, the database, and a log of
-- the calls of the ports.
--
-- Parameters: SHA-256 and the table of printable runes (Platform), encoding/json for evidence
-- (Evidence/Seal), and for cleanup filepath.IsAbs and filepath.Clean, refreshInitiativeAggregate
-- (Cleanup/Write), the ports and the encoding of the commands (Cleanup/Ports). The theorems hold
-- for all of them.
--
-- Fuel: the cycle search recurses at most as deep as there are members, and is given that many
-- units. The loop of a cleanup gets three passes, since a record goes through at most three stages.
-- Numbers are printed with twenty digits of room, and an int64 has nineteen.
--
-- Not modelled: a usage of the fleet that is given from outside, and DeriveInitiativeState; the
-- other transactions and use cases, the transports, the adapters of git and the forge, and the
-- programs. Of cleanup: cancelled contexts and errors of the database driver, and two commands that
-- run at once (a transaction is one step, and the store has one writer). Of the skeleton of the
-- commands: the Record step and the preparation of a replay, since none of the three commands that
-- are modelled has them.
pub mod Base
pub mod Text
pub mod Field
pub mod Lifecycle
pub mod Platform
pub mod Contract
pub mod Task
pub mod Operation
pub mod Landed
pub mod Merge
pub mod Backlog
pub mod Initiative
pub mod Evidence
pub mod Judge
pub mod Scheduler
pub mod Cleanup
pub mod Command
mod Tests
