-- ===== src/Lib.antt =====
-- The Backup Chief agent: models of its parts, and the theorems about them.
--
-- The agent runs on a machine whose data it backs up. A control plane sends it commands and a
-- configuration; the agent writes each command to a journal, runs restic for it, and reports events
-- and a result. It keeps its state in a database, rotates its log file, restricts where it connects
-- to, and installs new versions of itself with a helper.
--
-- Base.antt and its children hold what is not code of the agent: Boolean tests on numbers, lists,
-- association lists for maps, and texts as lists of code points.
--
-- Protocol.antt has the types of agent/types.go and of the configuration. Daemon.antt has the state
-- of the daemon (agent/daemon.go), which all operations take and give back, with the calls that
-- save it; an operation runs under the daemon's mutex, so that it is one step. Store.antt is the
-- database below it (agent/state_db.go, agent/journal.go). Receive.antt is how a command gets into
-- the journal (receiveCommand of agent/commands.go) and Start.antt how it is started
-- (startOperation); Start calls Maintenance.antt (agent/maintenance_state.go), which plans a
-- maintenance run by what is remembered of the repository. Retired.antt reports what is left in the
-- journal of an enrollment that was replaced (agent/retired.go). Ulid.antt makes the identifiers of
-- commands' runs and events (newULID of agent/types.go).
--
-- LogFile.antt is the rotating log file (logfile/logfile.go). Egress.antt decides which addresses
-- and hosts may be connected to (egress/policy.go). Repository.antt is the model of destinations
-- and connections (repository/model.go), and Repository/Document.antt their wire documents
-- (repository/codec.go).
--
-- Three parts of agent/commands.go follow a run: Events.antt adds events to its entry, Finish.antt
-- ends it (finishOperation) and Cancel.antt ends an entry that was not run (finishWithoutExecution,
-- cancelRun) or reports on one that runs. Reporting.antt with Reporting/Journal.antt reports the
-- journal to the control plane (flushJournal, flushCommand). The daemon's mutex is free during a
-- call of the control plane, so that a function says what the other goroutines do meanwhile; the
-- theorem about it asks of them that they keep the entry and only add events to it, as the
-- operations of Events.antt do. Scheduler.antt has the schedules of agent/scheduler.go,
-- Scheduler/Entries.antt and Scheduler/Rounds.antt the handling of the occurrences that are due,
-- and Scheduler/Backups.antt the whole round and the entries that wait; they start operations by
-- Start.antt and end entries by Cancel.antt.
-- AgentUpdate.antt has the agent's side of its own update, from the restart to the result that the
-- helper of Updater.antt leaves; the files that both share are a part of its state.
--
-- Updater.antt and its children are the helper that updates the agent (updater/updater.go,
-- updater/state.go): Updater/Run.antt has Run, rollback and their parts as a state monad over the
-- machine, Updater/Versions.antt the order of versions. Each call of the package manager or on a
-- file works, fails, or is the one during which the helper dies; Updater/Attempts.antt follows an
-- update over any number of such attempts. The wait for the new agent goes over a list of what
-- happens between two polls, so that it ends.
--
-- Progress.antt is the reading of status lines from restic's output (restic/progress.go). Its loop
-- has fuel for a round for each byte, and each round but the last one takes a byte at least; the
-- equality with reading byte after byte shows that this is enough.
--
-- Code from elsewhere is a parameter or an outcome. Each transaction of the database, each save of
-- a file and each call of the operating system has an outcome that is read from a list, so that a
-- theorem holds for every order of failures; where the list is over, the call succeeds. What a
-- transaction of bbolt does is any function with the laws that its documentation gives for Update:
-- without an error the new content is written, with one the old content stays (Outcome of
-- Store.antt). Random bytes, the clock, HTTP answers, the parsers of URLs and addresses, and the
-- Unicode tables are arguments.
--
-- Numbers are natural numbers; where the code's integers can wrap around it is written out. The
-- loop over the chunks of evidence in Events.antt has fuel for a round for each identifier, and a
-- theorem that more changes nothing. All other loops go over a list and need no fuel. Times are
-- microseconds, or milliseconds in Ulid.antt. Maps are association lists; a loop over a map in Go
-- has no order, so that only what holds in any order is compared. encodeJobSnapshot, which marshals
-- a job that was validated, is taken not to fail.
--
-- Not modelled: goroutines and timers, the network, the external programs, files apart from the
-- outcomes of their calls, encoding/json, the validation of the configuration, the replication of
-- snapshots, the command line, and the text of errors.
pub mod AgentUpdate
pub mod Base
pub mod Cancel
pub mod Daemon
pub mod Egress
pub mod Events
pub mod Finish
pub mod Fixtures
pub mod LogFile
pub mod Maintenance
pub mod Progress
pub mod Protocol
pub mod Receive
pub mod Reporting
pub mod Repository
pub mod Retired
pub mod Scheduler
pub mod Start
pub mod Store
pub mod Ulid
pub mod Updater
