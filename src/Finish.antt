-- ===== src/Finish.antt =====
-- `finishOperation` of agent/commands.go: the end of a run. What is started after it (a replication,
-- deferred maintenance, a caught-up backup) is in the answer.
pub mod Entries
pub mod Frame
pub mod Release
mod Examples
use backupchief_agent.Base.{
  ℕ, zero, suc, ◌+◌, ◌%◌, ◌^◌, String, Bool, true, false, not, ◌&&◌, ◌||◌, List, [], ◌∷◌, ◌++◌,
  Option, none, some, str_eq, if◌then◌else◌, Dict, lookup, insert, delete, map, length, take, drop,
}
use backupchief_agent.Protocol.{
  CommandKind, run_backup, run_maintenance, sync_replica, RunKind, backup, unset, is_backup,
  RunState, finished, received, Trigger, Status, complete, partial, cancelled, failed,
  JournalCommand, CommandResult, RepositoryResult, SnapshotEvidence, Job, Replica, run_finished,
  snapshot_inventory_chunk, reporting_gap, run_progress, EventKind, EventPayload, terminal,
  inventory, gap, other_payload,
}
use backupchief_agent.Store.{Err, is_spool_capacity, is_scheduled}
use backupchief_agent.Maintenance.{record_outcome, runtime_of, is_complete}
use backupchief_agent.Daemon.{
  Daemon, Outcome, fresh_id, save_journal, save_state, next_sequence, with_event, is_nonempty,
  is_set, mark_spool_gap,
}
use backupchief_agent.Start.{is_received}
use backupchief_agent.Events.{
  append_event, append_chunks, append_evidence, append_repositories, append_snapshot_evidence,
  append_finished, snapshot_evidence_chunk_size, cancel_all,
}

-- What a run leaves: its log, what of it was dropped, whether the control plane knows snapshot
-- evidence, and the calls that write the log and make its digest.
pub record Ending : Type 0 where
  pub ending_log : List ℕ
  pub was_truncated : Bool
  pub bytes_dropped : ℕ
  pub knows_evidence : Bool
  pub write_run_log : String → List ℕ → Option Err
  pub sha256 : List ℕ → String

abbrev pub is_partial : Status → Bool
is_partial partial = true
is_partial _ = false

-- The replicas that the new snapshots are to be copied to.
unfoldable pub with_replication : Job → CommandResult → JournalCommand → JournalCommand
with_replication job result c =
    if is_backup result.run_kind
      && (is_complete result.status || is_partial result.status)
      && is_nonempty result.snapshot_ids
      && is_nonempty job.replicas
    then record c { replication_pending = map (λ (r : Replica). r.replica_key) job.replicas }
    else c

-- The members of the log that was written.
unfoldable pub with_log : Ending → String → JournalCommand → JournalCommand
with_log e log_id c = record c {
  log_id = log_id;
  log_bytes = length e.ending_log;
  log_sha256 = e.sha256 e.ending_log;
  log_truncated = e.was_truncated;
  log_dropped_bytes = e.bytes_dropped;
}

abbrev pub gap_reason : Option Err → String
gap_reason none = "log_unavailable"
gap_reason (some err) = if is_spool_capacity err then "spool_pressure" else "log_unavailable"

-- Without the log: an event of the gap, and the mark of it, whose save may fail.
unfoldable pub with_gap :
    Ending → CommandResult → Option Err → JournalCommand → Daemon → JournalCommand × Daemon
with_gap e result err c d =
    let (event, d') = fresh_id d in
    let c' =
      append_event event result.finished_at reporting_gap
        (gap (gap_reason err) ((length e.ending_log + e.bytes_dropped) % 2 ^ 64)) c in
    let (ignored, d'') = save_state (record d' { state = mark_spool_gap d'.state }) in (c', d'')

-- The log's identifier and the error of its write: `none` for the identifier is one of `rand.Read`.
unfoldable pub write_log : Ending → Daemon → (Option String × Option Err) × Daemon
write_log e d =
    let (id, d') = fresh_id d in
    elim id [
      | none ↦ ((none, none), d')
      | some log ↦ ((some log, e.write_run_log log e.ending_log), d')
    ]

-- The end of the entry: with its log, or with a gap.
unfoldable pub close_log :
    Ending
    → CommandResult
    → Option String × Option Err
    → JournalCommand
    → Daemon
    → JournalCommand × Daemon
unfolding with_log with_gap
close_log e result (none, err) c d = with_gap e result err c d
close_log e result (some log, none) c d = (with_log e log c, d)
close_log e result (some log, some err) c d = with_gap e result (some err) c d

-- `recordOutcomeLocked`, with the save whose error is dropped.
unfoldable pub record_outcome_locked : Job → CommandResult → Daemon → Daemon
record_outcome_locked job result d =
    let r = runtime_of job.repository_id d.state.maintenance in
    let r' = record_outcome d.metadata_revision job result r in
    let state' = record d.state { maintenance = insert job.repository_id r' d.state.maintenance } in
    let (ignored, d') = save_state (record d { state = state' }) in d'

-- The save at the end of a run: for lack of space all other runs are cancelled, and it is tried once
-- more.
unfoldable pub save_or_cancel : Daemon → Daemon
save_or_cancel d =
    let (e, d₁) = save_journal d in
    let (ignored, d₂) = save_journal (record d₁ { active = cancel_all d₁.active }) in
    elim e [ none ↦ d₁ | some err ↦ if is_spool_capacity err then d₂ else d₁ ]

unfoldable pub delete_all : List String → Dict Bool → Dict Bool
delete_all [] m = m
delete_all (k ∷ ks) m = delete_all ks (delete k m)

-- The marks of the run are taken off: its own repository's and those of all replicas of the job.
unfoldable pub release : String → Job → Daemon → Daemon
release run job d = record d {
  active = delete run d.active;
  active_run_kinds = delete run d.active_run_kinds;
  repositories =
      delete_all (job.repository_id ∷ map (λ (r : Replica). r.replica_id) job.replicas)
        d.repositories;
}

-- What follows an operation.
pub record Following : Type 0 where
  pub replicates : Bool
  pub releases_maintenance : Bool
  pub releases_catch_up : Bool
  pub of_job : String

-- The entry after its run: result, evidence, event, log and what is pending.
unfoldable pub finish_entry :
    Ending
    → Job
    → CommandResult
    → Option String × Option Err
    → JournalCommand
    → Daemon
    → JournalCommand × Daemon
finish_entry e job result written c d =
    let c₁ = with_replication job result (record c { state = finished; result = some result }) in
    let (c₂, d₂) = append_snapshot_evidence result c₁ d in
    let (c₃, d₃) = append_finished result c₂ d₂ in
    close_log e result written (record c₃ { result_reported = is_scheduled c₃.trigger }) d₃

abbrev following : JournalCommand → CommandResult → Following
following c result = record {
  replicates = is_nonempty c.replication_pending;
  releases_maintenance =
      is_scheduled c.trigger
      && is_backup result.run_kind
      && is_complete result.status
      && not (is_nonempty c.replication_pending);
  releases_catch_up = not (is_backup result.run_kind);
  of_job = c.command.payload.job_id;
}

-- What the control plane of an older version does not know is left out.
abbrev known_result : Ending → CommandResult → CommandResult
known_result e result =
    if e.knows_evidence
    then result
    else record result { snapshot_evidence = none; snapshot_evidence_ids = [] }

-- `finishOperation`; the journal may have lost the entry.
unfoldable pub finish_operation :
    Ending → String → String → Job → CommandResult → Daemon → Option Following × Daemon
finish_operation e id run job full_result d =
    let result = known_result e full_result in
    let (written, d₁) = write_log e d in
    let d₂ = release run job d₁ in
    elim (lookup id d₂.journal) [
      | none ↦ (none, d₂)
      | some c ↦
          let (c', d₃) = finish_entry e job result written c d₂ in
          let d₄ =
            record_outcome_locked job result (record d₃ { journal = insert id c' d₃.journal }) in
          (some (following c' result), save_or_cancel d₄)
    ]
