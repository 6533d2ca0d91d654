-- ===== src/Cancel.antt =====
-- The other ends of an entry in agent/commands.go: `finishWithoutExecution` and `cancelRun`; and
-- `databaseBackupProgress`, which reports on a run before its end.
pub mod Endings
use backupchief_agent.Base.{
  ℕ, zero, suc, ◌+◌, ◌%◌, ◌^◌, String, Bool, true, false, not, ◌&&◌, ◌||◌, List, [], ◌∷◌, ◌++◌,
  Option, none, some, str_eq, if◌then◌else◌, Dict, lookup, insert, delete, map, length, take, drop,
}
use backupchief_agent.Protocol.{
  CommandKind, run_backup, run_maintenance, sync_replica, RunKind, backup, unset, is_backup,
  RunState, finished, received, Trigger, Status, complete, partial, cancelled, failed,
  JournalCommand, CommandResult, RepositoryResult, SnapshotEvidence, Job, Replica, run_finished,
  snapshot_inventory_chunk, reporting_gap, run_progress, EventKind, EventPayload, terminal,
  inventory, gap, other_payload,
}
use backupchief_agent.Store.{Err, is_spool_capacity, is_scheduled}
use backupchief_agent.Maintenance.{record_outcome, runtime_of, is_complete}
use backupchief_agent.Daemon.{
  Daemon, Outcome, fresh_id, save_journal, save_state, next_sequence, with_event, is_nonempty,
  is_set, mark_spool_gap,
}
use backupchief_agent.Start.{is_received}
use backupchief_agent.Events.{
  append_event, append_chunks, append_evidence, append_repositories, append_snapshot_evidence,
  append_finished, snapshot_evidence_chunk_size, cancel_all,
}

abbrev pub is_sync : CommandKind → Bool
is_sync sync_replica = true
is_sync _ = false

-- The codes that a replica's synchronisation may end with.
abbrev pub sync_code : String → String
sync_code code =
    if str_eq code "copy_failed"
      || str_eq code "cancelled"
      || str_eq code "timed_out"
      || str_eq code "execution_failed"
    then code
    else "execution_failed"

abbrev pub sync_status : String → Status
sync_status code = if str_eq code "cancelled" then cancelled else failed

abbrev pub unexecuted : JournalCommand → Status → String → String → Daemon → CommandResult
unexecuted c status code summary d = record {
  generation = d.generation;
  run_id = c.run_id;
  job_id = c.command.payload.job_id;
  repository_key = "";
  run_kind = c.run_kind;
  status = status;
  result_code = code;
  started_at = d.clock;
  finished_at = d.clock;
  snapshot_ids = [];
  summary = summary;
  snapshot_evidence = none;
  snapshot_evidence_ids = [];
  prune_completed = false;
  repository_results = [];
}

-- The entry of a synchronisation that was not run, which is reported by its result alone.
unfoldable pub finish_sync : String → String → JournalCommand → Daemon → JournalCommand
finish_sync code summary c d = record c {
  state = finished;
  result = some (record (unexecuted c (sync_status (sync_code code)) (sync_code code) summary d) {
    run_kind = unset;
    repository_key = c.command.payload.repository_key;
  });
  result_reported = false;
}

-- The entry of any other command, with its event.
unfoldable pub finish_other :
    Status → String → String → JournalCommand → Daemon → JournalCommand × Daemon
finish_other status code summary c d =
    let result = unexecuted c status code summary d in
    let (c', d') = append_finished result (record c { state = finished; result = some result }) d in
    (record c' { result_reported = is_scheduled c'.trigger }, d')

-- `finishWithoutExecution`.
unfoldable pub finish_without_execution : String → Status → String → String → Daemon → Outcome
finish_without_execution id status code summary d = elim (lookup id d.journal) [
  | none ↦ (none, d)
  | some c ↦
      if is_sync c.command.kind
      then save_journal (record d { journal = insert id (finish_sync code summary c d) d.journal })
      else (let (c', d') = finish_other status code summary c d in
          save_journal (record d' { journal = insert id c' d'.journal }))
]

abbrev is_cancellable : CommandKind → Bool
is_cancellable run_backup = true
is_cancellable run_maintenance = true
is_cancellable _ = false

-- A waiting entry of the run.
unfoldable pub waiting_entry : String → Dict JournalCommand → Option String
waiting_entry run [] = none
waiting_entry run ((id, c) ∷ j) =
    if is_cancellable c.command.kind && str_eq c.run_id run && is_received c.state
    then some id
    else waiting_entry run j

-- `cancelRun`.
unfoldable pub cancel_run : String → Daemon → Outcome
cancel_run run d = elim (lookup run d.active) [
  | some context ↦ (none, record d { active = insert run true d.active })
  | none ↦ elim (waiting_entry run d.journal) [
    | none ↦ (none, d)
    | some id ↦
        finish_without_execution id cancelled "cancelled"
          "The operation was cancelled before execution." d
  ]
]

-- The save of an event that was added to a running entry: an error takes the event back, and for lack
-- of space all active runs are cancelled.
unfoldable pub save_progress : String → JournalCommand → JournalCommand → Daemon → Daemon
save_progress id before after d =
    let (e, d₁) = save_journal (record d { journal = insert id after d.journal }) in
    let d₂ = record d₁ { journal = insert id before d₁.journal } in
    elim e [
      | none ↦ d₁
      | some err ↦ if is_spool_capacity err then record d₂ { active = cancel_all d₂.active } else d₂
    ]

-- The function that `databaseBackupProgress` gives, for a control plane that knows it; `report` is
-- the text of the event's payload.
unfoldable pub database_progress : String → String → Daemon → Daemon
database_progress id report d = elim (lookup id d.journal) [
  | none ↦ d
  | some c ↦ elim c.state [
    | RunState.running ↦
        let (event, d') = fresh_id d in
        elim event [
          | none ↦ d'
          | some e ↦
              save_progress id c
                (append_event (some e) d'.clock run_progress (other_payload report) c) d'
        ]
    | _ ↦ d
  ]
]
