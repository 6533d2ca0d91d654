-- ===== src/Events.antt =====
-- The events that agent/commands.go adds to a journal entry, with their sequence numbers:
-- `appendSnapshotEvidenceEvents`, the event of a result, and what both share.
pub mod Evidence
pub mod Entries
pub mod Frame
pub mod Sequences
mod Examples
use backupchief_agent.Base.{
  ℕ, zero, suc, ◌+◌, ◌%◌, ◌^◌, String, Bool, true, false, not, ◌&&◌, ◌||◌, List, [], ◌∷◌, ◌++◌,
  Option, none, some, str_eq, if◌then◌else◌, Dict, lookup, insert, delete, map, length, take, drop,
}
use backupchief_agent.Protocol.{
  CommandKind, run_backup, run_maintenance, sync_replica, RunKind, backup, unset, is_backup,
  RunState, finished, received, Trigger, Status, complete, partial, cancelled, failed,
  JournalCommand, CommandResult, RepositoryResult, SnapshotEvidence, Job, Replica, run_finished,
  snapshot_inventory_chunk, reporting_gap, run_progress, EventKind, EventPayload, terminal,
  inventory, gap, other_payload,
}
use backupchief_agent.Store.{Err, is_spool_capacity, is_scheduled}
use backupchief_agent.Maintenance.{record_outcome, runtime_of, is_complete}
use backupchief_agent.Daemon.{
  Daemon, Outcome, fresh_id, save_journal, save_state, next_sequence, with_event, is_nonempty,
  is_set, mark_spool_gap,
}
use backupchief_agent.Start.{is_received}

abbrev pub snapshot_evidence_chunk_size : ℕ
snapshot_evidence_chunk_size = 400

-- An event with the next sequence number; without an identifier the number is used up.
unfoldable pub append_event :
    Option String → ℕ → EventKind → EventPayload → JournalCommand → JournalCommand
append_event id at kind payload c =
    let c' = record c { sequence = next_sequence c.sequence } in
    elim id [ none ↦ c' | some e ↦ with_event c' e at kind payload ]

-- The loop over the chunks of the snapshots' identifiers, with fuel for its rounds; it ends when no
-- identifier for an event can be made.
unfoldable pub append_chunks :
    ℕ
    → Option String
    → SnapshotEvidence
    → ℕ
    → List String
    → JournalCommand
    → Daemon
    → JournalCommand × Daemon
unfolding append_event
append_chunks zero key evidence index ids c d = (c, d)
append_chunks (suc n) key evidence index [] c d = (c, d)
append_chunks (suc n) key evidence index (x ∷ xs) c d =
    let (event, d') = fresh_id d in
    let chunk = take snapshot_evidence_chunk_size (x ∷ xs) in
    let c' =
      append_event event evidence.observed_at snapshot_inventory_chunk
        (inventory key evidence.scope index chunk) c in
    let rest =
      append_chunks n key evidence (index + 1) (drop snapshot_evidence_chunk_size (x ∷ xs)) c' d' in
    elim event [ none ↦ (c', d') | some e ↦ rest ]

-- `appendRepositorySnapshotEvidenceEvents`, and the second half of `appendSnapshotEvidenceEvents`.
unfoldable pub append_evidence :
    Option String
    → Option SnapshotEvidence
    → List String
    → JournalCommand
    → Daemon
    → JournalCommand × Daemon
append_evidence key evidence ids c d = elim evidence [
  | none ↦ (c, d)
  | some e ↦ append_chunks (length ids) key e 0 ids c d
]

unfoldable pub append_repositories :
    List RepositoryResult → JournalCommand → Daemon → JournalCommand × Daemon
append_repositories [] c d = (c, d)
append_repositories (r ∷ rs) c d =
    let (c', d') =
      append_evidence (some r.repository_key) r.snapshot_evidence r.snapshot_evidence_ids c d in
    append_repositories rs c' d'

-- `appendSnapshotEvidenceEvents`.
unfoldable pub append_snapshot_evidence :
    CommandResult → JournalCommand → Daemon → JournalCommand × Daemon
append_snapshot_evidence result c d =
    if is_nonempty result.repository_results
    then append_repositories result.repository_results c d
    else append_evidence none result.snapshot_evidence result.snapshot_evidence_ids c d

-- The event of a result.
unfoldable pub append_finished : CommandResult → JournalCommand → Daemon → JournalCommand × Daemon
append_finished result c d =
    let (event, d') = fresh_id d in
    (append_event event result.finished_at run_finished (terminal result) c, d')

-- The contexts of all active runs are cancelled.
unfoldable pub cancel_all : Dict Bool → Dict Bool
cancel_all [] = []
cancel_all ((run, c) ∷ m) = (run, true) ∷ cancel_all m
