-- ===== src/Events/Examples.antt =====
-- Evidence of two snapshots, which is one chunk.
use backupchief_agent.Base.{◌≡◌, refl, String, true, List, [], ◌∷◌, ◌++◌, none, some, arith, length}
use backupchief_agent.Protocol.{AgentEvent, JournalCommand, SnapshotEvidence, RunState, run_backup}
use backupchief_agent.Daemon.{Daemon, fresh_id}
use backupchief_agent.Events.{append_chunks, append_evidence}
use backupchief_agent.Events.Evidence.{
  append_chunks_ends, append_evidence-Chunks, has_ids, chunk_count, evidence_in, Chunks,
}
use backupchief_agent.Fixtures.{command_id, command_of, entry_of, daemon_of}

abbrev evidence : SnapshotEvidence
evidence = record { scope = "repository"; observed_at = 5000 }

abbrev snapshots : List String
snapshots = "4f3c" ∷ "9a01" ∷ []

abbrev entry : JournalCommand
entry = entry_of (command_of run_backup none) RunState.running

abbrev daemon : Daemon
daemon = daemon_of [] ((command_id, entry) ∷ [])

append_chunks_ends_example :
    append_chunks 2 none evidence 0 snapshots entry daemon
    ≡ append_chunks 5 none evidence 0 snapshots entry daemon
append_chunks_ends_example =
    append_chunks_ends none evidence 2 5 0 snapshots entry daemon (omega arith) (omega arith)

can_number : has_ids (chunk_count (length snapshots)) daemon ≡ true
unfolding has_ids fresh_id
can_number = refl

append_evidence-Chunks_example :
    (new : List AgentEvent) × ((append_evidence none
        (some evidence)
        snapshots
        entry
        daemon).0.events
      ≡ entry.events ++ new)
    × (evidence_in new ≡ snapshots)
    × (length new ≡ chunk_count (length snapshots))
    × Chunks none evidence 0 new
append_evidence-Chunks_example =
    append_evidence-Chunks none evidence snapshots entry daemon can_number
