-- ===== src/Start/Examples.antt =====
-- A backup that starts, beside another job on its repository.
use backupchief_agent.Base.{◌≡◌, refl, ◌⊎◌, [], ◌∷◌, none, lookup, insert, arith, ap, length}
use backupchief_agent.Protocol.{JournalCommand, received, run_backup}
use backupchief_agent.Store.{
  can_accept_work, save_command_journal, update_state, claim_all, claim, claim_at, occurrence_of,
}
use backupchief_agent.Ulid.{is_ulid, matches_class}
use backupchief_agent.Daemon.{
  Daemon, fresh_id, save_journal, active_backups, active_maintenance, abs_int64,
  has_pending_replication,
}
use backupchief_agent.Start.{
  start_operation, start_entry, start_run, commit_start, launch, report_skew, with_snapshot,
  is_blocked, replication_blocks, capacity_reached, any_busy, repository_ids, mark_busy,
}
use backupchief_agent.Start.Attempt.{IsIdle}
use backupchief_agent.Start.Journal.{StartedBy, start_operation_lem}
use backupchief_agent.Start.Capacity.{
  IsWithinCapacity, start_operation-IsWithinCapacity, start_operation_exclusive,
}
use backupchief_agent.Fixtures.{command_id, job, command_of, entry_of, daemon_of}

abbrev entry : JournalCommand
entry = entry_of (command_of run_backup none) received

abbrev before : Daemon
before = daemon_of [] ((command_id, entry) ∷ [])

starts : length (start_operation command_id job before).1.launched ≡ 1
unfolding start_operation start_entry start_run commit_start launch report_skew with_snapshot
    is_blocked replication_blocks capacity_reached any_busy repository_ids mark_busy can_accept_work
    lookup insert fresh_id save_journal save_command_journal update_state claim_all claim claim_at
    occurrence_of is_ulid matches_class active_backups active_maintenance abs_int64
    has_pending_replication
starts = refl

start_operation_lem_example :
    IsIdle before (start_operation command_id job before).1
    ⊎ StartedBy command_id job before (start_operation command_id job before)
start_operation_lem_example = start_operation_lem command_id job before

start_operation-IsWithinCapacity_example :
    IsWithinCapacity (start_operation command_id job before).1.active_run_kinds
unfolding active_backups active_maintenance
start_operation-IsWithinCapacity_example =
    start_operation-IsWithinCapacity command_id job before
      (record { backups = omega arith; maintenance = omega arith })

start_operation_exclusive_example :
    (start_operation "other" job (start_operation command_id job before).1).1.launched
    ≡ (start_operation command_id job before).1.launched
start_operation_exclusive_example =
    start_operation_exclusive command_id "other" job job before refl (λ e. cc (ap length e, starts))
