-- ===== src/Scheduler/Rounds.antt =====
-- The rounds of the scheduler: `scheduleBackups`, `startNextDeferredMaintenance` and
-- `startCatchUpBackup` with what they call.
use backupchief_agent.Base.{
  ℕ, String, Bool, true, false, not, ◌&&◌, ◌||◌, List, [], ◌∷◌, Option, none, some, leb,
  if◌then◌else◌, Dict, insert, delete, suc,
}
use backupchief_agent.Protocol.{is_backup, JournalCommand}
use backupchief_agent.Store.{
  Err, refused, is_spool_capacity, OccurrenceKey, occurrence_exists, Store, can_accept_work,
}
use backupchief_agent.Daemon.{Daemon, Outcome, fresh_id, save_journal, is_set}
use backupchief_agent.Start.{critical_run_record_estimate, start_operation}
use backupchief_agent.Scheduler.{
  Cron, first_due_schedule, ScheduledOperation, Configuration, has_queued_scheduled_operation,
  has_active_maintenance,
}
use backupchief_agent.Scheduler.Entries.{
  refuse_occurrence_for_pressure, skip_occurrence, finish_if, scheduled_entry,
}

-- What a round carries from one operation to the next: the daemon, and its own account of what is
-- busy.
pub record Round : Type 0 where
  pub daemon : Daemon
  pub busy : Dict Bool
  pub backups : ℕ
  pub maintenances : ℕ

abbrev pub Turn : Type 0
Turn = Option Err × Round

abbrev pub in_round : Round → Outcome → Turn
in_round r (e, d) = (e, record r { daemon = d })

abbrev pub overlaps : ScheduledOperation → Round → Bool
overlaps op r =
    is_set op.operation_job.repository_id r.busy
    || (if is_backup op.operation_kind then leb 2 r.backups else leb 1 r.maintenances)

-- A backup that waits for the maintenance or the replication of its own job.
abbrev pub catches_up : ScheduledOperation → Round → Bool
catches_up op r =
    let job = op.operation_job in
    is_backup op.operation_kind
    && is_set job.repository_id r.busy
    && (job.after_scheduled_backup && has_active_maintenance job.job_id r.daemon.journal
        || is_set job.job_id r.daemon.replication_active)

-- The part behind the save of the entry.
unfoldable pub start_scheduled : Bool → String → ScheduledOperation → Round → Turn
start_scheduled waits run op r =
    if waits
    then (none, r)
    else (let job = op.operation_job in
        let r' = record r {
          busy = insert job.repository_id true r.busy;
          backups = if is_backup op.operation_kind then suc r.backups else r.backups;
          maintenances = if is_backup op.operation_kind then r.maintenances else suc r.maintenances;
        } in
        in_round r' (start_operation run job r.daemon))

-- The entry is saved, or the occurrence refused for lack of space.
unfoldable pub commit_scheduled :
    Bool → OccurrenceKey → String → JournalCommand → ScheduledOperation → Round → Turn
commit_scheduled waits key run c op r =
    let d = r.daemon in
    let (e, d₁) = save_journal (record d { journal = insert run c d.journal }) in
    let d₂ = record d₁ { journal = delete run d₁.journal } in
    elim e [
      | none ↦ start_scheduled waits run op (record r { daemon = d₁ })
      | some err ↦
          if is_spool_capacity err
          then in_round r (refuse_occurrence_for_pressure key d₂)
          else (some err, record r { daemon = d₂ })
    ]

-- The part behind the guards: an occurrence gets its run.
unfoldable pub enter_occurrence :
    Configuration → Bool → ℕ → OccurrenceKey → ℕ → ScheduledOperation → Round → Turn
enter_occurrence g draining minute key at op r =
    let (id, d₁) = fresh_id r.daemon in
    elim id [
      | none ↦ (some (refused "rand.Read"), record r { daemon = d₁ })
      | some run ↦
          let catch_up = catches_up op r in
          let overlap = not catch_up && overlaps op r in
          let c = record (scheduled_entry g op run at minute d₁) { catch_up_backup = catch_up } in
          let waits = draining || overlap || op.deferred || catch_up in
          let (c', d₂) = finish_if (overlap && not op.deferred && not draining) c d₁ in
          commit_scheduled waits key run c' op (record r { daemon = d₂ })
    ]

abbrev pub key_of : ScheduledOperation → ℕ → OccurrenceKey
key_of op at = record {
  occurrence_job = op.operation_job.job_id;
  occurrence_kind = op.operation_kind;
  occurrence_at = at;
}

-- Whether another occurrence of the operation is still waiting.
abbrev pub is_queued : Bool → ScheduledOperation → Dict JournalCommand → Bool
is_queued draining op j =
    let job = op.operation_job.job_id in
    (draining || op.deferred) && has_queued_scheduled_operation job op.operation_kind false j
    || is_backup op.operation_kind && has_queued_scheduled_operation job op.operation_kind true j

-- An occurrence that is due, once it was looked up.
unfoldable pub handle_read : Configuration → Bool → ℕ → ℕ → ScheduledOperation → Bool → Round → Turn
handle_read g draining minute at op known r =
    let key = key_of op at in
    if known
    then (none, r)
    else if is_queued draining op r.daemon.journal
    then in_round r (skip_occurrence key r.daemon)
    else if not (can_accept_work critical_run_record_estimate r.daemon.store)
    then in_round r (refuse_occurrence_for_pressure key r.daemon)
    else enter_occurrence g draining minute key at op r

-- The round after `occurrenceExists`.
abbrev pub with_store : Store → Round → Round
with_store s r = record r { daemon = record r.daemon { store = s } }

-- An occurrence that is due.
unfoldable pub handle_occurrence : Configuration → Bool → ℕ → ℕ → ScheduledOperation → Round → Turn
handle_occurrence g draining minute at op r =
    let ((known, e), s) = occurrence_exists (key_of op at) r.daemon.store in
    elim e [
      | some err ↦ (some err, with_store s r)
      | none ↦ handle_read g draining minute at op known (with_store s r)
    ]

-- The loop of `scheduleBackups` over the operations; the first error ends it.
unfoldable pub schedule_operations :
    Cron → Configuration → Bool → ℕ → ℕ → List ScheduledOperation → Round → Turn
schedule_operations k g draining after minute [] r = (none, r)
schedule_operations k g draining after minute (op ∷ ops) r =
    elim (first_due_schedule k op.expression after minute) [
      | none ↦ (some (refused "schedule"), r)
      | some (at, due) ↦
          let (e, r') = handle_occurrence g draining minute at op r in
          let rest = schedule_operations k g draining after minute ops r' in
          let not_due = schedule_operations k g draining after minute ops r in
          if due then elim e [ some err ↦ (some err, r') | none ↦ rest ] else not_due
    ]
