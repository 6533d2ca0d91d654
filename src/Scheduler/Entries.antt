-- ===== src/Scheduler/Entries.antt =====
-- The entry of an occurrence, and what is done with an occurrence that gets none or is not run.
use backupchief_agent.Base.{
  ℕ, ◌+◌, ◌*◌, String, Bool, true, false, [], Option, none, some, if◌then◌else◌,
}
use backupchief_agent.Protocol.{
  instant, unset, is_backup, finished, received, skipped, scheduled, JournalCommand, CommandResult,
  scheduled_run, run_finished, terminal,
}
use backupchief_agent.Store.{is_spool_capacity, OccurrenceKey, record_skipped_occurrence}
use backupchief_agent.Daemon.{Daemon, Outcome, fresh_id, with_event, mark_spool_gap}
use backupchief_agent.Scheduler.{a_minute, ScheduledOperation, Configuration}

-- `refuseOccurrenceForPressure`: tried once more, if the first time has made room.
unfoldable pub refuse_occurrence_for_pressure : OccurrenceKey → Daemon → Outcome
refuse_occurrence_for_pressure key d =
    let next = mark_spool_gap d.state in
    let (e, s) = record_skipped_occurrence key (some next) d.store in
    let (e', s') = record_skipped_occurrence key (some next) s in
    elim e [
      | none ↦ (none, record d { store = s; state = next })
      | some err ↦
          if is_spool_capacity err
          then elim e' [
            | none ↦ (none, record d { store = s'; state = next })
            | some err' ↦ (some err', record d { store = s' })
          ]
          else (some err, record d { store = s })
    ]

-- An occurrence that is skipped without a mark.
unfoldable pub skip_occurrence : OccurrenceKey → Daemon → Outcome
skip_occurrence key d =
    let (e, s) = record_skipped_occurrence key none d.store in (e, record d { store = s })

abbrev overlap_result : JournalCommand → Daemon → CommandResult
overlap_result c d = record {
  generation = d.generation;
  run_id = c.run_id;
  job_id = c.command.payload.job_id;
  repository_key = "";
  run_kind = c.run_kind;
  status = skipped;
  result_code = "schedule_overlap";
  started_at = d.clock;
  finished_at = d.clock;
  snapshot_ids = [];
  summary = "The scheduled operation was skipped because execution capacity was unavailable.";
  snapshot_evidence = none;
  snapshot_evidence_ids = [];
  prune_completed = false;
  repository_results = [];
}

-- The entry that was ended for an overlap, with the event of its result if that has an identifier.
unfoldable pub overlap_entry : JournalCommand → Daemon → Option String → JournalCommand
overlap_entry c d event =
    let c' = record c {
      state = finished;
      result_reported = true;
      result = some (overlap_result c d);
      sequence = 1;
    } in
    elim event [
      | none ↦ c'
      | some e ↦ with_event c' e d.clock run_finished (terminal (overlap_result c d))
    ]

-- `finishScheduledOverlap`.
unfoldable pub finish_scheduled_overlap : JournalCommand → Daemon → JournalCommand × Daemon
finish_scheduled_overlap c d = let (event, d') = fresh_id d in (overlap_entry c d event, d')

abbrev pub finish_if : Bool → JournalCommand → Daemon → JournalCommand × Daemon
finish_if true c d = finish_scheduled_overlap c d
finish_if false c d = (c, d)

-- The entry of an occurrence.
unfoldable pub scheduled_entry :
    Configuration → ScheduledOperation → String → ℕ → ℕ → Daemon → JournalCommand
scheduled_entry g op run at minute d =
    let job = op.operation_job in
    record {
      command = record {
        id = run;
        generation = d.generation;
        kind = scheduled_run;
        issued_at = instant at;
        expires_at = instant (minute + 24 * 60 * a_minute);
        payload = record {
          job_id = job.job_id;
          run_id = "";
          required_config_revision = g.revision;
          maintenance = if is_backup op.operation_kind then unset else op.operation_kind;
          snapshot_ids = [];
          recovery_point_run_ids = [];
          repository_key = "";
          initial_sync = false;
          maintenance_plan = none;
          retry_of_run_id = "";
          source_type = "";
          source = "";
          source_digest = "";
          target_version = "";
        };
      };
      run_id = run;
      config_revision = g.revision;
      run_kind = op.operation_kind;
      trigger = scheduled;
      scheduled_for = some at;
      job_snapshot = some job;
      received_at = d.clock;
      acknowledged = true;
      state = received;
      sequence = 0;
      events = [];
      result = none;
      update_result = none;
      result_reported = false;
      log_id = "";
      log_bytes = 0;
      log_sha256 = "";
      log_truncated = false;
      log_dropped_bytes = 0;
      next_log_chunk = 0;
      log_completed = false;
      maintenance_plan = none;
      wait_for_backup = op.deferred;
      max_deferral_at =
          if op.deferred then some (minute + job.max_deferral_seconds * 1000000) else none;
      catch_up_backup = false;
      replication_pending = [];
    }
