-- ===== src/Scheduler/Backups.antt =====
-- `scheduleBackups` as a whole, and the operations that wait: `startNextDeferredMaintenance` and
-- `startCatchUpBackup`.
use backupchief_agent.Base.{
  ℕ, ◌-◌, String, Bool, true, false, not, ◌&&◌, ◌||◌, [], ◌∷◌, Option, none, some, str_eq, ltb, leb,
  ◌==◌, if◌then◌else◌, is_some, Dict, insert,
}
use backupchief_agent.Protocol.{
  RunKind, forget, check_metadata, check_data, snapshot_inventory, skipped, JournalCommand, Job,
}
use backupchief_agent.Store.{Err}
use backupchief_agent.Daemon.{
  Daemon, Outcome, save_journal, save_state, active_backups, active_maintenance,
}
use backupchief_agent.Start.{is_received, start_operation}
use backupchief_agent.Cancel.{finish_without_execution}
use backupchief_agent.Scheduler.{
  a_minute, Cron, truncate, Configuration, all_operations, sort_operations,
}
use backupchief_agent.Scheduler.Rounds.{schedule_operations}

-- The job that an entry is run with: an error, a configuration that is not there yet, or the job if
-- the configuration has it.
pub data Found : Type 0 where
  unknown : Err → Found
  not_ready : Found
  found : Option Job → Found

-- `configuredJob`, which may load a newer configuration.
abbrev pub Configured : Type 0
Configured = String → ℕ → Daemon → Found × Daemon

-- `jobForExecution`.
unfoldable pub job_for_execution : Configured → JournalCommand → Daemon → Found × Daemon
job_for_execution configured c d = elim c.job_snapshot [
  | some job ↦ (found (some job), d)
  | none ↦ configured c.command.payload.job_id c.command.payload.required_config_revision d
]

-- The entry is started with the job that was found, or ended without it.
unfoldable pub start_found : String → Found × Daemon → Outcome
start_found id (unknown err, d) = (some err, d)
start_found id (not_ready, d) = (none, d)
start_found id (found none, d) =
    finish_without_execution id skipped "config_unavailable"
      "The required job configuration is unavailable." d
start_found id (found (some job), d) =
    if job.enabled
    then start_operation id job d
    else finish_without_execution id skipped "config_unavailable"
        "The required job configuration is unavailable." d

-- `maintenancePriority`.
abbrev pub maintenance_priority : RunKind → ℕ
maintenance_priority snapshot_inventory = 0
maintenance_priority forget = 1
maintenance_priority check_metadata = 2
maintenance_priority check_data = 3
maintenance_priority _ = 4

-- A missing time is an empty text, which is before all others.
abbrev pub before_at : Option ℕ → Option ℕ → Bool
before_at none none = false
before_at none (some b) = true
before_at (some a) none = false
before_at (some a) (some b) = ltb a b

-- An entry that waits at most until a time, for the job or for any; where only those that have
-- waited so long are asked for, the time is over.
unfoldable pub is_deferred : Option String → Bool → ℕ → JournalCommand → Bool
is_deferred job expired_only now c = elim c.max_deferral_at [
  | none ↦ false
  | some at ↦
      is_received c.state
      && (elim job [ none ↦ true | some own ↦ str_eq c.command.payload.job_id own ])
      && (not expired_only || leb at now)
]

-- Whether an entry is started before another: by its kind, and then by its time.
unfoldable pub goes_before : JournalCommand → JournalCommand → Bool
goes_before a b =
    let p = maintenance_priority a.run_kind in
    let q = maintenance_priority b.run_kind in
    ltb p q || p == q && before_at a.scheduled_for b.scheduled_for

-- The loop over the journal, with the best entry so far.
unfoldable pub best_entry :
    (JournalCommand → Bool)
    → (JournalCommand → JournalCommand → Bool)
    → Dict JournalCommand
    → Option (String × JournalCommand)
    → Option (String × JournalCommand)
best_entry test better [] best = best
best_entry test better ((id, c) ∷ j) best =
    let wins : Bool = elim best [ none ↦ true | some (own, b) ↦ better c b ] in
    best_entry test better j (if test c && wins then some (id, c) else best)

-- `startNextDeferredMaintenance`; no job is one that is not asked for.
unfoldable pub start_next_deferred_maintenance :
    Configured → Option String → Bool → Daemon → Outcome
start_next_deferred_maintenance configured job expired_only d =
    if is_some d.state.agent_update
    then (none, d)
    else elim (best_entry (is_deferred job expired_only d.clock) goes_before d.journal none) [
      | none ↦ (none, d)
      | some (id, c) ↦
          let c' = record c { wait_for_backup = false } in
          let (e, d₁) = save_journal (record d { journal = insert id c' d.journal }) in
          elim e [
            | some err ↦ (some err, record d₁ { journal = insert id c d₁.journal })
            | none ↦ start_found id (job_for_execution configured c' d₁)
          ]
    ]

abbrev pub is_catch_up : String → JournalCommand → Bool
is_catch_up job c = is_received c.state && c.catch_up_backup && str_eq c.command.payload.job_id job

-- `startCatchUpBackup`.
unfoldable pub start_catch_up_backup : Configured → String → Daemon → Outcome
start_catch_up_backup configured job d =
    let earlier : JournalCommand → JournalCommand → Bool =
      λ a b. before_at a.scheduled_for b.scheduled_for in
    if is_some d.state.agent_update
    then (none, d)
    else elim (best_entry (is_catch_up job) earlier d.journal none) [
      | none ↦ (none, d)
      | some (id, c) ↦ start_found id (job_for_execution configured c d)
    ]

-- The minute is remembered where an update is pending.
unfoldable pub note_minute : ℕ → Daemon → Outcome
note_minute minute d = elim d.state.agent_update [
  | none ↦ (none, d)
  | some u ↦ save_state (record d {
    state = record d.state { agent_update = some (record u { last_schedule_minute = minute }) };
  })
]

-- The part of `scheduleBackups` behind the lock.
unfoldable pub schedule_round : Cron → Configuration → Configured → ℕ → Daemon → Outcome
schedule_round k g configured previous d =
    let minute = truncate d.clock in
    let draining = is_some d.state.agent_update in
    let (e, r) =
      schedule_operations k g draining (if draining then previous else minute - a_minute) minute
        (sort_operations (all_operations g g.jobs))
        (record {
          daemon = d;
          busy = d.repositories;
          backups = active_backups d.active_run_kinds;
          maintenances = active_maintenance d.active_run_kinds;
        }) in
    elim e [
      | some err ↦ (some err, r.daemon)
      | none ↦
          if draining
          then (none, r.daemon)
          else start_next_deferred_maintenance configured none true r.daemon
    ]

-- `scheduleBackups`: once in a minute.
unfoldable pub schedule_backups : Cron → Configuration → Configured → Daemon → Outcome
schedule_backups k g configured d =
    let minute = truncate d.clock in
    let (e, d₁) = note_minute minute (record d { last_schedule_minute = minute }) in
    if leb minute d.last_schedule_minute
    then (none, record d { last_schedule_minute = minute })
    else elim e [
      | some err ↦ (some err, d₁)
      | none ↦
          if d₁.state.authentication_paused
          then (none, d₁)
          else schedule_round k g configured d.last_schedule_minute d₁
    ]
