-- ===== src/Start.antt =====
-- `startOperation` of agent/commands.go: when a journaled operation may run, and what is written
-- before its goroutine starts. All of it happens under the daemon's mutex.
pub mod Attempt
pub mod Journal
pub mod Memory
pub mod Capacity
mod Examples
use backupchief_agent.Base.{
  ℕ, ◌+◌, String, Bool, true, false, not, ◌&&◌, ◌||◌, List, [], ◌∷◌, ◌++◌, Option, none, some,
  str_eq, ltb, leb, if◌then◌else◌, is_some, Dict, lookup, insert, map,
}
use backupchief_agent.Protocol.{
  RunKind, backup, unset, is_backup, RunState, received, running, finished, JournalCommand,
  MaintenancePlan, Job, Replica, run_started, clock_skew, no_payload, offset_seconds,
}
use backupchief_agent.Store.{Err, refused, can_accept_work}
use backupchief_agent.Maintenance.{prepare_maintenance, runtime_of}
use backupchief_agent.Daemon.{
  Daemon, Outcome, fresh_id, save_journal, save_state, next_sequence, with_event, active_backups,
  active_maintenance, is_set, has_pending_replication, abs_int64,
}

-- `criticalRunRecordEstimate`.
abbrev pub critical_run_record_estimate : ℕ
critical_run_record_estimate = 65536

abbrev pub is_received : RunState → Bool
is_received received = true
is_received _ = false

-- An entry of an older version has no run kind, and is a backup.
abbrev pub with_run_kind : JournalCommand → JournalCommand
with_run_kind c = record c { run_kind = elim c.run_kind [ unset ↦ backup | k ↦ k ] }

-- The repositories that the run holds: a backup its own, maintenance the replicas' too.
unfoldable pub repository_ids : RunKind → Job → List String
repository_ids kind job =
    job.repository_id
    ∷ (if is_backup kind then [] else map (λ (r : Replica). r.replica_id) job.replicas)

unfoldable pub any_busy : List String → Dict Bool → Bool
any_busy [] m = false
any_busy (r ∷ rs) m = is_set r m || any_busy rs m

unfoldable pub mark_busy : List String → Dict Bool → Dict Bool
mark_busy [] m = m
mark_busy (r ∷ rs) m = mark_busy rs (insert r true m)

-- At most two backups and one maintenance run at a time.
unfoldable pub capacity_reached : RunKind → Dict RunKind → Bool
capacity_reached kind kinds =
    if is_backup kind then leb 2 (active_backups kinds) else leb 1 (active_maintenance kinds)

-- Whether a maintenance run has to wait for the replication of its job.
unfoldable pub replication_blocks : RunKind → Job → Daemon → Bool
replication_blocks kind job d =
    not (is_backup kind)
    && (is_set job.job_id d.replication_active || has_pending_replication job.job_id d.journal)

unfoldable pub is_blocked : RunKind → Job → Daemon → Bool
is_blocked kind job d =
    replication_blocks kind job d
    || capacity_reached kind d.active_run_kinds
    || any_busy (repository_ids kind job) d.repositories

-- The goroutine that is started, and the marks that keep others from its repositories.
unfoldable pub launch :
    String → JournalCommand → Job → Option MaintenancePlan → List String → Daemon → Daemon
launch id c job plan repositories d = record d {
  active = insert c.run_id false d.active;
  active_run_kinds = insert c.run_id c.run_kind d.active_run_kinds;
  repositories = mark_busy repositories d.repositories;
  launched =
      record {
        launch_command = id;
        launch_run = c.run_id;
        launch_kind = c.run_kind;
        launch_job = job;
        launch_plan = plan;
      }
      ∷ d.launched;
}

-- The event of a clock that is off by more than five minutes; without an identifier only the
-- sequence number is used up.
unfoldable pub report_skew : JournalCommand → Daemon → JournalCommand × Daemon
report_skew c d =
    if ltb 300 (abs_int64 d.state.clock_offset_seconds)
    then (let c' = record c { sequence = next_sequence c.sequence } in
        let (id, d') = fresh_id d in
        elim id [
          | none ↦ (c', d')
          | some event ↦ (
            with_event c' event d.clock clock_skew (offset_seconds d.state.clock_offset_seconds),
            d',
          )
        ])
    else (c, d)

-- The entry with its snapshot of the job, the revision of which it is.
unfoldable pub with_snapshot : JournalCommand → Job → JournalCommand
with_snapshot c job = if is_some c.job_snapshot then c else record c {
  config_revision = c.command.payload.required_config_revision;
  job_snapshot = some job;
}

-- The part behind the last guard: the started entry is saved; an error takes the state, the
-- sequence number and the events back.
unfoldable pub commit_start :
    String
    → JournalCommand
    → JournalCommand
    → Job
    → Option MaintenancePlan
    → List String
    → Daemon
    → Outcome
commit_start id before started job plan repositories d =
    let (e, d₁) = save_journal (record d { journal = insert id started d.journal }) in
    elim e [
      | none ↦ (none, launch id started job plan repositories d₁)
      | some err ↦ (
        some err,
        record d₁ {
          journal =
              insert id
                (record started {
                  state = received;
                  sequence = before.sequence;
                  events = before.events;
                })
                d₁.journal;
        },
      )
    ]

-- From the entry's snapshot on. Without an identifier for the event the entry stays as it is here,
-- running and with a sequence number used up.
unfoldable pub start_run :
    String → JournalCommand → Job → Option MaintenancePlan → List String → Daemon → Outcome
start_run id c job plan repositories d =
    let c₁ = with_snapshot c job in
    let c₂ = record c₁ { state = running; sequence = next_sequence c₁.sequence } in
    let (event, d₁) = fresh_id d in
    elim event [
      | none ↦ (some (refused "rand.Read"), record d₁ { journal = insert id c₂ d₁.journal })
      | some e ↦
          (let (c₃, d₂) = report_skew (with_event c₂ e d.clock run_started no_payload) d₁ in
            commit_start id c c₃ job plan repositories d₂)
    ]

-- Maintenance is prepared first, and the daemon's state saved.
unfoldable pub start_maintenance : String → JournalCommand → Job → List String → Daemon → Outcome
start_maintenance id c job repositories d =
    let r = runtime_of job.repository_id d.state.maintenance in
    let (job', plan, c', r') = prepare_maintenance d.clock job c r in
    let state' = record d.state { maintenance = insert job.repository_id r' d.state.maintenance } in
    let (e, d₁) = save_state (record d { state = state'; journal = insert id c' d.journal }) in
    elim e [ none ↦ start_run id c' job' plan repositories d₁ | some err ↦ (some err, d₁) ]

-- The guards on the entry, with the run kind filled in.
unfoldable pub start_entry : String → Job → JournalCommand → Daemon → Outcome
start_entry id job c d =
    let ids = repository_ids c.run_kind job in
    if is_blocked c.run_kind job d
    then (none, d)
    else if is_backup c.run_kind
    then start_run id c job none ids d
    else start_maintenance id c job ids d

-- `startOperation`.
unfoldable pub start_operation : String → Job → Daemon → Outcome
start_operation id job d =
    if not (can_accept_work critical_run_record_estimate d.store) || is_some d.state.agent_update
    then (none, d)
    else elim (lookup id d.journal) [
      | none ↦ (none, d)
      | some c ↦
          if is_received c.state
          then (let c' = with_run_kind c in
              start_entry id job c' (record d { journal = insert id c' d.journal }))
          else (none, d)
    ]
