-- ===== src/Start/Journal.antt =====
-- What an attempt to start an operation does: nothing is launched, or the launch is on disk first.
use backupchief_agent.Base.{
  ◌≡◌, refl, ap, ◌⊎◌, inl, inr, String, Bool, true, false, not, ◌||◌, List, Option, none, some,
  arith, lookup, insert, Option-cases, Bool-cases, is_some,
}
use backupchief_agent.Protocol.{
  JournalCommand, MaintenanceRuntime, RunState, received, is_backup, Job, MaintenancePlan,
}
use backupchief_agent.Store.{can_accept_work, Err}
use backupchief_agent.Maintenance.{prepare_maintenance, runtime_of}
use backupchief_agent.Daemon.{Daemon, Outcome, save_state}
use backupchief_agent.Daemon.Saves.{save_state_lem}
use backupchief_agent.Start.{
  critical_run_record_estimate, is_received, with_run_kind, repository_ids, is_blocked, start_run,
  start_maintenance, start_entry, start_operation,
}
use backupchief_agent.Start.Attempt.{
  IsIdle, IsStarted, IsAttempt, IsAttempt-after, IsAttempt-kind, start_run-IsAttempt,
}

module _ (id : String) (c : JournalCommand) (job : Job) (ids : List String) (d : Daemon) where
  prepared : Job × Option MaintenancePlan × JournalCommand × MaintenanceRuntime
  prepared = prepare_maintenance d.clock job c (runtime_of job.repository_id d.state.maintenance)

  prepared_kind : prepared.2.run_kind ≡ c.run_kind
  unfolding prepared prepare_maintenance
  prepared_kind = ground arith

  to_save : Daemon
  to_save = record d {
    state = record d.state {
      maintenance = insert job.repository_id prepared.3 d.state.maintenance;
    };
    journal = insert id prepared.2 d.journal;
  }

  saved-IsIdle : IsIdle d (save_state to_save).1
  unfolding to_save
  saved-IsIdle = record {
    launched = ap (λ x. x.launched) (save_state_lem to_save).only_store;
    active = ap (λ x. x.active) (save_state_lem to_save).only_store;
    kinds = ap (λ x. x.active_run_kinds) (save_state_lem to_save).only_store;
    marks = ap (λ x. x.repositories) (save_state_lem to_save).only_store;
  }

  start_maintenance-saved :
      (save_state to_save).0 ≡ none
      → start_maintenance id c job ids d
        ≡ start_run id prepared.2 prepared.0 prepared.1 ids (save_state to_save).1
  unfolding start_maintenance to_save prepared
  start_maintenance-saved e = rw (e, start_maintenance)

  start_maintenance-unsaved :
      (err : Err)
      → (save_state to_save).0 ≡ some err
      → start_maintenance id c job ids d ≡ (some err, (save_state to_save).1)
  unfolding start_maintenance to_save prepared
  start_maintenance-unsaved err e = rw (e, start_maintenance)

  start_maintenance-IsAttempt : IsAttempt id c.run_kind ids d (start_maintenance id c job ids d)
  start_maintenance-IsAttempt = elim (Option-cases (save_state to_save).0) [
    | inl ok ↦ rw (start_maintenance-saved ok) (
        IsAttempt-after id c.run_kind ids d (save_state to_save).1
          (start_run id prepared.2 prepared.0 prepared.1 ids (save_state to_save).1) saved-IsIdle
          (IsAttempt-kind id ids (save_state to_save).1
            (start_run id prepared.2 prepared.0 prepared.1 ids (save_state to_save).1) prepared_kind
            (start_run-IsAttempt id prepared.2 prepared.0 prepared.1 ids (save_state to_save).1)))
    | inr (err, bad) ↦ rw (start_maintenance-unsaved err bad) (inl saved-IsIdle)
  ]

start_entry-IsAttempt :
    (id : String) (job : Job) (c : JournalCommand) (d : Daemon)
    → is_blocked c.run_kind job d ≡ false
    → IsAttempt id c.run_kind (repository_ids c.run_kind job) d (start_entry id job c d)
unfolding start_entry
start_entry-IsAttempt id job c d free = elim (Bool-cases (is_backup c.run_kind)) [
  | inl b ↦ rw (free, b) (start_run-IsAttempt id c job none (repository_ids c.run_kind job) d)
  | inr b ↦ rw (free, b) (start_maintenance-IsAttempt id c job (repository_ids c.run_kind job) d)
]

-- The daemon with the entry's run kind filled in.
abbrev pub filled : String → JournalCommand → Daemon → Daemon
filled id c d = record d { journal = insert id (with_run_kind c) d.journal }

-- The entry `c` may start: it waits, no update of the agent is pending, the spool has room, and no
-- guard over its job blocks it.
pub record IsAdmitted (id : String) (job : Job) (d : Daemon) (c : JournalCommand) : Type 0 where
  pub waiting : lookup id d.journal ≡ some c
  pub is_new : c.state ≡ received
  pub no_update : d.state.agent_update ≡ none
  pub has_room : can_accept_work critical_run_record_estimate d.store ≡ true
  pub is_free : is_blocked (with_run_kind c).run_kind job (filled id c d) ≡ false

abbrev pub StartedBy : String → Job → Daemon → Outcome → Type 0
StartedBy id job d o =
    (c : JournalCommand) × IsAdmitted id job d c
    × IsStarted id (with_run_kind c).run_kind (repository_ids (with_run_kind c).run_kind job) d o

is_received-received : (s : RunState) → is_received s ≡ true → s ≡ received
is_received-received s h = ground arith

started_or_IsIdle :
    (id : String) (job : Job) (d : Daemon) (c : JournalCommand)
    → IsAdmitted id job d c
    → IsIdle d (start_entry id job (with_run_kind c) (filled id c d)).1
      ⊎ StartedBy id job d (start_entry id job (with_run_kind c) (filled id c d))
started_or_IsIdle id job d c h =
    elim (IsAttempt-after id (with_run_kind c).run_kind
      (repository_ids (with_run_kind c).run_kind job) d (filled id c d)
      (start_entry id job (with_run_kind c) (filled id c d))
      (record { launched = refl; active = refl; kinds = refl; marks = refl })
      (start_entry-IsAttempt id job (with_run_kind c) (filled id c d) h.is_free)) [
        | inl idle ↦ inl idle
        | inr s ↦ inr (c, h, s)
      ]

module _ (id : String) (job : Job) (d : Daemon) where
  abbrev kept_out : Bool
  kept_out =
      not (can_accept_work critical_run_record_estimate d.store) || is_some d.state.agent_update

  start_operation-kept_out : kept_out ≡ true → start_operation id job d ≡ (none, d)
  unfolding start_operation
  start_operation-kept_out h = rw h refl

  start_operation-missing : lookup id d.journal ≡ none → start_operation id job d ≡ (none, d)
  unfolding start_operation
  start_operation-missing h = rw h (ground arith)

  start_operation-begun :
      (c : JournalCommand)
      → lookup id d.journal ≡ some c
      → is_received c.state ≡ false
      → start_operation id job d ≡ (none, d)
  unfolding start_operation
  start_operation-begun c h k = rw (h, k) (ground arith)

  start_operation-waiting :
      (c : JournalCommand)
      → kept_out ≡ false
      → lookup id d.journal ≡ some c
      → is_received c.state ≡ true
      → start_operation id job d ≡ start_entry id job (with_run_kind c) (filled id c d)
  unfolding start_operation
  start_operation-waiting c o h k = rw (o, h, k) refl

  blocked-IsIdle :
      (c : JournalCommand)
      → is_blocked (with_run_kind c).run_kind job (filled id c d) ≡ true
      → IsIdle d (start_entry id job (with_run_kind c) (filled id c d)).1
  unfolding start_entry
  blocked-IsIdle c h = rw h (record { launched = refl; active = refl; kinds = refl; marks = refl })

  start_waiting :
      (c : JournalCommand)
      → kept_out ≡ false
      → lookup id d.journal ≡ some c
      → is_received c.state ≡ true
      → IsIdle d (start_entry id job (with_run_kind c) (filled id c d)).1
        ⊎ StartedBy id job d (start_entry id job (with_run_kind c) (filled id c d))
  start_waiting c o h k =
      elim (Bool-cases (is_blocked (with_run_kind c).run_kind job (filled id c d))) [
        | inl blocked ↦ inl (blocked-IsIdle c blocked)
        | inr free ↦ started_or_IsIdle id job d c (record {
          waiting = h;
          is_new = is_received-received c.state k;
          no_update = ground arith;
          has_room = ground arith;
          is_free = free;
        })
      ]

  stays-IsIdle : IsIdle d d
  stays-IsIdle = record { launched = refl; active = refl; kinds = refl; marks = refl }

  -- An attempt to start an operation either launches nothing and sets no mark, or its entry was
  -- waiting and admitted by all guards, and exactly one goroutine is launched for it, without an
  -- error, after its entry was written to the disk as running.
  pub start_operation_lem :
      IsIdle d (start_operation id job d).1 ⊎ StartedBy id job d (start_operation id job d)
  start_operation_lem = elim (Bool-cases kept_out) [
    | inl out ↦ rw (start_operation-kept_out out) (inl stays-IsIdle)
    | inr o ↦ elim (Option-cases (lookup id d.journal)) [
      | inl missing ↦ rw (start_operation-missing missing) (inl stays-IsIdle)
      | inr (c, h) ↦ elim (Bool-cases (is_received c.state)) [
        | inl k ↦ rw (start_operation-waiting c o h k) (start_waiting c o h k)
        | inr begun ↦ rw (start_operation-begun c h begun) (inl stays-IsIdle)
      ]
    ]
  ]
