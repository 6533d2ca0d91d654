-- ===== src/Receive.antt =====
-- `receiveCommand` and `discardExpiredUnacknowledgedCommand` of agent/commands.go: how a command of
-- the control plane enters the journal, and how it leaves it before it is acknowledged.
pub mod Delivery
pub mod Discard
pub mod Fresh
mod Examples
use backupchief_agent.Base.{
  ℕ, ◌+◌, String, Bool, true, false, not, ◌&&◌, ◌||◌, List, [], ◌∷◌, Option, none, some, str_eq,
  leb, if◌then◌else◌, is_some, Dict, lookup, insert, delete,
}
use backupchief_agent.Protocol.{
  Timestamp, instant, other_text, CommandKind, run_backup, run_maintenance, inspect_source,
  sync_replica, update_agent, cancel_run, scheduled_run, other_kind, RunKind, backup, inspection,
  replica_sync, agent_update, AgentCommand, JournalCommand, received, manual, scheduled,
  same_command, AgentUpdateRuntime, RuntimeState,
}
use backupchief_agent.Store.{Err, refused, is_scheduled}
use backupchief_agent.Daemon.{Daemon, Outcome, fresh_id, save_journal, save_state}

-- The kinds whose run gets an identifier of its own.
abbrev pub needs_run_id : CommandKind → Bool
needs_run_id run_backup = true
needs_run_id run_maintenance = true
needs_run_id inspect_source = true
needs_run_id sync_replica = true
needs_run_id update_agent = true
needs_run_id _ = false

abbrev pub run_kind_for : CommandKind → RunKind → RunKind
run_kind_for run_backup m = backup
run_kind_for inspect_source m = inspection
run_kind_for sync_replica m = replica_sync
run_kind_for update_agent m = agent_update
run_kind_for _ m = m

abbrev pub is_update : CommandKind → Bool
is_update update_agent = true
is_update _ = false

-- The entry of a command that was just received.
abbrev pub new_entry : AgentCommand → String → ℕ → JournalCommand
new_entry c run now = record {
  command = c;
  run_id = run;
  config_revision = c.payload.required_config_revision;
  run_kind = run_kind_for c.kind c.payload.maintenance;
  trigger = manual;
  scheduled_for = none;
  job_snapshot = none;
  received_at = now;
  acknowledged = false;
  state = received;
  sequence = 0;
  events = [];
  result = none;
  update_result = none;
  result_reported = false;
  log_id = "";
  log_bytes = 0;
  log_sha256 = "";
  log_truncated = false;
  log_dropped_bytes = 0;
  next_log_chunk = 0;
  log_completed = false;
  maintenance_plan = c.payload.maintenance_plan;
  wait_for_backup = false;
  max_deferral_at = none;
  catch_up_backup = false;
  replication_pending = [];
}

abbrev pub update_runtime : AgentCommand → String → Daemon → AgentUpdateRuntime
update_runtime c run d = record {
  command_id = c.id;
  run_id = run;
  target_version = c.payload.target_version;
  started_at = d.clock;
  last_schedule_minute = d.last_schedule_minute;
}

-- An update also takes the agent's update slot; when that cannot be saved, all of it is undone.
unfoldable pub begin_update : AgentCommand → String → Daemon → Outcome
begin_update c run d =
    let (e, d₁) =
      save_state
        (record d { state = record d.state { agent_update = some (update_runtime c run d) } }) in
    let undone = record d₁ { state = d.state; journal = delete c.id d₁.journal } in
    elim e [
      | none ↦ (none, record d₁ { dispatch_wake = true })
      | some err ↦ let (ignored, d₂) = save_journal undone in (some err, d₂)
    ]

-- The entry is made and saved; an error takes it out again.
unfoldable pub enter : AgentCommand → String → Daemon → Outcome
enter c run d =
    let (e, d₁) =
      save_journal (record d { journal = insert c.id (new_entry c run d.clock) d.journal }) in
    elim e [
      | none ↦
          if is_update c.kind
          then begin_update c run d₁
          else (none, record d₁ { dispatch_wake = true })
      | some err ↦ (some err, record d₁ { journal = delete c.id d₁.journal })
    ]

-- The run's identifier: a new one, or the one that the payload names.
unfoldable pub assign_run : AgentCommand → Daemon → Option String × Daemon
assign_run c d = if needs_run_id c.kind then fresh_id d else (some c.payload.run_id, d)

unfoldable pub enter_as : AgentCommand → Option String → Daemon → Outcome
enter_as c none d = (some (refused "rand.Read"), d)
enter_as c (some run) d = enter c run d

unfoldable pub receive_new : AgentCommand → Daemon → Outcome
receive_new c d = let (run, d₁) = assign_run c d in enter_as c run d₁

-- `receiveCommand`.
unfoldable pub receive_command : AgentCommand → Daemon → Outcome
receive_command c d = elim (lookup c.id d.journal) [
  | none ↦ receive_new c d
  | some existing ↦
      (if same_command existing.command c then none else some (refused "changed content"), d)
]

-- `expiresAt`, when it parses.
abbrev pub is_expired : Timestamp → ℕ → Bool
is_expired (other_text t) now = false
is_expired (instant at) now = leb at now

abbrev pub holds_update : String → RuntimeState → Bool
holds_update id s = elim s.agent_update [ none ↦ false | some u ↦ str_eq u.command_id id ]

-- The entry is taken out and the journal saved; an error puts it back.
unfoldable pub discard_entry : String → JournalCommand → Daemon → (Bool × Option Err) × Daemon
discard_entry id c d =
    let (e, d₁) = save_journal (record d { journal = delete id d.journal }) in
    elim e [
      | some err ↦ ((false, some err), record d₁ { journal = insert id c d₁.journal })
      | none ↦
          if holds_update id d₁.state
          then (let (e', d₂) =
                save_state (record d₁ { state = record d₁.state { agent_update = none } }) in
              ((not (is_some e'), e'), d₂))
          else ((true, none), d₁)
    ]

-- `discardExpiredUnacknowledgedCommand`: whether the command was discarded, and the error.
unfoldable pub discard_expired : String → Daemon → (Bool × Option Err) × Daemon
discard_expired id d = elim (lookup id d.journal) [
  | none ↦ ((false, none), d)
  | some c ↦
      if c.acknowledged || is_scheduled c.trigger || not (is_expired c.command.expires_at d.clock)
      then ((false, none), d)
      else discard_entry id c d
]
