-- ===== src/Daemon.antt =====
-- The state that agent/daemon.go keeps under its mutex, and the helpers that its operations share.
-- An operation takes the state at the time `clock` and returns the new one. What comes from outside
-- is in the state too: `entropy` is what `rand.Read` gives, and the store holds the outcomes of its
-- transactions. `launched` lists the goroutines that were started.
pub mod Saves
use backupchief_agent.Base.{
  ℕ, suc, ◌+◌, ◌/◌, ◌%◌, ◌^◌, ◌<◌, ◌≤◌, String, Bool, true, false, not, ◌&&◌, ◌||◌, List, [], ◌∷◌,
  ◌++◌, Option, none, some, str_eq, ltb, leb, if◌then◌else◌, is_some, Dict, lookup, insert, delete,
  map,
}
use backupchief_agent.Protocol.{
  AgentCommand, JournalCommand, AgentEvent, EventKind, EventPayload, RunKind, RuntimeState, Job,
  MaintenancePlan, is_backup, ℤ, pos, negsuc,
}
use backupchief_agent.Store.{Store, Err, refused, save_command_journal, save_runtime_state}
use backupchief_agent.Ulid.{new_ulid}

-- A goroutine of `startOperation`: the command, the run, the job and, for maintenance, the plan.
pub record Launch : Type 0 where
  pub launch_command : String
  pub launch_run : String
  pub launch_kind : RunKind
  pub launch_job : Job
  pub launch_plan : Option MaintenancePlan

-- `active` maps a run to whether its context was cancelled.
pub record Daemon : Type 0 where
  pub store : Store
  pub generation : ℕ
  pub clock : ℕ
  pub entropy : List (Option (List ℕ))
  pub journal : Dict JournalCommand
  pub state : RuntimeState
  pub metadata_revision : ℕ
  pub active : Dict Bool
  pub active_run_kinds : Dict RunKind
  pub repositories : Dict Bool
  pub replication_active : Dict Bool
  pub last_schedule_minute : ℕ
  pub dispatch_wake : Bool
  pub launched : List Launch

abbrev pub Outcome : Type 0
Outcome = Option Err × Daemon

abbrev first_entropy : List (Option (List ℕ)) → Option (List ℕ)
first_entropy [] = none
first_entropy (r ∷ rs) = r

abbrev rest_entropy : List (Option (List ℕ)) → List (Option (List ℕ))
rest_entropy [] = []
rest_entropy (r ∷ rs) = rs

-- `newULID(daemon.now())`: `none` is an error of `rand.Read`.
unfoldable pub fresh_id : Daemon → Option String × Daemon
fresh_id d =
    let d' = record d { entropy = rest_entropy d.entropy } in
    elim (first_entropy d.entropy) [
      | none ↦ (none, d')
      | some random ↦ (some (new_ulid (d.clock / 1000) random), d')
    ]

-- `daemon.store.SaveCommandJournal(daemon.journal)`.
unfoldable pub save_journal : Daemon → Option Err × Daemon
save_journal d = let (e, s) = save_command_journal d.journal d.store in (e, record d { store = s })

-- `daemon.store.SaveRuntimeState(daemon.state)`.
unfoldable pub save_state : Daemon → Option Err × Daemon
save_state d = let (e, s) = save_runtime_state d.state d.store in (e, record d { store = s })

-- `sequence++` on an uint64.
abbrev pub next_sequence : ℕ → ℕ
next_sequence n = (n + 1) % 2 ^ 64

-- `eventEnvelope`.
unfoldable pub event_envelope :
    JournalCommand → String → ℕ → ℕ → EventKind → EventPayload → AgentEvent
event_envelope c id sequence at kind payload = record {
  event_id = id;
  run_id = c.run_id;
  job_id = c.command.payload.job_id;
  run_kind = c.run_kind;
  config_revision = c.config_revision;
  trigger = c.trigger;
  scheduled_for = c.scheduled_for;
  sequence = sequence;
  occurred_at = at;
  event_kind = kind;
  event_payload = payload;
}

-- An event with the entry's next sequence number.
abbrev pub with_event : JournalCommand → String → ℕ → EventKind → EventPayload → JournalCommand
with_event c id at kind payload = record c {
  events = c.events ++ (event_envelope c id c.sequence at kind payload ∷ []);
}

-- `activeCountsLocked`: the backups, and all other runs.
unfoldable pub active_backups : Dict RunKind → ℕ
active_backups [] = 0
active_backups ((id, k) ∷ m) = let n = active_backups m in if is_backup k then suc n else n

unfoldable pub active_maintenance : Dict RunKind → ℕ
active_maintenance [] = 0
active_maintenance ((id, k) ∷ m) = let n = active_maintenance m in if is_backup k then n else suc n

-- A missing key reads as false.
abbrev pub is_set : String → Dict Bool → Bool
is_set k m = elim (lookup k m) [ none ↦ false | some b ↦ b ]

abbrev pub is_nonempty {ℓ} : {A : Type ℓ} → List A → Bool
is_nonempty [] = false
is_nonempty (x ∷ xs) = true

-- `hasPendingReplicationLocked`.
unfoldable pub has_pending_replication : String → Dict JournalCommand → Bool
has_pending_replication job [] = false
has_pending_replication job ((id, c) ∷ rest) =
    let pending : Bool = elim c.result [
      | none ↦ false
      | some r ↦ str_eq r.job_id job && is_nonempty c.replication_pending
    ] in
    pending || has_pending_replication job rest

-- `absInt64`; the least int64, which it maps to itself, does not occur.
unfoldable pub abs_int64 : ℤ → ℕ
abs_int64 (pos n) = n
abs_int64 (negsuc n) = suc n

-- `markSpoolGapLocked`; the version is an uint64.
unfoldable pub mark_spool_gap : RuntimeState → RuntimeState
mark_spool_gap s = record s {
  spool_gap_detected = true;
  spool_gap_version = (s.spool_gap_version + 1) % 2 ^ 64;
}
