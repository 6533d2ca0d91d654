-- ===== src/Protocol.antt =====
-- agent/types.go and agent/journal.go: the commands, events, results and journal entries that the
-- agent exchanges with the control plane and keeps on disk. Texts that name a case are data types.
-- A timestamp is its number of microseconds; where the code tests or parses a text, `none` is a
-- text that is empty or does not parse. A command is here with all its members, since `sameCommand`
-- compares their JSON; validateCommand of agent/client.go lets no other texts than the cases of
-- `CommandKind` and `RunKind` in. Of the other records, JSON members that no modelled operation reads
-- are left out.
use native.Mathlib.Decide.{ℕ_discrete}
use backupchief_agent.Base.{
  ℕ, String, Bool, true, false, List, Option, ◌≡◌, ◌↔◌, refl, String-discrete, Dict,
}

-- `AgentCommand.Kind`; a scheduled command's kind is "scheduled_" and its run kind.
pub data CommandKind : Type 0 where
  run_backup run_maintenance inspect_source sync_replica update_agent cancel_run : CommandKind
  scheduled_run : CommandKind
  other_kind : String → CommandKind

-- `JournalCommand.RunKind`; `unset` is the empty text.
pub data RunKind : Type 0 where
  backup forget prune check_metadata check_data snapshot_inventory : RunKind
  inspection replica_sync agent_update unset : RunKind

-- `JournalCommand.State`.
pub data RunState : Type 0 where
  received running finished : RunState

-- `JournalCommand.Trigger`.
pub data Trigger : Type 0 where
  manual scheduled : Trigger

-- `CommandResult.Status`.
pub data Status : Type 0 where
  complete partial skipped cancelled failed unresolved : Status

-- A Go int64.
pub data ℤ : Type 0 where
  pos : ℕ → ℤ
  negsuc : ℕ → ℤ

pub record MaintenancePlan : Type 0 where
  pub plan_kind : RunKind
  pub candidate_snapshot_ids : List String
  pub protected_snapshot_ids : List String
  pub candidate_run_ids : List String
  pub protected_run_ids : List String
  pub data_subset_part : ℕ
  pub data_subset_total : ℕ
  pub combined_retention : Bool
  pub forget_planned : Bool
  pub prune_after_forget : Bool
  pub prune_started : Bool
  pub prune_completed : Bool

-- A timestamp of a command: the text that `protocolTimestamp` gives for a time, or another text.
-- validateTimestamp lets only the first in.
pub data Timestamp : Type 0 where
  instant : ℕ → Timestamp
  other_text : String → Timestamp

-- `source` is its JSON text.
pub record CommandPayload : Type 0 where
  pub job_id : String
  pub run_id : String
  pub required_config_revision : ℕ
  pub maintenance : RunKind
  pub snapshot_ids : List String
  pub recovery_point_run_ids : List String
  pub repository_key : String
  pub initial_sync : Bool
  pub maintenance_plan : Option MaintenancePlan
  pub retry_of_run_id : String
  pub source_type : String
  pub source : String
  pub source_digest : String
  pub target_version : String

pub record AgentCommand : Type 0 where
  pub id : String
  pub generation : ℕ
  pub kind : CommandKind
  pub issued_at : Timestamp
  pub expires_at : Timestamp
  pub payload : CommandPayload

pub record SnapshotEvidence : Type 0 where
  pub scope : String
  pub observed_at : ℕ

pub record RepositoryResult : Type 0 where
  pub repository_key : String
  pub snapshot_evidence : Option SnapshotEvidence
  pub snapshot_evidence_ids : List String

pub record CommandResult : Type 0 where
  pub generation : ℕ
  pub run_id : String
  pub job_id : String
  pub repository_key : String
  pub run_kind : RunKind
  pub status : Status
  pub result_code : String
  pub started_at : ℕ
  pub finished_at : ℕ
  pub snapshot_ids : List String
  pub summary : String
  pub snapshot_evidence : Option SnapshotEvidence
  pub snapshot_evidence_ids : List String
  pub prune_completed : Bool
  pub repository_results : List RepositoryResult

pub record AgentUpdateResult : Type 0 where
  pub generation : ℕ
  pub run_id : String
  pub update_status : String
  pub update_code : String
  pub target_version : String

-- `AgentEvent.Kind`.
pub data EventKind : Type 0 where
  run_started clock_skew run_progress run_finished snapshot_inventory_chunk : EventKind
  reporting_gap replication_finished : EventKind
  other_event : String → EventKind

-- `AgentEvent.Payload`, by the kinds of event that the modelled operations make.
pub data EventPayload : Type 0 where
  no_payload : EventPayload
  offset_seconds : ℤ → EventPayload
  terminal : CommandResult → EventPayload
  inventory : Option String → String → ℕ → List String → EventPayload
  gap : String → ℕ → EventPayload
  other_payload : String → EventPayload

pub record AgentEvent : Type 0 where
  pub event_id : String
  pub run_id : String
  pub job_id : String
  pub run_kind : RunKind
  pub config_revision : ℕ
  pub trigger : Trigger
  pub scheduled_for : Option ℕ
  pub sequence : ℕ
  pub occurred_at : ℕ
  pub event_kind : EventKind
  pub event_payload : EventPayload

pub record CompleteSnapshotProof : Type 0 where
  pub proof_run_id : String
  pub proof_finished_at : ℕ
  pub proof_snapshot_ids : List String

pub record Replica : Type 0 where
  pub replica_key : String
  pub replica_id : String

-- `Job` of agent/config.go, the members that the daemon's own logic reads. A cron text that is
-- empty is `none`.
pub record Job : Type 0 where
  pub job_id : String
  pub enabled : Bool
  pub repository_id : String
  pub replicas : List Replica
  pub schedule : Option String
  pub forget_cron : Option String
  pub prune_cron : Option String
  pub metadata_cron : Option String
  pub data_cron : Option String
  pub after_scheduled_backup : Bool
  pub max_deferral_seconds : ℕ
  pub prune_interval_seconds : ℕ
  pub latest_complete : Option CompleteSnapshotProof
  pub has_unresolved_runs : Bool
  pub data_parts : ℕ

-- `job_snapshot` is the job that the text decodes to, and `none` if the text is empty.
pub record JournalCommand : Type 0 where
  pub command : AgentCommand
  pub run_id : String
  pub config_revision : ℕ
  pub run_kind : RunKind
  pub trigger : Trigger
  pub scheduled_for : Option ℕ
  pub job_snapshot : Option Job
  pub received_at : ℕ
  pub acknowledged : Bool
  pub state : RunState
  pub sequence : ℕ
  pub events : List AgentEvent
  pub result : Option CommandResult
  pub update_result : Option AgentUpdateResult
  pub result_reported : Bool
  pub log_id : String
  pub log_bytes : ℕ
  pub log_sha256 : String
  pub log_truncated : Bool
  pub log_dropped_bytes : ℕ
  pub next_log_chunk : ℕ
  pub log_completed : Bool
  pub maintenance_plan : Option MaintenancePlan
  pub wait_for_backup : Bool
  pub max_deferral_at : Option ℕ
  pub catch_up_backup : Bool
  pub replication_pending : List String

-- `RunKind` as the code compares it.
pub RunKind-discrete : Discrete RunKind
RunKind-discrete = hlevel

abbrev pub is_backup : RunKind → Bool
is_backup backup = true
is_backup _ = false

pub record MaintenanceRuntime : Type 0 where
  pub latest_complete : Option CompleteSnapshotProof
  pub unresolved : Bool
  pub unresolved_confirmed : Bool
  pub unresolved_at_revision : ℕ
  pub data_parts : ℕ
  pub next_data_part : ℕ
  pub last_prune_completed_at : Option ℕ

pub record AgentUpdateRuntime : Type 0 where
  pub command_id : String
  pub run_id : String
  pub target_version : String
  pub started_at : ℕ
  pub last_schedule_minute : ℕ

pub record RuntimeState : Type 0 where
  pub authentication_paused : Bool
  pub spool_gap_detected : Bool
  pub spool_gap_version : ℕ
  pub clock_offset_seconds : ℤ
  pub maintenance : Dict MaintenanceRuntime
  pub agent_update : Option AgentUpdateRuntime

pub AgentCommand-discrete : Discrete AgentCommand
AgentCommand-discrete = hlevel (ℕ_discrete, String-discrete)

-- `sameCommand`: the two commands have the same JSON text.
unfoldable pub same_command : AgentCommand → AgentCommand → Bool
same_command a b = elim (AgentCommand-discrete a b) [ yes e ↦ true | no e ↦ false ]

pub same_command_iff : (a b : AgentCommand) → (same_command a b ≡ true) ↔ (a ≡ b)
unfolding same_command
same_command_iff a b =
    elim (AgentCommand-discrete a b)
      as (λ t. (elim t [ yes e ↦ true | no e ↦ false ] ≡ true) ↔ (a ≡ b)) [
        | yes e ↦ (λ h. e, λ h. refl)
        | no e ↦ (λ h. cc, λ h. absurd (e h))
      ]
