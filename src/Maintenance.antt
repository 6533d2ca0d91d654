-- ===== src/Maintenance.antt =====
-- agent/maintenance_state.go: what the daemon remembers of a repository between maintenance runs:
-- the newest complete snapshot, unresolved runs, the rotation of data checks and the last prune.
pub mod Rotation
pub mod Unresolved
mod Examples
use Prim.Native.Nat.{Ordering}
use Prim.Native.String.{compare}
use backupchief_agent.Base.{
  ℕ, suc, ◌+◌, ◌*◌, ◌%◌, String, Bool, true, false, not, ◌&&◌, ◌||◌, List, [], ◌∷◌, Option, none,
  some, str_eq, ltb, leb, ◌==◌, if◌then◌else◌, is_some, Dict, lookup, insert,
}
use backupchief_agent.Protocol.{
  JournalCommand, MaintenancePlan, MaintenanceRuntime, CompleteSnapshotProof, Job, RunKind, Status,
  CommandResult, backup, forget, prune, check_metadata, check_data, snapshot_inventory, is_backup,
  complete, unresolved, SnapshotEvidence, partial, skipped, cancelled, failed, inspection,
  replica_sync, agent_update, unset,
}

-- The zero value of a repository that the map does not hold.
abbrev pub zero_runtime : MaintenanceRuntime
zero_runtime = record {
  latest_complete = none;
  unresolved = false;
  unresolved_confirmed = false;
  unresolved_at_revision = 0;
  data_parts = 0;
  next_data_part = 0;
  last_prune_completed_at = none;
}

abbrev pub runtime_of : String → Dict MaintenanceRuntime → MaintenanceRuntime
runtime_of id m = elim (lookup id m) [ none ↦ zero_runtime | some r ↦ r ]

abbrev pub text_gt : String → String → Bool
text_gt a b = elim (compare a b) [ Ordering.gt ↦ true | _ ↦ false ]

-- `newerCompleteProof`; canonical timestamps are ordered as their texts are.
unfoldable pub newer_complete_proof :
    Option CompleteSnapshotProof → Option CompleteSnapshotProof → Bool
newer_complete_proof none current = false
newer_complete_proof (some candidate) none = true
newer_complete_proof (some candidate) (some current) =
    if candidate.proof_finished_at == current.proof_finished_at
    then text_gt candidate.proof_run_id current.proof_run_id
    else ltb current.proof_finished_at candidate.proof_finished_at

-- A job's proof, if it is newer.
unfoldable pub take_proof : Job → MaintenanceRuntime → MaintenanceRuntime
unfolding newer_complete_proof
take_proof job r =
    if newer_complete_proof job.latest_complete r.latest_complete
    then record r { latest_complete = job.latest_complete }
    else r

-- The job as the run sees it.
unfoldable pub prepared_job : Job → MaintenanceRuntime → Job
prepared_job job r =
    let job' =
      if is_some r.latest_complete
      then record job { latest_complete = r.latest_complete }
      else job in
    record job' { has_unresolved_runs = job.has_unresolved_runs || r.unresolved }

abbrev pub no_plan : MaintenancePlan
no_plan = record {
  plan_kind = forget;
  candidate_snapshot_ids = [];
  protected_snapshot_ids = [];
  candidate_run_ids = [];
  protected_run_ids = [];
  data_subset_part = 0;
  data_subset_total = 0;
  combined_retention = false;
  forget_planned = false;
  prune_after_forget = false;
  prune_started = false;
  prune_completed = false;
}

abbrev pub is_forget : RunKind → Bool
is_forget forget = true
is_forget _ = false

abbrev pub is_check_data : RunKind → Bool
is_check_data check_data = true
is_check_data _ = false

abbrev is_empty : List String → Bool
is_empty [] = true
is_empty (x ∷ xs) = false

-- Whether a prune follows the forget, at time `now` in microseconds.
unfoldable pub prune_due : ℕ → Job → MaintenanceRuntime → Bool
prune_due now job r = elim r.last_prune_completed_at [
  | none ↦ true
  | some last ↦ leb (last + job.prune_interval_seconds * 1000000) now
]

-- The combined plan of a forget after a scheduled backup.
unfoldable pub combined_plan :
    ℕ → Job → JournalCommand → MaintenanceRuntime → Option MaintenancePlan
unfolding prune_due
combined_plan now job c r =
    if is_forget c.run_kind
      && is_empty c.command.payload.snapshot_ids
      && job.after_scheduled_backup
      && not (is_some c.maintenance_plan)
    then some
        (record no_plan { combined_retention = true; prune_after_forget = prune_due now job r })
    else c.maintenance_plan

-- The rotation's state before a data check: another number of parts starts it again.
unfoldable pub settle_parts : ℕ → MaintenanceRuntime → MaintenanceRuntime
settle_parts parts r =
    let r' =
      if r.data_parts == parts then r else record r { data_parts = parts; next_data_part = 1 } in
    if ltb r'.next_data_part 1 || ltb parts r'.next_data_part
    then record r' { next_data_part = 1 }
    else r'

abbrev pub subset_plan : ℕ → ℕ → MaintenancePlan
subset_plan part total = record no_plan {
  plan_kind = check_data;
  data_subset_part = part;
  data_subset_total = total;
}

-- `prepareMaintenanceLocked` on the state of the job's repository: the job and the plan of the run,
-- the journal entry and the state.
unfoldable pub prepare_maintenance :
    ℕ
    → Job
    → JournalCommand
    → MaintenanceRuntime
    → Job × Option MaintenancePlan × JournalCommand × MaintenanceRuntime
unfolding take_proof prepared_job combined_plan settle_parts
prepare_maintenance now job c r =
    let r₁ = take_proof job r in
    let job' = prepared_job job r₁ in
    let plan = combined_plan now job' c r₁ in
    let fresh_check = is_check_data c.run_kind && not (is_some plan) in
    let r₂ = if fresh_check then settle_parts job.data_parts r₁ else r₁ in
    let plan' = if fresh_check then some (subset_plan r₂.next_data_part job.data_parts) else plan in
    let r₃ = if job'.has_unresolved_runs then record r₂ { unresolved = true } else r₂ in
    (job', plan', record c { maintenance_plan = plan' }, r₃)

abbrev pub is_complete : Status → Bool
is_complete complete = true
is_complete _ = false

abbrev pub is_unresolved : Status → Bool
is_unresolved unresolved = true
is_unresolved _ = false

abbrev pub is_inventory : RunKind → Bool
is_inventory snapshot_inventory = true
is_inventory _ = false

abbrev pub is_success : CommandResult → Bool
is_success result = is_complete result.status && str_eq result.result_code "success"

-- An inventory of the whole repository.
abbrev pub has_repository_evidence : Option SnapshotEvidence → Bool
has_repository_evidence none = false
has_repository_evidence (some e) = str_eq e.scope "repository"

abbrev proof_of : CommandResult → CompleteSnapshotProof
proof_of result = record {
  proof_run_id = result.run_id;
  proof_finished_at = result.finished_at;
  proof_snapshot_ids = result.snapshot_ids;
}

-- The rotation's state after a data check; `%` by 0 does not happen, as a job has a part at least.
unfoldable pub advance_parts : ℕ → MaintenanceRuntime → MaintenanceRuntime
advance_parts parts r =
    let part =
      if r.data_parts == parts && leb 1 r.next_data_part && leb r.next_data_part parts
      then r.next_data_part
      else 1 in
    record r { data_parts = parts; next_data_part = part % parts + 1 }

-- `recordOutcomeLocked` on the state of the job's repository, at a revision of the configuration.
unfoldable pub record_outcome : ℕ → Job → CommandResult → MaintenanceRuntime → MaintenanceRuntime
unfolding advance_parts
record_outcome revision job result r =
    let r₁ =
      if is_backup result.run_kind
        && is_complete result.status
        && not (is_empty result.snapshot_ids)
      then record r { latest_complete = some (proof_of result) }
      else r in
    let r₂ =
      if is_unresolved result.status
      then record r₁ {
        unresolved = true;
        unresolved_confirmed = false;
        unresolved_at_revision = revision;
      }
      else r₁ in
    let r₃ =
      if is_inventory result.run_kind
        && is_success result
        && has_repository_evidence result.snapshot_evidence
      then record r₂ {
        unresolved = false;
        unresolved_confirmed = false;
        unresolved_at_revision = 0;
      }
      else r₂ in
    let r₄ =
      if is_check_data result.run_kind && is_success result
      then advance_parts job.data_parts r₃
      else r₃ in
    if is_forget result.run_kind && result.prune_completed
    then record r₄ { last_prune_completed_at = some result.finished_at }
    else r₄

-- The loop body of `acceptMaintenanceConfigLocked` for an enabled job, on its repository's state.
unfoldable pub accept_job : ℕ → Job → MaintenanceRuntime → MaintenanceRuntime
unfolding take_proof
accept_job revision job r =
    let r₁ = take_proof job r in
    let r₂ =
      if job.has_unresolved_runs
      then record r₁ {
        unresolved = true;
        unresolved_confirmed = true;
        unresolved_at_revision = revision;
      }
      else if r₁.unresolved && r₁.unresolved_confirmed && ltb r₁.unresolved_at_revision revision
      then record r₁ {
        unresolved = false;
        unresolved_confirmed = false;
        unresolved_at_revision = 0;
      }
      else r₁ in
    if not (r₂.data_parts == 0) && not (r₂.data_parts == job.data_parts)
    then record r₂ { data_parts = job.data_parts; next_data_part = 1 }
    else r₂

-- The loop of `acceptMaintenanceConfigLocked` over the jobs of a new configuration.
unfoldable pub accept_jobs : ℕ → List Job → Dict MaintenanceRuntime → Dict MaintenanceRuntime
accept_jobs revision [] m = m
accept_jobs revision (job ∷ jobs) m = accept_jobs revision jobs (
    if job.enabled
    then insert job.repository_id (accept_job revision job (runtime_of job.repository_id m)) m
    else m)
