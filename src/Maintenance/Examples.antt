-- ===== src/Maintenance/Examples.antt =====
-- Data checks of a job of four parts, and an unresolved run.
use backupchief_agent.Base.{ℕ, ◌≡◌, ◌<◌, refl, [], ◌∷◌, none, true, false, arith}
use backupchief_agent.Protocol.{
  JournalCommand, CommandResult, MaintenanceRuntime, RunKind, check_data, Status, complete,
  unresolved, received, run_maintenance,
}
use backupchief_agent.Maintenance.{
  zero_runtime, prepare_maintenance, record_outcome, accept_job, take_proof, newer_complete_proof,
}
use backupchief_agent.Maintenance.Rotation.{
  Check, IsPassedCheck, after_checks, checked_part, first_checks, each_part_checked,
}
use backupchief_agent.Maintenance.Unresolved.{
  prepares, accepts, happen, happen_all, Releases, happen-Releases, unresolved_seen,
}
use backupchief_agent.Fixtures.{job, command_of, entry_of, run_id}

abbrev entry : JournalCommand
entry = record (entry_of (command_of run_maintenance none) received) { run_kind = check_data }

abbrev result_of : RunKind → Status → CommandResult
result_of kind status = record {
  generation = 1;
  run_id = run_id;
  job_id = "job";
  repository_key = "";
  run_kind = kind;
  status = status;
  result_code = "success";
  started_at = 1000;
  finished_at = 2000;
  snapshot_ids = [];
  summary = "";
  snapshot_evidence = none;
  snapshot_evidence_ids = [];
  prune_completed = false;
  repository_results = [];
}

abbrev check : Check
check = record { now = 1000; entry = entry; revision = 7; outcome = result_of check_data complete }

check-IsPassedCheck : IsPassedCheck check
check-IsPassedCheck =
    (record { kind = refl; unplanned = refl }, record { kind = refl; status = refl; passed = refl })

each_part_checked_example :
    (k : ℕ) × (k < 4)
    × (checked_part job (after_checks job zero_runtime (first_checks k (λ i. check))) check ≡ 3)
each_part_checked_example =
    each_part_checked job zero_runtime (λ i. check) (omega arith) (λ i. check-IsPassedCheck) 3
      (omega arith) (omega arith)

abbrev marked : MaintenanceRuntime
marked = record zero_runtime {
  unresolved = true;
  unresolved_confirmed = true;
  unresolved_at_revision = 7;
}

released : (happen (accepts 8 job) marked).unresolved ≡ false
unfolding accept_job take_proof newer_complete_proof
released = refl

happen-Releases_example : Releases (accepts 8 job) marked
happen-Releases_example = happen-Releases (accepts 8 job) marked refl released

unresolved_seen_example :
    let r' =
      happen_all
        (prepares 3000 job entry ∷ accepts 9 job ∷ [])
        (record_outcome 7 job (result_of check_data unresolved) zero_runtime) in
    (prepare_maintenance 4000 job entry r').0.has_unresolved_runs ≡ true
unresolved_seen_example =
    unresolved_seen 7 job (result_of check_data unresolved) zero_runtime
      (prepares 3000 job entry ∷ accepts 9 job ∷ []) refl (tt, (refl, tt)) 4000 job entry
