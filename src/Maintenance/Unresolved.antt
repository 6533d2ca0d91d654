-- ===== src/Maintenance/Unresolved.antt =====
-- How long a repository stays marked as having an unresolved run.
use backupchief_agent.Base.{ℕ, ◌<◌, ◌≡◌, Bool, true, false, ◌&&◌, List, [], ◌∷◌, arith, All}
use backupchief_agent.Protocol.{JournalCommand, MaintenanceRuntime, Job, CommandResult, unresolved}
use backupchief_agent.Maintenance.{
  prepare_maintenance, record_outcome, accept_job, is_inventory, is_success,
  has_repository_evidence,
}

-- What happens to the state of a repository: a maintenance run of a job is prepared, an outcome is
-- recorded, or a configuration with an enabled job of the repository is accepted.
pub data Happening : Type 0 where
  prepares : ℕ → Job → JournalCommand → Happening
  records : ℕ → Job → CommandResult → Happening
  accepts : ℕ → Job → Happening

abbrev pub happen : Happening → MaintenanceRuntime → MaintenanceRuntime
happen (prepares now job c) r = (prepare_maintenance now job c r).3
happen (records revision job result) r = record_outcome revision job result r
happen (accepts revision job) r = accept_job revision job r

abbrev pub happen_all : List Happening → MaintenanceRuntime → MaintenanceRuntime
happen_all [] r = r
happen_all (h ∷ hs) r = happen_all hs (happen h r)

-- The result of a successful inventory of the whole repository.
abbrev pub is_proof : CommandResult → Bool
is_proof result =
    is_inventory result.run_kind
    && is_success result
    && has_repository_evidence result.snapshot_evidence

-- What a happening must be to release a repository in state `r`.
abbrev pub Releases : Happening → MaintenanceRuntime → Type 0
Releases (prepares now job c) r = ⊥
Releases (records revision job result) r = is_proof result ≡ true
Releases (accepts revision job) r =
    (job.has_unresolved_runs ≡ false)
    × (r.unresolved_confirmed ≡ true)
    × (r.unresolved_at_revision < revision)

-- An unresolved mark goes away only by a successful inventory of the whole repository, or by a
-- configuration without unresolved runs whose revision is above one that had confirmed the mark.
pub happen-Releases :
    (h : Happening) (r : MaintenanceRuntime)
    → r.unresolved ≡ true
    → (happen h r).unresolved ≡ false
    → Releases h r
unfolding prepare_maintenance record_outcome accept_job
happen-Releases (prepares now job c) r marked gone = ground arith
happen-Releases (records revision job result) r marked gone = ground arith
happen-Releases (accepts revision job) r marked gone = ground arith

-- Neither an inventory nor a configuration that knows of an unresolved run.
abbrev pub IsSilent : Happening → Type 0
IsSilent (prepares now job c) = Unit {0}
IsSilent (records revision job result) = is_proof result ≡ false
IsSilent (accepts revision job) = job.has_unresolved_runs ≡ false

silent_step :
    (h : Happening) (r : MaintenanceRuntime)
    → r.unresolved ≡ true
    → r.unresolved_confirmed ≡ false
    → IsSilent h
    → ((happen h r).unresolved ≡ true) × ((happen h r).unresolved_confirmed ≡ false)
unfolding prepare_maintenance record_outcome accept_job
silent_step (prepares now job c) r marked local silent = (ground arith, ground arith)
silent_step (records revision job result) r marked local silent = (ground arith, ground arith)
silent_step (accepts revision job) r marked local silent = (ground arith, ground arith)

silent_steps :
    (hs : List Happening) (r : MaintenanceRuntime)
    → r.unresolved ≡ true
    → r.unresolved_confirmed ≡ false
    → All IsSilent hs
    → (happen_all hs r).unresolved ≡ true
silent_steps [] r marked local silent = marked
silent_steps (h ∷ hs) r marked local (first, rest) =
    let (marked', local') = silent_step h r marked local first in
    silent_steps hs (happen h r) marked' local' rest

record_marks :
    (revision : ℕ) (job : Job) (result : CommandResult) (r : MaintenanceRuntime)
    → result.status ≡ unresolved
    → ((record_outcome revision job result r).unresolved ≡ true)
      × ((record_outcome revision job result r).unresolved_confirmed ≡ false)
unfolding record_outcome
record_marks revision job result r bad = (ground arith, ground arith)

prepare_sees :
    (now : ℕ) (job : Job) (c : JournalCommand) (r : MaintenanceRuntime)
    → r.unresolved ≡ true
    → (prepare_maintenance now job c r).0.has_unresolved_runs ≡ true
unfolding prepare_maintenance
prepare_sees now job c r marked = ground arith

-- After an unresolved outcome is recorded, whatever happens to the repository but an inventory or a
-- configuration that knows of an unresolved run, at any revision, every maintenance run that is
-- prepared sees a job with unresolved runs.
pub unresolved_seen :
    (revision : ℕ) (job : Job) (result : CommandResult) (r : MaintenanceRuntime)
    (hs : List Happening)
    → result.status ≡ unresolved
    → All IsSilent hs
    → (now : ℕ) (later : Job) (c : JournalCommand)
    → let r' = happen_all hs (record_outcome revision job result r) in
      (prepare_maintenance now later c r').0.has_unresolved_runs ≡ true
unresolved_seen revision job result r hs bad silent now later c =
    let (marked, local) = record_marks revision job result r bad in
    prepare_sees now later c _
      (silent_steps hs (record_outcome revision job result r) marked local silent)
