-- ===== src/Maintenance/Rotation.antt =====
-- The rotation of the data checks over the parts of a repository.
use native.Mathlib.Nat.{mod-add-mod, mod-eq_of_lt, add-mod_right}
use backupchief_agent.Base.{
  ap, ◌∙◌, ◌⊎◌, inl, inr, ℕ, zero, suc, ◌+◌, ◌-◌, ◌%◌, ◌≤◌, ◌<◌, ◌≡◌, refl, true, List, [], ◌∷◌,
  Option, none, some, arith, leb, All, length, if◌then◌else◌,
}
use backupchief_agent.Protocol.{
  JournalCommand, MaintenancePlan, MaintenanceRuntime, Job, CommandResult, check_data, complete,
}
use backupchief_agent.Maintenance.{
  settle_parts, prepare_maintenance, record_outcome, is_success, subset_plan,
}

-- The part that the next data check of a job with `parts` parts takes.
pub due_part : ℕ → MaintenanceRuntime → ℕ
due_part parts r = (settle_parts parts r).next_data_part

-- A data check that has no plan yet.
pub record IsFreshCheck (c : JournalCommand) : Type 0 where
  pub kind : c.run_kind ≡ check_data
  pub unplanned : c.maintenance_plan ≡ none

-- Its success.
pub record IsPassed (result : CommandResult) : Type 0 where
  pub kind : result.run_kind ≡ check_data
  pub status : result.status ≡ complete
  pub passed : is_success result ≡ true

module _ (now : ℕ) (job : Job) (c : JournalCommand) (r : MaintenanceRuntime)
    (fresh : IsFreshCheck c) (some_part : 1 ≤ job.data_parts) where
  -- A fresh data check is planned for one part that exists, out of the job's number of parts, and
  -- the state remembers that part.
  pub check_plan_range :
      let (job', plan, c', r') = prepare_maintenance now job c r in
      (plan ≡ some (subset_plan r'.next_data_part job.data_parts))
      × (c'.maintenance_plan ≡ plan)
      × (1 ≤ r'.next_data_part)
      × (r'.next_data_part ≤ job.data_parts)
      × (r'.data_parts ≡ job.data_parts)
  unfolding prepare_maintenance
  check_plan_range =
      let kind = fresh.kind in
      let plan = fresh.unplanned in
      (ground arith, ground arith, ground arith, ground arith, ground arith)

  planned_part : (prepare_maintenance now job c r).3.next_data_part ≡ due_part job.data_parts r
  unfolding prepare_maintenance due_part
  planned_part = let kind = fresh.kind in let plan = fresh.unplanned in ground arith

-- After a success of the part that the state remembers, the next part is due.
module _ (revision : ℕ) (job : Job) (result : CommandResult) (r : MaintenanceRuntime)
    (passed : IsPassed result) where
  outcome_part :
      r.data_parts ≡ job.data_parts
      → 1 ≤ r.next_data_part
      → r.next_data_part ≤ job.data_parts
      → due_part job.data_parts (record_outcome revision job result r)
        ≡ r.next_data_part % job.data_parts + 1
  unfolding record_outcome settle_parts due_part
  outcome_part parts low high = let kind = passed.kind in let success = passed.passed in grind arith

-- A scheduled data check with its outcome: the time and the entry at its start, and at its end the
-- revision of the configuration and the result.
pub record Check : Type 0 where
  pub now : ℕ
  pub entry : JournalCommand
  pub revision : ℕ
  pub outcome : CommandResult

-- The part that a check is planned for.
abbrev pub planned : Option MaintenancePlan → ℕ
planned none = 0
planned (some p) = p.data_subset_part

abbrev pub checked_part : Job → MaintenanceRuntime → Check → ℕ
checked_part job r check =
    let (job', plan, c', r') = prepare_maintenance check.now job check.entry r in planned plan

-- The state after a check of the job: planned, run, and recorded.
abbrev pub after_check : Job → MaintenanceRuntime → Check → MaintenanceRuntime
after_check job r check =
    let (job', plan, c', r') = prepare_maintenance check.now job check.entry r in
    record_outcome check.revision job check.outcome r'

abbrev pub after_checks : Job → MaintenanceRuntime → List Check → MaintenanceRuntime
after_checks job r [] = r
after_checks job r (check ∷ checks) = after_checks job (after_check job r check) checks

abbrev pub IsPassedCheck : Check → Type 0
IsPassedCheck check = IsFreshCheck check.entry × IsPassed check.outcome

module _ (job : Job) (some_part : 1 ≤ job.data_parts) where
  due_after_check :
      (r : MaintenanceRuntime) (check : Check)
      → IsPassedCheck check
      → due_part job.data_parts (after_check job r check)
        ≡ due_part job.data_parts r % job.data_parts + 1
  due_after_check r check (fresh, passed) =
      let (plan, kept, low, high, parts) =
        check_plan_range check.now job check.entry r fresh some_part in
      let r' = (prepare_maintenance check.now job check.entry r).3 in
      rw (← planned_part check.now job check.entry r fresh some_part)
        (outcome_part check.revision job check.outcome r' passed parts low high)

  due_range :
      (r : MaintenanceRuntime)
      → (1 ≤ due_part job.data_parts r) × (due_part job.data_parts r ≤ job.data_parts)
  unfolding due_part settle_parts
  due_range r = (ground arith, ground arith)

  due_after_checks :
      (checks : List Check) (r : MaintenanceRuntime)
      → All IsPassedCheck checks
      → due_part job.data_parts (after_checks job r checks)
        ≡ (due_part job.data_parts r - 1 + length checks) % job.data_parts + 1
  due_after_checks [] r h = grind (arith, due_range r)
  due_after_checks (check ∷ checks) r (first, rest) =
      let n = job.data_parts in
      let p = due_part n r in
      let k = length checks in
      let next = due_after_check r check first in
      let ih = due_after_checks checks (after_check job r check) rest in
      let low = due_range r in
      let shift : due_part n (after_check job r check) - 1 + k ≡ p % n + k = omega arith in
      let wrap : (p % n + k) % n ≡ (p + k) % n = mod-add-mod p n k in
      let same : p + k ≡ p - 1 + suc k = omega arith in
      ih ∙ ap (λ (x : ℕ). x + 1) (ap (λ (x : ℕ). x % n) shift ∙ wrap ∙ ap (λ (x : ℕ). x % n) same)

  -- However the passed checks before it went, the check after `length checks` of them takes the
  -- part that many places on from the part `p` due at first, counted round from 1 to the number of parts.
  pub checked_part-after_checks :
      (checks : List Check) (r : MaintenanceRuntime) (check : Check)
      → All IsPassedCheck checks
      → IsFreshCheck check.entry
      → checked_part job (after_checks job r checks) check
        ≡ (due_part job.data_parts r - 1 + length checks) % job.data_parts + 1
  checked_part-after_checks checks r check passed fresh =
      let r' = after_checks job r checks in
      let plan = check_plan_range check.now job check.entry r' fresh some_part in
      ap planned plan.0
      ∙ planned_part check.now job check.entry r' fresh some_part
      ∙ due_after_checks checks r passed

-- The first checks of a sequence.
abbrev pub first_checks : ℕ → (ℕ → Check) → List Check
first_checks zero f = []
first_checks (suc k) f = f 0 ∷ first_checks k (λ i. f (suc i))

length-first_checks : (k : ℕ) (f : ℕ → Check) → length (first_checks k f) ≡ k
length-first_checks zero f = refl
length-first_checks (suc k) f = ap suc (length-first_checks k (λ i. f (suc i)))

first_checks_passed :
    (k : ℕ) (f : ℕ → Check) → ((i : ℕ) → IsPassedCheck (f i)) → All IsPassedCheck (first_checks k f)
first_checks_passed zero f h = tt
first_checks_passed (suc k) f h = (h 0, first_checks_passed k (λ i. f (suc i)) (λ i. h (suc i)))

-- How many checks it takes from part `p` to part `q` of `n`.
distance : ℕ → ℕ → ℕ → ℕ
distance n p q = if leb p q then q - p else q + n - p

distance_lem :
    (n p q : ℕ)
    → 1 ≤ p
    → p ≤ n
    → 1 ≤ q
    → q ≤ n
    → (distance n p q < n) × ((p - 1 + distance n p q) % n + 1 ≡ q)
unfolding distance
distance_lem n p q a b c d =
    let split : (p - 1 + distance n p q ≡ q - 1) ⊎ (p - 1 + distance n p q ≡ q - 1 + n) =
      ground arith in
    let small : (q - 1) % n ≡ q - 1 = mod-eq_of_lt (omega arith) in
    let round : (q - 1 + n) % n ≡ (q - 1) % n = add-mod_right (q - 1) n in
    (
      ground arith,
      elim split [
        | inl e ↦ rw (e, small) (omega arith)
        | inr e ↦ rw (e, round, small) (omega arith)
      ],
    )

-- In any sequence of passed data checks of one job, whatever the state it starts from, each part
-- from 1 to the job's number of parts is taken by one of the first so many checks.
pub each_part_checked :
    (job : Job) (r : MaintenanceRuntime) (f : ℕ → Check)
    → 1 ≤ job.data_parts
    → ((i : ℕ) → IsPassedCheck (f i))
    → (q : ℕ) → 1 ≤ q
    → q ≤ job.data_parts
    → (k : ℕ) × (k < job.data_parts)
      × (checked_part job (after_checks job r (first_checks k f)) (f k) ≡ q)
each_part_checked job r f some_part passed q low high =
    let p = due_part job.data_parts r in
    let (from, to) = due_range job some_part r in
    let k = distance job.data_parts p q in
    let (near, there) = distance_lem job.data_parts p q from to low high in
    let checks = first_checks k f in
    let taken =
      checked_part-after_checks job some_part checks r (f k) (first_checks_passed k f passed)
        (passed k).0 in
    (k, near, taken ∙ rw (length-first_checks k f) there)
