-- ===== src/Start/Memory.antt =====
-- An attempt to start an operation forgets no occurrence.
use backupchief_agent.Base.{
  ◌≡◌, sym, subst, Bool, true, false, String, List, Option, none, Option-cases, inl, inr, arith,
  lookup, insert, if◌then◌else◌,
}
use backupchief_agent.Protocol.{
  JournalCommand, Job, MaintenancePlan, is_backup, running, run_started, no_payload,
}
use backupchief_agent.Store.{Store, is_known}
use backupchief_agent.Store.Memory.{
  Remembers, save_command_journal-Remembers, save_runtime_state-Remembers,
}
use backupchief_agent.Maintenance.{prepare_maintenance, runtime_of}
use backupchief_agent.Daemon.{Daemon, fresh_id, save_journal, save_state, next_sequence, with_event}
use backupchief_agent.Start.{
  with_snapshot, report_skew, commit_start, start_run, start_maintenance, start_entry,
  start_operation, launch, is_blocked, is_received, with_run_kind, repository_ids,
}

pub Remembers-refl : (s : Store) → Remembers s s
Remembers-refl s k h = h

pub Remembers-trans : (a b c : Store) → Remembers a b → Remembers b c → Remembers a c
Remembers-trans a b c f g k h = g k (f k h)

pub save_journal-Remembers : (d : Daemon) → Remembers d.store (save_journal d).1.store
unfolding save_journal
save_journal-Remembers d = save_command_journal-Remembers d.journal d.store

pub save_state-Remembers : (d : Daemon) → Remembers d.store (save_state d).1.store
unfolding save_state
save_state-Remembers d = save_runtime_state-Remembers d.state d.store

pub fresh_id-store : (d : Daemon) → (fresh_id d).1.store ≡ d.store
unfolding fresh_id
fresh_id-store d = ground arith

report_skew-store : (c : JournalCommand) (d : Daemon) → (report_skew c d).1.store ≡ d.store
unfolding report_skew
report_skew-store c d = ground (arith, fresh_id-store d)

-- Whichever of two daemons a result has.
pub either {ℓ} :
    {A : Type ℓ} (P : Store → Type 0) (b : Bool) (x y : A × Daemon)
    → P x.1.store
    → P y.1.store
    → P (if b then x else y).1.store
either P true x y h h' = h
either P false x y h h' = h'

commit_start-Remembers :
    (id : String) (before c : JournalCommand) (job : Job) (plan : Option MaintenancePlan)
    (ids : List String) (d : Daemon)
    → Remembers d.store (commit_start id before c job plan ids d).1.store
unfolding commit_start launch
commit_start-Remembers id before c job plan ids d k h =
    let put = record d { journal = insert id c d.journal } in
    let kept = save_journal-Remembers put k h in
    elim (Option-cases (save_journal put).0) [
      | inl ok ↦ rw (ok, commit_start) kept
      | inr (err, bad) ↦ rw (bad, commit_start) kept
    ]

start_run-Remembers :
    (id : String) (c : JournalCommand) (job : Job) (plan : Option MaintenancePlan)
    (ids : List String) (d : Daemon)
    → Remembers d.store (start_run id c job plan ids d).1.store
unfolding start_run
start_run-Remembers id c job plan ids d k h =
    let made = subst (λ s. is_known k s ≡ true) (sym (fresh_id-store d)) h in
    let c₁ = with_snapshot c job in
    let c₂ = record c₁ { state = running; sequence = next_sequence c₁.sequence } in
    elim (Option-cases (fresh_id d).0) [
      | inl bad ↦ rw (bad, start_run) made
      | inr (e, good) ↦
          let c₃ = with_event c₂ e d.clock run_started no_payload in
          let skew = report_skew c₃ (fresh_id d).1 in
          let reported =
            subst (λ s. is_known k s ≡ true) (sym (report_skew-store c₃ (fresh_id d).1)) made in
          rw (good, start_run) (commit_start-Remembers id c skew.0 job plan ids skew.1 k reported)
    ]

start_maintenance-Remembers :
    (id : String) (c : JournalCommand) (job : Job) (ids : List String) (d : Daemon)
    → Remembers d.store (start_maintenance id c job ids d).1.store
unfolding start_maintenance
start_maintenance-Remembers id c job ids d k h =
    let (job', plan, c', r') =
      prepare_maintenance d.clock job c (runtime_of job.repository_id d.state.maintenance) in
    let put = record d {
      state = record d.state { maintenance = insert job.repository_id r' d.state.maintenance };
      journal = insert id c' d.journal;
    } in
    let kept = save_state-Remembers put k h in
    elim (Option-cases (save_state put).0) [
      | inl ok ↦
          rw (ok, start_maintenance)
            (start_run-Remembers id c' job' plan ids (save_state put).1 k kept)
      | inr (err, bad) ↦ rw (bad, start_maintenance) kept
    ]

start_entry-Remembers :
    (id : String) (job : Job) (c : JournalCommand) (d : Daemon)
    → Remembers d.store (start_entry id job c d).1.store
unfolding start_entry
start_entry-Remembers id job c d =
    let ids = repository_ids c.run_kind job in
    let P = Remembers d.store in
    either P (is_blocked c.run_kind job d) (none, d) _ (Remembers-refl d.store)
      (either P (is_backup c.run_kind) (start_run id c job none ids d)
        (start_maintenance id c job ids d) (start_run-Remembers id c job none ids d)
        (start_maintenance-Remembers id c job ids d))

-- An attempt to start an operation, whatever it does and whichever saves fail, leaves every occurrence
-- known that was known before.
pub start_operation-Remembers :
    (id : String) (job : Job) (d : Daemon) → Remembers d.store (start_operation id job d).1.store
unfolding start_operation
start_operation-Remembers id job d = elim (Option-cases (lookup id d.journal)) [
  | inl missing ↦
      rw (missing, start_operation)
        (either (Remembers d.store) _ (none, d) (none, d) (Remembers-refl d.store)
          (Remembers-refl d.store))
  | inr (c, there) ↦
      let c' = with_run_kind c in
      let put = record d { journal = insert id c' d.journal } in
      let P = Remembers d.store in
      rw (there, start_operation)
        (either P _ (none, d) _ (Remembers-refl d.store)
          (either P (is_received c.state) (start_entry id job c' put) (none, d)
            (start_entry-Remembers id job c' put) (Remembers-refl d.store)))
]
