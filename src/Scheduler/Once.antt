-- ===== src/Scheduler/Once.antt =====
-- An occurrence that the scheduler has handled is known to the store, and is not handled again.
use backupchief_agent.Base.{
  ◌≡◌, refl, subst, ◌∙◌, Bool, true, false, not, ◌&&◌, ◌||◌, String, ℕ, [], ◌∷◌, Option, none, some,
  Option-cases, Bool-cases, inl, inr, arith, lookup, insert, str_eq, All, Dict, lookup-insert_self,
  delete,
}
use backupchief_agent.Protocol.{JournalCommand, RuntimeState}
use backupchief_agent.Store.{
  Store, Err, OccurrenceKey, is_spool_capacity, is_known, occurrence_of, record_skipped_occurrence,
  run_of,
}
use backupchief_agent.Store.Memory.{Remembers, record_skipped_occurrence-Remembers}
use backupchief_agent.Store.Skipped.{record_skipped_occurrence_lem}
use backupchief_agent.Store.Occurrences.{save_command_journal-Claimed}
use backupchief_agent.Daemon.{Daemon, save_journal, mark_spool_gap, fresh_id, event_envelope}
use backupchief_agent.Start.Memory.{
  save_journal-Remembers, start_operation-Remembers, fresh_id-store,
}
use backupchief_agent.Scheduler.{ScheduledOperation, Configuration}
use backupchief_agent.Scheduler.Entries.{
  refuse_occurrence_for_pressure, skip_occurrence, overlap_entry, finish_if,
  finish_scheduled_overlap, scheduled_entry,
}
use backupchief_agent.Scheduler.Rounds.{
  Round, start_scheduled, commit_scheduled, enter_occurrence, key_of, catches_up, overlaps,
}

-- No occurrence is forgotten, and without an error this one is known.
abbrev pub Handles : OccurrenceKey → Store → Option Err → Store → Type 0
Handles key s e s' = Remembers s s' × (e ≡ none → is_known key s' ≡ true)

module _ (key : OccurrenceKey) where
  recorded :
      (o : Option RuntimeState) (s : Store)
      → Handles key s (record_skipped_occurrence key o s).0 (record_skipped_occurrence key o s).1
  recorded o s = (
    record_skipped_occurrence-Remembers key o s,
    λ h. elim (record_skipped_occurrence_lem key o s) [
      | inl (ok, now, old, kept) ↦ now
      | inr (bad, same) ↦ absurd (bad h)
    ],
  )

  pub skip_occurrence-Handles :
      (d : Daemon) → Handles key d.store (skip_occurrence key d).0 (skip_occurrence key d).1.store
  unfolding skip_occurrence
  skip_occurrence-Handles d = recorded none d.store

  pub refuse-Handles :
      (d : Daemon)
      → Handles key d.store
          (refuse_occurrence_for_pressure key d).0
          (refuse_occurrence_for_pressure key d).1.store
  unfolding refuse_occurrence_for_pressure
  refuse-Handles d =
      let next = some (mark_spool_gap d.state) in
      let s = (record_skipped_occurrence key next d.store).1 in
      let (kept, known) = recorded next d.store in
      let (kept', known') = recorded next s in
      (
        λ k h. let first = kept k h in let second = kept' k first in ground (arith, first, second),
        λ h. ground (arith, known, known', h),
      )

All-lookup :
    (Q : JournalCommand → Type 0) (id : String) (c : JournalCommand) (j : Dict JournalCommand)
    → All (λ (e : String × JournalCommand). Q e.1) j
    → lookup id j ≡ some c
    → Q c
unfolding lookup
All-lookup Q id c [] h there = cc there
All-lookup Q id c ((own, x) ∷ j) h there = elim (Bool-cases (str_eq own id)) [
  | inl same ↦ let e : x ≡ c = ground (arith, same, there) in subst Q e h.0
  | inr other ↦ All-lookup Q id c j h.1 (ground (arith, other, there))
]

-- A save of a journal that has the entry of an occurrence.
save-known :
    (key : OccurrenceKey) (id : String) (c : JournalCommand) (d : Daemon)
    → occurrence_of c ≡ some key
    → let put = record d { journal = insert id c d.journal } in
      (save_journal put).0 ≡ none → is_known key (save_journal put).1.store ≡ true
unfolding save_journal is_known
save-known key id c d of_key ok =
    let put = record d { journal = insert id c d.journal } in
    let claimed = save_command_journal-Claimed put.journal put.store ok in
    let owned : run_of key (save_journal put).1.store.occurrences ≡ some c.run_id =
      All-lookup
        (λ x.
          (k : OccurrenceKey)
          → occurrence_of x ≡ some k
          → run_of k (save_journal put).1.store.occurrences ≡ some x.run_id)
        id c put.journal claimed.owned (lookup-insert_self id c d.journal) key of_key in
    rw owned refl

start_scheduled-Handles :
    (waits : Bool) (run : String) (op : ScheduledOperation) (r : Round)
    → Remembers r.daemon.store (start_scheduled waits run op r).1.daemon.store
unfolding start_scheduled
start_scheduled-Handles true run op r k h = h
start_scheduled-Handles false run op r k h =
    start_operation-Remembers run op.operation_job r.daemon k h

module _ (waits : Bool) (key : OccurrenceKey) (run : String) (c : JournalCommand)
    (op : ScheduledOperation) (r : Round) where
  abbrev put : Daemon
  put = record r.daemon { journal = insert run c r.daemon.journal }

  commit_scheduled-Handles :
      occurrence_of c ≡ some key
      → Handles key r.daemon.store
          (commit_scheduled waits key run c op r).0
          (commit_scheduled waits key run c op r).1.daemon.store
  unfolding commit_scheduled
  commit_scheduled-Handles of_key =
      let d₁ = (save_journal put).1 in
      let kept = save_journal-Remembers put in
      let r₁ = record r { daemon = d₁ } in
      elim (Option-cases (save_journal put).0) [
        | inl ok ↦
            rw (ok, commit_scheduled)
              (
                λ k h. start_scheduled-Handles waits run op r₁ k (kept k h),
                λ e.
                    start_scheduled-Handles waits run op r₁ key
                      (save-known key run c r.daemon of_key ok),
              )
        | inr (err, bad) ↦
            let d₂ = record d₁ { journal = delete run d₁.journal } in
            let (still, known) = refuse-Handles key d₂ in
            elim (Bool-cases (is_spool_capacity err)) [
              | inl full ↦ rw (bad, commit_scheduled, full) (λ k h. still k (kept k h), known)
              | inr other ↦ rw (bad, commit_scheduled, other) (kept, λ e. cc)
            ]
      ]

-- An entry of the scheduler has the occurrence that it was made for, whether it was ended at once or
-- not.
module _ (g : Configuration) (op : ScheduledOperation) (run : String) (at minute : ℕ) (d : Daemon)
    (catch_up : Bool) where
  abbrev entry : JournalCommand
  entry = record (scheduled_entry g op run at minute d) { catch_up_backup = catch_up }

  entry_key : occurrence_of entry ≡ some (key_of op at)
  unfolding occurrence_of scheduled_entry
  entry_key = refl

  ended_key :
      (event : Option String) → occurrence_of (overlap_entry entry d event) ≡ some (key_of op at)
  unfolding occurrence_of scheduled_entry overlap_entry event_envelope
  ended_key none = refl
  ended_key (some e) = refl

  finish_if-key : (ended : Bool) → occurrence_of (finish_if ended entry d).0 ≡ some (key_of op at)
  unfolding finish_scheduled_overlap
  finish_if-key true = ended_key (fresh_id d).0
  finish_if-key false = entry_key

  finish_if-store : (ended : Bool) → (finish_if ended entry d).1.store ≡ d.store
  unfolding finish_scheduled_overlap
  finish_if-store true = fresh_id-store d
  finish_if-store false = refl

module _ (g : Configuration) (draining : Bool) (minute at : ℕ) (op : ScheduledOperation)
    (r : Round) where
  pub enter_occurrence-Handles :
      let o = enter_occurrence g draining minute (key_of op at) at op r in
      Handles (key_of op at) r.daemon.store o.0 o.1.daemon.store
  unfolding enter_occurrence
  enter_occurrence-Handles =
      let made = fresh_id-store r.daemon in
      let d₁ = (fresh_id r.daemon).1 in
      elim (Option-cases (fresh_id r.daemon).0) [
        | inl bad ↦ rw (bad, enter_occurrence) (λ k h. rw made h, λ e. cc)
        | inr (run, good) ↦
            let catch_up = catches_up op r in
            let overlap = not catch_up && overlaps op r in
            let waits = draining || overlap || op.deferred || catch_up in
            let ended = overlap && not op.deferred && not draining in
            let done = finish_if ended (entry g op run at minute d₁ catch_up) d₁ in
            let same = finish_if-store g op run at minute d₁ catch_up ended ∙ made in
            let of_key = finish_if-key g op run at minute d₁ catch_up ended in
            let (kept, known) =
              commit_scheduled-Handles waits (key_of op at) run done.0 op
                (record r { daemon = done.1 }) of_key in
            rw (good, enter_occurrence) (λ k h. kept k (rw same h), known)
      ]
