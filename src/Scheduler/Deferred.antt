-- ===== src/Scheduler/Deferred.antt =====
-- Which of the waiting entries is started next.
use backupchief_agent.Base.{
  ℕ, ◌≡◌, refl, ap, ◌⊎◌, Bool, true, false, ◌&&◌, ◌||◌, ltb, ◌==◌, String, Option, none, some,
  Option-cases, Bool-cases, inl, inr, arith, is_some, All, insert,
}
use backupchief_agent.Protocol.{JournalCommand, Job, skipped}
use backupchief_agent.Store.{Err}
use backupchief_agent.Daemon.{Daemon, Outcome, save_journal}
use backupchief_agent.Daemon.Saves.{save_journal_lem}
use backupchief_agent.Start.{start_operation}
use backupchief_agent.Cancel.{finish_without_execution}
use backupchief_agent.Scheduler.Backups.{
  Found, unknown, not_ready, found, Configured, best_entry, goes_before, before_at, is_deferred,
  maintenance_priority, start_next_deferred_maintenance, start_found, job_for_execution,
}
use backupchief_agent.Scheduler.Best.{Entry, IsBest, best_entry-IsBest}

before_at_irreflexive : (a : Option ℕ) → before_at a a ≡ false
before_at_irreflexive none = refl
before_at_irreflexive (some a) = ground arith

before_at_transitive :
    (a b c : Option ℕ) → before_at a b ≡ true → before_at b c ≡ true → before_at a c ≡ true
before_at_transitive none none none h k = h
before_at_transitive none none (some c) h k = refl
before_at_transitive none (some b) none h k = cc k
before_at_transitive none (some b) (some c) h k = refl
before_at_transitive (some a) none c h k = cc h
before_at_transitive (some a) (some b) none h k = cc k
before_at_transitive (some a) (some b) (some c) h k = ground (arith, h, k)

goes_before_irreflexive : (a : JournalCommand) → goes_before a a ≡ false
unfolding goes_before
goes_before_irreflexive a = ground (arith, before_at_irreflexive a.scheduled_for)

lexicographic :
    (p q r : ℕ) (x y z : Bool)
    → (x ≡ true → y ≡ true → z ≡ true)
    → (ltb p q || p == q && x) ≡ true
    → (ltb q r || q == r && y) ≡ true
    → (ltb p r || p == r && z) ≡ true
lexicographic p q r x y z t h k = ground (arith, t, h, k)

goes_before_transitive :
    (a b c : JournalCommand)
    → goes_before a b ≡ true
    → goes_before b c ≡ true
    → goes_before a c ≡ true
unfolding goes_before
goes_before_transitive a b c h k =
    lexicographic (maintenance_priority a.run_kind) (maintenance_priority b.run_kind)
      (maintenance_priority c.run_kind) (before_at a.scheduled_for b.scheduled_for)
      (before_at b.scheduled_for c.scheduled_for) (before_at a.scheduled_for c.scheduled_for)
      (before_at_transitive a.scheduled_for b.scheduled_for c.scheduled_for) h k

-- What is done with an entry, by the job that was found for it: an enabled job starts it; a
-- configuration without the job, or with a disabled one, ends it; an error is given back; and while the
-- configuration is not there yet, nothing is done.
abbrev pub Treated : String → Found × Daemon → Outcome → Type 0
Treated id (f, d) o =
    ((job : Job) × (f ≡ found (some job)) × (job.enabled ≡ true) × (o ≡ start_operation id job d))
    ⊎ (((f ≡ found none) ⊎ ((job : Job) × (f ≡ found (some job)) × (job.enabled ≡ false)))
        × (o
            ≡ finish_without_execution id skipped "config_unavailable"
                "The required job configuration is unavailable." d))
    ⊎ ((err : Err) × (f ≡ unknown err) × (o ≡ (some err, d)))
    ⊎ ((f ≡ not_ready) × (o ≡ (none, d)))

start_found-Treated : (id : String) (f : Found × Daemon) → Treated id f (start_found id f)
unfolding start_found
start_found-Treated id (unknown err, d) = inr (inr (inl (err, refl, refl)))
start_found-Treated id (not_ready, d) = inr (inr (inr (refl, refl)))
start_found-Treated id (found none, d) = inr (inl (inl refl, refl))
start_found-Treated id (found (some job), d) = elim (Bool-cases job.enabled) [
  | inl on ↦ inl (job, refl, on, rw on refl)
  | inr off ↦ inr (inl (inr (job, refl, off), rw off refl))
]

module _ (configured : Configured) (job : Option String) (expired_only : Bool) (d : Daemon) where
  abbrev outcome : Outcome
  outcome = start_next_deferred_maintenance configured job expired_only d

  -- The entry without its wait is saved, and then treated by the job that is found for it; or the
  -- save fails, and nothing is launched.
  abbrev pub Starts : Entry → Type 0
  Starts (id, c) =
      let c' = record c { wait_for_backup = false } in
      let saved = save_journal (record d { journal = insert id c' d.journal }) in
      ((saved.0 ≡ none) × Treated id (job_for_execution configured c' saved.1) outcome)
      ⊎ ((err : Err) × (saved.0 ≡ some err)
          × (outcome.0 ≡ some err)
          × (outcome.1.launched ≡ d.launched))

  starts :
      (r : Entry)
      → is_some d.state.agent_update ≡ false
      → best_entry (is_deferred job expired_only d.clock) goes_before d.journal none ≡ some r
      → Starts r
  unfolding start_next_deferred_maintenance
  starts (id, c) idle e =
      let c' = record c { wait_for_backup = false } in
      let put = record d { journal = insert id c' d.journal } in
      let same : (save_journal put).1.launched ≡ d.launched =
        ap (λ x. x.launched) (save_journal_lem put).only_store in
      elim (Option-cases (save_journal put).0) [
        | inl ok ↦ inl (
          ok,
          rw (idle, start_next_deferred_maintenance, e)
              (rw (ok, start_next_deferred_maintenance)
                (start_found-Treated id (job_for_execution configured c' (save_journal put).1))),
        )
        | inr (err, bad) ↦ inr (
          err,
          bad,
          rw (idle, start_next_deferred_maintenance, e)
              (rw (bad, start_next_deferred_maintenance) refl),
          rw (idle, start_next_deferred_maintenance, e)
              (rw (bad, start_next_deferred_maintenance) same),
        )
      ]

  -- While no update of the agent is pending: either no entry waits that was asked for, and nothing
  -- happens; or one of them is taken, before which none goes by kind and time. It is saved without its
  -- wait, and an error of that is given back and nothing launched; once it is saved, an enabled job
  -- that is found for it starts it, a configuration without the job or with a disabled one ends it as
  -- skipped, an error of the search is given back, and while the configuration is not there yet
  -- nothing else is done.
  pub start_next_deferred_maintenance-IsBest :
      is_some d.state.agent_update ≡ false
      → ((outcome ≡ (none, d))
          × All (λ (x : Entry). is_deferred job expired_only d.clock x.1 ≡ false) d.journal)
        ⊎ ((r : Entry) × IsBest (is_deferred job expired_only d.clock) goes_before d.journal r
            × Starts r)
  unfolding start_next_deferred_maintenance
  start_next_deferred_maintenance-IsBest idle =
      elim (best_entry-IsBest (is_deferred job expired_only d.clock) goes_before
        goes_before_irreflexive goes_before_transitive d.journal) [
          | inl (e, none_there) ↦
              inl (rw (idle, start_next_deferred_maintenance, e) refl, none_there)
          | inr (r, e, best) ↦ inr (r, best, starts r idle e)
        ]
