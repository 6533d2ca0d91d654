-- ===== src/Start/Attempt.antt =====
-- What the part of an attempt behind its guards does: nothing is launched, or the launch is on disk
-- first.
use backupchief_agent.Base.{
  ◌≡◌, subst, ◌∙◌, ◌⊎◌, inl, inr, String, List, ◌∷◌, Option, none, some, arith, lookup, insert,
  lookup-insert_self, Option-cases,
}
use backupchief_agent.Protocol.{
  JournalCommand, RunKind, running, Job, MaintenancePlan, run_started, no_payload,
}
use backupchief_agent.Store.{refused}
use backupchief_agent.Daemon.{Daemon, Outcome, fresh_id, save_journal, with_event, next_sequence}
use backupchief_agent.Daemon.Saves.{save_journal_lem}
use backupchief_agent.Start.{mark_busy, launch, report_skew, with_snapshot, commit_start, start_run}

-- No operation was launched and no mark was set.
pub record IsIdle (d d' : Daemon) : Type 0 where
  pub launched : d'.launched ≡ d.launched
  pub active : d'.active ≡ d.active
  pub kinds : d'.active_run_kinds ≡ d.active_run_kinds
  pub marks : d'.repositories ≡ d.repositories

-- The operation `id` of kind `kind` was launched over the repositories `ids`, and its entry was on
-- disk as running before.
pub record IsStarted (id : String) (kind : RunKind) (ids : List String) (d : Daemon) (o : Outcome)
    : Type 0 where
  pub ok : o.0 ≡ none
  pub entry : JournalCommand
  pub job : Job
  pub plan : Option MaintenancePlan
  pub is_running : entry.state ≡ running
  pub of_kind : entry.run_kind ≡ kind
  pub journaled : lookup id o.1.journal ≡ some entry
  pub durable : o.1.store.journal ≡ o.1.journal
  pub launched :
      o.1.launched
      ≡ record {
        launch_command = id;
        launch_run = entry.run_id;
        launch_kind = kind;
        launch_job = job;
        launch_plan = plan;
      }
        ∷ d.launched
  pub kinds : o.1.active_run_kinds ≡ insert entry.run_id kind d.active_run_kinds
  pub marks : o.1.repositories ≡ mark_busy ids d.repositories

abbrev pub IsAttempt : String → RunKind → List String → Daemon → Outcome → Type 0
IsAttempt id kind ids d o = IsIdle d o.1 ⊎ IsStarted id kind ids d o

module _ (id : String) (before started : JournalCommand) (job : Job) (plan : Option MaintenancePlan)
    (ids : List String) (d : Daemon) where
  inserted : Daemon
  inserted = record d { journal = insert id started d.journal }

  commit_start-IsAttempt :
      (kind : RunKind)
      → started.state ≡ running
      → started.run_kind ≡ kind
      → IsAttempt id kind ids d (commit_start id before started job plan ids d)
  unfolding commit_start launch inserted
  commit_start-IsAttempt kind runs of_kind =
      let saved = save_journal_lem inserted in
      elim (Option-cases (save_journal inserted).0) [
        | inl ok ↦ inr (record {
          ok = ground arith;
          entry = started;
          job = job;
          plan = plan;
          is_running = runs;
          of_kind = of_kind;
          journaled = ground (arith, saved.only_store, lookup-insert_self id started d.journal);
          durable = ground (arith, saved.only_store, saved.saved ok);
          launched = ground (arith, saved.only_store);
          kinds = ground (arith, saved.only_store);
          marks = ground (arith, saved.only_store);
        })
        | inr (err, bad) ↦ inl (record {
          launched = ground (arith, saved.only_store);
          active = ground (arith, saved.only_store);
          kinds = ground (arith, saved.only_store);
          marks = ground (arith, saved.only_store);
        })
      ]

pub IsAttempt-kind :
    {kind kind' : RunKind} (id : String) (ids : List String) (d : Daemon) (o : Outcome)
    → kind ≡ kind'
    → IsAttempt id kind ids d o
    → IsAttempt id kind' ids d o
IsAttempt-kind id ids d o e h = subst (λ k. IsAttempt id k ids d o) e h

-- What launches nothing may come first.
pub IsAttempt-after :
    (id : String) (kind : RunKind) (ids : List String) (d d' : Daemon) (o : Outcome)
    → IsIdle d d'
    → IsAttempt id kind ids d' o
    → IsAttempt id kind ids d o
IsAttempt-after id kind ids d d' o idle (inl none_launched) = inl (record {
  launched = none_launched.launched ∙ idle.launched;
  active = none_launched.active ∙ idle.active;
  kinds = none_launched.kinds ∙ idle.kinds;
  marks = none_launched.marks ∙ idle.marks;
})
IsAttempt-after id kind ids d d' o idle (inr s) = inr (record {
  ok = s.ok;
  entry = s.entry;
  job = s.job;
  plan = s.plan;
  is_running = s.is_running;
  of_kind = s.of_kind;
  journaled = s.journaled;
  durable = s.durable;
  launched = rw (← idle.launched) s.launched;
  kinds = rw (← idle.kinds) s.kinds;
  marks = rw (← idle.marks) s.marks;
})

IsIdle-trans : (d d' d'' : Daemon) → IsIdle d d' → IsIdle d' d'' → IsIdle d d''
IsIdle-trans d d' d'' a b = record {
  launched = b.launched ∙ a.launched;
  active = b.active ∙ a.active;
  kinds = b.kinds ∙ a.kinds;
  marks = b.marks ∙ a.marks;
}

fresh_id-IsIdle : (d : Daemon) → IsIdle d (fresh_id d).1
unfolding fresh_id
fresh_id-IsIdle d = record {
  launched = ground arith;
  active = ground arith;
  kinds = ground arith;
  marks = ground arith;
}

report_skew-IsIdle : (c : JournalCommand) (d : Daemon) → IsIdle d (report_skew c d).1
unfolding report_skew fresh_id
report_skew-IsIdle c d = record {
  launched = ground arith;
  active = ground arith;
  kinds = ground arith;
  marks = ground arith;
}

report_skew_entry :
    (c : JournalCommand) (d : Daemon)
    → ((report_skew c d).0.state ≡ c.state) × ((report_skew c d).0.run_kind ≡ c.run_kind)
unfolding report_skew
report_skew_entry c d = (ground arith, ground arith)

module _ (id : String) (c : JournalCommand) (job : Job) (plan : Option MaintenancePlan)
    (ids : List String) (d : Daemon) where
  -- The entry as it is when the first event is to be made, and with that event.
  marked : JournalCommand
  marked =
      let c₁ = with_snapshot c job in
      record c₁ { state = running; sequence = next_sequence c₁.sequence }

  reported : String → JournalCommand × Daemon
  reported e = report_skew (with_event marked e d.clock run_started no_payload) (fresh_id d).1

  start_run-none :
      (fresh_id d).0 ≡ none
      → start_run id c job plan ids d ≡ (
        some (refused "rand.Read"),
        record (fresh_id d).1 { journal = insert id marked (fresh_id d).1.journal },
      )
  unfolding start_run marked
  start_run-none e = rw (e, start_run)

  start_run-some :
      (event : String)
      → (fresh_id d).0 ≡ some event
      → start_run id c job plan ids d
        ≡ commit_start id c (reported event).0 job plan ids (reported event).1
  unfolding start_run marked reported
  start_run-some event e = rw (e, start_run)

  marked_kind : marked.run_kind ≡ c.run_kind
  unfolding marked with_snapshot
  marked_kind = ground arith

  marked_state : marked.state ≡ running
  unfolding marked with_snapshot
  marked_state = ground arith

  reported_entry :
      (e : String) → ((reported e).0.state ≡ running) × ((reported e).0.run_kind ≡ c.run_kind)
  unfolding reported
  reported_entry e =
      let (s, k) =
        report_skew_entry (with_event marked e d.clock run_started no_payload) (fresh_id d).1 in
      (s ∙ marked_state, k ∙ marked_kind)

  reported-IsIdle : (e : String) → IsIdle d (reported e).1
  unfolding reported
  reported-IsIdle e =
      IsIdle-trans d (fresh_id d).1 (reported e).1 (fresh_id-IsIdle d)
        (report_skew-IsIdle (with_event marked e d.clock run_started no_payload) (fresh_id d).1)

  pub start_run-IsAttempt : IsAttempt id c.run_kind ids d (start_run id c job plan ids d)
  start_run-IsAttempt = elim (Option-cases (fresh_id d).0) [
    | inl bad ↦ rw (start_run-none bad) (
        inl (record {
          launched = (fresh_id-IsIdle d).launched;
          active = (fresh_id-IsIdle d).active;
          kinds = (fresh_id-IsIdle d).kinds;
          marks = (fresh_id-IsIdle d).marks;
        }))
    | inr (event, e) ↦
        let (runs, kind) = reported_entry event in
        rw (start_run-some event e) (
          IsAttempt-after id c.run_kind ids d (reported event).1
            (commit_start id c (reported event).0 job plan ids (reported event).1)
            (reported-IsIdle event)
            (commit_start-IsAttempt id c (reported event).0 job plan ids (reported event).1
              c.run_kind runs kind))
  ]
