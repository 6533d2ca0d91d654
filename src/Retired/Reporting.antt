-- ===== src/Retired/Reporting.antt =====
-- What a report of the retired journal leaves behind.
use backupchief_agent.Base.{
  ℕ, ◌≤◌, ◌<◌, ◌≡◌, refl, ap, ◌∙◌, String, Bool, true, false, List, [], ◌∷◌, ◌++◌, none, some,
  arith, lookup, insert, lookup-insert_self, length, take, drop, ltb, length-take, length-drop,
  lt→ltb, ◌==◌,
}
use backupchief_agent.Protocol.{JournalCommand}
use backupchief_agent.Daemon.{Daemon, save_journal, is_nonempty}
use backupchief_agent.Daemon.Saves.{save_journal_lem}
use backupchief_agent.Retired.{
  RetiredEnrollment, answers, Outside, Reporter, maximum_event_batch, change_entry, batch_answered,
  any_rejected, report_entry, flush_retired_command, flush_ids, flush_retired_generation,
  report_records, report_retired_journal, sort_records, save_retired, purge_retired_generation,
  purge_retired_command,
}

-- The loop over the entries reports a generation as complete whenever it gives no error.
flush_ids_complete :
    (o : Outside) (generation : ℕ) (ids : List String) (r : Reporter)
    → (flush_ids o generation ids r).0.1 ≡ none
    → (flush_ids o generation ids r).0.0 ≡ true
unfolding flush_ids
flush_ids_complete o generation [] r h = refl
flush_ids_complete o generation (id ∷ ids) r h =
    let r₁ = (flush_retired_command o generation id r).1 in
    let r₂ = (purge_retired_command o id r₁).1 in
    ground (arith, flush_ids_complete o generation ids r₁, flush_ids_complete o generation ids r₂)

flush_complete :
    (o : Outside) (generation : ℕ) (r : Reporter)
    → (flush_retired_generation o generation r).0.1 ≡ none
    → (flush_retired_generation o generation r).0.0 ≡ true
unfolding flush_retired_generation
flush_complete o generation r h = flush_ids_complete o generation _ r h

-- A record that is kept comes only from a generation that is not complete, so none is.
report_records_kept :
    (o : Outside) (all xs : List RetiredEnrollment) (r : Reporter)
    → (report_records o all [] xs r).0 ≡ none
    → (report_records o all [] xs r).1.records ≡ []
unfolding report_records
report_records_kept o all [] r h = unfold save_retired in ground arith
report_records_kept o all (x ∷ xs) r h =
    let whole = flush_complete o x.generation r in
    let r₁ = (flush_retired_generation o x.generation r).1 in
    let at_purged = report_records_kept o all xs (purge_retired_generation o x.generation r).1 in
    let at_rest = report_records_kept o all xs r₁ in
    let at_revoked = report_records_kept o all xs (purge_retired_generation o x.generation r₁).1 in
    ground (arith, whole, at_purged, at_rest, at_revoked)

-- A report of the retired journal that gives no error has dropped every retired enrollment from
-- the list, so that no later report uses their credentials, whatever it left in the journal.
pub report_retired_journal_drops :
    (o : Outside) (r : Reporter)
    → (report_retired_journal o r).0 ≡ none
    → (report_retired_journal o r).1.records ≡ []
unfolding report_retired_journal
report_retired_journal_drops o r h =
    elim r.records
        as (λ rs.
          (report_retired_journal o (record r { records = rs })).0 ≡ none
          → (report_retired_journal o (record r { records = rs })).1.records ≡ []) [
            | [] ↦ λ k. refl
            | x ∷ xs ↦ λ k.
                report_records_kept o (sort_records (x ∷ xs)) (sort_records (x ∷ xs))
                  (record r { records = x ∷ xs }) k
          ]
      h

module _ (o : Outside) (generation : ℕ) (id : String) (c : JournalCommand) (r : Reporter)
    (rejected : List Bool) where
  -- The entry behind its first batch.
  abbrev pub left : JournalCommand
  left = record c { events = drop (length (take maximum_event_batch c.events)) c.events }

  abbrev pub left_daemon : Daemon
  left_daemon = record r.daemon { journal = insert id left r.daemon.journal }

  after_batch : Reporter
  after_batch = record r {
    daemon = (save_journal left_daemon).1;
    sent = r.sent ++ take maximum_event_batch c.events;
  }

  change_entry_left :
      lookup id r.daemon.journal ≡ some c
      → change_entry id
          (λ (x : JournalCommand). record x {
            events = drop (length (take maximum_event_batch c.events)) x.events;
          })
          (record r { sent = r.sent ++ take maximum_event_batch c.events })
        ≡ ((save_journal left_daemon).0, after_batch)
  unfolding change_entry after_batch
  change_entry_left there = rw (there, change_entry) refl

  batch_answered_left :
      lookup id r.daemon.journal ≡ some c
      → maximum_event_batch < length c.events
      → (save_journal left_daemon).0 ≡ none
      → batch_answered o id c r ≡ (none, after_batch)
  unfolding batch_answered
  batch_answered_left there long saved =
      let batch : length (take maximum_event_batch c.events) ≡ 30 =
        omega (arith, length-take maximum_event_batch c.events) in
      let more : ltb (length (take maximum_event_batch c.events)) (length c.events) ≡ true =
        lt→ltb _ _ (omega (arith, batch)) in
      ground (arith, change_entry_left there, saved, more)

  flush_retired_command_batch :
      lookup id r.daemon.journal ≡ some c
      → c.command.generation ≡ generation
      → maximum_event_batch < length c.events
      → o.submit generation (take maximum_event_batch c.events) ≡ answers rejected
      → any_rejected rejected ≡ false
      → flush_retired_command o generation id r ≡ batch_answered o id c r
  unfolding flush_retired_command report_entry
  flush_retired_command_batch there mine long accepted fine =
      let some_event : is_nonempty c.events ≡ true = ground (arith) in
      let same : (c.command.generation == generation) ≡ true = ground arith in
      rw (there, flush_retired_command, same, report_entry, some_event, accepted, fine) refl

  -- An entry of the generation with more events than a batch, whose first batch is accepted and
  -- whose save succeeds, gives no error; its batch is sent, and it stays in the journal with the
  -- events behind the batch, of which there is one at least.
  pub flush_retired_command-left :
      lookup id r.daemon.journal ≡ some c
      → c.command.generation ≡ generation
      → maximum_event_batch < length c.events
      → o.submit generation (take maximum_event_batch c.events) ≡ answers rejected
      → any_rejected rejected ≡ false
      → (save_journal left_daemon).0 ≡ none
      → ((flush_retired_command o generation id r).0 ≡ none)
        × ((flush_retired_command o generation id r).1.sent
            ≡ r.sent ++ take maximum_event_batch c.events)
        × (lookup id (flush_retired_command o generation id r).1.daemon.journal ≡ some left)
        × (1 ≤ length left.events)
  unfolding after_batch
  flush_retired_command-left there mine long accepted fine saved =
      let e =
        flush_retired_command_batch there mine long accepted fine
        ∙ batch_answered_left there long saved in
      let only = (save_journal_lem left_daemon).only_store in
      let put = lookup-insert_self id left r.daemon.journal in
      let kept : (save_journal left_daemon).1.journal ≡ left_daemon.journal =
        ap (λ x. x.journal) only in
      rw e (
        refl,
        refl,
        rw kept put,
        omega (
          arith,
          length-drop (length (take maximum_event_batch c.events)) c.events,
          length-take maximum_event_batch c.events,
        ),
      )
