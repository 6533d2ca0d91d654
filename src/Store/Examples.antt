-- ===== src/Store/Examples.antt =====
-- A save of one scheduled entry, and a skipped occurrence.
use backupchief_agent.Base.{◌≡◌, refl, [], ◌∷◌, Dict, none, some, false}
use backupchief_agent.Protocol.{JournalCommand, backup, received, scheduled, run_backup}
use backupchief_agent.Store.{
  no_space, next_outcome, content_of, spool_capacity, can_accept_work, Store, commits, disk_full,
  claim_all, save_command_journal, update_state, claim, claim_at, claim_key, run_of, occurrence_of,
  OccurrenceKey,
}
use backupchief_agent.Ulid.{is_ulid, matches_class}
use backupchief_agent.Store.Transactions.{SameContent}
use backupchief_agent.Store.Pressure.{
  saves_journal, saves_state, transact, transact_all, intended, transact_full_disk,
}
use backupchief_agent.Store.Occurrences.{Claimed, save_command_journal-Claimed}
use backupchief_agent.Fixtures.{command_id, command_of, entry_of, store_of}

abbrev entries : Dict JournalCommand
entries =
    (
      command_id,
      record (entry_of (command_of run_backup none) received) {
        trigger = scheduled;
        scheduled_for = some 60;
      },
    )
    ∷ []

abbrev full : Store
full = store_of (disk_full ∷ []) []

no_space_left :
    ((next_outcome full.outcomes).update
      (content_of full)
      (intended (saves_journal entries) full)).0
    ≡ some no_space
unfolding claim_all claim claim_at claim_key run_of occurrence_of is_ulid matches_class
no_space_left = refl

-- The state can be saved again afterwards, but work is not accepted.
transact_full_disk_example :
    let (e, s') = transact (saves_journal entries) full in
    (e ≡ some spool_capacity)
    × SameContent full s'
    × (can_accept_work 4096 (transact_all (saves_state full.runtime ∷ []) s') ≡ false)
transact_full_disk_example =
    transact_full_disk (saves_journal entries) full (saves_state full.runtime ∷ []) 4096
      no_space_left

abbrev roomy : Store
roomy = store_of (commits ∷ []) []

saved : (save_command_journal entries roomy).0 ≡ none
unfolding save_command_journal update_state claim_all claim claim_at claim_key run_of occurrence_of
    is_ulid matches_class
saved = refl

save_command_journal-Claimed_example :
    Claimed entries roomy.occurrences (save_command_journal entries roomy).1.occurrences
save_command_journal-Claimed_example = save_command_journal-Claimed entries roomy saved

abbrev skipped_key : OccurrenceKey
skipped_key = record { occurrence_job = "job"; occurrence_kind = backup; occurrence_at = 120 }
