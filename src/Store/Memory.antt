-- ===== src/Store/Memory.antt =====
-- The occurrences that the store knows stay known.
use backupchief_agent.Base.{
  ◌≡◌, refl, ap, true, some, Option, Option-cases, inl, inr, arith, Dict, is_some,
}
use backupchief_agent.Protocol.{JournalCommand, RuntimeState}
use backupchief_agent.Store.{
  Store, OccurrenceKey, run_of, is_known, save_command_journal, save_runtime_state,
  record_skipped_occurrence, Content, content_of, journal_action, skip_action,
}
use backupchief_agent.Store.Transactions.{update_state-rest, update_state-cases, same_content}
use backupchief_agent.Store.Atomic.{save_command_journal_atomic}
use backupchief_agent.Store.Occurrences.{save_command_journal-Claimed}
use backupchief_agent.Store.Skipped.{record_skipped_occurrence_lem}

-- Every occurrence that the one store knows, the other knows.
abbrev pub Remembers : Store → Store → Type 0
Remembers s s' = (k : OccurrenceKey) → is_known k s ≡ true → is_known k s' ≡ true

Remembers-runs :
    (s s' : Store)
    → s'.legacy_occurrences ≡ s.legacy_occurrences
    → ((k : OccurrenceKey)
        → is_some (run_of k s.occurrences) ≡ true
        → is_some (run_of k s'.occurrences) ≡ true)
    → Remembers s s'
unfolding is_known
Remembers-runs s s' legacy runs k h = ground (arith, legacy, runs k)

save_legacy :
    (j : Dict JournalCommand) (s : Store)
    → (save_command_journal j s).1.legacy_occurrences ≡ s.legacy_occurrences
unfolding save_command_journal
save_legacy j s = (update_state-rest s (journal_action j s)).0

pub save_command_journal-Remembers :
    (j : Dict JournalCommand) (s : Store) → Remembers s (save_command_journal j s).1
save_command_journal-Remembers j s =
    Remembers-runs s (save_command_journal j s).1 (save_legacy j s) (λ k h.
      elim (save_command_journal_atomic j s) [
        | inl (ok, written, claimed, kept) ↦ elim (Option-cases (run_of k s.occurrences)) [
          | inl none_there ↦ absurd (cc (h, none_there))
          | inr (run, there) ↦ rw ((save_command_journal-Claimed j s ok).kept k run there) refl
        ]
        | inr (bad, same, full) ↦ rw (same.1) h
      ])

pub save_runtime_state-Remembers :
    (r : RuntimeState) (s : Store) → Remembers s (save_runtime_state r s).1
unfolding save_runtime_state
save_runtime_state-Remembers r s =
    let new : Content = record (content_of s) { runtime = r } in
    let old = (update_state-rest s (some new)).0 in
    Remembers-runs s (save_runtime_state r s).1 old (λ k h. elim (update_state-cases s new) [
      | inl (ok, written) ↦ rw (ap (λ (x : Content). x.occurrences) written) h
      | inr (failed, same, full) ↦ rw ((same_content s _ same).1) h
    ])

record_legacy :
    (key : OccurrenceKey) (state : Option RuntimeState) (s : Store)
    → (record_skipped_occurrence key state s).1.legacy_occurrences ≡ s.legacy_occurrences
unfolding record_skipped_occurrence
record_legacy key state s = (update_state-rest s (some (skip_action key state s))).0

pub record_skipped_occurrence-Remembers :
    (key : OccurrenceKey) (state : Option RuntimeState) (s : Store)
    → Remembers s (record_skipped_occurrence key state s).1
record_skipped_occurrence-Remembers key state s k h =
    elim (record_skipped_occurrence_lem key state s) [
      | inl (ok, now, old, kept) ↦ old k h
      | inr (bad, same) ↦
          Remembers-runs s (record_skipped_occurrence key state s).1 (record_legacy key state s)
            (λ x there. rw (same.1) there) k h
    ]
