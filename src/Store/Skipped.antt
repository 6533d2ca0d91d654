-- ===== src/Store/Skipped.antt =====
-- A skipped occurrence is never scheduled again.
use backupchief_agent.Base.{
  ap, ◌≡◌, ◌⊎◌, inl, inr, ◌≢◌, true, ◌∷◌, Option, none, some, arith, String,
}
use backupchief_agent.Protocol.{RuntimeState}
use backupchief_agent.Store.{
  Store, OccurrenceKey, run_of, Content, skip_action, is_known, record_skipped_occurrence,
}
use backupchief_agent.Store.Transactions.{
  SameContent, same_content, update_state-cases, update_state-rest,
}
use backupchief_agent.Store.Occurrences.{key_eq_refl}

-- The occurrence is there, and with it all that were there before.
record_exists :
    (k : OccurrenceKey) (r : String) (s s' : Store)
    → s'.occurrences ≡ (k, r) ∷ s.occurrences
    → s'.legacy_occurrences ≡ s.legacy_occurrences
    → (is_known k s' ≡ true) × ((j : OccurrenceKey) → is_known j s ≡ true → is_known j s' ≡ true)
unfolding is_known run_of
record_exists k r s s' same old =
    (ground (arith, same, key_eq_refl k), λ j h. ground (arith, same, old))

-- `recordSkippedOccurrence` either returns no error, the occurrence exists, every occurrence that
-- existed before still does, and the journal is as it was; or it returns an error and leaves journal,
-- occurrences and runtime state as they were.
pub record_skipped_occurrence_lem :
    (k : OccurrenceKey) (state : Option RuntimeState) (s : Store)
    → let (e, s') = record_skipped_occurrence k state s in
      ((e ≡ none)
        × (is_known k s' ≡ true)
        × ((j : OccurrenceKey) → is_known j s ≡ true → is_known j s' ≡ true)
        × (s'.journal ≡ s.journal))
      ⊎ ((e ≢ none) × SameContent s s')
unfolding record_skipped_occurrence
record_skipped_occurrence_lem k state s = elim (update_state-cases s (skip_action k state s)) [
  | inl (ok, written) ↦
      let (there, others) =
        record_exists k "gap" s _ (ap (λ (x : Content). x.occurrences) written)
          (update_state-rest s (some (skip_action k state s))).0 in
      inl (ok, there, others, ap (λ (x : Content). x.journal) written)
  | inr (failed, same, full) ↦ inr (failed, same_content s _ same)
]
