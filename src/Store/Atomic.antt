-- ===== src/Store/Atomic.antt =====
-- A save of the journal is all or nothing.
use backupchief_agent.Base.{
  ◌≡◌, sym, ap, ◌∙◌, Dict, Option, none, some, ◌⊎◌, ◌≢◌, inl, inr, Option-cases, true,
}
use backupchief_agent.Protocol.{JournalCommand}
use backupchief_agent.Store.{
  spool_capacity, Store, Content, Occurrences, content_of, journal_action, claim_all, update_state,
  save_command_journal,
}
use backupchief_agent.Store.Transactions.{
  SameContent, same_content, update_state-cases, update_state-refused,
}

journal_action-claims :
    (j : Dict JournalCommand) (s : Store) (claims : Option Occurrences)
    → claim_all j s.occurrences ≡ claims
    → journal_action j s ≡ (elim claims [
      | none ↦ none
      | some held ↦ some (record (content_of s) { journal = j; occurrences = held })
    ])
journal_action-claims j s claims e =
    ap
      (λ (o : Option Occurrences). elim o as (λ x. Option Content) [
        | none ↦ none
        | some held ↦ some (record (content_of s) { journal = j; occurrences = held })
      ])
      e

-- `SaveCommandJournal` either returns no error, has written exactly the given journal with every
-- occurrence claimed, and has left the runtime state alone; or it returns an error and has left
-- journal, occurrences and runtime state as they were, with the reserve released if the error is
-- the capacity error.
pub save_command_journal_atomic :
    (j : Dict JournalCommand) (s : Store)
    → let (e, s') = save_command_journal j s in
      ((e ≡ none)
        × (s'.journal ≡ j)
        × (claim_all j s.occurrences ≡ some s'.occurrences)
        × (s'.runtime ≡ s.runtime))
      ⊎ ((e ≢ none) × SameContent s s' × (e ≡ some spool_capacity → s'.reserve_released ≡ true))
unfolding save_command_journal
save_command_journal_atomic j s = elim (Option-cases (claim_all j s.occurrences)) [
  | inl bad ↦
      let goes : save_command_journal j s ≡ update_state s none =
        ap (update_state s) (journal_action-claims j s none bad) in
      let (failed, same, other) = update_state-refused s in
      rw goes (inr (failed, same_content s _ same, λ e. absurd (other e)))
  | inr (held, good) ↦
      let new : Content = record (content_of s) { journal = j; occurrences = held } in
      let goes : save_command_journal j s ≡ update_state s (some new) =
        ap (update_state s) (journal_action-claims j s (some held) good) in
      elim (update_state-cases s new) [
        | inl (ok, written) ↦ rw goes (
            inl (
              ok,
              ap (λ (k : Content). k.journal) written,
              good ∙ ap (λ (k : Content). some k.occurrences) (sym written),
              ap (λ (k : Content). k.runtime) written,
            ))
        | inr (failed, same, full) ↦ rw goes (inr (failed, same_content s _ same, full))
      ]
]
