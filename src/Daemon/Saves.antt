-- ===== src/Daemon/Saves.antt =====
-- What the saves of a daemon do, as equations on its parts.
use backupchief_agent.Base.{◌≡◌, refl, ap, ◌≢◌, inl, inr, none, some}
use backupchief_agent.Store.{claim_all, save_runtime_state, Content, content_of}
use backupchief_agent.Store.Transactions.{SameContent, same_content, update_state-cases}
use backupchief_agent.Store.Atomic.{save_command_journal_atomic}
use backupchief_agent.Daemon.{Daemon, save_journal, save_state}

-- A save of the journal changes the store alone; without an error the store holds the journal, and
-- with one the content of the store is what it was.
pub record JournalSaved (d : Daemon) : Type 0 where
  pub only_store : (save_journal d).1 ≡ record d { store = (save_journal d).1.store }
  pub saved :
      (save_journal d).0 ≡ none
      → ((save_journal d).1.store.journal ≡ d.journal)
        × ((save_journal d).1.store.runtime ≡ d.store.runtime)
        × (claim_all d.journal d.store.occurrences ≡ some (save_journal d).1.store.occurrences)
  pub kept : (save_journal d).0 ≢ none → SameContent d.store (save_journal d).1.store

pub save_journal_lem : (d : Daemon) → JournalSaved d
unfolding save_journal
save_journal_lem d = elim (save_command_journal_atomic d.journal d.store) [
  | inl (ok, written, claimed, runtime) ↦ record {
    only_store = refl;
    saved = λ e. (written, runtime, claimed);
    kept = λ e. absurd (e ok);
  }
  | inr (bad, same, full) ↦ record {
    only_store = refl;
    saved = λ e. absurd (bad e);
    kept = λ e. same;
  }
]

-- A save of the runtime state changes the store alone, and of its content the runtime state alone,
-- which it either writes or, with an error, leaves as it was.
pub record StateSaved (d : Daemon) : Type 0 where
  pub only_store : (save_state d).1 ≡ record d { store = (save_state d).1.store }
  pub same_journal : (save_state d).1.store.journal ≡ d.store.journal
  pub same_occurrences : (save_state d).1.store.occurrences ≡ d.store.occurrences
  pub saved : (save_state d).0 ≡ none → (save_state d).1.store.runtime ≡ d.state
  pub kept : (save_state d).0 ≢ none → (save_state d).1.store.runtime ≡ d.store.runtime

pub save_state_lem : (d : Daemon) → StateSaved d
unfolding save_state save_runtime_state
save_state_lem d =
    let new : Content = record (content_of d.store) { runtime = d.state } in
    elim (update_state-cases d.store new) [
      | inl (ok, written) ↦ record {
        only_store = refl;
        same_journal = ap (λ (k : Content). k.journal) written;
        same_occurrences = ap (λ (k : Content). k.occurrences) written;
        saved = λ e. ap (λ (k : Content). k.runtime) written;
        kept = λ e. absurd (e ok);
      }
      | inr (failed, same, full) ↦
          let parts = same_content d.store _ same in
          record {
            only_store = refl;
            same_journal = parts.0;
            same_occurrences = parts.1;
            saved = λ e. absurd (failed e);
            kept = λ e. parts.2;
          }
    ]
