-- ===== src/Store/Occurrences.antt =====
-- An occurrence of a schedule belongs to one run, and never to another one later.
use backupchief_agent.Base.{
  String, ◌≡◌, refl, ◌↔◌, true, false, Dict, List, [], ◌∷◌, Option, none, some, arith, eq_iff, inl,
  inr, Option-cases, some, All,
}
use backupchief_agent.Protocol.{JournalCommand, RunKind, RunKind-discrete}
use backupchief_agent.Store.{
  Store, OccurrenceKey, Occurrences, key_eq, kind_eq, run_of, occurrence_of, claim, claim_at,
  claim_key, claim_all, save_command_journal,
}
use backupchief_agent.Store.Atomic.{save_command_journal_atomic}

kind_eq_iff : (a b : RunKind) → (kind_eq a b ≡ true) ↔ (a ≡ b)
kind_eq_iff a b =
    elim (RunKind-discrete a b)
      as (λ t. (elim t [ yes e ↦ true | no e ↦ false ] ≡ true) ↔ (a ≡ b)) [
        | yes e ↦ (λ h. e, λ h. refl)
        | no e ↦ (λ h. cc, λ h. absurd (e h))
      ]

key_eq_iff : (a b : OccurrenceKey) → (key_eq a b ≡ true) ↔ (a ≡ b)
unfolding key_eq
key_eq_iff a b = ground (
  arith,
  eq_iff a.occurrence_job b.occurrence_job,
  kind_eq_iff a.occurrence_kind b.occurrence_kind,
)

pub key_eq_refl : (k : OccurrenceKey) → key_eq k k ≡ true
key_eq_refl k = (key_eq_iff k k).1 refl

-- The claim of one key keeps every run that an occurrence has, and gives the key its run.
claim_key_lem :
    (k : OccurrenceKey) (run : String) (held held' : Occurrences) (o : Option String)
    → run_of k held ≡ o
    → claim_key k run held o ≡ some held'
    → ((j : OccurrenceKey) (r : String) → run_of j held ≡ some r → run_of j held' ≡ some r)
      × (run_of k held' ≡ some run)
unfolding claim_key run_of
claim_key_lem k run held held' none fresh h =
    (λ j r old. ground (arith, key_eq_iff k j), ground (arith, key_eq_iff k k))
claim_key_lem k run held held' (some r') taken h =
    (λ j r old. ground arith, ground (arith, eq_iff r' run))

-- What a run of the claims over some entries does to the occurrences.
pub record Claimed (entries : Dict JournalCommand) (held held' : Occurrences) : Type 0 where
  pub kept : (j : OccurrenceKey) (r : String) → run_of j held ≡ some r → run_of j held' ≡ some r
  pub owned :
      All
        (λ (e : String × JournalCommand).
          (k : OccurrenceKey) → occurrence_of e.1 ≡ some k → run_of k held' ≡ some e.1.run_id)
        entries

claim_at_lem :
    (o : Option OccurrenceKey) (run : String) (held held' : Occurrences)
    → claim_at o run held ≡ some held'
    → ((j : OccurrenceKey) (r : String) → run_of j held ≡ some r → run_of j held' ≡ some r)
      × ((k : OccurrenceKey) → o ≡ some k → run_of k held' ≡ some run)
unfolding claim_at
claim_at_lem none run held held' h = (λ j r old. ground arith, λ k e. cc)
claim_at_lem (some k) run held held' h =
    let (keeps, owns) = claim_key_lem k run held held' (run_of k held) refl h in
    (keeps, λ j e. ground arith)

All-implies {ℓ κ} :
    {A : Type ℓ} {P Q : A → Type κ} (xs : List A) → ((a : A) → P a → Q a) → All P xs → All Q xs
All-implies [] f h = tt
All-implies (x ∷ xs) f h = (f x h.0, All-implies xs f h.1)

claim_all_step :
    (id : String) (c : JournalCommand) (rest : Dict JournalCommand) (held held' : Occurrences)
    → claim_all ((id, c) ∷ rest) held ≡ some held'
    → (next : Occurrences) × (claim c held ≡ some next) × (claim_all rest next ≡ some held')
unfolding claim_all
claim_all_step id c rest held held' h = elim (Option-cases (claim c held)) [
  | inl e ↦ absurd (ground arith)
  | inr (next, e) ↦ (next, e, ground arith)
]

claim_all-Claimed :
    (entries : Dict JournalCommand) (held held' : Occurrences)
    → claim_all entries held ≡ some held'
    → Claimed entries held held'
unfolding claim_all claim
claim_all-Claimed [] held held' h = record { kept = λ j r old. ground arith; owned = tt }
claim_all-Claimed ((id, c) ∷ rest) held held' h =
    let (next, first, later) = claim_all_step id c rest held held' h in
    let (keeps, owns) = claim_at_lem (occurrence_of c) c.run_id held next first in
    let ih = claim_all-Claimed rest next held' later in
    record {
      kept = λ j r old. ih.kept j r (keeps j r old);
      owned = (λ k e. ih.kept k c.run_id (owns k e), ih.owned);
    }

-- When `SaveCommandJournal` returns no error, every occurrence that had a run keeps it, and the
-- occurrence of each scheduled entry of the journal has the run of that entry.
pub save_command_journal-Claimed :
    (j : Dict JournalCommand) (s : Store)
    → (save_command_journal j s).0 ≡ none
    → Claimed j s.occurrences (save_command_journal j s).1.occurrences
save_command_journal-Claimed j s h = elim (save_command_journal_atomic j s) [
  | inl (ok, written, claimed, kept) ↦ claim_all-Claimed j s.occurrences _ claimed
  | inr bad ↦ absurd (bad.0 h)
]
