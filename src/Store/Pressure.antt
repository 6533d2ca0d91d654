-- ===== src/Store/Pressure.antt =====
-- What a full disk does to the writes of the store and to the work that is accepted.
use backupchief_agent.Base.{◌≡◌, refl, ap, ◌∙◌, ℕ, true, false, List, [], ◌∷◌, Option, some, Dict}
use backupchief_agent.Protocol.{JournalCommand, RuntimeState}
use backupchief_agent.Store.{
  Err, spool_capacity, no_space, Content, content_of, next_outcome, journal_action, skip_action,
  Store, OccurrenceKey, update_state, save_command_journal, save_runtime_state,
  record_skipped_occurrence, can_accept_work,
}
use backupchief_agent.Store.Transactions.{SameContent, update_state-rest}

-- The transactions that write.
pub data Transaction : Type 0 where
  saves_journal : Dict JournalCommand → Transaction
  saves_state : RuntimeState → Transaction
  skips : OccurrenceKey → Option RuntimeState → Transaction

unfoldable pub transact : Transaction → Store → Option Err × Store
transact (saves_journal j) s = save_command_journal j s
transact (saves_state r) s = save_runtime_state r s
transact (skips key state) s = record_skipped_occurrence key state s

unfoldable pub transact_all : List Transaction → Store → Store
transact_all [] s = s
transact_all (w ∷ ws) s = transact_all ws (transact w s).1

-- What the transaction is to write; none for a journal with an entry or occurrence that is refused.
abbrev pub intended : Transaction → Store → Option Content
intended (saves_journal j) s = journal_action j s
intended (saves_state r) s = some (record (content_of s) { runtime = r })
intended (skips key state) s = some (skip_action key state s)

transact_lem : (w : Transaction) (s : Store) → transact w s ≡ update_state s (intended w s)
unfolding transact save_command_journal save_runtime_state record_skipped_occurrence
transact_lem (saves_journal j) s = refl
transact_lem (saves_state r) s = refl
transact_lem (skips key state) s = refl

update_state_full :
    (s : Store) (action : Option Content)
    → ((next_outcome s.outcomes).update (content_of s) action).0 ≡ some no_space
    → let (e, s') = update_state s action in
      (e ≡ some spool_capacity) × SameContent s s' × (s'.reserve_released ≡ true)
unfolding update_state
update_state_full s action full =
    let b = next_outcome s.outcomes in
    let old = b.rolls_back (content_of s) action (λ h. cc (h, full)) in
    rw (full, update_state)
      (
        refl,
        (
          ap (λ (k : Content). k.journal) old,
          ap (λ (k : Content). k.occurrences) old,
          ap (λ (k : Content). k.runtime) old,
        ),
        refl,
      )

-- Nothing sets the reserve up again.
transact-released :
    (w : Transaction) (s : Store)
    → s.reserve_released ≡ true
    → (transact w s).1.reserve_released ≡ true
transact-released w s h = rw (transact_lem w s) ((update_state-rest s (intended w s)).1 h)

transact_all-released :
    (ws : List Transaction) (s : Store)
    → s.reserve_released ≡ true
    → (transact_all ws s).reserve_released ≡ true
unfolding transact_all
transact_all-released [] s h = h
transact_all-released (w ∷ ws) s h =
    transact_all-released ws (transact w s).1 (transact-released w s h)

-- A save of the journal, a save of the runtime state, or a skipped occurrence, whose transaction ends
-- for lack of space: the capacity error is given back, journal, occurrences and runtime state are
-- what they were, and from then on, whatever is written afterwards and whatever becomes of it, no
-- work of any size is accepted.
pub transact_full_disk :
    (w : Transaction) (s : Store) (later : List Transaction) (estimate : ℕ)
    → ((next_outcome s.outcomes).update (content_of s) (intended w s)).0 ≡ some no_space
    → let (e, s') = transact w s in
      (e ≡ some spool_capacity)
      × SameContent s s'
      × (can_accept_work estimate (transact_all later s') ≡ false)
unfolding can_accept_work
transact_full_disk w s later estimate full =
    let (capacity, same, released) = update_state_full s (intended w s) full in
    let goes = transact_lem w s in
    let stays =
      transact_all-released later (transact w s).1
        (ap (λ x. x.1.reserve_released) goes ∙ released) in
    (ap (λ x. x.0) goes ∙ capacity, (rw goes same), rw (can_accept_work, stays) refl)
