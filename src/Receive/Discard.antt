-- ===== src/Receive/Discard.antt =====
-- Which commands are discarded before they are acknowledged, and what is left of them.
use backupchief_agent.Base.{
  ◌≡◌, inl, inr, String, true, false, none, some, arith, lookup, delete, lookup-delete_self,
  Option-cases, ℕ,
}
use backupchief_agent.Protocol.{JournalCommand, manual}
use backupchief_agent.Daemon.{Daemon, save_journal}
use backupchief_agent.Daemon.Saves.{save_journal_lem, save_state_lem}
use backupchief_agent.Receive.{is_expired, holds_update, discard_entry, discard_expired}

module _ (id : String) (c : JournalCommand) (d : Daemon) where
  -- The daemon without the entry, and with the update slot freed after the save.
  removed : Daemon
  removed = record d { journal = delete id d.journal }

  freed : Daemon
  freed =
      let d₁ = (save_journal removed).1 in
      record d₁ { state = record d₁.state { agent_update = none } }

  discard_entry_done :
      (discard_entry id c d).0.0 ≡ true
      → (lookup id (discard_entry id c d).1.journal ≡ none)
        × ((discard_entry id c d).1.store.journal ≡ (discard_entry id c d).1.journal)
        × (holds_update id (discard_entry id c d).1.state ≡ false)
  unfolding discard_entry removed freed
  discard_entry_done done =
      let saved = save_journal_lem removed in
      let updated = save_state_lem freed in
      let gone = lookup-delete_self id d.journal in
      (
        ground (arith, saved.only_store, updated.only_store, gone),
        ground (arith, saved.only_store, saved.saved, updated.only_store, updated.same_journal),
        ground (arith, saved.only_store, updated.only_store),
      )

-- What makes an entry one to discard.
pub record IsStale (c : JournalCommand) (now : ℕ) : Type 0 where
  pub unacknowledged : c.acknowledged ≡ false
  pub by_hand : c.trigger ≡ manual
  pub late : is_expired c.command.expires_at now ≡ true

discard_expired-IsStale :
    (id : String) (d : Daemon) (c : JournalCommand)
    → lookup id d.journal ≡ some c
    → (discard_expired id d).0.0 ≡ true
    → IsStale c d.clock
unfolding discard_expired
discard_expired-IsStale id d c there done = ground arith

discard_expired-entry :
    (id : String) (d : Daemon) (c : JournalCommand)
    → lookup id d.journal ≡ some c
    → IsStale c d.clock
    → discard_expired id d ≡ discard_entry id c d
unfolding discard_expired
discard_expired-entry id d c there stale =
    let late = stale.late in
    let hand = stale.by_hand in
    let open_ = stale.unacknowledged in rw (there, discard_expired) (ground arith)

-- A command is reported as discarded only if its entry is manual, not acknowledged and past its
-- expiry; then the daemon's journal has no entry of it, the journal on disk is the daemon's, and the
-- runtime state no longer holds the update slot for it.
pub discard_expired_done :
    (id : String) (d : Daemon)
    → (discard_expired id d).0.0 ≡ true
    → ((c : JournalCommand) × (lookup id d.journal ≡ some c) × IsStale c d.clock)
      × (lookup id (discard_expired id d).1.journal ≡ none)
      × ((discard_expired id d).1.store.journal ≡ (discard_expired id d).1.journal)
      × (holds_update id (discard_expired id d).1.state ≡ false)
discard_expired_done id d done = elim (Option-cases (lookup id d.journal)) [
  | inl absent ↦ absurd (unfold discard_expired in ground arith)
  | inr (c, there) ↦
      let stale = discard_expired-IsStale id d c there done in
      let e = discard_expired-entry id d c there stale in
      let (gone, disk, slot) = discard_entry_done id c d (rw e at done) in
      ((c, there, stale), rw e gone, rw e disk, rw e slot)
]
