-- ===== src/Receive/Examples.antt =====
-- A command that is delivered, delivered again, refused by a full disk, and discarded.
use backupchief_agent.Base.{
  ◌≡◌, ◌≢◌, ◌↔◌, refl, [], ◌∷◌, none, some, true, false, lookup, insert, delete, String,
}
use backupchief_agent.Protocol.{AgentCommand, JournalCommand, received, run_backup}
use backupchief_agent.Store.{
  disk_full, save_command_journal, update_state, claim_all, claim, claim_at, occurrence_of,
}
use backupchief_agent.Ulid.{
  is_ulid, matches_class, new_ulid, encode, set_bytes, ulid_bytes, char_at,
}
use backupchief_agent.Daemon.{Daemon, save_journal, fresh_id}
use backupchief_agent.Receive.{
  receive_command, receive_new, enter_as, assign_run, enter, discard_entry, discard_expired,
  holds_update,
}
use backupchief_agent.Receive.Fresh.{Received}
use backupchief_agent.Receive.Delivery.{
  receive_command_durable, receive_command_error, receive_command_again,
}
use backupchief_agent.Receive.Discard.{IsStale, discard_expired_done}
use backupchief_agent.Fixtures.{command_id, command_of, entry_of, daemon_of}

abbrev command : AgentCommand
command = command_of run_backup (some 1500000)

accepted : (receive_command command (daemon_of [] [])).0 ≡ none
unfolding receive_command receive_new enter_as assign_run fresh_id enter lookup insert delete
    save_journal save_command_journal update_state claim_all claim claim_at occurrence_of is_ulid
    matches_class new_ulid encode set_bytes ulid_bytes char_at
accepted = refl

receive_command_durable_example :
    Received command (daemon_of [] []) (receive_command command (daemon_of [] [])).1
    × ((receive_command command (daemon_of [] [])).1.store.journal
        ≡ (receive_command command (daemon_of [] [])).1.journal)
unfolding lookup
receive_command_durable_example = receive_command_durable command (daemon_of [] []) refl accepted

abbrev full : Daemon
full = daemon_of (disk_full ∷ []) []

refused_by_disk : (receive_command command full).0 ≢ none
unfolding receive_command receive_new enter_as assign_run fresh_id enter lookup insert delete
    save_journal save_command_journal update_state claim_all claim claim_at occurrence_of is_ulid
    matches_class new_ulid encode set_bytes ulid_bytes char_at
refused_by_disk e = cc

receive_command_error_example :
    ((receive_command command full).1.state ≡ full.state)
    × ((j : String) → lookup j (receive_command command full).1.journal ≡ lookup j full.journal)
unfolding lookup
receive_command_error_example = receive_command_error command full refl refused_by_disk

abbrev holding : Daemon
holding = daemon_of [] ((command_id, entry_of command received) ∷ [])

-- The same identifier, for another job.
abbrev other_command : AgentCommand
other_command = record command { payload = record command.payload { job_id = "other" } }

receive_command_again_example :
    let d = (receive_command command (daemon_of [] [])).1 in
    ((receive_command other_command d).1 ≡ d)
    × (((receive_command other_command d).0 ≡ none) ↔ (other_command ≡ command))
unfolding lookup
receive_command_again_example =
    receive_command_again command other_command (daemon_of [] []) refl accepted refl

discarded : (discard_expired command_id holding).0.0 ≡ true
unfolding discard_expired discard_entry lookup delete save_journal save_command_journal update_state
    claim_all
discarded = refl

discard_expired_done_example :
    ((c : JournalCommand) × (lookup command_id holding.journal ≡ some c) × IsStale c holding.clock)
    × (lookup command_id (discard_expired command_id holding).1.journal ≡ none)
    × ((discard_expired command_id holding).1.store.journal
        ≡ (discard_expired command_id holding).1.journal)
    × (holds_update command_id (discard_expired command_id holding).1.state ≡ false)
discard_expired_done_example = discard_expired_done command_id holding discarded
