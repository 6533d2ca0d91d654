-- ===== src/AgentUpdate/Examples.antt =====
-- An update that is restored, and its result.
use backupchief_agent.Base.{
  ◌≡◌, ◌≢◌, ◌⊎◌, refl, true, false, List, [], ◌∷◌, none, some, lookup, insert,
}
use backupchief_agent.Protocol.{
  JournalCommand, AgentUpdateRuntime, AgentUpdateResult, received, running, update_agent,
}
use backupchief_agent.Store.{
  Outcome, disk_full, update_state, save_runtime_state, save_command_journal, claim_all, claim,
  claim_at, occurrence_of,
}
use backupchief_agent.Retired.{insert_text}
use backupchief_agent.Ulid.{is_ulid, matches_class}
use backupchief_agent.Daemon.{Daemon, save_journal, save_state}
use backupchief_agent.AgentUpdate.{
  Files, Updating, start_agent_update, is_busy, restore_agent_update_state,
  consume_agent_update_result, unfinished_updates, chosen_update, restore_from, same_runtime,
  with_restored, take_result, enter_result, with_result, remove_result,
}
use backupchief_agent.Start.{is_received}
use backupchief_agent.AgentUpdate.Handover.{HandedOver, Withdrawn, start_agent_update-cases}
use backupchief_agent.AgentUpdate.Restart.{IsRestored, restore_agent_update_state-IsRestored}
use backupchief_agent.AgentUpdate.Results.{
  Entered, consume_agent_update_result-Entered, consume_agent_update_result_lost,
}
use backupchief_agent.Fixtures.{command_id, run_id, command_of, entry_of, daemon_of}

abbrev update : JournalCommand
update = entry_of (command_of update_agent none) running

-- A restart that finds the entry of an update and no runtime state.
abbrev restarted : Daemon
restarted = daemon_of [] ((command_id, update) ∷ [])

restored_without_error : (restore_agent_update_state restarted).0 ≡ none
unfolding lookup restore_agent_update_state unfinished_updates insert_text chosen_update
    restore_from same_runtime save_state save_runtime_state update_state with_restored
restored_without_error = refl

restore_agent_update_state-IsRestored_example :
    IsRestored restarted (restore_agent_update_state restarted).1
unfolding lookup
restore_agent_update_state-IsRestored_example =
    restore_agent_update_state-IsRestored restarted (refl, tt) refl restored_without_error

abbrev runtime : AgentUpdateRuntime
runtime = record {
  command_id = command_id;
  run_id = run_id;
  target_version = "1.2.3";
  started_at = 1000;
  last_schedule_minute = 0;
}

abbrev result : AgentUpdateResult
result = record {
  generation = 1;
  run_id = run_id;
  update_status = "succeeded";
  update_code = "updated";
  target_version = "1.2.3";
}

abbrev working : Files
working = record {
  result_unread = none;
  result_not_removed = none;
  request_unwritten = none;
  helper_not_launched = none;
}

abbrev updating : List Outcome → Updating
updating outcomes =
    let d = daemon_of outcomes ((command_id, update) ∷ []) in
    record {
      daemon = record d { state = record d.state { agent_update = some runtime } };
      request_file = none;
      result_file = some result;
    }

consumed_without_error : (consume_agent_update_result working (updating [])).0 ≡ none
unfolding lookup consume_agent_update_result take_result enter_result save_journal
    save_command_journal update_state claim_all with_result insert is_ulid matches_class claim
    claim_at occurrence_of save_state save_runtime_state remove_result
consumed_without_error = refl

consume_agent_update_result-Entered_example :
    Entered result command_id update
      (updating [])
      (consume_agent_update_result working (updating []))
unfolding lookup
consume_agent_update_result-Entered_example =
    consume_agent_update_result-Entered working result runtime update (updating []) refl refl refl
      refl refl refl consumed_without_error

abbrev full : Updating
full = updating (disk_full ∷ [])

not_saved : (save_journal (with_result result command_id update full.daemon)).0 ≢ none
unfolding save_journal save_command_journal update_state claim_all with_result insert is_ulid
    matches_class claim claim_at occurrence_of
not_saved = λ h. cc h

consume_agent_update_result_lost_example :
    let (e, u) = consume_agent_update_result working full in
    let (e', u') = consume_agent_update_result working u in
    (e ≢ none)
    × (e' ≡ none)
    × (u'.result_file ≡ none)
    × (u'.daemon.store.journal ≡ full.daemon.store.journal)
unfolding lookup
consume_agent_update_result_lost_example =
    consume_agent_update_result_lost working result runtime update full refl refl refl refl refl
      refl not_saved working refl refl

abbrev arrived : JournalCommand
arrived = entry_of (command_of update_agent none) received

abbrev ready : Updating
ready =
    let d = daemon_of [] ((command_id, arrived) ∷ []) in
    record {
      daemon = record d { state = record d.state { agent_update = some runtime } };
      request_file = none;
      result_file = none;
    }

start_agent_update-cases_example :
    let result = start_agent_update working "1.2.2" command_id ready in
    ((is_received arrived.state ≡ true)
      × (is_busy ready.daemon ≡ false)
      × (HandedOver command_id arrived ready result.1 ⊎ Withdrawn command_id arrived ready result))
    ⊎ (((is_received arrived.state ≡ false) ⊎ (is_busy ready.daemon ≡ true))
        × (result ≡ (none, ready)))
unfolding lookup
start_agent_update-cases_example =
    start_agent_update-cases working "1.2.2" command_id arrived runtime ready refl refl
