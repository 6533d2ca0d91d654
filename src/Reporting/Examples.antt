-- ===== src/Reporting/Examples.antt =====
-- The report of an entry with two events, of which the control plane takes one and rejects the end
-- of the run.
use backupchief_agent.Base.{
  ◌≡◌, refl, sym, String, true, List, [], ◌∷◌, none, some, append-nil, Memᴰ, lookup, insert,
}
use backupchief_agent.Protocol.{
  AgentEvent, JournalCommand, finished, run_backup, run_started, run_finished, no_payload,
}
use backupchief_agent.Store.{
  save_command_journal, update_state, claim_all, claim, claim_at, occurrence_of,
}
use backupchief_agent.Ulid.{is_ulid, matches_class}
use backupchief_agent.Daemon.{event_envelope, save_journal}
use backupchief_agent.Reporting.{
  Around, Flusher, Verdict, rejected, accepted, results, flush_events, submit_events,
  matches_events, batch_answered, take_off_batch, retained_of, discarded_of, taken_of, any_rejected,
  save_entry,
}
use backupchief_agent.Reporting.Journal.{flush_command, flush_parts}
use backupchief_agent.Reporting.Accounts.{Accounted, Extends}
use backupchief_agent.Reporting.Whole.{flush_command-Accounted}
use backupchief_agent.Fixtures.{command_id, command_of, entry_of, daemon_of}

abbrev quiet_entry : JournalCommand
quiet_entry = record (entry_of (command_of run_backup none) finished) { acknowledged = true }

abbrev start : AgentEvent
start = event_envelope quiet_entry "first" 1 1000 run_started no_payload

abbrev end : AgentEvent
end = event_envelope quiet_entry "second" 2 2000 run_finished no_payload

abbrev entry : JournalCommand
entry = record quiet_entry { sequence = 2; events = start ∷ end ∷ [] }

abbrev verdicts : List (String × Verdict)
verdicts = ("first", accepted) ∷ ("second", rejected) ∷ []

-- No other goroutine does anything.
abbrev around : Around
around = record {
  plane = record {
    answer = λ n events. results verdicts;
    upload_log_chunk = λ n run log index offset bytes. none;
    complete_log = λ n run log completion. none;
    submit_result = λ n id result. none;
    submit_inspection_result = λ n id result. none;
    submit_agent_update_result = λ n id result. none;
  };
  disk = record {
    read_run_log = λ log. some [];
    sha256 = λ bytes. "";
    remove_run_log = λ log. none;
    compact_state_database = none;
  };
  meanwhile = λ n d. d;
}

abbrev flusher : Flusher
flusher = record {
  daemon = daemon_of [] ((command_id, entry) ∷ []);
  calls = 0;
  answered = [];
  given_up = [];
}

stays : Extends command_id around
stays n d c there = (c, [], there, sym (append-nil c.events))

flush_command-Accounted_example :
    Accounted end command_id (flush_command around command_id flusher).1
unfolding lookup
flush_command-Accounted_example =
    flush_command-Accounted around command_id stays end entry flusher refl
      (Memᴰ.tail (Memᴰ.head refl))

-- The one is taken, and the other kept.
taken : (flush_command around command_id flusher).1.answered ≡ start ∷ []
unfolding flush_command flush_parts flush_events submit_events matches_events batch_answered
    take_off_batch retained_of discarded_of taken_of any_rejected save_entry save_journal
    save_command_journal update_state claim_all claim claim_at occurrence_of is_ulid matches_class
    lookup insert event_envelope
taken = refl
