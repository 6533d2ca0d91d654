-- ===== src/Retired/Examples.antt =====
-- A former enrollment whose one entry has 31 events: the report sends 30 of them, gives no error
-- and drops the enrollment.
use backupchief_agent.Base.{
  ◌≡◌, refl, false, [], ◌∷◌, none, some, lookup, insert, length, drop, replicate,
}
use backupchief_agent.Protocol.{JournalCommand, finished, run_backup, run_progress, no_payload}
use backupchief_agent.Store.{
  refused, save_command_journal, update_state, claim_all, claim, claim_at, occurrence_of,
}
use backupchief_agent.Ulid.{is_ulid, matches_class}
use backupchief_agent.Daemon.{save_journal, event_envelope}
use backupchief_agent.Retired.{
  Outside, answers, Reporter, report_retired_journal, report_records, flush_retired_generation,
  flush_ids, flush_retired_command, report_entry, batch_answered, change_entry, save_retired,
  ids_of, insert_text, sort_records, insert_record, any_rejected,
}
use backupchief_agent.Retired.Reporting.{report_retired_journal_drops}
use backupchief_agent.Fixtures.{command_id, command_of, entry_of, daemon_of}

-- A control plane that accepts everything.
abbrev accepting : Outside
accepting = record {
  submit = λ g events. answers (replicate (length events) false);
  upload = λ run log index offset bytes. none;
  complete_log = λ run log completion. none;
  read_log = λ log digest. some [];
  unreadable = refused "log";
  remove_log = λ log. none;
  save_records = λ records. none;
}

abbrev quiet_entry : JournalCommand
quiet_entry = entry_of (command_of run_backup none) finished

abbrev entry : JournalCommand
entry = record quiet_entry {
  events = replicate 31 (event_envelope quiet_entry command_id 1 1000 run_progress no_payload);
}

abbrev reporter : Reporter
reporter = record {
  daemon = daemon_of [] ((command_id, entry) ∷ []);
  sent = [];
  records = record { generation = 1; expires_at = some 9000000 } ∷ [];
}

saves :
    (save_journal (record reporter.daemon {
      journal =
          insert command_id
            (record entry { events = drop 30 entry.events })
            reporter.daemon.journal;
    })).0
    ≡ none
unfolding save_journal save_command_journal update_state claim_all claim claim_at occurrence_of
    is_ulid matches_class insert
saves = refl

reports : (report_retired_journal accepting reporter).0 ≡ none
unfolding report_retired_journal report_records flush_retired_generation flush_ids
    flush_retired_command report_entry batch_answered change_entry save_retired ids_of insert_text
    sort_records insert_record any_rejected save_journal save_command_journal update_state claim_all
    claim claim_at occurrence_of is_ulid matches_class insert lookup
reports = refl

-- One event is left, and no enrollment to send it with.
abandons :
    (length (report_retired_journal accepting reporter).1.sent ≡ 30)
    × ((report_retired_journal accepting reporter).1.records ≡ [])
    × (length (report_retired_journal accepting reporter).1.daemon.journal ≡ 1)
unfolding report_retired_journal report_records flush_retired_generation flush_ids
    flush_retired_command report_entry batch_answered change_entry save_retired ids_of insert_text
    sort_records insert_record any_rejected save_journal save_command_journal update_state claim_all
    claim claim_at occurrence_of is_ulid matches_class insert lookup
abandons = (refl, refl, refl)

report_retired_journal_drops_example : (report_retired_journal accepting reporter).1.records ≡ []
report_retired_journal_drops_example = report_retired_journal_drops accepting reporter reports
