-- ===== src/Finish/Examples.antt =====
-- The end of a complete backup, whose log cannot be written.
use backupchief_agent.Base.{◌≡◌, refl, true, false, [], ◌∷◌, none, some, arith, lookup}
use backupchief_agent.Protocol.{
  JournalCommand, CommandResult, RunState, run_backup, backup, complete,
}
use backupchief_agent.Store.{refused}
use backupchief_agent.Daemon.{Daemon}
use backupchief_agent.Events.Sequences.{IsSequenced}
use backupchief_agent.Finish.{Ending, finish_operation, known_result}
use backupchief_agent.Finish.Entries.{Ended}
use backupchief_agent.Finish.Release.{Released, finish_operation-Released, finish_operation-Ended}
use backupchief_agent.Fixtures.{command_id, run_id, job, command_of, entry_of, daemon_of}

abbrev ending : Ending
ending = record {
  ending_log = 104 ∷ 105 ∷ [];
  was_truncated = false;
  bytes_dropped = 0;
  knows_evidence = true;
  write_run_log = λ id log. some (refused "log");
  sha256 = λ log. "";
}

abbrev outcome : CommandResult
outcome = record {
  generation = 1;
  run_id = run_id;
  job_id = "job";
  repository_key = "";
  run_kind = backup;
  status = complete;
  result_code = "complete";
  started_at = 1000;
  finished_at = 1900000;
  snapshot_ids = "4f3c" ∷ [];
  summary = "";
  snapshot_evidence = none;
  snapshot_evidence_ids = [];
  prune_completed = false;
  repository_results = [];
}

abbrev entry : JournalCommand
entry = entry_of (command_of run_backup none) RunState.running

abbrev daemon : Daemon
daemon = record (daemon_of [] ((command_id, entry) ∷ [])) {
  active = (run_id, false) ∷ [];
  active_run_kinds = (run_id, backup) ∷ [];
  repositories = ("repository", true) ∷ ("other", true) ∷ [];
}

finish_operation-Released_example :
    Released run_id job daemon (finish_operation ending command_id run_id job outcome daemon).1
finish_operation-Released_example =
    finish_operation-Released ending command_id run_id job outcome daemon

finish_operation-Ended_example :
    (c : JournalCommand) × (lookup command_id
        (finish_operation ending command_id run_id job outcome daemon).1.journal
      ≡ some c)
    × Ended (known_result ending outcome) c
    × IsSequenced c
unfolding lookup
finish_operation-Ended_example =
    finish_operation-Ended ending command_id run_id job outcome daemon entry refl (omega arith)
      (omega arith)
