-- ===== src/Scheduler/Examples.antt =====
-- A round in which one backup is due, while an update of the agent is pending; and a forget that has
-- waited too long.
use backupchief_agent.Base.{
  ◌≡◌, ◌⊎◌, refl, sym, subst, ap, ℕ, ◌==◌, ◌+◌, ◌-◌, ◌*◌, ◌%◌, true, false, [], ◌∷◌, none, some,
  Option, List, Memᴰ, All, lookup, insert, delete, is_some, same_text, has_char, all, join, chars,
}
use mathlib.Core.List.Memᴰ
use backupchief_agent.Protocol.{JournalCommand, backup, forget, received, scheduled, scheduled_run}
use backupchief_agent.Store.{
  is_known, occurrence_exists, has_legacy, run_of, key_eq, can_accept_work, save_command_journal,
  update_state, claim_all, claim, Err, claim_at, claim_key, occurrence_of,
}
use backupchief_agent.Ulid.{
  is_ulid, matches_class, new_ulid, encode, set_bytes, ulid_bytes, char_at,
}
use backupchief_agent.Daemon.{Daemon, fresh_id, save_journal}
use backupchief_agent.Scheduler.{
  Cron, Configuration, ScheduledOperation, a_minute, first_due_schedule, parse_fixed_utc_schedule,
  fields_from, are_spaced, has_queued_scheduled_operation, has_active_maintenance,
}
use backupchief_agent.Scheduler.Entries.{scheduled_entry}
use backupchief_agent.Scheduler.Rounds.{
  Round, key_of, handle_read, handle_occurrence, enter_occurrence, commit_scheduled,
  start_scheduled, schedule_operations,
}
use backupchief_agent.Scheduler.Whole.{
  schedule_operations_known, schedule_operations_again, IsReadable, with_openings,
}
use backupchief_agent.Scheduler.Backups.{
  Configured, found, goes_before, is_deferred, start_next_deferred_maintenance,
}
use backupchief_agent.Scheduler.Best.{Entry, IsBest}
use backupchief_agent.Scheduler.Deferred.{Starts, start_next_deferred_maintenance-IsBest}
use backupchief_agent.Fixtures.{command_id, job, command_of, entry_of, daemon_of, store_of}

-- Every schedule is one of every fifth minute.
abbrev every_fifth : Cron
every_fifth = record {
  parse = λ expression. some (λ now. now - now % (5 * a_minute) + 5 * a_minute);
  is_space = λ c. c == 32;
}

abbrev minute : ℕ
minute = 1767225900000000

abbrev configuration : Configuration
configuration = record { revision = 7; jobs = job ∷ []; text_of = chars }

abbrev operation : ScheduledOperation
operation = record {
  operation_job = job;
  operation_kind = backup;
  expression = chars "0,5 * * * *";
  priority = 3;
  deferred = false;
}

abbrev round : Round
round = record {
  daemon = record (daemon_of [] []) {
    clock = minute + 2000000;
    store = record (store_of [] []) { openings = none ∷ none ∷ none ∷ [] };
  };
  busy = [];
  backups = 0;
  maintenances = 0;
}

due :
    first_due_schedule every_fifth operation.expression (minute - a_minute) minute
    ≡ some (minute, true)
unfolding first_due_schedule parse_fixed_utc_schedule fields_from are_spaced same_text has_char all
    join
due = refl

abbrev after_round : Option Err × Round
after_round =
    schedule_operations every_fifth configuration true (minute - a_minute) minute (operation ∷ [])
      round

goes_well : after_round.0 ≡ none
unfolding schedule_operations first_due_schedule parse_fixed_utc_schedule fields_from are_spaced
    same_text has_char all join handle_occurrence occurrence_exists handle_read is_known has_legacy
    run_of key_eq has_queued_scheduled_operation can_accept_work enter_occurrence fresh_id new_ulid
    encode set_bytes ulid_bytes char_at has_active_maintenance lookup insert delete scheduled_entry
    commit_scheduled start_scheduled save_journal save_command_journal update_state claim_all claim
    claim_at claim_key occurrence_of is_ulid matches_class
goes_well = refl

schedule_operations_known_example :
    is_known (key_of operation minute) after_round.1.daemon.store ≡ true
schedule_operations_known_example =
    schedule_operations_known every_fifth configuration true (minute - a_minute) minute
      (operation ∷ []) round operation minute goes_well (Memᴰ.head refl) due

valid :
    (op : ScheduledOperation)
    → Memᴰ op (operation ∷ [])
    → is_some (first_due_schedule every_fifth op.expression (minute - a_minute) minute) ≡ true
valid op h =
    let same = Memᴰ.eq_of_singleton h in
    subst
      (λ (x : ScheduledOperation).
        is_some (first_due_schedule every_fifth x.expression (minute - a_minute) minute) ≡ true)
      (sym same) (ap is_some due)

readable : IsReadable after_round.1
unfolding schedule_operations first_due_schedule parse_fixed_utc_schedule fields_from are_spaced
    same_text has_char all join handle_occurrence handle_read occurrence_exists is_known has_legacy
    run_of key_eq has_queued_scheduled_operation can_accept_work enter_occurrence fresh_id new_ulid
    encode set_bytes ulid_bytes char_at has_active_maintenance lookup insert delete scheduled_entry
    commit_scheduled start_scheduled save_journal save_command_journal update_state claim_all claim
    claim_at claim_key occurrence_of is_ulid matches_class
readable = (refl, (refl, tt))

schedule_operations_again_example :
    (es : List (Option Err)) × (schedule_operations every_fifth configuration true
        (minute - a_minute)
        minute
        (operation ∷ [])
        after_round.1
      ≡ (none, with_openings es after_round.1))
schedule_operations_again_example =
    schedule_operations_again every_fifth configuration true (minute - a_minute) minute
      (operation ∷ []) after_round.1 readable valid
      (λ op at h is_due.
        schedule_operations_known every_fifth configuration true (minute - a_minute) minute
          (operation ∷ []) round op at goes_well h is_due)

abbrev late : JournalCommand
late = record (entry_of (command_of scheduled_run none) received) {
  run_kind = forget;
  trigger = scheduled;
  scheduled_for = some 1000;
  wait_for_backup = true;
  max_deferral_at = some 1500000;
}

abbrev waiting : Daemon
waiting = daemon_of [] ((command_id, late) ∷ [])

abbrev has_job : Configured
has_job job_id revision d = (found (some job), d)

start_next_deferred_maintenance-IsBest_example :
    ((start_next_deferred_maintenance has_job none true waiting ≡ (none, waiting))
      × All (λ (x : Entry). is_deferred none true 2000000 x.1 ≡ false) waiting.journal)
    ⊎ ((r : Entry) × IsBest (is_deferred none true 2000000) goes_before waiting.journal r
        × Starts has_job none true waiting r)
start_next_deferred_maintenance-IsBest_example =
    start_next_deferred_maintenance-IsBest has_job none true waiting refl
