-- ===== src/Scheduler.antt =====
-- agent/scheduler.go: what is due by the schedules, and the deferred maintenance. The cron parser is
-- an argument, and so is `configuredJob`, which asks the control plane; the parts of one round are
-- taken to follow each other without an operation of another goroutine between them. A priority is
-- greater by 3 than in the code, and 7 for its 100.
pub mod Backups
pub mod Best
pub mod Deferred
pub mod Entries
pub mod Once
pub mod Rounds
pub mod Whole
mod Examples
use backupchief_agent.Base.{
  ℕ, zero, suc, ◌+◌, ◌-◌, ◌*◌, ◌%◌, ◌^◌, String, Bool, true, false, not, ◌&&◌, ◌||◌, List, [], ◌∷◌,
  ◌++◌, Option, none, some, str_eq, ltb, leb, ◌==◌, if◌then◌else◌, is_some, Dict, lookup, insert,
  delete, length, Text, is_blank, same_text, has_char, all, join,
}
use backupchief_agent.Protocol.{
  RunKind, backup, forget, prune, check_metadata, check_data, snapshot_inventory, unset, is_backup,
  RunState, received, running, finished, Status, skipped, scheduled, JournalCommand, CommandResult,
  AgentCommand, scheduled_run, Job, run_finished, terminal, AgentUpdateRuntime,
}
use backupchief_agent.Store.{
  Err, refused, is_spool_capacity, is_scheduled, OccurrenceKey, kind_eq, occurrence_exists,
  record_skipped_occurrence, can_accept_work,
}
use backupchief_agent.Maintenance.{text_gt}
use backupchief_agent.Daemon.{
  Daemon, Outcome, fresh_id, save_journal, save_state, with_event, is_set, mark_spool_gap,
  active_backups, active_maintenance,
}
use backupchief_agent.Start.{critical_run_record_estimate, is_received, start_operation}
use backupchief_agent.Cancel.{finish_without_execution}

abbrev pub a_minute : ℕ
a_minute = 60000000

-- `cron.Parser.Parse` gives the function `Next` of a schedule; `is_space` is `unicode.IsSpace`.
pub record Cron : Type 0 where
  pub parse : Text → Option (ℕ → ℕ)
  pub is_space : ℕ → Bool

-- `strings.Fields`, with the characters of the field that is read so far.
unfoldable pub fields_from : (ℕ → Bool) → Text → Text → List Text
fields_from space field [] = if is_blank field then [] else field ∷ []
fields_from space field (c ∷ cs) =
    let ended = fields_from space [] cs in
    let more = fields_from space (field ++ (c ∷ [])) cs in
    if space c then (if is_blank field then ended else field ∷ ended) else more

-- The digits and `*,-/`.
abbrev is_cron_char : ℕ → Bool
is_cron_char c = (leb 48 c && leb c 57) || has_char c (42 ∷ 44 ∷ 45 ∷ 47 ∷ [])

-- The loop over so many occurrences from one on: each is five minutes at least behind the one before.
unfoldable pub are_spaced : ℕ → (ℕ → ℕ) → ℕ → Bool
are_spaced zero next previous = true
are_spaced (suc n) next previous =
    let rest = are_spaced n next (next previous) in
    if ltb (next previous) (previous + 5 * a_minute) then false else rest

-- The first of January 2026.
abbrev baseline : ℕ
baseline = 1767225600000000

-- `parseFixedUTCSchedule`.
unfoldable pub parse_fixed_utc_schedule : Cron → Text → Option (ℕ → ℕ)
parse_fixed_utc_schedule k expression =
    let fields = fields_from k.is_space [] expression in
    if length fields == 5 && same_text (join 32 fields) expression && all (all is_cron_char) fields
    then elim (k.parse expression) [
      | none ↦ none
      | some next ↦ if are_spaced 512 next (next baseline) then some next else none
    ]
    else none

abbrev pub truncate : ℕ → ℕ
truncate at = at - at % a_minute

-- `firstDueSchedule`: `none` is an error, and the first member the time.
unfoldable pub first_due_schedule : Cron → Text → ℕ → ℕ → Option (ℕ × Bool)
first_due_schedule k expression after through = elim (parse_fixed_utc_schedule k expression) [
  | none ↦ none
  | some next ↦ let at = next (truncate after) in some (at, leb at (truncate through))
]

-- `expression` is blank for a backup without a schedule.
pub record ScheduledOperation : Type 0 where
  pub operation_job : Job
  pub operation_kind : RunKind
  pub expression : Text
  pub priority : ℕ
  pub deferred : Bool

-- The configuration, with the texts of the cron expressions.
pub record Configuration : Type 0 where
  pub revision : ℕ
  pub jobs : List Job
  pub text_of : String → Text

abbrev operation_of : Configuration → Job → RunKind → Option String → ℕ → Bool → ScheduledOperation
operation_of g job kind cron priority deferred = record {
  operation_job = job;
  operation_kind = kind;
  expression = elim cron [ none ↦ [] | some text ↦ g.text_of text ];
  priority = priority;
  deferred = deferred;
}

-- A maintenance operation, if it has an expression.
abbrev with_expression :
    Configuration → Job → RunKind → Option String → ℕ → Bool → List ScheduledOperation
with_expression g job kind none priority deferred = []
with_expression g job kind (some text) priority deferred =
    operation_of g job kind (some text) priority deferred ∷ []

unfoldable pub operations_of : Configuration → Job → List ScheduledOperation
operations_of g job =
    if not job.enabled
    then []
    else (operation_of g job backup job.schedule 3 false
        ∷ (if job.after_scheduled_backup
            then with_expression g job forget job.forget_cron 0 true
              ++ with_expression g job check_metadata job.metadata_cron 1 true
              ++ with_expression g job check_data job.data_cron 2 true
            else with_expression g job forget job.forget_cron 4 false
              ++ with_expression g job prune job.prune_cron 5 false
              ++ with_expression g job check_metadata job.metadata_cron 6 false
              ++ with_expression g job check_data job.data_cron 7 false))

unfoldable pub all_operations : Configuration → List Job → List ScheduledOperation
all_operations g [] = []
all_operations g (job ∷ jobs) = operations_of g job ++ all_operations g jobs

-- `sort.Slice` by priority and job.
abbrev comes_first : ScheduledOperation → ScheduledOperation → Bool
comes_first a b =
    if a.priority == b.priority
    then text_gt b.operation_job.job_id a.operation_job.job_id
    else ltb a.priority b.priority

unfoldable pub insert_operation :
    ScheduledOperation → List ScheduledOperation → List ScheduledOperation
insert_operation x [] = x ∷ []
insert_operation x (y ∷ ys) =
    let rest = insert_operation x ys in if comes_first y x then y ∷ rest else x ∷ y ∷ ys

unfoldable pub sort_operations : List ScheduledOperation → List ScheduledOperation
sort_operations [] = []
sort_operations (x ∷ xs) = insert_operation x (sort_operations xs)

-- `hasQueuedScheduledOperation`.
unfoldable pub has_queued_scheduled_operation : String → RunKind → Bool → Dict JournalCommand → Bool
has_queued_scheduled_operation job kind catch_up_only [] = false
has_queued_scheduled_operation job kind catch_up_only ((id, c) ∷ j) =
    is_received c.state
      && is_scheduled c.trigger
      && str_eq c.command.payload.job_id job
      && kind_eq c.run_kind kind
      && (not catch_up_only || c.catch_up_backup)
    || has_queued_scheduled_operation job kind catch_up_only j

abbrev is_running : RunState → Bool
is_running running = true
is_running _ = false

-- `hasActiveMaintenance`.
unfoldable pub has_active_maintenance : String → Dict JournalCommand → Bool
has_active_maintenance job [] = false
has_active_maintenance job ((id, c) ∷ j) =
    is_running c.state && not (is_backup c.run_kind) && str_eq c.command.payload.job_id job
    || has_active_maintenance job j
