-- ===== src/Fixtures.antt =====
-- Small concrete values for the examples: a job, its command and entry, a store and a daemon.
use backupchief_agent.Base.{
  ℕ, String, true, false, List, [], ◌∷◌, Option, none, some, Dict, replicate,
}
use backupchief_agent.Protocol.{
  CommandKind, RunKind, backup, unset, manual, pos, CommandPayload, instant, other_text,
  AgentCommand, Job, JournalCommand, RuntimeState, RunState,
}
use backupchief_agent.Store.{Store, Outcome}
use backupchief_agent.Daemon.{Daemon}

abbrev pub command_id : String
command_id = "01arz3ndektsv4rrffq69g5fav"

abbrev pub run_id : String
run_id = "01bx5zzkbkactav9wevgemmvrz"

abbrev pub payload_of : String → RunKind → CommandPayload
payload_of job kind = record {
  job_id = job;
  run_id = run_id;
  required_config_revision = 7;
  maintenance = kind;
  snapshot_ids = [];
  recovery_point_run_ids = [];
  repository_key = "";
  initial_sync = false;
  maintenance_plan = none;
  retry_of_run_id = "";
  source_type = "";
  source = "";
  source_digest = "";
  target_version = "1.2.3";
}

abbrev pub command_of : CommandKind → Option ℕ → AgentCommand
command_of kind expires = record {
  id = command_id;
  generation = 1;
  kind = kind;
  issued_at = instant 1000;
  expires_at = elim expires [ none ↦ other_text "" | some at ↦ instant at ];
  payload = payload_of "job" unset;
}

abbrev pub job : Job
job = record {
  job_id = "job";
  enabled = true;
  repository_id = "repository";
  replicas = [];
  schedule = none;
  forget_cron = none;
  prune_cron = none;
  metadata_cron = none;
  data_cron = none;
  after_scheduled_backup = false;
  max_deferral_seconds = 3600;
  prune_interval_seconds = 0;
  latest_complete = none;
  has_unresolved_runs = false;
  data_parts = 4;
}

abbrev pub entry_of : AgentCommand → RunState → JournalCommand
entry_of c s = record {
  command = c;
  run_id = run_id;
  config_revision = 7;
  run_kind = backup;
  trigger = manual;
  scheduled_for = none;
  job_snapshot = none;
  received_at = 1000;
  acknowledged = false;
  state = s;
  sequence = 0;
  events = [];
  result = none;
  update_result = none;
  result_reported = false;
  log_id = "";
  log_bytes = 0;
  log_sha256 = "";
  log_truncated = false;
  log_dropped_bytes = 0;
  next_log_chunk = 0;
  log_completed = false;
  maintenance_plan = none;
  wait_for_backup = false;
  max_deferral_at = none;
  catch_up_backup = false;
  replication_pending = [];
}

abbrev pub quiet : RuntimeState
quiet = record {
  authentication_paused = false;
  spool_gap_detected = false;
  spool_gap_version = 0;
  clock_offset_seconds = pos 0;
  maintenance = [];
  agent_update = none;
}

abbrev pub store_of : List Outcome → Dict JournalCommand → Store
store_of os j = record {
  journal = j;
  occurrences = [];
  runtime = quiet;
  outcomes = os;
  openings = [];
  legacy_occurrences = [];
  reserve_released = false;
  spool_usage = 4096;
  spool_limit = 0;
}

-- Ten random bytes for every identifier that may be asked for.
abbrev pub random_bytes : List (Option (List ℕ))
random_bytes = some (replicate 10 7) ∷ some (replicate 10 9) ∷ []

abbrev pub daemon_of : List Outcome → Dict JournalCommand → Daemon
daemon_of os j = record {
  store = store_of os j;
  generation = 1;
  clock = 2000000;
  entropy = random_bytes;
  journal = j;
  state = quiet;
  metadata_revision = 7;
  active = [];
  active_run_kinds = [];
  repositories = [];
  replication_active = [];
  last_schedule_minute = 0;
  dispatch_wake = false;
  launched = [];
}
