-- ===== src/Updater/Examples.antt =====
-- The helper on one request: tests, and instances of the theorems.
use Prim.Native.Nat.{Ordering}
use backupchief_agent.Base.{
  ◌≡◌, refl, ◌≢◌, true, false, List, [], ◌∷◌, none, some, Text, chars, split, onto_first, all,
  same_text, All, ◌++◌,
}
use backupchief_agent.Updater.{
  Request, Machine, DurableState, installing, state_mismatch, call_failed, complete, failed,
  success, readiness_failed_rolled_back, preflight_failed, works, fails, dies, Arrival, tick,
  deadline, written, timed_out, is_version, is_valid_request, same_request, continue, answer,
}
use backupchief_agent.Ulid.{is_ulid, matches_class}
use backupchief_agent.Updater.Versions.{compare_versions, compare_parts, atoi}
use backupchief_agent.Updater.Run.{
  write_terminal, run, read_request, run_request, with_state, start_update, install_target,
  await_target, wait_for_readiness, wait_ticks, arrive, is_ready, rollback, resume,
}
use backupchief_agent.Updater.Steps.{Remembers, Reported}
use backupchief_agent.Updater.Attempts.{
  Outside, disturb, attempts, attempts-Remembers, run-attempts,
}
use backupchief_agent.Updater.Stale.{run_after_left_state, run_unread_version}
use backupchief_agent.Updater.Success.{
  ready_for, IsPoll, ended, IsStarting, run-success, run-rolled_back,
}

abbrev old_version : Text
old_version = chars "2.4.0"

abbrev new_version : Text
new_version = chars "2.5.0"

abbrev request : Request
request = record {
  command_id = "01k4p4f7m1r9d3t6v8w2x5y7za";
  run_id = "01k4p4f7m1r9d3t6v8w2x5y7zb";
  generation = 3;
  previous_version = old_version;
  target_version = new_version;
  started_at = "2026-09-17T10:00:00.000000Z";
}

abbrev machine : Machine
machine = record {
  installed = old_version;
  request_file = some request;
  state_file = none;
  readiness_file = none;
  result_file = none;
  locked = false;
  calls = [];
  arrivals = [];
  clock = 7;
}

is_newer : compare_versions new_version old_version ≡ some Ordering.gt
unfolding compare_versions split atoi all
is_newer = refl

-- A version of two parts panics.
no_third_part : compare_versions (chars "2.4") old_version ≡ none
unfolding compare_versions split atoi all
no_third_part = refl

starting : (later : List Arrival) → IsStarting request (record machine { arrivals = later })
unfolding is_valid_request is_ulid matches_class is_version split all same_text
starting later = record {
  has_request = refl;
  no_state = refl;
  is_free = refl;
  all_work = refl;
  is_valid = refl;
  is_other = refl;
  is_newer = is_newer;
}

-- The old agent writes once more before the new one does.
abbrev old_agent : List Arrival
old_agent = tick ∷ written (ready_for request old_version) ∷ tick ∷ []

abbrev ready : List Arrival
ready = old_agent ++ (written (ready_for request new_version) ∷ [])

old_agent-IsPoll : All (IsPoll request new_version) old_agent
unfolding is_ready same_text
old_agent-IsPoll = (tt, (refl, (tt, tt)))

abbrev rolled_back : List Arrival
rolled_back = old_agent ++ (deadline ∷ tick ∷ written (ready_for request old_version) ∷ [])

run-success_example : run (record machine { arrivals = ready }) ≡ (
  some none,
  ended request complete success new_version none [] (record machine { arrivals = ready }),
)
run-success_example =
    run-success request (record machine { arrivals = ready }) old_agent [] (starting ready)
      old_agent-IsPoll refl

run-rolled_back_example : run (record machine { arrivals = rolled_back }) ≡ (
  some none,
  ended request failed readiness_failed_rolled_back old_version
      (some timed_out)
      []
      (record machine { arrivals = rolled_back }),
)
run-rolled_back_example =
    run-rolled_back request (record machine { arrivals = rolled_back }) old_agent (tick ∷ []) []
      (starting rolled_back) old_agent-IsPoll (tt, tt) refl

-- An attempt that dies in the installation, and one that then rolls back.
abbrev outside : Outside
outside = record {
  readiness = none;
  result = none;
  locked = false;
  calls = [];
  arrivals = rolled_back;
  clock = 9;
}

abbrev dying : Outside
dying = record outside {
  calls =
      works
      ∷ works
      ∷ works
      ∷ works
      ∷ works
      ∷ works
      ∷ works
      ∷ works
      ∷ works
      ∷ works
      ∷ works
      ∷ dies (some (chars "2.4.9"))
      ∷ [];
}

abbrev quiet : Outside
quiet = record outside { arrivals = written (ready_for request old_version) ∷ [] }

attempts-Remembers_example : Remembers request old_version (attempts (dying ∷ []) machine)
attempts-Remembers_example =
    attempts-Remembers request old_version (dying ∷ []) machine (refl, refl, refl)

died_there : (attempts (dying ∷ []) machine).installed ≡ chars "2.4.9"
unfolding attempts run continue answer read_request is_valid_request is_ulid matches_class
    is_version split onto_first all run_request with_state start_update same_text compare_versions
    compare_parts atoi install_target await_target resume rollback wait_for_readiness wait_ticks
    arrive is_ready write_terminal same_request
died_there = refl

still_there : (attempts (dying ∷ []) machine).request_file ≢ none
unfolding attempts run continue answer read_request is_valid_request is_ulid matches_class
    is_version split onto_first all run_request with_state start_update same_text compare_versions
    compare_parts atoi install_target await_target resume rollback wait_for_readiness wait_ticks
    arrive is_ready write_terminal same_request
still_there = λ e. cc

resumed : (run (disturb quiet (attempts (dying ∷ []) machine))).0 ≡ some none
unfolding attempts run continue answer read_request is_valid_request is_ulid matches_class
    is_version split onto_first all run_request with_state start_update same_text compare_versions
    compare_parts atoi install_target await_target resume rollback wait_for_readiness wait_ticks
    arrive is_ready write_terminal same_request
resumed = refl

run-attempts_example :
    Reported request old_version (run (disturb quiet (attempts (dying ∷ []) machine))).1
run-attempts_example =
    run-attempts request old_version (dying ∷ []) quiet machine (refl, refl, refl) refl still_there
      resumed

abbrev left_state : DurableState
left_state = record {
  request = request;
  previous_package_version = old_version;
  phase = installing;
  diagnostic = none;
}

abbrev next_request : Request
next_request = record request { command_id = "01k4p4f7m1r9d3t6v8w2x5y7zc"; generation = 4 }

abbrev leaving : Machine
leaving = record machine {
  state_file = some left_state;
  calls = works ∷ works ∷ works ∷ fails none ∷ [];
}

valid_next : is_valid_request next_request ≡ true
unfolding is_valid_request is_ulid matches_class is_version split all same_text
valid_next = refl

other_next : same_request request next_request ≡ false
unfolding same_request
other_next = refl

run_after_left_state_example :
    let ended = write_terminal request complete success new_version none leaving in
    let m' : Machine = record ended.1 { request_file = some next_request } in
    (ended.0 ≡ some none) × (run m' ≡ (some (some state_mismatch), m'))
run_after_left_state_example =
    run_after_left_state leaving left_state request complete success new_version none next_request
      refl refl refl valid_next other_next

run_unread_version_example : run (record leaving { installed = new_version }) ≡ (
  some none,
  record machine {
    installed = new_version;
    result_file = some (record {
      generation = 3;
      run_id = request.run_id;
      status = failed;
      result_code = preflight_failed;
      previous_version = old_version;
      target_version = new_version;
      installed_version = old_version;
      started_at = request.started_at;
      finished_at = 7;
      diagnostic = some call_failed;
    });
    request_file = none;
  },
)
run_unread_version_example =
    run_unread_version request left_state (record leaving { installed = new_version }) refl refl
      refl (starting []).is_valid refl
