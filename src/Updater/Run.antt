-- ===== src/Updater/Run.antt =====
-- `Run` of updater/updater.go and what it calls.
use backupchief_agent.Base.{
  Bool, false, ◌&&◌, List, [], ◌∷◌, Option, none, some, str_eq, if◌then◌else◌, Text, same_text,
}
use Prim.Native.Nat.{Ordering}
use backupchief_agent.Updater.Versions.{compare_versions}
use backupchief_agent.Updater.{
  Request, Readiness, preflight, installing, rolling_back, other_phase, Problem, call_failed,
  timed_out, cancelled, not_newer, bad_request, state_mismatch, bad_phase, unexpected_version,
  install_failed, unavailable_for_rollback, joined, DurableState, Status, complete, failed,
  ResultCode, success, already_installed, target_not_newer, preflight_failed, installation_failed,
  rollback_failed, readiness_failed_rolled_back, Arrival, tick, deadline, done, killed, written,
  Act, ◌>>=◌, ret, get, query, change_package, write_state, write_result, remove_request,
  remove_state, remove_readiness, is_valid_request, same_request, on_error, or_return,
}

unfoldable pub is_ready : Request → Text → Option Readiness → Bool
is_ready q version none = false
is_ready q version (some r) =
    str_eq r.command_id q.command_id && str_eq r.run_id q.run_id && same_text r.version version

unfoldable pub arrive : Arrival → Act (Option Problem) → Act (Option Problem)
arrive tick next m = next m
arrive deadline next m = (some (some timed_out), m)
arrive done next m = (some (some cancelled), m)
arrive killed next m = (none, m)
arrive (written r) next m = next (record m { readiness_file = some r })

-- The loop of `waitForReadiness`; its timers give the ticks and the deadline. A file that cannot be
-- read counts as none.
unfoldable pub wait_ticks : List Arrival → Request → Text → Act (Option Problem)
unfolding is_ready arrive
wait_ticks [] q version m =
    if is_ready q version m.readiness_file then (some none, m) else (some (some timed_out), m)
wait_ticks (a ∷ later) q version m =
    let next = wait_ticks later q version in
    if is_ready q version m.readiness_file
    then (some none, m)
    else arrive a next (record m { arrivals = later })

-- `waitForReadiness`.
unfoldable pub wait_for_readiness : Request → Text → Act (Option Problem)
wait_for_readiness q version m = wait_ticks m.arrivals q version m

-- `writeTerminal`.
unfoldable pub write_terminal :
    Request → Status → ResultCode → Text → Option Problem → Act (Option Problem)
write_terminal q s code version cause = do
  now ← get (λ m. m.clock)
  e ← write_result (record {
    generation = q.generation;
    run_id = q.run_id;
    status = s;
    result_code = code;
    previous_version = q.previous_version;
    target_version = q.target_version;
    installed_version = version;
    started_at = q.started_at;
    finished_at = now;
    diagnostic = cause;
  })
  or_return e (do
    e' ← remove_request
    or_return e' (do ignored ← remove_readiness; ignored' ← remove_state; ret none))

-- `writeFailure`.
abbrev pub write_failure : Request → ResultCode → Text → Problem → Act (Option Problem)
write_failure q code version cause = write_terminal q failed code version (some cause)

-- `rollback`.
unfoldable pub rollback : Request → Text → Problem → Act (Option Problem)
rollback q previous cause = do
  ignored ← remove_readiness
  e ← write_state (record {
    request = q;
    previous_package_version = previous;
    phase = rolling_back;
    diagnostic = some cause;
  })
  or_return e (do
    e' ← change_package previous
    on_error e' (λ p. write_failure q rollback_failed q.target_version (joined cause p))
        (do
          e'' ← wait_for_readiness q previous
          on_error e'' (λ p. write_failure q rollback_failed previous (joined cause p))
              (write_terminal q failed readiness_failed_rolled_back previous (some cause))))

-- `resumeRollback`, from the wait on.
unfoldable pub finish_rollback : DurableState → Act (Option Problem)
finish_rollback s = do
  e ← wait_for_readiness s.request s.previous_package_version
  on_error e (λ p. write_failure s.request rollback_failed s.previous_package_version p)
      (write_terminal s.request failed readiness_failed_rolled_back s.previous_package_version
        s.diagnostic)

-- `resumeRollback`.
unfoldable pub resume_rollback : DurableState → Text → Act (Option Problem)
resume_rollback s version =
    if same_text version s.previous_package_version then finish_rollback s else do
      ignored ← remove_readiness
      e ← change_package s.previous_package_version
      on_error e (λ p. write_failure s.request rollback_failed version p) (finish_rollback s)

-- The wait for the agent of the target version, with its two ends.
unfoldable pub await_target : Request → Text → Act (Option Problem)
await_target q previous = do
  e ← wait_for_readiness q q.target_version
  on_error e (λ p. rollback q previous p) (write_terminal q complete success q.target_version none)

-- `Run` after a failed installation.
unfoldable pub after_failed_install : Request → Text → Problem → Act (Option Problem)
after_failed_install q previous p = do
  e ← query
  now ← get (λ m. m.installed)
  on_error e (λ ignored. write_failure q installation_failed previous p)
      (if same_text now previous
        then write_failure q installation_failed previous p
        else rollback q previous (install_failed p))

-- `Run` from the first write of the state on.
unfoldable pub install_target : Request → Text → Act (Option Problem)
install_target q version = do
  let state : DurableState = record {
    request = q;
    previous_package_version = version;
    phase = preflight;
    diagnostic = none;
  }
  e ← write_state state
  or_return e (do
    e₁ ← query
    on_error e₁ (λ p. write_failure q preflight_failed version p)
        (do
          e₂ ← query
          on_error e₂ (λ p. write_failure q preflight_failed version p)
              (do
                e₃ ← query
                on_error e₃
                    (λ p. write_failure q preflight_failed version (unavailable_for_rollback p))
                    (do
                      ignored ← remove_readiness
                      e₄ ← write_state (record state { phase = installing })
                      or_return e₄ (do
                        e₅ ← change_package q.target_version
                        on_error e₅ (λ p. after_failed_install q version p)
                            (await_target q version))))))

-- `Run` between the switch on the phase and the first write of the state.
unfoldable pub start_update : Request → Text → Act (Option Problem)
start_update q version =
    if same_text version q.target_version
    then write_terminal q complete already_installed version none
    else elim (compare_versions q.target_version version) [
      | none ↦ (λ m. (none, m))
      | some Ordering.gt ↦ install_target q version
      | some Ordering.lt ↦ write_failure q target_not_newer version not_newer
      | some Ordering.eq ↦ write_failure q target_not_newer version not_newer
    ]

-- The switch of `Run` on the phase, for a state of the same request.
unfoldable pub resume : DurableState → Text → Act (Option Problem)
resume s version = elim s.phase [
  | preflight ↦ start_update s.request version
  | installing ↦
      if same_text version s.request.target_version
      then await_target s.request s.previous_package_version
      else if same_text version s.previous_package_version
      then start_update s.request version
      else rollback s.request s.previous_package_version (unexpected_version version)
  | rolling_back ↦ resume_rollback s version
  | other_phase ↦ ret (some bad_phase)
]

unfoldable pub with_state : Request → Text → Option DurableState → Act (Option Problem)
with_state q version none = start_update (record q { previous_version = version }) version
with_state q version (some s) =
    if same_request s.request q then resume s version else ret (some state_mismatch)

-- `Run` once it holds the lock and has a request.
unfoldable pub run_request : Request → Act (Option Problem)
run_request q = do
  e ← query
  on_error e (λ p. write_failure q preflight_failed q.previous_version p)
      (do
        e' ← query
        version ← get (λ m. m.installed)
        on_error e' (λ p. write_failure q preflight_failed q.previous_version p)
            (do
              unread ← query
              state ← get (λ m. m.state_file)
              or_return unread (with_state q version state)))

-- `readSecureRequest`, and `Run` with its request.
unfoldable pub read_request : Option Request → Act (Option Problem)
read_request none = ret (some call_failed)
read_request (some q) = if is_valid_request q then run_request q else ret (some bad_request)

-- `Run`: the lock, then the request, which may also be in a file that is unsafe.
unfoldable pub run : Act (Option Problem)
run = do
  e ← query
  held ← get (λ m. m.locked)
  or_return e (
      if held
      then ret none
      else do e' ← query; q ← get (λ m. m.request_file); or_return e' (read_request q))
