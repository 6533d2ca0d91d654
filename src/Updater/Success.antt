-- ===== src/Updater/Success.antt =====
-- Updates during which no call fails, to their end.
use backupchief_agent.Base.{
  ◌≡◌, refl, ◌∙◌, true, false, List, [], ◌∷◌, Option, none, some, Text, same_text, same_text_refl,
  eq_refl, All, ◌++◌,
}
use Prim.Native.Nat.{Ordering}
use backupchief_agent.Updater.{
  Request, Readiness, Problem, Phase, installing, rolling_back, Status, complete, failed,
  ResultCode, success, readiness_failed_rolled_back, Arrival, tick, deadline, done, killed, written,
  timed_out, Machine, is_valid_request, answer, continue,
}
use backupchief_agent.Updater.Versions.{compare_versions}
use backupchief_agent.Updater.Run.{
  write_terminal, run, read_request, run_request, with_state, start_update, install_target,
  await_target, wait_for_readiness, wait_ticks, arrive, is_ready, rollback,
}

-- What the agent of a version writes when it is ready.
abbrev pub ready_for : Request → Text → Readiness
ready_for q v = record { command_id = q.command_id; run_id = q.run_id; version = v }

wait_ticks_ready :
    (later : List Arrival) (q : Request) (v : Text) (m : Machine)
    → is_ready q v m.readiness_file ≡ true
    → wait_ticks later q v m ≡ (some none, m)
unfolding wait_ticks
wait_ticks_ready [] q v m h = rw h refl
wait_ticks_ready (a ∷ later) q v m h = rw h refl

-- What a wait for an agent may bring before it ends: a tick, or a file of another agent.
abbrev pub IsPoll : Request → Text → Arrival → Type 0
IsPoll q v tick = Unit
IsPoll q v (written r) = is_ready q v (some r) ≡ false
IsPoll q v deadline = ⊥
IsPoll q v done = ⊥
IsPoll q v killed = ⊥

-- The polls before the end of a wait leave at most a file that is not ready.
wait_polls :
    (q : Request) (v : Text) (polls later : List Arrival) (m : Machine)
    → All (IsPoll q v) polls
    → is_ready q v m.readiness_file ≡ false
    → m.arrivals ≡ polls ++ later
    → (f : Option Readiness) × (is_ready q v f ≡ false)
      × (wait_for_readiness q v m
          ≡ wait_ticks later q v (record m { arrivals = later; readiness_file = f }))
unfolding wait_for_readiness wait_ticks arrive
wait_polls q v [] later m h gone e = (m.readiness_file, gone, rw e refl)
wait_polls q v (tick ∷ polls) later m (h, hs) gone e =
    let (f, unready, waits) =
      wait_polls q v polls later (record m { arrivals = polls ++ later }) hs gone refl in
    (f, unready, rw (e, wait_ticks, gone, arrive) waits)
wait_polls q v (written r ∷ polls) later m (h, hs) gone e =
    let (f, unready, waits) =
      wait_polls q v polls later (record m { arrivals = polls ++ later; readiness_file = some r })
        hs h refl in
    (f, unready, rw (e, wait_ticks, gone, arrive) waits)
wait_polls q v (deadline ∷ polls) later m (h, hs) gone e = absurd h
wait_polls q v (done ∷ polls) later m (h, hs) gone e = absurd h
wait_polls q v (killed ∷ polls) later m (h, hs) gone e = absurd h

-- The previous version of the request is not read.
same_polls :
    (q : Request) (previous v : Text) (polls : List Arrival)
    → All (IsPoll q v) polls
    → All (IsPoll (record q { previous_version = previous }) v) polls
unfolding is_ready
same_polls q previous v [] h = tt
same_polls q previous v (tick ∷ polls) (h, hs) = (h, same_polls q previous v polls hs)
same_polls q previous v (written r ∷ polls) (h, hs) = (h, same_polls q previous v polls hs)
same_polls q previous v (deadline ∷ polls) (h, hs) = absurd h
same_polls q previous v (done ∷ polls) (h, hs) = absurd h
same_polls q previous v (killed ∷ polls) (h, hs) = absurd h

wait_written :
    (q : Request) (v : Text) (polls later : List Arrival) (m : Machine)
    → All (IsPoll q v) polls
    → m.readiness_file ≡ none
    → m.arrivals ≡ polls ++ (written (ready_for q v) ∷ later)
    → wait_for_readiness q v m
      ≡ (some none, record m { arrivals = later; readiness_file = some (ready_for q v) })
unfolding wait_ticks arrive is_ready
wait_written q v polls later m h gone e =
    let (f, unready, waits) =
      wait_polls q v polls (written (ready_for q v) ∷ later) m h (rw gone refl) e in
    let ready = record m { arrivals = later; readiness_file = some (ready_for q v) } in
    waits
    ∙ rw unready (
        wait_ticks_ready later q v ready
          (rw (eq_refl q.command_id, eq_refl q.run_id, same_text_refl v) refl))

wait_deadline :
    (q : Request) (v : Text) (polls later : List Arrival) (m : Machine)
    → All (IsPoll q v) polls
    → m.readiness_file ≡ none
    → m.arrivals ≡ polls ++ (deadline ∷ later)
    → (f : Option Readiness) × (wait_for_readiness q v m
        ≡ (some (some timed_out), record m { arrivals = later; readiness_file = f }))
unfolding wait_ticks arrive is_ready
wait_deadline q v polls later m h gone e =
    let (f, unready, waits) = wait_polls q v polls (deadline ∷ later) m h (rw gone refl) e in
    (f, waits ∙ rw unready refl)

-- A first attempt at a valid request for a newer version, with no call failing.
pub record IsStarting (q : Request) (m : Machine) : Type 0 where
  pub has_request : m.request_file ≡ some q
  pub no_state : m.state_file ≡ none
  pub is_free : m.locked ≡ false
  pub all_work : m.calls ≡ []
  pub is_valid : is_valid_request q ≡ true
  pub is_other : same_text m.installed q.target_version ≡ false
  pub is_newer : compare_versions q.target_version m.installed ≡ some Ordering.gt

-- The machine after an update that has ended, with what is left of the arrivals.
abbrev pub ended :
    Request → Status → ResultCode → Text → Option Problem → List Arrival → Machine → Machine
ended q s code v cause later m = record m {
  installed = v;
  request_file = none;
  state_file = none;
  readiness_file = none;
  result_file = some (record {
    generation = q.generation;
    run_id = q.run_id;
    status = s;
    result_code = code;
    previous_version = m.installed;
    target_version = q.target_version;
    installed_version = v;
    started_at = q.started_at;
    finished_at = m.clock;
    diagnostic = cause;
  });
  locked = false;
  calls = [];
  arrivals = later;
}

-- The machine from the installation on, with the state of the installation or of the rollback.
abbrev during : Request → Text → Phase → Option Problem → Machine → Machine
during q v p cause m = record m {
  installed = v;
  request_file = some q;
  readiness_file = none;
  locked = false;
  calls = [];
  state_file = some (record {
    request = record q { previous_version = m.installed };
    previous_package_version = m.installed;
    phase = p;
    diagnostic = cause;
  });
}

-- Such an attempt comes to the wait for the new agent.
run-during :
    (q : Request) (m : Machine)
    → IsStarting q m
    → run m
      ≡ await_target
          (record q { previous_version = m.installed })
          m.installed
          (during q q.target_version installing none m)
unfolding run read_request run_request with_state start_update install_target answer continue
run-during q m h =
    rw (h.has_request, h.no_state, h.is_free, h.all_work, h.is_valid, h.is_other, h.is_newer) refl

-- A first attempt at a valid request for a newer version, with no call failing, whose new agent gets
-- ready before the deadline, after any number of ticks and files of other agents, returns no error;
-- the target version is installed, the result is complete with both versions, and request, state and
-- readiness are gone.
pub run-success :
    (q : Request) (m : Machine) (polls later : List Arrival)
    → IsStarting q m
    → All (IsPoll q q.target_version) polls
    → m.arrivals ≡ polls ++ (written (ready_for q q.target_version) ∷ later)
    → run m ≡ (some none, ended q complete success q.target_version none later m)
unfolding await_target write_terminal answer continue
run-success q m polls later h poll ready =
    let q' : Request = record q { previous_version = m.installed } in
    run-during q m h
    ∙ rw
        (wait_written q' q.target_version polls later (during q q.target_version installing none m)
          (same_polls q m.installed q.target_version polls poll) refl ready)
        refl

-- If instead the wait for the new agent ends at its deadline, and the old agent gets ready in the wait
-- that follows, each after any number of ticks and files of other agents, the attempt returns no
-- error; the old version is installed again, the result is failed and rolled back with both versions
-- and the cause, and request, state and readiness are gone.
pub run-rolled_back :
    (q : Request) (m : Machine) (polls polls' later : List Arrival)
    → IsStarting q m
    → All (IsPoll q q.target_version) polls
    → All (IsPoll q m.installed) polls'
    → m.arrivals ≡ polls ++ (deadline ∷ (polls' ++ (written (ready_for q m.installed) ∷ later)))
    → run m ≡ (
      some none,
      ended q failed readiness_failed_rolled_back m.installed (some timed_out) later m,
    )
unfolding await_target rollback write_terminal answer continue
run-rolled_back q m polls polls' later h poll poll' ready =
    let q' : Request = record q { previous_version = m.installed } in
    let rest = polls' ++ (written (ready_for q m.installed) ∷ later) in
    let ends =
      wait_deadline q' q.target_version polls rest (during q q.target_version installing none m)
        (same_polls q m.installed q.target_version polls poll) refl ready in
    run-during q m h
    ∙ rw
        (
          ends.1,
          wait_written q' m.installed polls' later
              (record (during q m.installed rolling_back (some timed_out) m) { arrivals = rest })
              (same_polls q m.installed m.installed polls' poll') refl refl,
        )
        refl
