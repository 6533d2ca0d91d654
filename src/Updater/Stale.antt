-- ===== src/Updater/Stale.antt =====
-- Two ways in which a recorded update is lost: a state file that outlives its request, and an attempt
-- that cannot read the installed version.
use backupchief_agent.Base.{◌≡◌, refl, true, false, [], ◌∷◌, Option, none, some, Text}
use backupchief_agent.Updater.{
  Request, Problem, DurableState, Status, failed, ResultCode, preflight_failed, call_failed, works,
  fails, Machine, state_mismatch, is_valid_request, same_request, answer, continue,
}
use backupchief_agent.Updater.Run.{write_terminal, run, read_request, run_request, with_state}

-- A report whose last call, the removal of the state, fails, returns no error and leaves the state;
-- from then on an attempt at any valid request of another update, with no call failing, is refused,
-- and changes nothing, so that every attempt after it is refused too.
pub run_after_left_state :
    (m : Machine) (s : DurableState) (q : Request) (status : Status) (code : ResultCode) (v : Text)
    (cause : Option Problem) (next : Request)
    → m.state_file ≡ some s
    → m.locked ≡ false
    → m.calls ≡ works ∷ works ∷ works ∷ fails none ∷ []
    → is_valid_request next ≡ true
    → same_request s.request next ≡ false
    → let ended = write_terminal q status code v cause m in
      let m' : Machine = record ended.1 { request_file = some next } in
      (ended.0 ≡ some none) × (run m' ≡ (some (some state_mismatch), m'))
unfolding write_terminal run read_request run_request with_state answer continue
run_after_left_state m s q status code v cause next left free ends valid other =
    (rw ends refl, rw (ends, left, free, valid, other) refl)

-- An attempt that finds a recorded state and whose query of the installed version fails, and no
-- other call, returns no error, ends the update with "preflight_failed" and the previous version of
-- the request, and forgets the recorded state, whatever version is installed and whichever phase is
-- recorded.
pub run_unread_version :
    (q : Request) (s : DurableState) (m : Machine)
    → m.request_file ≡ some q
    → m.state_file ≡ some s
    → m.locked ≡ false
    → is_valid_request q ≡ true
    → m.calls ≡ works ∷ works ∷ works ∷ fails none ∷ []
    → run m ≡ (
      some none,
      record m {
        request_file = none;
        state_file = none;
        readiness_file = none;
        calls = [];
        result_file = some (record {
          generation = q.generation;
          run_id = q.run_id;
          status = failed;
          result_code = preflight_failed;
          previous_version = q.previous_version;
          target_version = q.target_version;
          installed_version = q.previous_version;
          started_at = q.started_at;
          finished_at = m.clock;
          diagnostic = some call_failed;
        });
      },
    )
unfolding write_terminal run read_request run_request answer continue
run_unread_version q s m there recorded free valid ends =
    rw (there, recorded, free, ends, valid) refl
