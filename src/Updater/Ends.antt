-- ===== src/Updater/Ends.antt =====
-- How an update ends: the report that `writeTerminal` writes, and the parts that lead to it.
use backupchief_agent.Base.{
  refl, sym, subst, inl, inr, ◌≢◌, Option, none, some, Text, Bool-cases, same_text, same_text_iff,
}
use backupchief_agent.Updater.{
  Request, Problem, call_failed, DurableState, preflight, rolling_back, Machine, Act, ◌>>=◌, ret,
  continue, next_call, calls_after, remove_readiness, remove_request, remove_state, Status, failed,
  ResultCode, rollback_failed, readiness_failed_rolled_back, Result, joined, or_return, on_error,
  Phase,
}
use backupchief_agent.Updater.Run.{
  wait_for_readiness, write_terminal, write_failure, rollback, finish_rollback, resume_rollback,
}
use backupchief_agent.Updater.Steps.{
  Post, Recorded, At, Remembers, CodeTruth, Reported, Ends, Safe, At-Remembers, answer-Post,
  then_remove_readiness, then_write_state, then_change_package, then_wait, kept_request,
}

module _ (q₀ : Request) (v₀ : Text) where
  -- The last two removals, whose errors are dropped.
  removals-Reported :
      (m : Machine)
      → Reported q₀ v₀ m
      → let act : Act (Option Problem) = (do
        ignored ← remove_readiness
        ignored' ← remove_state
        ret none) in
        Post (Ends q₀ v₀) (Remembers q₀ v₀) (act m).0 (act m).1
  unfolding Post
  removals-Reported m h =
      let m₁ : Machine = record m { calls = calls_after m.calls } in
      let last : (m : Machine)
          → Reported q₀ v₀ m
          → let act : Act (Option Problem) = (do ignored ← remove_state; ret none) in
            Post (Ends q₀ v₀) (Remembers q₀ v₀) (act m).0 (act m).1 =
        λ m h.
          let m₁ : Machine = record m { calls = calls_after m.calls } in
          answer-Post (Ends q₀ v₀) (Remembers q₀ v₀) (next_call m.calls)
            (λ m. record m { state_file = none }) (λ l m. m) _ m₁ (inl h.0, λ e. h)
            (λ l. (inl h.0, λ e. h)) (λ l. inl h.0) in
      answer-Post (Ends q₀ v₀) (Remembers q₀ v₀) (next_call m.calls)
        (λ m. record m { readiness_file = none }) (λ l m. m) _ m₁
        (last (record m₁ { readiness_file = none }) h) (λ l. last m₁ h) (λ l. inl h.0)

  -- An end with an error.
  pub error_end : (p : Problem) (m : Machine) → Remembers q₀ v₀ m → Ends q₀ v₀ (some p) m
  error_end p m h = (h, λ e. cc)

  -- From the removal of the request on, with the result on the disk.
  remove_request-Reported :
      (st : Option DurableState) (i : Text) (m : Machine)
      → Recorded q₀ v₀ st i
      → At q₀ v₀ st i m
      → Reported q₀ v₀ (record m { request_file = none })
      → let act : Act (Option Problem) = (do
        e ← remove_request
        or_return e (do ignored ← remove_readiness; ignored' ← remove_state; ret none)) in
        Post (Ends q₀ v₀) (Remembers q₀ v₀) (act m).0 (act m).1
  unfolding Post
  remove_request-Reported st i m h at reported =
      let m₁ : Machine = record m { calls = calls_after m.calls } in
      answer-Post (Ends q₀ v₀) (Remembers q₀ v₀) (next_call m.calls)
        (λ m. record m { request_file = none }) (λ l m. m) _ m₁
        (removals-Reported (record m₁ { request_file = none }) reported)
        (λ l. error_end call_failed m₁ (At-Remembers q₀ v₀ st i m₁ h at))
        (λ l. At-Remembers q₀ v₀ st i m₁ h at)

  pub write_terminal-Safe :
      (pv : Text) (s : Status) (code : ResultCode) (v : Text) (cause : Option Problem)
      (st : Option DurableState) (i : Text)
      → Recorded q₀ v₀ st i
      → CodeTruth q₀ v₀ code s pv v i
      → Safe q₀ v₀ (write_terminal (record q₀ { previous_version = pv }) s code v cause) st i
  unfolding write_terminal continue Post
  write_terminal-Safe pv s code v cause st i h truth m (a, b, c) =
      let r : Result = record {
        generation = q₀.generation;
        run_id = q₀.run_id;
        status = s;
        result_code = code;
        previous_version = pv;
        target_version = q₀.target_version;
        installed_version = v;
        started_at = q₀.started_at;
        finished_at = m.clock;
        diagnostic = cause;
      } in
      let m₁ : Machine = record m { calls = calls_after m.calls } in
      let m₂ : Machine = record m₁ { result_file = some r } in
      answer-Post (Ends q₀ v₀) (Remembers q₀ v₀) (next_call m.calls)
        (λ m. record m { result_file = some r }) (λ l m. m) _ m₁
        (remove_request-Reported st i m₂ h (a, b, c)
          (refl, r, refl, refl, refl, subst (λ x. CodeTruth q₀ v₀ code s pv v x) (sym c) truth))
        (λ l. error_end call_failed m₁ (At-Remembers q₀ v₀ st i m₁ h (a, b, c)))
        (λ l. At-Remembers q₀ v₀ st i m₁ h (a, b, c))

  pub on_error-Safe :
      (handle : Problem → Act (Option Problem)) (rest : Act (Option Problem))
      (st : Option DurableState) (i : Text)
      → ((p : Problem) → Safe q₀ v₀ (handle p) st i)
      → Safe q₀ v₀ rest st i
      → (e : Option Problem) → Safe q₀ v₀ (on_error e handle rest) st i
  on_error-Safe handle rest st i bad ok none = ok
  on_error-Safe handle rest st i bad ok (some p) = bad p

  pub ret-Safe :
      (p : Problem) (st : Option DurableState) (i : Text)
      → Recorded q₀ v₀ st i
      → Safe q₀ v₀ (ret (some p)) st i
  unfolding Post
  ret-Safe p st i h m at = error_end p m (At-Remembers q₀ v₀ st i m h at)

  -- The state of the update at a phase.
  abbrev pub state_at : Phase → Option Problem → DurableState
  state_at phase cause = record {
    request = kept_request q₀ v₀;
    previous_package_version = v₀;
    phase = phase;
    diagnostic = cause;
  }

  -- During the installation and the rollback any version may be installed.
  pub state_at-Recorded :
      (phase : Phase) (cause : Option Problem) (i : Text)
      → phase ≢ preflight
      → Recorded q₀ v₀ (some (state_at phase cause)) i
  unfolding Recorded
  state_at-Recorded phase cause i h = (refl, refl, λ e. absurd (h e))

  pub write_failure-Safe :
      (pv : Text) (code : ResultCode) (v : Text) (p : Problem) (st : Option DurableState) (i : Text)
      → Recorded q₀ v₀ st i
      → CodeTruth q₀ v₀ code failed pv v i
      → Safe q₀ v₀ (write_failure (record q₀ { previous_version = pv }) code v p) st i
  write_failure-Safe pv code v p = write_terminal-Safe pv failed code v (some p)

  -- The wait for the old version, with its two ends.
  await_previous-Safe :
      (s : DurableState) (cause : Option Problem) (handle : Problem → Problem)
      → Recorded q₀ v₀ (some s) v₀
      → Safe q₀ v₀
          (do
            e ← wait_for_readiness (kept_request q₀ v₀) v₀
            on_error e
                (λ p. write_failure (kept_request q₀ v₀) rollback_failed v₀ (handle p))
                (write_terminal (kept_request q₀ v₀) failed readiness_failed_rolled_back v₀ cause))
          (some s)
          v₀
  unfolding CodeTruth
  await_previous-Safe s cause handle h = then_wait q₀ v₀ (kept_request q₀ v₀) v₀ _ (some s) v₀ h (
      on_error-Safe _ _ (some s) v₀
        (λ p. write_failure-Safe v₀ rollback_failed v₀ (handle p) (some s) v₀ h (refl, refl))
        (write_terminal-Safe v₀ failed readiness_failed_rolled_back v₀ cause (some s) v₀ h
          (refl, refl, refl, refl)))

  pub rollback-Safe :
      (cause : Problem) (st : Option DurableState) (i : Text)
      → Recorded q₀ v₀ st i
      → Safe q₀ v₀ (rollback (kept_request q₀ v₀) v₀ cause) st i
  unfolding rollback CodeTruth
  rollback-Safe cause st i h =
      let s = state_at rolling_back (some cause) in
      let fixed : (i : Text) → Recorded q₀ v₀ (some s) i =
        λ i. state_at-Recorded rolling_back (some cause) i (λ e. cc) in
      then_remove_readiness q₀ v₀ _ st i h (λ ignored.
        then_write_state q₀ v₀ s _ st i h
          (then_change_package q₀ v₀ v₀ _ (some s) i fixed
            (await_previous-Safe s (some cause) (joined cause) (fixed v₀))
            (λ p i'.
              write_failure-Safe v₀ rollback_failed q₀.target_version (joined cause p) (some s) i'
                (fixed i') (refl, refl)))
          (λ p. ret-Safe p st i h))

  pub resume_rollback-Safe :
      (cause : Option Problem) (i : Text)
      → Safe q₀ v₀
          (resume_rollback (state_at rolling_back cause) i)
          (some (state_at rolling_back cause))
          i
  unfolding resume_rollback finish_rollback CodeTruth
  resume_rollback-Safe cause i =
      let s = state_at rolling_back cause in
      let fixed : (i : Text) → Recorded q₀ v₀ (some s) i =
        λ i. state_at-Recorded rolling_back cause i (λ e. cc) in
      elim (Bool-cases (same_text i v₀)) [
        | inl e ↦ rw e (
            subst (λ x. Safe q₀ v₀ (finish_rollback s) (some s) x) (sym ((same_text_iff i v₀).0 e))
              (await_previous-Safe s cause (λ p. p) (fixed v₀)))
        | inr e ↦ rw e (
            then_remove_readiness q₀ v₀ _ (some s) i (fixed i) (λ ignored.
              then_change_package q₀ v₀ v₀ _ (some s) i fixed
                (await_previous-Safe s cause (λ p. p) (fixed v₀))
                (λ p i'.
                  write_failure-Safe v₀ rollback_failed i p (some s) i' (fixed i') (refl, refl))))
      ]
