-- ===== src/Updater/Resume.antt =====
-- One attempt of the helper, from its lock to the switch on the recorded phase.
use backupchief_agent.Base.{
  ◌≡◌, refl, sym, subst, inl, inr, Bool, true, false, Option, none, some, Text, if◌then◌else◌,
  Bool-cases, same_text, same_text_iff,
}
use backupchief_agent.Updater.{
  Request, Problem, unexpected_version, bad_request, bad_phase, state_mismatch, DurableState, Phase,
  preflight, installing, rolling_back, other_phase, calls_after, next_call, Machine, Act, ◌>>=◌,
  ret, get, continue, preflight_failed, or_return, is_valid_request, same_request,
}
use backupchief_agent.Updater.Run.{
  write_failure, start_update, await_target, resume, with_state, run_request, read_request, run,
}
use backupchief_agent.Updater.Steps.{
  Post, Recorded, At, Remembers, CodeTruth, Reported, Ends, Safe, At-Remembers, answer-Post,
  then_query, kept_request,
}
use backupchief_agent.Updater.Ends.{
  on_error-Safe, ret-Safe, state_at, state_at-Recorded, write_failure-Safe, rollback-Safe,
  resume_rollback-Safe,
}
use backupchief_agent.Updater.Install.{then_get, await_target-Safe, start_update-Safe}

module _ (q₀ : Request) (v₀ : Text) where
  start_update-Safe_at :
      (st : Option DurableState) (i : Text)
      → Recorded q₀ v₀ st i
      → i ≡ v₀
      → Safe q₀ v₀ (start_update (kept_request q₀ v₀) i) st i
  start_update-Safe_at st i h e =
      subst (λ x. Safe q₀ v₀ (start_update (kept_request q₀ v₀) x) st x) (sym e)
        (start_update-Safe q₀ v₀ st (subst (λ x. Recorded q₀ v₀ st x) e h))

  resume-Safe_at :
      (phase : Phase) (cause : Option Problem) (i : Text)
      → Recorded q₀ v₀ (some (state_at q₀ v₀ phase cause)) i
      → Safe q₀ v₀ (resume (state_at q₀ v₀ phase cause) i) (some (state_at q₀ v₀ phase cause)) i
  unfolding resume Recorded
  resume-Safe_at preflight cause i h = let (a, b, c) = h in start_update-Safe_at _ i h (c refl)
  resume-Safe_at installing cause i h =
      let st = some (state_at q₀ v₀ installing cause) in
      elim (Bool-cases (same_text i q₀.target_version)) [
        | inl e ↦ rw e (
            subst (λ x. Safe q₀ v₀ (await_target (kept_request q₀ v₀) v₀) st x)
              (sym ((same_text_iff i q₀.target_version).0 e))
              (await_target-Safe q₀ v₀ st
                (state_at-Recorded q₀ v₀ installing cause q₀.target_version (λ e. cc))))
        | inr e ↦ elim (Bool-cases (same_text i v₀)) [
          | inl e' ↦ rw (e, e') (start_update-Safe_at st i h ((same_text_iff i v₀).0 e'))
          | inr e' ↦ rw (e, e') (rollback-Safe q₀ v₀ (unexpected_version i) st i h)
        ]
      ]
  resume-Safe_at rolling_back cause i h = resume_rollback-Safe q₀ v₀ cause i
  resume-Safe_at other_phase cause i h = ret-Safe q₀ v₀ bad_phase _ i h

  -- A recorded state is one of the update.
  canonical_state :
      (s : DurableState) (i : Text)
      → Recorded q₀ v₀ (some s) i
      → s ≡ state_at q₀ v₀ s.phase s.diagnostic
  unfolding Recorded
  canonical_state s i (a, b, c) = λ t. record s { request = a t; previous_package_version = b t }

  with_state-Safe :
      (st : Option DurableState) (i : Text)
      → Recorded q₀ v₀ st i
      → Safe q₀ v₀ (with_state q₀ i st) st i
  unfolding with_state Recorded
  with_state-Safe none i h =
      subst (λ x. Safe q₀ v₀ (start_update (record q₀ { previous_version = x }) x) none x) (sym h)
        (start_update-Safe q₀ v₀ none refl)
  with_state-Safe (some s) i h =
      let e = canonical_state s i h in
      elim (Bool-cases (same_request s.request q₀)) [
        | inl same ↦ rw same (
            subst (λ x. Safe q₀ v₀ (resume x i) (some x) i) (sym e)
              (resume-Safe_at s.phase s.diagnostic i (subst (λ x. Recorded q₀ v₀ (some x) i) e h)))
        | inr other ↦ rw other (ret-Safe q₀ v₀ state_mismatch (some s) i h)
      ]

  then_installed :
      (k : Text → Act (Option Problem)) (st : Option DurableState) (i : Text)
      → Safe q₀ v₀ (k i) st i
      → Safe q₀ v₀ (get (λ m. m.installed) >>= k) st i
  then_installed k st i h =
      then_get q₀ v₀ (λ m. m.installed) k st i
        (λ m at.
          let (a, b, c) = at in
          subst (λ x. Post (Ends q₀ v₀) (Remembers q₀ v₀) (k x m).0 (k x m).1) (sym c) (h m at))

  then_state :
      (k : Option DurableState → Act (Option Problem)) (st : Option DurableState) (i : Text)
      → Safe q₀ v₀ (k st) st i
      → Safe q₀ v₀ (get (λ m. m.state_file) >>= k) st i
  then_state k st i h =
      then_get q₀ v₀ (λ m. m.state_file) k st i
        (λ m at.
          let (a, b, c) = at in
          subst (λ x. Post (Ends q₀ v₀) (Remembers q₀ v₀) (k x m).0 (k x m).1) (sym b) (h m at))

  run_request-Safe :
      (st : Option DurableState) (i : Text) → Recorded q₀ v₀ st i → Safe q₀ v₀ (run_request q₀) st i
  unfolding run_request CodeTruth
  run_request-Safe st i h =
      let failure : (p : Problem)
          → Safe q₀ v₀ (write_failure q₀ preflight_failed q₀.previous_version p) st i =
        λ p.
          write_failure-Safe q₀ v₀ q₀.previous_version preflight_failed q₀.previous_version p st i h
            refl in
      then_query q₀ v₀ _ st i h (
        on_error-Safe q₀ v₀ _ _ st i failure (
          then_query q₀ v₀ _ st i h (λ e. then_installed _ st i (
            on_error-Safe q₀ v₀ _ _ st i failure
              (then_query q₀ v₀ _ st i h (λ unread. then_state _ st i (
                on_error-Safe q₀ v₀ _ _ st i (λ p. ret-Safe q₀ v₀ p st i h) (with_state-Safe st i h)
                  unread)))
              e))))

  read_request-Safe :
      (st : Option DurableState) (i : Text)
      → Recorded q₀ v₀ st i
      → Safe q₀ v₀ (read_request (some q₀)) st i
  unfolding read_request
  read_request-Safe st i h = elim (Bool-cases (is_valid_request q₀)) [
    | inl valid ↦ rw valid (run_request-Safe st i h)
    | inr bad ↦ rw bad (ret-Safe q₀ v₀ bad_request st i h)
  ]

  -- The request is there as long as it is one of the update.
  read_request-At :
      (st : Option DurableState) (i : Text) (e : Option Problem)
      → Recorded q₀ v₀ st i
      → Safe q₀ v₀ (do q ← get (λ m. m.request_file); or_return e (read_request q)) st i
  read_request-At st i e h =
      then_get q₀ v₀ (λ m. m.request_file) _ st i
        (λ m at.
          let (a, b, c) = at in
          let k : Option Request → Act (Option Problem) = λ q. or_return e (read_request q) in
          subst (λ x. Post (Ends q₀ v₀) (Remembers q₀ v₀) (k x m).0 (k x m).1) (sym a)
            (on_error-Safe q₀ v₀ _ _ st i (λ p. ret-Safe q₀ v₀ p st i h) (read_request-Safe st i h)
              e m at))

  -- What an attempt gives; only one that has the lock reports.
  abbrev pub Attempted : Bool → Option Problem → Machine → Type 0
  Attempted locked e m = Remembers q₀ v₀ m × (e ≡ none → locked ≡ false → Reported q₀ v₀ m)

  weaken :
      (b : Bool) (o : Option (Option Problem)) (m : Machine)
      → Post (Ends q₀ v₀) (Remembers q₀ v₀) o m
      → Post (Attempted b) (Remembers q₀ v₀) o m
  unfolding Post
  weaken b none m h = h
  weaken b (some e) m (kept, end) = (kept, λ ok free. end ok)

  -- Behind the test of the lock.
  if_free :
      (b : Bool) (act : Act (Option Problem)) (m : Machine)
      → Remembers q₀ v₀ m
      → Post (Ends q₀ v₀) (Remembers q₀ v₀) (act m).0 (act m).1
      → Post
          (Attempted b)
          (Remembers q₀ v₀)
          ((if b then ret none else act) m).0
          ((if b then ret none else act) m).1
  unfolding Post
  if_free true act m kept h = (kept, λ ok free. cc)
  if_free false act m kept h = weaken false (act m).0 (act m).1 h

  one_run :
      (st : Option DurableState) (i : Text) (m : Machine)
      → Recorded q₀ v₀ st i
      → At q₀ v₀ st i m
      → Post (Attempted m.locked) (Remembers q₀ v₀) (run m).0 (run m).1
  unfolding run continue Post
  one_run st i m h at =
      let m₁ : Machine = record m { calls = calls_after m.calls } in
      let kept = At-Remembers q₀ v₀ st i m₁ h at in
      answer-Post (Attempted m.locked) (Remembers q₀ v₀) (next_call m.calls) (λ m. m) (λ l m. m) _
        m₁
        (if_free m.locked _ m₁ kept
          (then_query q₀ v₀ _ st i h (λ e. read_request-At st i e h) m₁ at))
        (λ l. (kept, λ e. cc)) (λ l. kept)

pub attempt-Attempted :
    (q : Request) (v : Text) (m : Machine)
    → (m.request_file ≡ some q)
    → Recorded q v m.state_file m.installed
    → Post (Attempted q v m.locked) (Remembers q v) (run m).0 (run m).1
attempt-Attempted q v m e h = one_run q v m.state_file m.installed m h (e, refl, refl)
