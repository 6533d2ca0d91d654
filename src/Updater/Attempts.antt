-- ===== src/Updater/Attempts.antt =====
-- An update over any number of attempts of the helper, each of which may die at any call.
use backupchief_agent.Base.{
  ◌≡◌, refl, sym, subst, ◌∙◌, inl, inr, ◌≢◌, Bool, true, false, List, [], ◌∷◌, Option, none, some,
  Text, ℕ, if◌then◌else◌,
}
use backupchief_agent.Updater.{
  Request, Readiness, Problem, Call, calls_after, next_call, Arrival, Machine, Act, ◌>>=◌, ret, get,
  continue, query, Result, or_return,
}
use backupchief_agent.Updater.Run.{read_request, run}
use backupchief_agent.Updater.Steps.{Post, Recorded, Remembers, Reported, answer-Post}
use backupchief_agent.Updater.Resume.{Attempted, attempt-Attempted}

-- What happens to the machine between two attempts: nothing to the package, the request or the state.
pub record Outside : Type 0 where
  pub readiness : Option Readiness
  pub result : Option Result
  pub locked : Bool
  pub calls : List Call
  pub arrivals : List Arrival
  pub clock : ℕ

abbrev pub disturb : Outside → Machine → Machine
disturb o m = record m {
  readiness_file = o.readiness;
  result_file = o.result;
  locked = o.locked;
  calls = o.calls;
  arrivals = o.arrivals;
  clock = o.clock;
}

-- Attempts of the helper, one after the other.
unfoldable pub attempts : List Outside → Machine → Machine
attempts [] m = m
attempts (o ∷ os) m = attempts os (run (disturb o m)).1

-- A new request, before the first attempt, with a version installed.
abbrev pub IsFresh : Request → Text → Machine → Type 0
IsFresh q v m = (m.request_file ≡ some q) × (m.state_file ≡ none) × (m.installed ≡ v)

-- Nothing that an update is about has changed.
abbrev pub Untouched : Machine → Machine → Type 0
Untouched m m' =
    (m'.request_file ≡ m.request_file)
    × (m'.state_file ≡ m.state_file)
    × (m'.result_file ≡ m.result_file)
    × (m'.installed ≡ m.installed)

no_request :
    (b : Bool) (m m' : Machine)
    → m.request_file ≡ none
    → Untouched m m'
    → let act : Act (Option Problem) =
        (if b
          then ret none
          else (do e' ← query; q ← get (λ m. m.request_file); or_return e' (read_request q))) in
      Post (λ e. Untouched m) (Untouched m) (act m').0 (act m').1
unfolding Post continue read_request
no_request true m m' h same = same
no_request false m m' h same =
    let m₁ : Machine = record m' { calls = calls_after m'.calls } in
    let (r, s, t, i) = same in
    let k : Option Request → Act (Option Problem) = read_request in
    answer-Post (λ e. Untouched m) (Untouched m) (next_call m'.calls) (λ m. m) (λ l m. m) _ m₁
      (subst (λ x. Post (λ e. Untouched m) (Untouched m) (k x m₁).0 (k x m₁).1) (sym (r ∙ h)) same)
      (λ l. same) (λ l. same)

without_request :
    (m : Machine)
    → m.request_file ≡ none
    → Post (λ e. Untouched m) (Untouched m) (run m).0 (run m).1
unfolding run Post continue
without_request m h =
    let m₁ : Machine = record m { calls = calls_after m.calls } in
    let same : Untouched m m₁ = (refl, refl, refl, refl) in
    answer-Post (λ e. Untouched m) (Untouched m) (next_call m.calls) (λ m. m) (λ l m. m) _ m₁
      (no_request m.locked m m₁ h same) (λ l. same) (λ l. same)

Post-always :
    {A : Type 0} (D : Machine → Type 0) (o : Option A) (m : Machine) → Post (λ a. D) D o m → D m
unfolding Post
Post-always D none m h = h
Post-always D (some a) m h = h

Post-left :
    (q : Request) (v : Text) (b : Bool) (o : Option (Option Problem)) (m : Machine)
    → Post (Attempted q v b) (Remembers q v) o m
    → Remembers q v m
unfolding Post
Post-left q v b none m h = h
Post-left q v b (some e) m h = h.0

Post-right :
    (q : Request) (v : Text) (o : Option (Option Problem)) (m : Machine)
    → Post (Attempted q v false) (Remembers q v) o m
    → o ≡ some none
    → Reported q v m
unfolding Post
Post-right q v none m h e = cc
Post-right q v (some none) m h e = h.1 refl refl
Post-right q v (some (some p)) m h e = cc

-- Without a request an attempt changes neither the package nor a file of the update.
pub run_without_request : (m : Machine) → m.request_file ≡ none → Untouched m (run m).1
run_without_request m h = Post-always (Untouched m) (run m).0 (run m).1 (without_request m h)

run-Remembers : (q : Request) (v : Text) (m : Machine) → Remembers q v m → Remembers q v (run m).1
run-Remembers q v m (inl gone) = let (r, s, t, i) = run_without_request m gone in inl (r ∙ gone)
run-Remembers q v m (inr (there, h)) =
    Post-left q v m.locked (run m).0 (run m).1 (attempt-Attempted q v m there h)

attempts_from :
    (q : Request) (v : Text) (os : List Outside) (m : Machine)
    → Remembers q v m
    → Remembers q v (attempts os m)
unfolding attempts
attempts_from q v [] m h = h
attempts_from q v (o ∷ os) m h = attempts_from q v os _ (run-Remembers q v (disturb o m) h)

-- From a new request on, after any number of attempts, whichever calls fail or end the helper: as long
-- as the request is there, the version that was installed at first is the one in the recorded state,
-- or it is still installed; and it is still installed if the recorded phase is the preflight.
pub attempts-Remembers :
    (q : Request) (v : Text) (os : List Outside) (m : Machine)
    → IsFresh q v m
    → Remembers q v (attempts os m)
unfolding Recorded
attempts-Remembers q v os m (there, no_state, now) =
    attempts_from q v os m (inr (there, subst (λ s. Recorded q v s m.installed) (sym no_state) now))

reported_from :
    (q : Request) (v : Text) (m : Machine)
    → Remembers q v m
    → m.locked ≡ false
    → m.request_file ≢ none
    → (run m).0 ≡ some none
    → Reported q v (run m).1
reported_from q v m (inl gone) free there ok = absurd (there gone)
reported_from q v m (inr (there, h)) free some_request ok =
    Post-right q v (run m).0 (run m).1
      (subst (λ b. Post (Attempted q v b) (Remembers q v) (run m).0 (run m).1) free
        (attempt-Attempted q v m there h))
      ok

-- From a new request on, after any number of attempts that may have failed or died at any call: an
-- attempt that has the lock and a request, and that returns no error, has removed the request and
-- written a result for it that is true. "success" and "already_installed" are complete, and the
-- target version is installed; "readiness_failed_rolled_back" and "target_not_newer" are failed, and
-- the version that was installed before the first attempt is installed again; all other codes are
-- failed.
pub run-attempts :
    (q : Request) (v : Text) (os : List Outside) (o : Outside) (m : Machine)
    → IsFresh q v m
    → o.locked ≡ false
    → (attempts os m).request_file ≢ none
    → (run (disturb o (attempts os m))).0 ≡ some none
    → Reported q v (run (disturb o (attempts os m))).1
run-attempts q v os o m fresh free there ok =
    reported_from q v (disturb o (attempts os m)) (attempts-Remembers q v os m fresh) free there ok
