-- ===== src/Updater/Steps.antt =====
-- How the parts of the helper are followed one call after the other: an update whose request is on
-- the disk, and what is recorded of it.
use backupchief_agent.Base.{
  ◌≡◌, refl, sym, subst, ◌∙◌, ◌⊎◌, inl, inr, List, [], ◌∷◌, Option, none, some, Text, Bool-cases,
}
use backupchief_agent.Updater.{
  Request, Problem, call_failed, DurableState, preflight, Call, works, fails, dies, Arrival, tick,
  deadline, done, killed, written, Machine, Act, ◌>>=◌, continue, answer, file_call, calls_after,
  next_call, left_behind, query, change_package, write_state, remove_readiness, Status, complete,
  failed, ResultCode, success, already_installed, target_not_newer, preflight_failed,
  installation_failed, rollback_failed, readiness_failed_rolled_back, Result,
}
use backupchief_agent.Updater.Run.{wait_for_readiness, wait_ticks, arrive, is_ready}

-- What is to hold after a part that answers, and after one during which the helper dies.
unfoldable pub Post :
    {A : Type 0} → (A → Machine → Type 0) → (Machine → Type 0) → Option A → Machine → Type 0
Post Q D none m = D m
Post Q D (some a) m = Q a m

-- A call and what follows it, by the call's three outcomes.
pub answer-Post :
    (Q : Option Problem → Machine → Type 0) (D : Machine → Type 0) (c : Call)
    (effect : Machine → Machine) (harm : Option Text → Machine → Machine)
    (k : Option Problem → Act (Option Problem)) (m : Machine)
    → Post Q D (k none (effect m)).0 (k none (effect m)).1
    → ((l : Option Text)
        → Post Q D (k (some call_failed) (harm l m)).0 (k (some call_failed) (harm l m)).1)
    → ((l : Option Text) → D (harm l m))
    → Post Q D
        (continue (answer c effect harm m).0 k (answer c effect harm m).1).0
        (continue (answer c effect harm m).0 k (answer c effect harm m).1).1
unfolding answer continue Post
answer-Post Q D works effect harm k m ok bad dead = ok
answer-Post Q D (fails l) effect harm k m ok bad dead = bad l
answer-Post Q D (dies l) effect harm k m ok bad dead = dead l

module _ (q₀ : Request) (v₀ : Text) where
  -- The request as the helper keeps it: with the version that was installed at first.
  abbrev pub kept_request : Request
  kept_request = record q₀ { previous_version = v₀ }

  -- The state on the disk tells the first version; without one, or before the installation, that
  -- version is installed.
  unfoldable pub Recorded : Option DurableState → Text → Type 0
  Recorded none i = i ≡ v₀
  Recorded (some s) i =
      (s.request ≡ record q₀ { previous_version = v₀ })
      × (s.previous_package_version ≡ v₀)
      × (s.phase ≡ preflight → i ≡ v₀)

  abbrev pub At : Option DurableState → Text → Machine → Type 0
  At st i m = (m.request_file ≡ some q₀) × (m.state_file ≡ st) × (m.installed ≡ i)

  -- As long as the request is there, the first version is recorded.
  abbrev pub Remembers : Machine → Type 0
  Remembers m =
      (m.request_file ≡ none) ⊎ ((m.request_file ≡ some q₀) × Recorded m.state_file m.installed)

  -- What a result with a code, a status, a previous version `p` and an installed version `v` says
  -- about the version `i` that is installed.
  unfoldable pub CodeTruth : ResultCode → Status → Text → Text → Text → Type 0
  CodeTruth success s p v i =
      (s ≡ complete) × (p ≡ v₀) × (v ≡ q₀.target_version) × (i ≡ q₀.target_version)
  CodeTruth already_installed s p v i =
      (s ≡ complete) × (p ≡ v₀) × (v ≡ q₀.target_version) × (i ≡ q₀.target_version)
  CodeTruth target_not_newer s p v i = (s ≡ failed) × (p ≡ v₀) × (v ≡ v₀) × (i ≡ v₀)
  CodeTruth readiness_failed_rolled_back s p v i = (s ≡ failed) × (p ≡ v₀) × (v ≡ v₀) × (i ≡ v₀)
  CodeTruth preflight_failed s p v i = s ≡ failed
  CodeTruth installation_failed s p v i = (s ≡ failed) × (p ≡ v₀)
  CodeTruth rollback_failed s p v i = (s ≡ failed) × (p ≡ v₀)

  -- The update is over: its request is gone, and its result is true.
  abbrev pub Reported : Machine → Type 0
  Reported m =
      (m.request_file ≡ none)
      × (r : Result) × (m.result_file ≡ some r)
      × (r.run_id ≡ q₀.run_id)
      × (r.target_version ≡ q₀.target_version)
      × CodeTruth r.result_code r.status r.previous_version r.installed_version m.installed

  abbrev pub Ends : Option Problem → Machine → Type 0
  Ends e m = Remembers m × (e ≡ none → Reported m)

  -- A part that may end the helper keeps the record, and an end without an error is a true report.
  abbrev pub Safe : Act (Option Problem) → Option DurableState → Text → Type 0
  Safe act st i = (m : Machine) → At st i m → Post Ends Remembers (act m).0 (act m).1

  pub At-Remembers :
      (st : Option DurableState) (i : Text) (m : Machine) → Recorded st i → At st i m → Remembers m
  At-Remembers st i m h (a, b, c) =
      inr (a, subst (λ s. Recorded s m.installed) (sym b) (subst (λ x. Recorded st x) (sym c) h))

  -- A query, or another call that leaves request, state and package alone.
  pub then_file_call :
      (f : Machine → Machine)
      → ((m : Machine) → (f m).request_file ≡ m.request_file)
      → ((m : Machine) → (f m).state_file ≡ m.state_file)
      → ((m : Machine) → (f m).installed ≡ m.installed)
      → (k : Option Problem → Act (Option Problem)) (st : Option DurableState) (i : Text)
      → Recorded st i
      → ((e : Option Problem) → Safe (k e) st i)
      → Safe (file_call f >>= k) st i
  then_file_call f fr fs fi k st i h rest m (a, b, c) =
      let m' : Machine = record m { calls = calls_after m.calls } in
      answer-Post Ends Remembers (next_call m.calls) f (λ l m. m) k m'
        (rest none (f m') (fr m' ∙ a, fs m' ∙ b, fi m' ∙ c))
        (λ l. rest (some call_failed) m' (a, b, c)) (λ l. At-Remembers st i m' h (a, b, c))

  pub then_query :
      (k : Option Problem → Act (Option Problem)) (st : Option DurableState) (i : Text)
      → Recorded st i
      → ((e : Option Problem) → Safe (k e) st i)
      → Safe (query >>= k) st i
  then_query = then_file_call (λ m. m) (λ m. refl) (λ m. refl) (λ m. refl)

  pub then_remove_readiness :
      (k : Option Problem → Act (Option Problem)) (st : Option DurableState) (i : Text)
      → Recorded st i
      → ((e : Option Problem) → Safe (k e) st i)
      → Safe (remove_readiness >>= k) st i
  then_remove_readiness =
      then_file_call (λ m. record m { readiness_file = none }) (λ m. refl) (λ m. refl) (λ m. refl)

  -- A write of the state, which leaves the old one if it fails.
  pub then_write_state :
      (s : DurableState) (k : Option Problem → Act (Option Problem)) (st : Option DurableState)
      (i : Text)
      → Recorded st i
      → Safe (k none) (some s) i
      → ((p : Problem) → Safe (k (some p)) st i)
      → Safe (write_state s >>= k) st i
  then_write_state s k st i h rest bad m (a, b, c) =
      let m' : Machine = record m { calls = calls_after m.calls } in
      answer-Post Ends Remembers (next_call m.calls) (λ m. record m { state_file = some s })
        (λ l m. m) k m' (rest (record m' { state_file = some s }) (a, refl, c))
        (λ l. bad call_failed m' (a, b, c)) (λ l. At-Remembers st i m' h (a, b, c))

  left_At :
      (l : Option Text) (st : Option DurableState) (i : Text) (m : Machine)
      → At st i m
      → (i' : Text) × At st i' (left_behind l m)
  left_At none st i m at = (i, at)
  left_At (some v) st i m (a, b, c) = (v, (a, b, refl))

  -- A call of the package manager, whose failure may leave any version: the state on the disk has to
  -- tell the first one whatever is installed.
  pub then_change_package :
      (v : Text) (k : Option Problem → Act (Option Problem)) (st : Option DurableState) (i : Text)
      → ((i' : Text) → Recorded st i')
      → Safe (k none) st v
      → ((p : Problem) (i' : Text) → Safe (k (some p)) st i')
      → Safe (change_package v >>= k) st i
  then_change_package v k st i h rest bad m (a, b, c) =
      let m' : Machine = record m { calls = calls_after m.calls } in
      answer-Post Ends Remembers (next_call m.calls) (λ m. record m { installed = v }) left_behind k
        m' (rest (record m' { installed = v }) (a, b, refl))
        (λ l.
          let (i', at) = left_At l st i m' (a, b, c) in bad call_failed i' (left_behind l m') at)
        (λ l.
          let (i', at) = left_At l st i m' (a, b, c) in
          At-Remembers st i' (left_behind l m') (h i') at)

  abbrev Waited : Option DurableState → Text → Option (Option Problem) → Machine → Type 0
  Waited st i = Post (λ e. At st i) (At st i)

  arrive-At :
      (x : Arrival) (next : Act (Option Problem)) (st : Option DurableState) (i : Text)
      → ((m : Machine) → At st i m → Waited st i (next m).0 (next m).1)
      → (m : Machine) → At st i m
      → Waited st i (arrive x next m).0 (arrive x next m).1
  unfolding arrive Post
  arrive-At tick next st i h m at = h m at
  arrive-At deadline next st i h m at = at
  arrive-At done next st i h m at = at
  arrive-At killed next st i h m at = at
  arrive-At (written r) next st i h m at = h (record m { readiness_file = some r }) at

  wait_ticks-At :
      (later : List Arrival) (q : Request) (v : Text) (st : Option DurableState) (i : Text)
      (m : Machine)
      → At st i m
      → Waited st i (wait_ticks later q v m).0 (wait_ticks later q v m).1
  unfolding wait_ticks Post
  wait_ticks-At [] q v st i m at = elim (Bool-cases (is_ready q v m.readiness_file)) [
    | inl e ↦ rw e at
    | inr e ↦ rw e at
  ]
  wait_ticks-At (x ∷ later) q v st i m at = elim (Bool-cases (is_ready q v m.readiness_file)) [
    | inl e ↦ rw e at
    | inr e ↦ rw e (
        arrive-At x (wait_ticks later q v) st i (wait_ticks-At later q v st i)
          (record m { arrivals = later }) at)
  ]

  after_wait :
      (o : Option (Option Problem)) (m : Machine) (k : Option Problem → Act (Option Problem))
      (st : Option DurableState) (i : Text)
      → Recorded st i
      → ((e : Option Problem) → Safe (k e) st i)
      → Waited st i o m
      → Post Ends Remembers (continue o k m).0 (continue o k m).1
  unfolding continue Post
  after_wait none m k st i h rest at = At-Remembers st i m h at
  after_wait (some e) m k st i h rest at = rest e m at

  pub then_wait :
      (q : Request) (v : Text) (k : Option Problem → Act (Option Problem))
      (st : Option DurableState) (i : Text)
      → Recorded st i
      → ((e : Option Problem) → Safe (k e) st i)
      → Safe (wait_for_readiness q v >>= k) st i
  unfolding wait_for_readiness
  then_wait q v k st i h rest m at =
      let (o, m') = wait_ticks m.arrivals q v m in
      after_wait o m' k st i h rest (wait_ticks-At m.arrivals q v st i m at)
