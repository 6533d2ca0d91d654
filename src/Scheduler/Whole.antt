-- ===== src/Scheduler/Whole.antt =====
-- What a round of the scheduler leaves, over all its operations.
use backupchief_agent.Base.{
  ◌≡◌, refl, sym, subst, ap, ◌∙◌, ◌⊎◌, Bool, true, false, ℕ, List, [], ◌∷◌, Option, none, some,
  Option-cases, Bool-cases, inl, inr, is_some, Memᴰ, All,
}
use backupchief_agent.Store.{
  Store, Err, first_opening, rest_openings, is_known, occurrence_exists, can_accept_work,
}
use backupchief_agent.Store.Memory.{Remembers}
use backupchief_agent.Start.{critical_run_record_estimate}
use backupchief_agent.Start.Memory.{Remembers-refl, Remembers-trans}
use backupchief_agent.Scheduler.{Cron, ScheduledOperation, Configuration, first_due_schedule}
use backupchief_agent.Scheduler.Rounds.{
  Round, handle_occurrence, handle_read, with_store, key_of, is_queued, schedule_operations,
}
use backupchief_agent.Scheduler.Once.{
  Handles, skip_occurrence-Handles, refuse-Handles, enter_occurrence-Handles,
}

-- The round with the openings of the database that are left.
abbrev pub with_openings : List (Option Err) → Round → Round
with_openings es r = with_store (record r.daemon.store { openings = es }) r

-- No opening of the database for a read fails.
abbrev pub IsReadable : Round → Type 0
IsReadable r = All (λ e. e ≡ none) r.daemon.store.openings

IsReadable-first : (es : List (Option Err)) → All (λ e. e ≡ none) es → first_opening es ≡ none
IsReadable-first [] h = refl
IsReadable-first (e ∷ es) h = h.0

IsReadable-rest :
    (es : List (Option Err)) → All (λ e. e ≡ none) es → All (λ e. e ≡ none) (rest_openings es)
IsReadable-rest [] h = tt
IsReadable-rest (e ∷ es) h = h.1

module _ (g : Configuration) (draining : Bool) (minute at : ℕ) (op : ScheduledOperation)
    (r : Round) where
  abbrev opened : Round
  opened = with_openings (rest_openings r.daemon.store.openings) r

  handle_occurrence_read :
      first_opening r.daemon.store.openings ≡ none
      → handle_occurrence g draining minute at op r
        ≡ handle_read g draining minute at op (is_known (key_of op at) r.daemon.store) opened
  unfolding handle_occurrence occurrence_exists
  handle_occurrence_read e = simp (handle_occurrence, occurrence_exists, e)

  handle_occurrence_unread :
      (err : Err)
      → first_opening r.daemon.store.openings ≡ some err
      → handle_occurrence g draining minute at op r ≡ (some err, opened)
  unfolding handle_occurrence occurrence_exists
  handle_occurrence_unread err e = simp (handle_occurrence, occurrence_exists, e)

  -- An occurrence that is known is left alone.
  handle_occurrence_known :
      IsReadable r
      → is_known (key_of op at) r.daemon.store ≡ true
      → handle_occurrence g draining minute at op r ≡ (none, opened)
  unfolding handle_read
  handle_occurrence_known readable known =
      handle_occurrence_read (IsReadable-first _ readable) ∙ rw (handle_read, known) refl

  handle_read-Handles :
      let key = key_of op at in
      let o = handle_read g draining minute at op (is_known key r.daemon.store) r in
      Handles key r.daemon.store o.0 o.1.daemon.store
  unfolding handle_read
  handle_read-Handles =
      let key = key_of op at in
      elim (Bool-cases (is_known key r.daemon.store)) [
        | inl known ↦ rw (handle_read, known) (Remembers-refl r.daemon.store, λ e. known)
        | inr unknown ↦ elim (Bool-cases (is_queued draining op r.daemon.journal)) [
          | inl queued ↦ rw (unknown, queued) (skip_occurrence-Handles key r.daemon)
          | inr free ↦
              elim (Bool-cases (can_accept_work critical_run_record_estimate r.daemon.store)) [
                | inl room ↦
                    rw (unknown, free, room) (enter_occurrence-Handles g draining minute at op r)
                | inr full ↦ rw (unknown, free, full) (refuse-Handles key r.daemon)
              ]
        ]
      ]

module _ (g : Configuration) (draining : Bool) (minute at : ℕ) (op : ScheduledOperation)
    (r : Round) where
  handle_occurrence-Handles :
      let o = handle_occurrence g draining minute at op r in
      Handles (key_of op at) r.daemon.store o.0 o.1.daemon.store
  unfolding is_known
  handle_occurrence-Handles = elim (Option-cases (first_opening r.daemon.store.openings)) [
    | inl e ↦ rw (handle_occurrence_read g draining minute at op r e) (
        handle_read-Handles g draining minute at op
          (with_openings (rest_openings r.daemon.store.openings) r))
    | inr (err, e) ↦
        rw (handle_occurrence_unread g draining minute at op r err e)
          (Remembers-refl r.daemon.store, λ h. cc)
  ]

Due-cases :
    (o : Option (ℕ × Bool))
    → (o ≡ none) ⊎ ((at : ℕ) × ((o ≡ some (at, true)) ⊎ (o ≡ some (at, false))))
Due-cases none = inl refl
Due-cases (some (at, true)) = inr (at, inl refl)
Due-cases (some (at, false)) = inr (at, inr refl)

module _ (k : Cron) (g : Configuration) (draining : Bool) (after minute : ℕ) where
  -- The occurrences of the operations that are due are known to the store.
  abbrev pub Known : List ScheduledOperation → Store → Type 0
  Known ops s =
      (op : ScheduledOperation) (at : ℕ)
      → Memᴰ op ops
      → first_due_schedule k op.expression after minute ≡ some (at, true)
      → is_known (key_of op at) s ≡ true

  abbrev pub round_of : List ScheduledOperation → Round → Option Err × Round
  round_of = schedule_operations k g draining after minute

  Known-later :
      (x : ScheduledOperation) (ops : List ScheduledOperation) (at : ℕ) (s : Store)
      → first_due_schedule k x.expression after minute ≡ some (at, false)
      → Known ops s
      → Known (x ∷ ops) s
  Known-later x ops at s later known op at' (Memᴰ.head e) due =
      let same : first_due_schedule k op.expression after minute ≡ some (at, false) =
        ap (λ y. first_due_schedule k y.expression after minute) e ∙ later in
      absurd (cc (same, due))
  Known-later x ops at s later known op at' (Memᴰ.tail h) due = known op at' h due

  Known-due :
      (x : ScheduledOperation) (ops : List ScheduledOperation) (at : ℕ) (s : Store)
      → first_due_schedule k x.expression after minute ≡ some (at, true)
      → is_known (key_of x at) s ≡ true
      → Known ops s
      → Known (x ∷ ops) s
  Known-due x ops at s due there known op at' (Memᴰ.head e) due' =
      let same : first_due_schedule k op.expression after minute ≡ some (at, true) =
        ap (λ y. first_due_schedule k y.expression after minute) e ∙ due in
      let e' : at' ≡ at = cc (same, due') in
      subst (λ n. is_known (key_of op n) s ≡ true) (sym e')
        (subst (λ y. is_known (key_of y at) s ≡ true) (sym e) there)
  Known-due x ops at s due there known op at' (Memᴰ.tail h) due' = known op at' h due'

  module _ (x : ScheduledOperation) (ops : List ScheduledOperation) (at : ℕ) (r : Round) where
    abbrev turn : Option Err × Round
    turn = handle_occurrence g draining minute at x r

    round_later :
        first_due_schedule k x.expression after minute ≡ some (at, false)
        → round_of (x ∷ ops) r ≡ round_of ops r
    unfolding schedule_operations
    round_later later = rw (later, schedule_operations) refl

    round_done :
        first_due_schedule k x.expression after minute ≡ some (at, true)
        → turn.0 ≡ none
        → round_of (x ∷ ops) r ≡ round_of ops turn.1
    unfolding schedule_operations
    round_done due ok = rw (due, schedule_operations) (rw (ok, schedule_operations) refl)

    round_failed :
        (err : Err)
        → first_due_schedule k x.expression after minute ≡ some (at, true)
        → turn.0 ≡ some err
        → round_of (x ∷ ops) r ≡ (some err, turn.1)
    unfolding schedule_operations
    round_failed err due bad = rw (due, schedule_operations) (rw (bad, schedule_operations) refl)

  schedule_operations-Known :
      (ops : List ScheduledOperation) (r : Round)
      → Remembers r.daemon.store (round_of ops r).1.daemon.store
        × ((round_of ops r).0 ≡ none → Known ops (round_of ops r).1.daemon.store)
  unfolding schedule_operations
  schedule_operations-Known [] r = (Remembers-refl r.daemon.store, λ e op at h due. elim h [ ])
  schedule_operations-Known (x ∷ ops) r =
      elim (Due-cases (first_due_schedule k x.expression after minute)) [
        | inl bad ↦ rw (bad, schedule_operations) (Remembers-refl r.daemon.store, λ e. cc)
        | inr (at, inr later) ↦
            let (kept, known) = schedule_operations-Known ops r in
            rw (round_later x ops at r later) (kept, λ e. Known-later x ops at _ later (known e))
        | inr (at, inl due) ↦
            let (first, there) = handle_occurrence-Handles g draining minute at x r in
            let r' = (turn x ops at r).1 in
            elim (Option-cases (turn x ops at r).0) [
              | inr (err, bad) ↦ rw (round_failed x ops at r err due bad) (first, λ e. cc)
              | inl ok ↦
                  let (kept, known) = schedule_operations-Known ops r' in
                  rw (round_done x ops at r due ok) (
                    Remembers-trans r.daemon.store r'.daemon.store _ first kept,
                    λ e. Known-due x ops at _ due (kept (key_of x at) (there ok)) (known e),
                  )
            ]
      ]

  -- No round forgets an occurrence that was known, whichever calls and saves fail.
  pub schedule_operations-Remembers :
      (ops : List ScheduledOperation) (r : Round)
      → Remembers r.daemon.store (round_of ops r).1.daemon.store
  schedule_operations-Remembers ops r = (schedule_operations-Known ops r).0

  -- After a round that gives no error, each occurrence that was due in it is known to the store: it
  -- has a run, or it was skipped.
  pub schedule_operations_known :
      (ops : List ScheduledOperation) (r : Round) (op : ScheduledOperation) (at : ℕ)
      → (round_of ops r).0 ≡ none
      → Memᴰ op ops
      → first_due_schedule k op.expression after minute ≡ some (at, true)
      → is_known (key_of op at) (round_of ops r).1.daemon.store ≡ true
  schedule_operations_known ops r op at ok h due =
      (schedule_operations-Known ops r).1 ok op at h due

  -- A round over operations whose due occurrences are all known, and whose expressions are all
  -- schedules, changes nothing and gives no error, if no opening of the database for a read fails;
  -- it uses up such openings alone.
  pub schedule_operations_again :
      (ops : List ScheduledOperation) (r : Round)
      → IsReadable r
      → ((op : ScheduledOperation)
          → Memᴰ op ops
          → is_some (first_due_schedule k op.expression after minute) ≡ true)
      → Known ops r.daemon.store
      → (es : List (Option Err)) × (round_of ops r ≡ (none, with_openings es r))
  unfolding schedule_operations is_known
  schedule_operations_again [] r readable valid known = (r.daemon.store.openings, refl)
  schedule_operations_again (x ∷ ops) r readable valid known =
      let left = rest_openings r.daemon.store.openings in
      let later_valid : (op : ScheduledOperation)
          → Memᴰ op ops
          → is_some (first_due_schedule k op.expression after minute) ≡ true =
        λ op h. valid op (Memᴰ.tail h) in
      let rest =
        schedule_operations_again ops (with_openings left r) (IsReadable-rest _ readable)
          later_valid (λ op at h. known op at (Memᴰ.tail h)) in
      let not_due =
        schedule_operations_again ops r readable later_valid
          (λ op at h. known op at (Memᴰ.tail h)) in
      elim (Due-cases (first_due_schedule k x.expression after minute)) [
        | inl bad ↦ absurd (let v = valid x (Memᴰ.head refl) in cc (v, bad))
        | inr (at, inr later) ↦ (not_due.0, round_later x ops at r later ∙ not_due.1)
        | inr (at, inl due) ↦
            let same =
              handle_occurrence_known g draining minute at x r readable
                (known x at (Memᴰ.head refl) due) in
            (
              rest.0,
              round_done x ops at r due (ap (λ o. o.0) same)
                  ∙ ap (λ (o : Option Err × Round). round_of ops o.1) same
                  ∙ rest.1,
            )
      ]
