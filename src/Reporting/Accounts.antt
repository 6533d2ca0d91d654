-- ===== src/Reporting/Accounts.antt =====
-- No event of an entry is lost by its report.
use backupchief_agent.Base.{
  ℕ, ◌≡◌, refl, sym, subst, ap, ◌∙◌, ◌⊎◌, inl, inr, String, true, false, List, [], ◌∷◌, ◌++◌, some,
  arith, Bool-cases, lookup, lookup-insert_self, length, take, drop, Memᴰ, Memᴰ-take-drop,
}
use mathlib.Core.List.Memᴰ
use backupchief_agent.Protocol.{AgentEvent, JournalCommand}
use backupchief_agent.Store.{Err}
use backupchief_agent.Retired.{maximum_event_batch}
use backupchief_agent.Daemon.{Daemon, save_journal, save_state, is_nonempty}
use backupchief_agent.Daemon.Saves.{save_journal_lem, save_state_lem}
use backupchief_agent.Reporting.{
  Verdict, matches_events, is_retained, is_rejected, retained_of, discarded_of, taken_of, Around,
  Flusher, take_off_batch, save_entry, batch_answered, flush_events, Answer, problem, results,
  ControlPlane, submit_events, after_call,
}

-- An event of a batch was taken, or it is retained, or it was discarded and is not of a kind that
-- is kept.
answered_cases :
    {e : AgentEvent} (es : List AgentEvent) (items : List (String × Verdict))
    → matches_events es items ≡ true
    → Memᴰ e es
    → Memᴰ e (taken_of es items)
      ⊎ (Memᴰ e (retained_of es items)
          ⊎ (Memᴰ e (discarded_of es items) × (is_retained e.event_kind ≡ false)))
unfolding matches_events taken_of retained_of discarded_of
answered_cases [] items ok h = elim h [ ]
answered_cases (x ∷ es) [] ok h = cc (ok)
answered_cases {e} (x ∷ es) ((id, v) ∷ items) ok (Memᴰ.head here) =
    elim (Bool-cases (is_rejected v)) [
      | inl bad ↦ elim (Bool-cases (is_retained x.event_kind)) [
        | inl kept ↦ rw (bad, kept) (inr (inl (Memᴰ.head here)))
        | inr other ↦
            rw (bad, other)
              (inr (inr (Memᴰ.head here, ap (λ y. is_retained y.event_kind) here ∙ other)))
      ]
      | inr good ↦ rw good (inl (Memᴰ.head here))
    ]
answered_cases (x ∷ es) ((id, v) ∷ items) ok (Memᴰ.tail later) =
    let rest = answered_cases es items (ground (arith, ok)) later in
    elim (Bool-cases (is_rejected v)) [
      | inl bad ↦ elim (Bool-cases (is_retained x.event_kind)) [
        | inl kept ↦ elim rest [
          | inl taken ↦ rw (bad, kept) (inl taken)
          | inr (inl retained) ↦ rw (bad, kept) (inr (inl (Memᴰ.tail retained)))
          | inr (inr discarded) ↦ rw (bad, kept) (inr (inr discarded))
        ]
        | inr other ↦ elim rest [
          | inl taken ↦ rw (bad, other) (inl taken)
          | inr (inl retained) ↦ rw (bad, other) (inr (inl retained))
          | inr (inr discarded) ↦ rw (bad, other) (inr (inr (Memᴰ.tail discarded.0, discarded.1)))
        ]
      ]
      | inr good ↦ elim rest [
        | inl taken ↦ rw good (inl (Memᴰ.tail taken))
        | inr other ↦ rw good (inr other)
      ]
    ]

-- The event is still in the entry of the journal.
abbrev pub InEntry : AgentEvent → String → Daemon → Type 0
InEntry e id d = (c : JournalCommand) × (lookup id d.journal ≡ some c) × Memᴰ e c.events

-- The control plane has taken the event, or it is in the entry, or it was given up, and is then not
-- the end of a run or a replication, and no chunk of an inventory.
abbrev pub Accounted : AgentEvent → String → Flusher → Type 0
Accounted e id f =
    Memᴰ e f.answered
    ⊎ (InEntry e id f.daemon ⊎ (Memᴰ e f.given_up × (is_retained e.event_kind ≡ false)))

-- During a call the other goroutines may add events to the entry, and do not take it out.
abbrev pub Extends : String → Around → Type 0
Extends id a =
    (n : ℕ) (d : Daemon) (c : JournalCommand)
    → lookup id d.journal ≡ some c
    → (c' : JournalCommand) × (more : List AgentEvent) × (lookup id (a.meanwhile n d).journal
        ≡ some c')
      × (c'.events ≡ c.events ++ more)

save_entry_journal : (id : String) (d : Daemon) → (save_entry id d).1.journal ≡ d.journal
unfolding save_entry
save_entry_journal id d =
    let saved : (save_journal d).1.journal ≡ d.journal =
      ap (λ x. x.journal) (save_journal_lem d).only_store in
    ground (arith, saved)

save_state_journal : (d : Daemon) → (save_state d).1.journal ≡ d.journal
save_state_journal d = ap (λ x. x.journal) (save_state_lem d).only_store

module _ (id : String) (c : JournalCommand) (batch : List AgentEvent)
    (items : List (String × Verdict)) (f : Flusher) where
  -- What an answered batch leaves, whichever saves fail.
  record Left (f' : Flusher) : Type 0 where
    more_answered : f'.answered ≡ f.answered ++ taken_of batch items
    more_given_up : f'.given_up ≡ f.given_up ++ discarded_of batch items
    same_journal : f'.daemon.journal ≡ (take_off_batch id batch items f.daemon).journal

  batch_answered-Left : Left (batch_answered id c batch items f).1
  unfolding batch_answered
  batch_answered-Left =
      let d = take_off_batch id batch items f.daemon in
      let (e₁, d₁) = save_entry id d in
      let e₂ = (save_state d₁).0 in
      let j₁ = save_entry_journal id d in
      let j₂ = save_state_journal d₁ ∙ j₁ in
      record {
        more_answered = ground (arith, j₁, j₂);
        more_given_up = ground (arith, j₁, j₂);
        same_journal = ground (arith, j₁, j₂);
      }

Answer-cases :
    (x : Answer)
    → ((err : Err) × (x ≡ problem err)) ⊎ ((items : List (String × Verdict)) × (x ≡ results items))
Answer-cases (problem err) = inl (err, refl)
Answer-cases (results items) = inr (items, refl)

submit_events-matches_events :
    (p : ControlPlane) (n : ℕ) (es : List AgentEvent) (items : List (String × Verdict))
    → submit_events p n es ≡ results items
    → matches_events es items ≡ true
unfolding submit_events
submit_events-matches_events p n es items h = ground (arith, h)

module _ (a : Around) (id : String) (extends : Extends id a) (e : AgentEvent) where
  after_call-InEntry : (f : Flusher) → InEntry e id f.daemon → InEntry e id (after_call a f).daemon
  after_call-InEntry f (c, there, h) =
      let (c', more, still, grown) = extends f.calls f.daemon c there in
      (c', still, subst (λ es. Memᴰ e es) (sym grown) (Memᴰ.append_left more h))

  pub after_call-Accounted : (f : Flusher) → Accounted e id f → Accounted e id (after_call a f)
  after_call-Accounted f (inl taken) = inl taken
  after_call-Accounted f (inr (inl there)) = inr (inl (after_call-InEntry f there))
  after_call-Accounted f (inr (inr gone)) = inr (inr gone)

  -- The event of the entry before the call, behind the answer.
  batch_answered-Accounted :
      (c c' : JournalCommand) (more : List AgentEvent) (items : List (String × Verdict))
      (f : Flusher)
      → Memᴰ e c.events
      → lookup id f.daemon.journal ≡ some c'
      → c'.events ≡ c.events ++ more
      → matches_events (take maximum_event_batch c.events) items ≡ true
      → Accounted e id (batch_answered id c (take maximum_event_batch c.events) items f).1
  unfolding take_off_batch
  batch_answered-Accounted c c' more items f h there grown ok =
      let batch = take maximum_event_batch c.events in
      let left = batch_answered-Left id c batch items f in
      let kept = retained_of batch items ++ drop (length batch) c'.events in
      let own : lookup id (take_off_batch id batch items f.daemon).journal
          ≡ some (record c' { events = kept }) =
        rw (there, take_off_batch)
          (lookup-insert_self id (record c' { events = kept }) f.daemon.journal) in
      let entry : lookup id (batch_answered id c batch items f).1.daemon.journal
          ≡ some (record c' { events = kept }) =
        ap (λ j. lookup id j) left.same_journal ∙ own in
      elim (Memᴰ-take-drop maximum_event_batch c.events more h) [
        | inl first ↦ elim (answered_cases batch items ok first) [
          | inl taken ↦ inl (
              subst (λ es. Memᴰ e es) (sym left.more_answered) (Memᴰ.append_right f.answered taken))
          | inr (inl retained) ↦
              inr (inl (_, entry, Memᴰ.append_left (drop (length batch) c'.events) retained))
          | inr (inr (discarded, kind)) ↦ inr (
              inr (
                subst (λ es. Memᴰ e es) (sym left.more_given_up)
                    (Memᴰ.append_right f.given_up discarded),
                kind,
              ))
        ]
        | inr behind ↦ inr (
            inl (
              _,
              entry,
              Memᴰ.append_right (retained_of batch items)
                  (subst (λ es. Memᴰ e (drop (length batch) es)) (sym grown) behind),
            ))
      ]

  pub flush_events-Accounted :
      (c : JournalCommand) (f : Flusher)
      → lookup id f.daemon.journal ≡ some c
      → Memᴰ e c.events
      → Accounted e id (flush_events a id c f).1
  unfolding flush_events
  flush_events-Accounted c f there h =
      let batch = take maximum_event_batch c.events in
      let (c', more, still, grown) = extends f.calls f.daemon c there in
      let first : Accounted e id f = inr (inl (c, there, h)) in
      elim (Bool-cases (is_nonempty c.events)) [
        | inr empty ↦ rw empty first
        | inl some_events ↦ elim (Answer-cases (submit_events a.plane f.calls batch)) [
          | inl (err, bad) ↦ rw (some_events, bad) (after_call-Accounted f first)
          | inr (items, good) ↦
              rw (some_events, good)
                (batch_answered-Accounted c c' more items (after_call a f) h still grown
                  (submit_events-matches_events a.plane f.calls batch items good))
        ]
      ]
