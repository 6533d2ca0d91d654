-- ===== src/Reporting/Whole.antt =====
-- A whole report of an entry, and of a journal, by the parts of `flushCommand`.
use backupchief_agent.Base.{
  ℕ, zero, suc, ◌-◌, ◌+◌, ◌*◌, ◌≡◌, refl, sym, subst, ap, ◌∙◌, inl, inr, String, true, false, ◌||◌,
  List, [], ◌∷◌, Option, none, some, str_eq, if◌then◌else◌, arith, Bool-cases, Option-cases, lookup,
  insert, delete, lookup-insert_self, length, take, drop, Memᴰ,
}
use backupchief_agent.Protocol.{AgentEvent, JournalCommand}
use backupchief_agent.Store.{Err}
use backupchief_agent.Retired.{maximum_log_chunk, chunks}
use backupchief_agent.Daemon.{save_journal, is_nonempty}
use backupchief_agent.Daemon.Saves.{save_journal_lem}
use backupchief_agent.Reporting.{
  Around, Flusher, after_call, flush_events, change_entry, call_and_change,
}
use backupchief_agent.Reporting.Journal.{
  upload_chunks, complete_log_of, flush_log, flush_result, remove_done, flush_parts, flush_command,
  read_checksummed_run_log, is_done, compact_if_pressured,
}
use backupchief_agent.Reporting.Accounts.{
  Accounted, Extends, after_call-Accounted, flush_events-Accounted,
}
use backupchief_agent.Reporting.Flows.{
  either_way, either_end, either_save, either_removal, either_if,
}

-- An entry that is done has no event.
done-empty : {e : AgentEvent} (c : JournalCommand) → is_done c ≡ true → ¬ Memᴰ e c.events
done-empty {e} c done =
    let none_left : is_nonempty c.events ≡ false = ground (arith, done) in
    no_event c.events none_left
  where
    no_event : (es : List AgentEvent) → is_nonempty es ≡ false → ¬ Memᴰ e es
    no_event [] h m = elim m [ ]
    no_event (x ∷ xs) h m = cc h

module _ (a : Around) (id : String) (extends : Extends id a) (e : AgentEvent) where
  change_entry-Accounted :
      (g : JournalCommand → JournalCommand) (f : Flusher)
      → ((c : JournalCommand) → (g c).events ≡ c.events)
      → Accounted e id f
      → Accounted e id (change_entry id g f).1
  unfolding change_entry
  change_entry-Accounted g f same h = elim (Option-cases (lookup id f.daemon.journal)) [
    | inl gone ↦ rw (gone, change_entry) h
    | inr (c, there) ↦
        let put = record f.daemon { journal = insert id (g c) f.daemon.journal } in
        let saved : (save_journal put).1.journal ≡ put.journal =
          ap (λ x. x.journal) (save_journal_lem put).only_store in
        let own : lookup id (save_journal put).1.journal ≡ some (g c) =
          ap (λ j. lookup id j) saved ∙ lookup-insert_self id (g c) f.daemon.journal in
        rw (there, change_entry)
          (either_save (Accounted e id) (save_journal put).0
            (record f { daemon = (save_journal put).1 })
            (elim h [
              | inl taken ↦ inl taken
              | inr (inl (x, here, m)) ↦
                  let e₁ : c ≡ x = cc (here, there) in
                  inr (
                    inl (
                      g c,
                      own,
                      subst (λ es. Memᴰ e es) (ap (λ y. y.events) (sym e₁) ∙ sym (same c)) m,
                    ))
              | inr (inr gone) ↦ inr (inr gone)
            ]))
  ]

  call_and_change-Accounted :
      (reply : Option Err) (g : JournalCommand → JournalCommand) (f : Flusher)
      → ((c : JournalCommand) → (g c).events ≡ c.events)
      → Accounted e id f
      → Accounted e id (call_and_change a reply id g f).1
  unfolding call_and_change
  call_and_change-Accounted (some err) g f same h = after_call-Accounted a id extends e f h
  call_and_change-Accounted none g f same h =
      change_entry-Accounted g (after_call a f) same (after_call-Accounted a id extends e f h)

  upload_chunks-Accounted :
      (c : JournalCommand) (log : List ℕ) (n index : ℕ) (f : Flusher)
      → Accounted e id f
      → Accounted e id (upload_chunks a id c log n index f).1
  unfolding upload_chunks
  upload_chunks-Accounted c log zero index f h = h
  upload_chunks-Accounted c log (suc n) index f h =
      let offset = index * maximum_log_chunk in
      let reply =
        a.plane.upload_log_chunk f.calls c.run_id c.log_id index offset
          (take maximum_log_chunk (drop offset log)) in
      let next = λ (x : JournalCommand). record x { next_log_chunk = index + 1 } in
      let first = call_and_change-Accounted reply next f (λ x. refl) h in
      let (flow, f') = call_and_change a reply id next f in
      either_way (Accounted e id) flow f' (upload_chunks a id c log n (index + 1) f') first
        (upload_chunks-Accounted c log n (index + 1) f' first)

  complete_log_of-Accounted :
      (c : JournalCommand) (f : Flusher)
      → Accounted e id f
      → Accounted e id (complete_log_of a id c f).1
  unfolding complete_log_of
  complete_log_of-Accounted c f h = elim (Option-cases (lookup id f.daemon.journal)) [
    | inl gone ↦ rw (gone, complete_log_of) h
    | inr (current, there) ↦
        rw (there, complete_log_of) (call_and_change-Accounted _ _ f (λ x. refl) h)
  ]

  flush_log-Accounted :
      (c : JournalCommand) (f : Flusher) → Accounted e id f → Accounted e id (flush_log a id c f).1
  unfolding flush_log
  flush_log-Accounted c f h = elim (Bool-cases (str_eq c.log_id "" || c.log_completed)) [
    | inl over ↦ rw over h
    | inr due ↦ elim (Option-cases (read_checksummed_run_log a.disk c.log_id c.log_sha256)) [
      | inl bad ↦ rw (due, bad) h
      | inr (log, good) ↦
          let n = chunks (length log) - c.next_log_chunk in
          let sent = upload_chunks-Accounted c log n c.next_log_chunk f h in
          let (flow, f') = upload_chunks a id c log n c.next_log_chunk f in
          rw (due, good)
            (either_way (Accounted e id) flow f' (complete_log_of a id c f') sent
              (complete_log_of-Accounted c f' sent))
    ]
  ]

  flush_result-Accounted :
      (c : JournalCommand) (f : Flusher)
      → Accounted e id f
      → Accounted e id (flush_result a id c f).1
  unfolding flush_result
  flush_result-Accounted c f h = elim (Bool-cases c.result_reported) [
    | inl over ↦ rw over h
    | inr due ↦ elim (Option-cases c.update_result) [
      | inr (r, some_update) ↦ rw (due, some_update) (call_and_change-Accounted _ _ f (λ x. refl) h)
      | inl no_update ↦ elim (Option-cases c.result) [
        | inl no_result ↦ rw (due, no_update, no_result) h
        | inr (r, some_result) ↦
            rw (due, no_update, some_result) (call_and_change-Accounted _ _ f (λ x. refl) h)
      ]
    ]
  ]

  remove_done-Accounted :
      (c : JournalCommand) (f : Flusher)
      → Accounted e id f
      → Accounted e id (remove_done a id c f).1
  unfolding remove_done
  remove_done-Accounted c f h = elim (Option-cases (lookup id f.daemon.journal)) [
    | inl gone ↦ rw (gone, remove_done) h
    | inr (current, there) ↦ elim (Bool-cases (is_done current)) [
      | inr due ↦ rw (there, remove_done, due) h
      | inl done ↦
          let d = (save_journal (record f.daemon { journal = delete id f.daemon.journal })).1 in
          let e₀ = (save_journal (record f.daemon { journal = delete id f.daemon.journal })).0 in
          rw (there, remove_done, done)
            (either_removal (Accounted e id) e₀
              (if str_eq c.log_id "" then none else a.disk.remove_run_log c.log_id)
              (compact_if_pressured a.disk d.store) (record f { daemon = d })
              (elim h [
                | inl taken ↦ inl taken
                | inr (inl (x, here, m)) ↦
                    let same : x ≡ current = cc (here, there) in
                    absurd (done-empty current done (subst (λ y. Memᴰ e y.events) same m))
                | inr (inr gone) ↦ inr (inr gone)
              ]))
    ]
  ]

  flush_parts-Accounted :
      (c : JournalCommand) (f : Flusher)
      → lookup id f.daemon.journal ≡ some c
      → Memᴰ e c.events
      → Accounted e id (flush_parts a id c f).1
  unfolding flush_parts
  flush_parts-Accounted c f there h =
      let h₁ = flush_events-Accounted a id extends e c f there h in
      let (flow₁, f₁) = flush_events a id c f in
      let h₂ = flush_log-Accounted c f₁ h₁ in
      let (flow₂, f₂) = flush_log a id c f₁ in
      let h₃ = flush_result-Accounted c f₂ h₂ in
      let (flow₃, f₃) = flush_result a id c f₂ in
      let P = Accounted e id in
      let end₃ = either_end P flow₃ f₃ (remove_done a id c f₃) h₃ (remove_done-Accounted c f₃ h₃) in
      let end₂ = either_end P flow₂ f₂ _ h₂ end₃ in either_end P flow₁ f₁ _ h₁ end₂

  -- While the other goroutines only add events to the entry, no report of it loses an event of the
  -- entry, whichever calls and saves fail and whatever the control plane answers: afterwards the
  -- control plane has taken the event, or it is in the entry, or it was rejected and given up; and
  -- the end of a run or of a replication, or a chunk of an inventory, is never given up.
  pub flush_command-Accounted :
      (c : JournalCommand) (f : Flusher)
      → lookup id f.daemon.journal ≡ some c
      → Memᴰ e c.events
      → Accounted e id (flush_command a id f).1
  unfolding flush_command
  flush_command-Accounted c f there h =
      rw (there, flush_command)
        (either_if (Accounted e id) c.acknowledged (flush_parts a id c f) (none, f)
          (flush_parts-Accounted c f there h) (inr (inl (c, there, h))))
