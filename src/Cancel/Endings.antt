-- ===== src/Cancel/Endings.antt =====
-- How an entry ends that was not run.
use backupchief_agent.Base.{
  ◌≡◌, ◌≢◌, Option-cases, ◌⊎◌, ◌↔◌, refl, ap, ◌∙◌, String, true, false, none, some, str_eq, eq_iff,
  Bool-cases, inl, inr, arith, lookup, insert, lookup-insert_self,
}
use backupchief_agent.Protocol.{
  JournalCommand, Status, cancelled, failed, finished, CommandResult, unset,
}
use backupchief_agent.Store.{is_scheduled}
use backupchief_agent.Daemon.{Daemon, Outcome, save_journal}
use backupchief_agent.Daemon.Saves.{save_journal_lem}
use backupchief_agent.Events.Entries.{append_finished-SameRun}
use backupchief_agent.Events.Sequences.{IsSequenced, HasRoom, append_finished-Keeps}
use backupchief_agent.Finish.Entries.{Ended, Ended-SameRun}
use backupchief_agent.Cancel.{
  is_sync, sync_code, sync_status, unexecuted, finish_sync, finish_other, finish_without_execution,
}

-- The entry is in the journal, and on disk too unless the operation gives an error.
abbrev pub Kept : String → JournalCommand → Outcome → Type 0
Kept id c (err, d) =
    (lookup id d.journal ≡ some c) × ((err ≢ none) ⊎ (lookup id d.store.journal ≡ some c))

save-Kept :
    (id : String) (c : JournalCommand) (d : Daemon)
    → Kept id c (save_journal (record d { journal = insert id c d.journal }))
save-Kept id c d =
    let put = record d { journal = insert id c d.journal } in
    let saved = save_journal_lem put in
    let there = lookup-insert_self id c d.journal in
    (
      ap (λ (x : Daemon). lookup id x.journal) saved.only_store ∙ there,
      elim (Option-cases (save_journal put).0) [
        | inl ok ↦ inr (ap (λ j. lookup id j) (saved.saved ok).0 ∙ there)
        | inr (err, bad) ↦ inl (λ e. cc (e, bad))
      ],
    )

module _ (id : String) (status : Status) (code summary : String) (d : Daemon)
    (c : JournalCommand) where
  finish_other-Ended :
      Ended (unexecuted c status code summary d) (finish_other status code summary c d).0
  unfolding finish_other
  finish_other-Ended =
      let result = unexecuted c status code summary d in
      let ended = record c { state = finished; result = some result } in
      Ended-SameRun result ended _ (append_finished-SameRun result ended d) (refl, refl)

  finish_other-IsSequenced :
      IsSequenced c → HasRoom 1 c → IsSequenced (finish_other status code summary c d).0
  unfolding finish_other
  finish_other-IsSequenced h room =
      let result = unexecuted c status code summary d in
      (append_finished-Keeps result (record c { state = finished; result = some result }) d h
        room).0

  -- The end without execution of an entry that is not a replica's synchronisation: afterwards it is
  -- finished with the result that was given, for its own run, its event numbers are in order if they
  -- were and one is left, its result is to be reported unless the schedule started it, and without an
  -- error it is so on disk.
  pub finish_without_execution-Ended :
      lookup id d.journal ≡ some c
      → is_sync c.command.kind ≡ false
      → IsSequenced c
      → HasRoom 1 c
      → (c' : JournalCommand) × Kept id c' (finish_without_execution id status code summary d)
        × Ended (unexecuted c status code summary d) c'
        × IsSequenced c'
        × (c'.result_reported ≡ is_scheduled c.trigger)
  unfolding finish_without_execution finish_other
  finish_without_execution-Ended there other ordered room =
      let result = unexecuted c status code summary d in
      let ended = record c { state = finished; result = some result } in
      let (c', d') = finish_other status code summary c d in
      rw (there, finish_without_execution, other)
        (
          c',
          save-Kept id c' d',
          finish_other-Ended,
          finish_other-IsSequenced ordered room,
          ap (λ x. is_scheduled x.trigger) (append_finished-SameRun result ended d),
        )

-- The codes that the control plane takes for a synchronisation.
abbrev pub IsSyncCode : String → Type 0
IsSyncCode code =
    (code ≡ "copy_failed")
    ⊎ (code ≡ "cancelled")
    ⊎ (code ≡ "timed_out")
    ⊎ (code ≡ "execution_failed")

sync_code-IsSyncCode : (code : String) → IsSyncCode (sync_code code)
sync_code-IsSyncCode code =
    let e₁ = (eq_iff code "copy_failed").0 in
    let e₂ = (eq_iff code "cancelled").0 in
    let e₃ = (eq_iff code "timed_out").0 in
    let e₄ = (eq_iff code "execution_failed").0 in ground (arith, e₁, e₂, e₃, e₄)

sync_status_iff :
    (code : String)
    → ((sync_status code ≡ cancelled) ↔ (code ≡ "cancelled"))
      × ((sync_status code ≡ cancelled) ⊎ (sync_status code ≡ failed))
sync_status_iff code =
    let (to, from) = eq_iff code "cancelled" in
    elim (Bool-cases (str_eq code "cancelled")) [
      | inl same ↦ rw same ((λ h. to same, λ h. refl), inl refl)
      | inr other ↦ rw other ((λ h. cc, λ h. cc (from h, other)), inr refl)
    ]

-- The end without execution of a replica's synchronisation, whatever status and code are given:
-- afterwards the entry is finished, with a result that has one of the four codes of a
-- synchronisation, that is cancelled if and only if its code is, and else failed, and that has no
-- kind of run; no event is added, and the result is to be reported.
pub finish_without_execution-IsSyncCode :
    (id : String) (status : Status) (code summary : String) (d : Daemon) (c : JournalCommand)
    → lookup id d.journal ≡ some c
    → is_sync c.command.kind ≡ true
    → (c' : JournalCommand) × (result : CommandResult) × Kept id c'
        (finish_without_execution id status code summary d)
      × Ended result c'
      × IsSyncCode result.result_code
      × ((result.status ≡ cancelled) ↔ (result.result_code ≡ "cancelled"))
      × ((result.status ≡ cancelled) ⊎ (result.status ≡ failed))
      × (result.run_kind ≡ unset)
      × (c'.events ≡ c.events)
      × (c'.result_reported ≡ false)
unfolding finish_without_execution finish_sync
finish_without_execution-IsSyncCode id status code summary d c there sync =
    let c' = finish_sync code summary c d in
    rw (there, finish_without_execution, sync)
      (
        c',
        _,
        save-Kept id c' d,
        (refl, refl),
        sync_code-IsSyncCode code,
        (sync_status_iff (sync_code code)).0,
        (sync_status_iff (sync_code code)).1,
        refl,
        refl,
        refl,
      )
