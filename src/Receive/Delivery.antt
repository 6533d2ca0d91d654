-- ===== src/Receive/Delivery.antt =====
-- Delivery of commands: once in the journal, durable when acknowledged to the caller, undone on error.
use backupchief_agent.Base.{
  true, ◌≡◌, refl, sym, ◌↔◌, ap, ◌∙◌, ◌≢◌, String, Option, none, some, arith, lookup, insert,
  delete, lookup-insert, lookup-delete, lookup-insert_self, eq_iff,
}
use backupchief_agent.Protocol.{AgentCommand, JournalCommand, same_command_iff}
use backupchief_agent.Receive.Fresh.{Remembered, Received, new_entry-HasRun, assign_run-clock}
use backupchief_agent.Daemon.{Daemon, fresh_id, save_journal, save_state}
use backupchief_agent.Daemon.Saves.{save_journal_lem, save_state_lem}
use backupchief_agent.Receive.{
  is_update, new_entry, update_runtime, begin_update, enter, enter_as, assign_run, receive_new,
  receive_command,
}

module _ (c : AgentCommand) (run : String) (d : Daemon) where
  -- The daemon with the new entry, and after its save.
  entered : Daemon
  entered = record d { journal = insert c.id (new_entry c run d.clock) d.journal }

  updating : Daemon
  updating =
      let d₁ = (save_journal entered).1 in
      record d₁ { state = record d₁.state { agent_update = some (update_runtime c run d₁) } }

  enter_ok :
      (enter c run d).0 ≡ none
      → (lookup c.id (enter c run d).1.journal ≡ some (new_entry c run d.clock))
        × ((enter c run d).1.store.journal ≡ (enter c run d).1.journal)
  unfolding enter begin_update entered updating
  enter_ok h =
      let saved = save_journal_lem entered in
      let updated = save_state_lem updating in
      let there = lookup-insert_self c.id (new_entry c run d.clock) d.journal in
      (ground (arith, saved.only_store, there), ground (arith, saved.only_store, saved.saved))

  -- An error takes the new entry out again.
  enter_error :
      lookup c.id d.journal ≡ none
      → (enter c run d).0 ≢ none
      → (j : String)
      → (lookup j (enter c run d).1.journal ≡ lookup j d.journal)
        × ((enter c run d).1.state ≡ d.state)
  unfolding enter begin_update entered updating
  enter_error absent bad j =
      let saved = save_journal_lem entered in
      let updated = save_state_lem updating in
      let d₁ = (save_state updating).1 in
      let undone =
        save_journal_lem (record d₁ { state = d.state; journal = delete c.id d₁.journal }) in
      let put = lookup-insert c.id j (new_entry c run d.clock) d.journal in
      let taken = lookup-delete c.id j entered.journal in
      (
        ground (
          arith,
          saved.only_store,
          updated.only_store,
          undone.only_store,
          put,
          taken,
          eq_iff c.id j,
        ),
        ground (arith, saved.only_store, updated.only_store, undone.only_store),
      )

module _ (c : AgentCommand) (d : Daemon) where
  assign_run_state : ((assign_run c d).1.journal ≡ d.journal) × ((assign_run c d).1.state ≡ d.state)
  unfolding assign_run fresh_id
  assign_run_state = (ground arith, ground arith)

module _ (c : AgentCommand) (run : String) (d : Daemon) where
  -- An update that was entered without an error is remembered.
  enter-Remembered :
      is_update c.kind ≡ true
      → (enter c run d).0 ≡ none
      → Remembered c (new_entry c run d.clock) (enter c run d).1
  unfolding enter begin_update entered updating
  enter-Remembered update h =
      let saved = save_journal_lem (entered c run d) in
      let updated = save_state_lem (updating c run d) in
      (
        update_runtime c run (save_journal (entered c run d)).1,
        ground (arith, updated.only_store, update),
        refl,
        refl,
        refl,
      )

enter_as_error :
    (c : AgentCommand) (run : Option String) (d : Daemon)
    → lookup c.id d.journal ≡ none
    → (enter_as c run d).0 ≢ none
    → (j : String)
    → (lookup j (enter_as c run d).1.journal ≡ lookup j d.journal)
      × ((enter_as c run d).1.state ≡ d.state)
unfolding enter_as
enter_as_error c none d absent bad j = (refl, refl)
enter_as_error c (some run) d absent bad j = enter_error c run d absent bad j

receive_command-absent :
    (c : AgentCommand) (d : Daemon)
    → lookup c.id d.journal ≡ none
    → receive_command c d ≡ enter_as c (assign_run c d).0 (assign_run c d).1
unfolding receive_command receive_new
receive_command-absent c d absent = rw (absent, receive_command)

enter_as-Received :
    (c : AgentCommand) (d : Daemon) (run : Option String)
    → (assign_run c d).0 ≡ run
    → (enter_as c run (assign_run c d).1).0 ≡ none
    → Received c d (enter_as c run (assign_run c d).1).1
      × ((enter_as c run (assign_run c d).1).1.store.journal
          ≡ (enter_as c run (assign_run c d).1).1.journal)
unfolding enter_as
enter_as-Received c d none assigned h = absurd (cc h)
enter_as-Received c d (some run) assigned h =
    let d₁ = (assign_run c d).1 in
    let (there, durable) = enter_ok c run d₁ h in
    let ran =
      new_entry-HasRun c run d d₁.clock (enter c run d₁).1 c.kind refl assigned
        (λ update. enter-Remembered c run d₁ update h) in
    (
      (
        new_entry c run d₁.clock,
        there,
        refl,
        refl,
        refl,
        refl,
        assign_run-clock c d,
        refl,
        refl,
        refl,
        refl,
        refl,
        refl,
        refl,
        ran,
      ),
      durable,
    )

-- A command whose identifier is new to the journal, and whose receipt returns no error, is in the
-- journal as an entry that waits since then, unacknowledged, with the command's revision and plan and
-- with no event, result or log; where its kind runs something, the entry has the new identifier that
-- was made and the kind of run that belongs to it, and an update is remembered; other kinds have the
-- payload's run. The journal on disk is the one in memory.
pub receive_command_durable :
    (c : AgentCommand) (d : Daemon)
    → lookup c.id d.journal ≡ none
    → (receive_command c d).0 ≡ none
    → Received c d (receive_command c d).1
      × ((receive_command c d).1.store.journal ≡ (receive_command c d).1.journal)
receive_command_durable c d absent ok =
    let e = receive_command-absent c d absent in
    rw e (enter_as-Received c d (assign_run c d).0 refl (rw e at ok))

-- A command whose identifier is new to the journal, and whose receipt returns an error, changes no
-- entry of the journal and not the runtime state.
pub receive_command_error :
    (c : AgentCommand) (d : Daemon)
    → lookup c.id d.journal ≡ none
    → (receive_command c d).0 ≢ none
    → ((receive_command c d).1.state ≡ d.state)
      × ((j : String) → lookup j (receive_command c d).1.journal ≡ lookup j d.journal)
receive_command_error c d absent bad =
    let e = receive_command-absent c d absent in
    let (run, d₁) = assign_run c d in
    let (journal, state) = assign_run_state c d in
    let bad' : (enter_as c run d₁).0 ≢ none = λ h. bad (rw e h) in
    let same = enter_as_error c run d₁ (rw journal absent) bad' in
    (rw e ((same c.id).1 ∙ state), λ j. rw e ((same j).0 ∙ ap (lookup j) journal))

receive_command-known :
    (c : AgentCommand) (d : Daemon) (entry : JournalCommand)
    → lookup c.id d.journal ≡ some entry
    → ((receive_command c d).1 ≡ d) × (((receive_command c d).0 ≡ none) ↔ (entry.command ≡ c))
unfolding receive_command
receive_command-known c d entry there =
    let same = same_command_iff entry.command c in
    (ground arith, (λ h. ground arith, λ h. ground arith))

-- After a command whose identifier was new to the journal was received without an error, the receipt
-- of a second command with this identifier changes nothing, and gives no error exactly if the second
-- command is the first.
pub receive_command_again :
    (c c' : AgentCommand) (d : Daemon)
    → lookup c.id d.journal ≡ none
    → (receive_command c d).0 ≡ none
    → c'.id ≡ c.id
    → let d' = (receive_command c d).1 in
      ((receive_command c' d').1 ≡ d') × (((receive_command c' d').0 ≡ none) ↔ (c' ≡ c))
receive_command_again c c' d absent ok same_id =
    let d' = (receive_command c d).1 in
    let entered_there = (receive_command_durable c d absent ok).0 in
    let there = entered_there.1 in
    let is_c = entered_there.2 in
    let found : lookup c'.id d'.journal ≡ some entered_there.0 =
      ap (λ id. lookup id d'.journal) same_id ∙ there in
    let (kept, (to, from)) = receive_command-known c' d' entered_there.0 found in
    (kept, (λ h. sym (to h) ∙ is_c, λ h. from (is_c ∙ sym h)))
