-- ===== src/AgentUpdate/Results.antt =====
-- What a result of the helper does to the journal, also when the save of the journal fails.
use backupchief_agent.Base.{
  [], ◌≡◌, ◌≢◌, refl, ap, ◌∙◌, sym, String, true, false, Option, none, some, Option-cases, inl, inr,
  arith, ◌∷◌, Dict, lookup, lookup-insert_self, lookup-insert, if◌then◌else◌, str_eq, eq_refl,
  Bool-cases,
}
use backupchief_agent.Protocol.{JournalCommand, AgentUpdateRuntime, AgentUpdateResult, finished}
use backupchief_agent.Store.{Err}
use backupchief_agent.Daemon.{Daemon, save_journal, save_state}
use backupchief_agent.Daemon.Saves.{save_journal_lem, save_state_lem}
use backupchief_agent.Receive.{is_update}
use backupchief_agent.AgentUpdate.{
  Files, Updating, is_of_runtime, with_result, has_result, remove_result, enter_result, take_result,
  consume_agent_update_result,
}

lookup-has_result :
    (r : AgentUpdateResult) (id : String) (c : JournalCommand) (j : Dict JournalCommand)
    → lookup id j ≡ some c
    → c.update_result ≡ some r
    → has_result r j ≡ true
unfolding has_result lookup
lookup-has_result r id c [] there own = absurd cc
lookup-has_result r id c ((k, x) ∷ j) there own =
    let ih = lookup-has_result r id c j in
    let same = eq_refl r.run_id in
    let same_target = eq_refl r.target_version in
    elim (Bool-cases (str_eq k id)) [
      | inl here ↦ let at : x ≡ c = cc (there, here) in rw (at, own, same, same_target) refl
      | inr other ↦ rw (ih (cc (there, other)) own) (ground arith)
    ]

with_result-has_result :
    (r : AgentUpdateResult) (id : String) (c : JournalCommand) (d : Daemon)
    → has_result r (with_result r id c d).journal ≡ true
unfolding with_result
with_result-has_result r id c d =
    lookup-has_result r id _ _ (lookup-insert_self id _ d.journal) refl

-- The state after the result `r` of the entry `c`: the entry is finished with the result, which is to
-- be reported, and keeps its command, run and events; the other entries are what they were; the
-- journal on disk is that in memory, no update is remembered, also on disk, and the file is gone.
abbrev pub Entered :
    AgentUpdateResult → String → JournalCommand → Updating → Option Err × Updating → Type 0
Entered r id c before (e, u) =
    ((c' : JournalCommand) × ((j : String)
        → lookup j u.daemon.journal
          ≡ (if str_eq id j then some c' else lookup j before.daemon.journal))
      × (c'.state ≡ finished)
      × (c'.update_result ≡ some r)
      × (c'.result_reported ≡ false)
      × (c'.command ≡ c.command)
      × (c'.run_id ≡ c.run_id)
      × (c'.events ≡ c.events))
    × (u.daemon.store.journal ≡ u.daemon.journal)
    × (u.daemon.state.agent_update ≡ none)
    × (u.daemon.store.runtime ≡ u.daemon.state)
    × (u.result_file ≡ none)

module _ (k : Files) (r : AgentUpdateResult) (id : String) (c : JournalCommand) (u : Updating) where
  abbrev over : Daemon
  over = with_result r id c u.daemon

  enter_result_unsaved :
      (err : Err)
      → (save_journal over).0 ≡ some err
      → enter_result k r id c u ≡ (some err, record u { daemon = (save_journal over).1 })
  unfolding enter_result
  enter_result_unsaved err e = simp (enter_result, e)

  enter_result_unstated :
      (save_journal over).0 ≡ none
      → (err : Err) → (save_state (save_journal over).1).0 ≡ some err
      → enter_result k r id c u
        ≡ (some err, record u { daemon = (save_state (save_journal over).1).1 })
  unfolding enter_result
  enter_result_unstated e err e' = simp (enter_result, e, e')

  enter_result_stated :
      (save_journal over).0 ≡ none
      → (save_state (save_journal over).1).0 ≡ none
      → enter_result k r id c u
        ≡ remove_result k (record u { daemon = (save_state (save_journal over).1).1 })
  unfolding enter_result
  enter_result_stated e e' = simp (enter_result, e, e')

  enter_result-Entered :
      (enter_result k r id c u).0 ≡ none → Entered r id c u (enter_result k r id c u)
  unfolding enter_result with_result remove_result
  enter_result-Entered h =
      let d = over in
      let saved = save_journal_lem d in
      let stated = save_state_lem (save_journal d).1 in
      elim (Option-cases (save_journal d).0) [
        | inr (err, bad) ↦ absurd (cc (h, enter_result_unsaved err bad))
        | inl e ↦ elim (Option-cases (save_state (save_journal d).1).0) [
          | inr (err, bad) ↦ absurd (cc (h, enter_result_unstated e err bad))
          | inl e' ↦
              let to_file = enter_result_stated e e' in
              let kept : (save_state (save_journal d).1).1.journal ≡ d.journal =
                ap (λ (x : Daemon). x.journal) stated.only_store
                ∙ ap (λ (x : Daemon). x.journal) saved.only_store in
              elim (Option-cases k.result_not_removed) [
                | inr (err, bad) ↦
                    let left : (remove_result k
                          (record u { daemon = (save_state (save_journal d).1).1 })).0
                        ≡ some err =
                      rw (remove_result, bad) refl in
                    absurd (cc (h, to_file, left))
                | inl removed ↦
                    rw (to_file, remove_result, removed)
                      (
                        (
                          _,
                          (λ j. ap (lookup j) kept ∙ lookup-insert id j _ u.daemon.journal),
                          refl,
                          refl,
                          refl,
                          refl,
                          refl,
                          refl,
                        ),
                        stated.same_journal ∙ (saved.saved e).0 ∙ sym kept,
                        ap (λ (x : Daemon). x.state.agent_update) stated.only_store
                            ∙ ap (λ (x : Daemon). x.state.agent_update) saved.only_store,
                        stated.saved e' ∙ sym (ap (λ (x : Daemon). x.state) stated.only_store),
                        refl,
                      )
              ]
        ]
      ]

  enter_result-failed :
      (save_journal over).0 ≢ none
      → let (e, u') = enter_result k r id c u in
        (e ≢ none)
        × (u'.daemon.journal ≡ over.journal)
        × (u'.daemon.state.agent_update ≡ none)
        × (u'.daemon.store.journal ≡ u.daemon.store.journal)
        × (u'.result_file ≡ u.result_file)
  unfolding enter_result with_result
  enter_result-failed h =
      let saved = save_journal_lem over in
      elim (Option-cases (save_journal over).0) [
        | inl e ↦ absurd (h e)
        | inr (err, e) ↦ rw (enter_result_unsaved err e) (
          λ none_there. cc none_there,
          ap (λ (x : Daemon). x.journal) saved.only_store,
          ap (λ (x : Daemon). x.state.agent_update) saved.only_store,
          (saved.kept h).0,
          refl,
        )
      ]

-- A result that an entry has already is taken away, and nothing else happens.
consume_again :
    (k : Files) (r : AgentUpdateResult) (u : Updating)
    → k.result_unread ≡ none
    → k.result_not_removed ≡ none
    → u.result_file ≡ some r
    → u.daemon.state.agent_update ≡ none
    → has_result r u.daemon.journal ≡ true
    → consume_agent_update_result k u ≡ (none, record u { result_file = none })
unfolding consume_agent_update_result take_result remove_result
consume_again k r u readable removable present over there = simp (
  consume_agent_update_result, readable, present, take_result, over, there, remove_result,
  removable,
)

-- The result of the update that the agent remembers.
module _ (k : Files) (r : AgentUpdateResult) (v : AgentUpdateRuntime) (c : JournalCommand)
    (u : Updating) (readable : k.result_unread ≡ none) (present : u.result_file ≡ some r)
    (remembered : u.daemon.state.agent_update ≡ some v)
    (matching : is_of_runtime r v u.daemon ≡ true)
    (there : lookup v.command_id u.daemon.journal ≡ some c)
    (update : is_update c.command.kind ≡ true) where
  consume-enter : consume_agent_update_result k u ≡ enter_result k r v.command_id c u
  unfolding consume_agent_update_result take_result
  consume-enter = simp (
    consume_agent_update_result, readable, present, take_result, remembered, matching, there,
    update,
  )

  -- A result of the update that is remembered, whose command is an update: without an error, the
  -- entry in memory is finished, keeps its command, run and events and has the result, which is to be
  -- reported; the other entries are what they were; the journal on disk is the one in memory; no
  -- update is remembered, also on disk; and the file is gone.
  pub consume_agent_update_result-Entered :
      (consume_agent_update_result k u).0 ≡ none
      → Entered r v.command_id c u (consume_agent_update_result k u)
  consume_agent_update_result-Entered h =
      rw consume-enter
        (enter_result-Entered k r v.command_id c u (sym (ap (λ x. x.0) consume-enter) ∙ h))

  -- The same result when the save of the journal fails: there is an error, and the next attempt, if it
  -- can read the file and remove it, gives none and removes it, although the journal on disk is what
  -- it was before the result came.
  pub consume_agent_update_result_lost :
      (save_journal (with_result r v.command_id c u.daemon)).0 ≢ none
      → (k' : Files) → k'.result_unread ≡ none
      → k'.result_not_removed ≡ none
      → let (e, u') = consume_agent_update_result k u in
        let (e', u'') = consume_agent_update_result k' u' in
        (e ≢ none)
        × (e' ≡ none)
        × (u''.result_file ≡ none)
        × (u''.daemon.store.journal ≡ u.daemon.store.journal)
  consume_agent_update_result_lost h k' readable' removable =
      let failed = enter_result-failed k r v.command_id c u h in
      let again =
        consume_again k' r (enter_result k r v.command_id c u).1 readable' removable
          (failed.4 ∙ present) failed.2
          (rw (failed.1) (with_result-has_result r v.command_id c u.daemon)) in
      rw consume-enter (
        failed.0,
        ap (λ x. x.0) again,
        ap (λ x. x.1.result_file) again,
        ap (λ x. x.1.daemon.store.journal) again ∙ failed.3,
      )
