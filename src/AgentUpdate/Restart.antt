-- ===== src/AgentUpdate/Restart.antt =====
-- What the restored state says of the update.
use backupchief_agent.Base.{
  ◌≡◌, refl, ap, ◌∙◌, sym, String, Bool, true, false, Option, none, some, Option-cases, inl, inr,
  arith, ◌⊎◌, List, [], ◌∷◌, Dict, lookup, eq_iff, if◌then◌else◌, Bool-cases, All,
}
use backupchief_agent.Protocol.{JournalCommand, AgentUpdateRuntime}
use backupchief_agent.Retired.{insert_text}
use backupchief_agent.Daemon.{Daemon, save_state}
use backupchief_agent.Daemon.Saves.{save_state_lem}
use backupchief_agent.AgentUpdate.{
  is_unfinished_update, unfinished_updates, chosen_update, restored_runtime, same_runtime,
  restore_from, clear_orphan, with_restored, restore_agent_update_state,
}

if-All :
    (Q : String → Type 0) (b : Bool) (xs ys : List String)
    → All Q xs
    → All Q ys
    → All Q (if b then xs else ys)
if-All Q true xs ys h k = h
if-All Q false xs ys h k = k

insert_text-All :
    (Q : String → Type 0) (x : String) (xs : List String)
    → Q x
    → All Q xs
    → All Q (insert_text x xs)
unfolding insert_text
insert_text-All Q x [] q qs = (q, qs)
insert_text-All Q x (y ∷ ys) q (qy, qs) =
    let ih = insert_text-All Q x ys q qs in
    if-All Q _ (y ∷ insert_text x ys) (x ∷ y ∷ ys) (qy, ih) (q, (qy, qs))

-- An identifier with an unfinished update.
abbrev pub IsUnfinished : Dict JournalCommand → String → Type 0
IsUnfinished j id = (c : JournalCommand) × (lookup id j ≡ some c) × (is_unfinished_update c ≡ true)

unfinished_updates-IsUnfinished :
    (whole j : Dict JournalCommand)
    → All (λ e. lookup e.0 whole ≡ some e.1) j
    → All (IsUnfinished whole) (unfinished_updates j)
unfolding unfinished_updates
unfinished_updates-IsUnfinished whole [] h = tt
unfinished_updates-IsUnfinished whole ((id, c) ∷ j) (here, h) =
    let ih = unfinished_updates-IsUnfinished whole j h in
    elim (Bool-cases (is_unfinished_update c)) [
      | inl e ↦ rw e (insert_text-All (IsUnfinished whole) id _ (c, here, e) ih)
      | inr e ↦ rw e ih
    ]

chosen_update-IsUnfinished :
    (first : String) (d : Daemon)
    → IsUnfinished d.journal first
    → IsUnfinished d.journal (chosen_update first d)
unfolding chosen_update
chosen_update-IsUnfinished first d h = elim (Option-cases d.state.agent_update) [
  | inl e ↦ rw (chosen_update, e) h
  | inr (u, e) ↦ elim (Option-cases (lookup u.command_id d.journal)) [
    | inl e' ↦ rw (chosen_update, e, e') h
    | inr (c, e') ↦ elim (Bool-cases (is_unfinished_update c)) [
      | inl e'' ↦ rw (chosen_update, e, e', e'') (c, e', e'')
      | inr e'' ↦ rw (chosen_update, e, e', e'') h
    ]
  ]
]

same_runtime_lem :
    (u : Option AgentUpdateRuntime) (v : AgentUpdateRuntime) → same_runtime u v ≡ true → u ≡ some v
unfolding same_runtime
same_runtime_lem none v h = absurd cc
same_runtime_lem (some u) v h =
    let same_fields : (u.command_id ≡ v.command_id)
        × (u.run_id ≡ v.run_id)
        × (u.target_version ≡ v.target_version)
        × (u.started_at ≡ v.started_at)
        × (u.last_schedule_minute ≡ v.last_schedule_minute) =
      ground (
        arith,
        eq_iff u.command_id v.command_id,
        eq_iff u.run_id v.run_id,
        eq_iff u.target_version v.target_version,
      ) in
    cc (same_fields.0, same_fields.1, same_fields.2, same_fields.3, same_fields.4)

-- Nothing is left of an update, or the state has one that the journal has unfinished.
abbrev pub Restored : Daemon → Type 0
Restored d =
    ((d.state.agent_update ≡ none) × (unfinished_updates d.journal ≡ []))
    ⊎ ((u : AgentUpdateRuntime) × (c : JournalCommand) × (d.state.agent_update ≡ some u)
        × (lookup u.command_id d.journal ≡ some c)
        × (is_unfinished_update c ≡ true)
        × (u.run_id ≡ c.run_id)
        × (u.target_version ≡ c.command.payload.target_version))

save_state-Same :
    (d : Daemon)
    → (save_state d).0 ≡ none
    → let d' = (save_state d).1 in
      (d'.journal ≡ d.journal)
      × (d'.state.agent_update ≡ d.state.agent_update)
      × (d'.store.runtime ≡ d'.state)
save_state-Same d ok =
    let stated = save_state_lem d in
    (
      ap (λ (x : Daemon). x.journal) stated.only_store,
      ap (λ (x : Daemon). x.state.agent_update) stated.only_store,
      stated.saved ok ∙ sym (ap (λ (x : Daemon). x.state) stated.only_store),
    )

restore_from_lem :
    (id : String) (c : JournalCommand) (d : Daemon)
    → d.store.runtime ≡ d.state
    → (restore_from id c d).0 ≡ none
    → let d' = (restore_from id c d).1 in
      (d'.journal ≡ d.journal)
      × (d'.state.agent_update ≡ some (restored_runtime id c d.state.agent_update))
      × (d'.store.runtime ≡ d'.state)
unfolding restore_from with_restored
restore_from_lem id c d h ok =
    let restored = restored_runtime id c d.state.agent_update in
    elim (Bool-cases (same_runtime d.state.agent_update restored)) [
      | inl e ↦
          rw (restore_from, e)
            (refl, refl, h ∙ ap (λ a. record d.state { agent_update = a }) (same_runtime_lem _ _ e))
      | inr e ↦
          let saves : restore_from id c d ≡ save_state (with_restored restored d) =
            rw (restore_from, e) refl in
          rw saves (save_state-Same (with_restored restored d) (sym (ap (λ x. x.0) saves) ∙ ok))
    ]

clear_orphan_lem :
    (d : Daemon)
    → d.store.runtime ≡ d.state
    → (clear_orphan d).0 ≡ none
    → let d' = (clear_orphan d).1 in
      (d'.journal ≡ d.journal) × (d'.state.agent_update ≡ none) × (d'.store.runtime ≡ d'.state)
unfolding clear_orphan
clear_orphan_lem d h ok = elim (Option-cases d.state.agent_update) [
  | inl e ↦ rw (clear_orphan, e) (refl, e, h)
  | inr (u, e) ↦
      let cleared = record d { state = record d.state { agent_update = none } } in
      let saves : clear_orphan d ≡ save_state cleared = rw (clear_orphan, e) refl in
      rw saves (save_state-Same cleared (sym (ap (λ x. x.0) saves) ∙ ok))
]

-- What is restored, in memory and on disk.
abbrev pub IsRestored : Daemon → Daemon → Type 0
IsRestored d d' = Restored d' × (d'.journal ≡ d.journal) × (d'.store.runtime ≡ d'.state)

restore_from-IsRestored :
    (id : String) (d : Daemon)
    → d.store.runtime ≡ d.state
    → IsUnfinished d.journal id
    → (c : JournalCommand) → lookup id d.journal ≡ some c
    → (restore_from id c d).0 ≡ none
    → IsRestored d (restore_from id c d).1
unfolding restored_runtime
restore_from-IsRestored id d h (own, there, unfinished) c here ok =
    let (journal, update, runtime) = restore_from_lem id c d h ok in
    let same : own ≡ c = cc (there, here) in
    (
      inr (
        restored_runtime id c d.state.agent_update,
        c,
        update,
        ap (λ j. lookup id j) journal ∙ here,
        sym (ap is_unfinished_update same) ∙ unfinished,
        refl,
        refl,
      ),
      journal,
      runtime,
    )

restore-IsRestored :
    (d : Daemon) (ids : List String)
    → unfinished_updates d.journal ≡ ids
    → All (IsUnfinished d.journal) ids
    → d.store.runtime ≡ d.state
    → (restore_agent_update_state d).0 ≡ none
    → IsRestored d (restore_agent_update_state d).1
unfolding restore_agent_update_state
restore-IsRestored d [] e all h ok =
    let clears : restore_agent_update_state d ≡ clear_orphan d =
      rw (restore_agent_update_state, e) refl in
    let (journal, update, runtime) = clear_orphan_lem d h (sym (ap (λ x. x.0) clears) ∙ ok) in
    rw clears (inl (update, ap unfinished_updates journal ∙ e), journal, runtime)
restore-IsRestored d (first ∷ rest) e (here, all) h ok =
    let (c, there, unfinished) = chosen_update-IsUnfinished first d here in
    let restores : restore_agent_update_state d ≡ restore_from (chosen_update first d) c d =
      rw (restore_agent_update_state, e, there) refl in
    rw restores (
      restore_from-IsRestored (chosen_update first d) d h (c, there, unfinished) c there
        (sym (ap (λ x. x.0) restores) ∙ ok))

-- A restart with a journal in which each entry is found under its key, and with the runtime state as
-- it is on disk: without an error, the journal is the same, the state in memory is the one on disk,
-- and either no update is remembered and the journal has no unfinished one, or the remembered update
-- is an unfinished one of the journal, with the run and the target version of its entry.
pub restore_agent_update_state-IsRestored :
    (d : Daemon)
    → All (λ e. lookup e.0 d.journal ≡ some e.1) d.journal
    → d.store.runtime ≡ d.state
    → (restore_agent_update_state d).0 ≡ none
    → IsRestored d (restore_agent_update_state d).1
restore_agent_update_state-IsRestored d found h ok =
    restore-IsRestored d (unfinished_updates d.journal) refl
      (unfinished_updates-IsUnfinished d.journal d.journal found) h ok
