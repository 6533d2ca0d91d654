-- ===== src/AgentUpdate/Handover.antt =====
-- What is on disk when the helper gets its request.
use backupchief_agent.Base.{
  ◌≡◌, ◌≢◌, refl, ap, ◌∙◌, String, true, false, Option, none, some, Option-cases, inl, inr, ◌⊎◌,
  lookup, insert, lookup-insert_self, Bool-cases,
}
use backupchief_agent.Protocol.{JournalCommand, AgentUpdateRuntime, running}
use backupchief_agent.Store.{Err}
use backupchief_agent.Daemon.{Daemon, save_journal}
use backupchief_agent.Daemon.Saves.{save_journal_lem}
use backupchief_agent.Start.{is_received}
use backupchief_agent.AgentUpdate.{
  Files, UpdateRequest, Updating, is_busy, hand_over, start_agent_update,
}

-- The journal in memory and on disk has the entry as running, and the request is for it.
abbrev pub HandedOver : String → JournalCommand → Updating → Updating → Type 0
HandedOver id c u u' =
    (q : UpdateRequest) × (u'.request_file ≡ some q)
    × (q.command_id ≡ id)
    × (q.run_id ≡ c.run_id)
    × (q.target_version ≡ c.command.payload.target_version)
    × (q.generation ≡ u.daemon.generation)
    × (lookup id u'.daemon.journal ≡ some (record c { state = running }))
    × (lookup id u'.daemon.store.journal ≡ some (record c { state = running }))

-- There is an error, no request is written, and the entry in memory is what it was.
abbrev pub Withdrawn : String → JournalCommand → Updating → Option Err × Updating → Type 0
Withdrawn id c u (e, u') =
    (e ≢ none) × (u'.request_file ≡ u.request_file) × (lookup id u'.daemon.journal ≡ some c)

module _ (k : Files) (version id : String) (c : JournalCommand) (r : AgentUpdateRuntime)
    (u : Updating) where
  abbrev started : Daemon
  started = record u.daemon { journal = insert id (record c { state = running }) u.daemon.journal }

  abbrev undone : Daemon
  undone = let d = (save_journal started).1 in record d { journal = insert id c d.journal }

  hand_over-cases :
      HandedOver id c u (hand_over k version id c r u).1
      ⊎ Withdrawn id c u (hand_over k version id c r u)
  unfolding hand_over
  hand_over-cases =
      let saved = save_journal_lem started in
      let there = lookup-insert_self id (record c { state = running }) u.daemon.journal in
      let back = lookup-insert_self id c (save_journal started).1.journal in
      elim (Option-cases (save_journal started).0) [
        | inr (err, e) ↦ rw (hand_over, e) (inr ((λ z. cc z), refl, back))
        | inl e ↦ elim (Option-cases k.request_unwritten) [
          | inr (err, e') ↦
              rw (hand_over, e, e')
                (inr (
                  (λ z. cc z),
                  refl,
                  ap (λ (x : Daemon). lookup id x.journal) (save_journal_lem undone).only_store
                      ∙ back,
                ))
          | inl e' ↦
              rw (hand_over, e, e')
                (inl (
                  _,
                  refl,
                  refl,
                  refl,
                  refl,
                  refl,
                  ap (λ (x : Daemon). lookup id x.journal) saved.only_store ∙ there,
                  ap (λ j. lookup id j) (saved.saved e).0 ∙ there,
                ))
        ]
      ]

  -- The start of an update whose entry is in the journal while an update is remembered. If the entry
  -- is received and nothing runs, then either the request of that entry is there and the journal in
  -- memory and on disk has the entry as running, or there is an error, no request is written and the
  -- entry in memory is what it was. Otherwise nothing happens.
  pub start_agent_update-cases :
      lookup id u.daemon.journal ≡ some c
      → u.daemon.state.agent_update ≡ some r
      → let result = start_agent_update k version id u in
        ((is_received c.state ≡ true)
          × (is_busy u.daemon ≡ false)
          × (HandedOver id c u result.1 ⊎ Withdrawn id c u result))
        ⊎ (((is_received c.state ≡ false) ⊎ (is_busy u.daemon ≡ true)) × (result ≡ (none, u)))
  unfolding start_agent_update
  start_agent_update-cases there remembered = elim (Bool-cases (is_received c.state)) [
    | inr e ↦ inr (inl e, simp (start_agent_update, there, remembered, e))
    | inl e ↦ elim (Bool-cases (is_busy u.daemon)) [
      | inl e' ↦ inr (inr e', simp (start_agent_update, there, remembered, e, e'))
      | inr e' ↦
          let goes : start_agent_update k version id u ≡ hand_over k version id c r u =
            simp (start_agent_update, there, remembered, e, e') in
          inl (e, e', rw goes hand_over-cases)
    ]
  ]
