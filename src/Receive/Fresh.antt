-- ===== src/Receive/Fresh.antt =====
-- What the entry of a new command is, said without the code.
use backupchief_agent.Base.{
  ℕ, true, false, [], ◌≡◌, refl, sym, ap, ◌∙◌, String, Option, none, some, arith, lookup,
}
use backupchief_agent.Protocol.{
  AgentCommand, JournalCommand, AgentUpdateRuntime, CommandKind, run_backup, run_maintenance,
  inspect_source, sync_replica, update_agent, cancel_run, scheduled_run, other_kind, backup,
  inspection, replica_sync, agent_update, received, manual,
}
use backupchief_agent.Daemon.{Daemon, fresh_id}
use backupchief_agent.Receive.{is_update, needs_run_id, run_kind_for, new_entry, assign_run}

-- The update that the daemon remembers is that of the command and the entry.
abbrev pub Remembered : AgentCommand → JournalCommand → Daemon → Type 0
Remembered c e d' =
    (u : AgentUpdateRuntime) × (d'.state.agent_update ≡ some u)
    × (u.command_id ≡ c.id)
    × (u.run_id ≡ e.run_id)
    × (u.target_version ≡ c.payload.target_version)

-- The run of an entry by the kind of its command: the kinds that run something get the identifier
-- `fresh`, if one could be made, and the others the one of the payload. An update is remembered.
abbrev pub HasRun : CommandKind → AgentCommand → Option String → JournalCommand → Daemon → Type 0
HasRun run_backup c fresh e d' = (e.run_kind ≡ backup) × (fresh ≡ some e.run_id)
HasRun run_maintenance c fresh e d' = (e.run_kind ≡ c.payload.maintenance) × (fresh ≡ some e.run_id)
HasRun inspect_source c fresh e d' = (e.run_kind ≡ inspection) × (fresh ≡ some e.run_id)
HasRun sync_replica c fresh e d' = (e.run_kind ≡ replica_sync) × (fresh ≡ some e.run_id)
HasRun update_agent c fresh e d' =
    (e.run_kind ≡ agent_update) × (fresh ≡ some e.run_id) × Remembered c e d'
HasRun cancel_run c fresh e d' =
    (e.run_kind ≡ c.payload.maintenance) × (e.run_id ≡ c.payload.run_id)
HasRun scheduled_run c fresh e d' =
    (e.run_kind ≡ c.payload.maintenance) × (e.run_id ≡ c.payload.run_id)
HasRun (other_kind t) c fresh e d' =
    (e.run_kind ≡ c.payload.maintenance) × (e.run_id ≡ c.payload.run_id)

-- The daemon `d'` has the command of `d` as an entry that waits, unacknowledged, from the time of
-- `d` on, with no event, result or log of its own.
abbrev pub Received : AgentCommand → Daemon → Daemon → Type 0
Received c d d' =
    (e : JournalCommand) × (lookup c.id d'.journal ≡ some e)
    × (e.command ≡ c)
    × (e.state ≡ received)
    × (e.acknowledged ≡ false)
    × (e.trigger ≡ manual)
    × (e.received_at ≡ d.clock)
    × (e.config_revision ≡ c.payload.required_config_revision)
    × (e.maintenance_plan ≡ c.payload.maintenance_plan)
    × (e.sequence ≡ 0)
    × (e.events ≡ [])
    × (e.result ≡ none)
    × (e.update_result ≡ none)
    × (e.log_id ≡ "")
    × HasRun c.kind c (fresh_id d).0 e d'

module _ (c : AgentCommand) (run : String) (d : Daemon) (at : ℕ) (d' : Daemon) where
  kind_of :
      (kind : CommandKind)
      → c.kind ≡ kind
      → run_kind_for c.kind c.payload.maintenance ≡ run_kind_for kind c.payload.maintenance
  kind_of kind same = ap (λ k. run_kind_for k c.payload.maintenance) same

  fresh :
      {kind : CommandKind}
      → c.kind ≡ kind
      → needs_run_id kind ≡ true
      → (assign_run c d).0 ≡ some run
      → (fresh_id d).0 ≡ some run
  unfolding assign_run
  fresh same needs assigned =
      let goes : assign_run c d ≡ fresh_id d = simp (assign_run, ap needs_run_id same, needs) in
      sym (ap (λ x. x.0) goes) ∙ assigned

  own :
      {kind : CommandKind}
      → c.kind ≡ kind
      → needs_run_id kind ≡ false
      → (assign_run c d).0 ≡ some run
      → run ≡ c.payload.run_id
  unfolding assign_run
  own same needless assigned =
      let goes : assign_run c d ≡ (some c.payload.run_id, d) =
        simp (assign_run, ap needs_run_id same, needless) in
      cc (ap (λ x. x.0) goes, assigned)

  -- The run of a new entry, of a command of a given kind.
  pub new_entry-HasRun :
      (kind : CommandKind)
      → c.kind ≡ kind
      → (assign_run c d).0 ≡ some run
      → (is_update kind ≡ true → Remembered c (new_entry c run at) d')
      → HasRun kind c (fresh_id d).0 (new_entry c run at) d'
  new_entry-HasRun run_backup same assigned update =
      (kind_of run_backup same, fresh same refl assigned)
  new_entry-HasRun run_maintenance same assigned update =
      (kind_of run_maintenance same, fresh same refl assigned)
  new_entry-HasRun inspect_source same assigned update =
      (kind_of inspect_source same, fresh same refl assigned)
  new_entry-HasRun sync_replica same assigned update =
      (kind_of sync_replica same, fresh same refl assigned)
  new_entry-HasRun update_agent same assigned update =
      (kind_of update_agent same, fresh same refl assigned, update refl)
  new_entry-HasRun cancel_run same assigned update =
      (kind_of cancel_run same, own same refl assigned)
  new_entry-HasRun scheduled_run same assigned update =
      (kind_of scheduled_run same, own same refl assigned)
  new_entry-HasRun (other_kind t) same assigned update =
      (kind_of (other_kind t) same, own same refl assigned)

-- The run is assigned before the entry is made, at the same time.
pub assign_run-clock : (c : AgentCommand) (d : Daemon) → (assign_run c d).1.clock ≡ d.clock
unfolding assign_run fresh_id
assign_run-clock c d = ground arith
