-- ===== src/AgentUpdate.antt =====
-- The agent's side of its own update in agent/commands.go: `restoreAgentUpdateState`,
-- `startAgentUpdate` and `consumeAgentUpdateResult`. The files that it shares with the helper of
-- updater/updater.go are in the state, and `Files` has the errors of the calls on them. No minute is
-- the number 0, and a start time is always there. An operation that gives the mutex free for a call
-- is one step here all the same.
pub mod Handover
pub mod Restart
pub mod Results
mod Examples
use backupchief_agent.Base.{
  ℕ, String, Bool, true, false, not, ◌&&◌, ◌||◌, List, [], ◌∷◌, Option, none, some, str_eq, ◌==◌,
  if◌then◌else◌, Dict, lookup, insert, is_some,
}
use backupchief_agent.Protocol.{
  RunState, received, running, finished, JournalCommand, AgentUpdateRuntime, AgentUpdateResult,
}
use backupchief_agent.Store.{Err, refused}
use backupchief_agent.Daemon.{Daemon, Outcome, save_journal, save_state, is_nonempty}
use backupchief_agent.Retired.{insert_text}
use backupchief_agent.Start.{is_received}
use backupchief_agent.Receive.{is_update}

-- `updater.Request`, as the agent writes it.
pub record UpdateRequest : Type 0 where
  pub command_id : String
  pub run_id : String
  pub generation : ℕ
  pub previous_version : String
  pub target_version : String
  pub started_at : ℕ

pub record Files : Type 0 where
  pub result_unread : Option Err
  pub result_not_removed : Option Err
  pub request_unwritten : Option Err
  pub helper_not_launched : Option Err

pub record Updating : Type 0 where
  pub daemon : Daemon
  pub request_file : Option UpdateRequest
  pub result_file : Option AgentUpdateResult

abbrev pub is_finished : RunState → Bool
is_finished finished = true
is_finished _ = false

abbrev pub is_unfinished_update : JournalCommand → Bool
is_unfinished_update c = is_update c.command.kind && not (is_finished c.state)

-- The identifiers of the unfinished updates, sorted.
unfoldable pub unfinished_updates : Dict JournalCommand → List String
unfinished_updates [] = []
unfinished_updates ((id, c) ∷ j) =
    let rest = unfinished_updates j in if is_unfinished_update c then insert_text id rest else rest

-- The update that is remembered, if it is unfinished, and else the first one.
unfoldable pub chosen_update : String → Daemon → String
chosen_update first d = elim d.state.agent_update [
  | none ↦ first
  | some u ↦ elim (lookup u.command_id d.journal) [
    | none ↦ first
    | some c ↦ if is_unfinished_update c then u.command_id else first
  ]
]

unfoldable pub restored_runtime :
    String → JournalCommand → Option AgentUpdateRuntime → AgentUpdateRuntime
restored_runtime id c current = record {
  command_id = id;
  run_id = c.run_id;
  target_version = c.command.payload.target_version;
  started_at = elim current [
    | none ↦ c.received_at
    | some u ↦ if str_eq u.command_id id then u.started_at else c.received_at
  ];
  last_schedule_minute = elim current [ none ↦ 0 | some u ↦ u.last_schedule_minute ];
}

unfoldable pub same_runtime : Option AgentUpdateRuntime → AgentUpdateRuntime → Bool
same_runtime none v = false
same_runtime (some u) v =
    str_eq u.command_id v.command_id
    && str_eq u.run_id v.run_id
    && str_eq u.target_version v.target_version
    && u.started_at == v.started_at
    && u.last_schedule_minute == v.last_schedule_minute

unfoldable pub with_restored : AgentUpdateRuntime → Daemon → Daemon
with_restored u d = record d {
  state = record d.state { agent_update = some u };
  last_schedule_minute =
      if u.last_schedule_minute == 0 then d.last_schedule_minute else u.last_schedule_minute;
}

-- The state is restored from the entry of the update, and saved if that changes it.
unfoldable pub restore_from : String → JournalCommand → Daemon → Outcome
restore_from id c d =
    let restored = restored_runtime id c d.state.agent_update in
    if same_runtime d.state.agent_update restored
    then (none, with_restored restored d)
    else save_state (with_restored restored d)

-- The state of an update that the journal does not have any more is cleared.
unfoldable pub clear_orphan : Daemon → Outcome
clear_orphan d = elim d.state.agent_update [
  | none ↦ (none, d)
  | some u ↦ save_state (record d { state = record d.state { agent_update = none } })
]

-- `restoreAgentUpdateState`.
unfoldable pub restore_agent_update_state : Daemon → Outcome
restore_agent_update_state d = elim (unfinished_updates d.journal) [
  | [] ↦ clear_orphan d
  | first ∷ rest ↦
      let id = chosen_update first d in
      elim (lookup id d.journal) [ none ↦ (none, d) | some c ↦ restore_from id c d ]
]

-- Whether something runs, or a repository is held.
abbrev pub is_busy : Daemon → Bool
is_busy d = is_nonempty d.active || is_nonempty d.repositories || is_nonempty d.replication_active

-- The entry is saved as running, and then the request written and the helper launched.
unfoldable pub hand_over :
    Files → String → String → JournalCommand → AgentUpdateRuntime → Updating → Option Err × Updating
hand_over k version id c r u =
    let d = u.daemon in
    let request : UpdateRequest = record {
      command_id = id;
      run_id = c.run_id;
      generation = d.generation;
      previous_version = version;
      target_version = c.command.payload.target_version;
      started_at = r.started_at;
    } in
    let (e, d₁) =
      save_journal (record d { journal = insert id (record c { state = running }) d.journal }) in
    let back = record d₁ { journal = insert id c d₁.journal } in
    let (ignored, d₂) = save_journal back in
    elim e [
      | some err ↦ (some err, record u { daemon = back })
      | none ↦ elim k.request_unwritten [
        | some err ↦ (some err, record u { daemon = d₂ })
        | none ↦ (k.helper_not_launched, record u { daemon = d₁; request_file = some request })
      ]
    ]

-- `startAgentUpdate`.
unfoldable pub start_agent_update : Files → String → String → Updating → Option Err × Updating
start_agent_update k version id u = elim (lookup id u.daemon.journal) [
  | none ↦ (none, u)
  | some c ↦ elim u.daemon.state.agent_update [
    | none ↦ (none, u)
    | some r ↦
        if not (is_received c.state) || is_busy u.daemon
        then (none, u)
        else hand_over k version id c r u
  ]
]

unfoldable pub remove_result : Files → Updating → Option Err × Updating
remove_result k u = elim k.result_not_removed [
  | none ↦ (none, record u { result_file = none })
  | some err ↦ (some err, u)
]

-- Whether an entry has the result already.
unfoldable pub has_result : AgentUpdateResult → Dict JournalCommand → Bool
has_result r [] = false
has_result r ((id, c) ∷ j) =
    let same : Bool = elim c.update_result [
      | none ↦ false
      | some own ↦ str_eq own.run_id r.run_id && str_eq own.target_version r.target_version
    ] in
    same || has_result r j

-- The result is entered, and the update is over, both in memory.
unfoldable pub with_result : AgentUpdateResult → String → JournalCommand → Daemon → Daemon
with_result r id c d = record d {
  journal =
      insert id (record c { state = finished; update_result = some r; result_reported = false })
        d.journal;
  state = record d.state { agent_update = none };
}

-- The journal, the state and the file follow, in this order.
unfoldable pub enter_result :
    Files → AgentUpdateResult → String → JournalCommand → Updating → Option Err × Updating
enter_result k r id c u =
    let (e₁, d₁) = save_journal (with_result r id c u.daemon) in
    let (e₂, d₂) = save_state d₁ in
    let removed = remove_result k (record u { daemon = d₂ }) in
    elim e₁ [
      | some err ↦ (some err, record u { daemon = d₁ })
      | none ↦ elim e₂ [ some err ↦ (some err, record u { daemon = d₂ }) | none ↦ removed ]
    ]

abbrev pub is_of_runtime : AgentUpdateResult → AgentUpdateRuntime → Daemon → Bool
is_of_runtime r v d =
    r.generation == d.generation
    && str_eq r.run_id v.run_id
    && str_eq r.target_version v.target_version

-- A result that was read.
unfoldable pub take_result : Files → AgentUpdateResult → Updating → Option Err × Updating
take_result k r u = elim u.daemon.state.agent_update [
  | none ↦
      if has_result r u.daemon.journal
      then remove_result k u
      else (some (refused "no active update"), u)
  | some v ↦
      if not (is_of_runtime r v u.daemon)
      then (some (refused "another update"), u)
      else elim (lookup v.command_id u.daemon.journal) [
        | none ↦ (some (refused "no command"), u)
        | some c ↦
            if is_update c.command.kind
            then enter_result k r v.command_id c u
            else (some (refused "no command"), u)
      ]
]

-- `consumeAgentUpdateResult`.
unfoldable pub consume_agent_update_result : Files → Updating → Option Err × Updating
consume_agent_update_result k u = elim k.result_unread [
  | some err ↦ (some err, u)
  | none ↦ elim u.result_file [ none ↦ (none, u) | some r ↦ take_result k r u ]
]
