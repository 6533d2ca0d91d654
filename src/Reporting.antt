-- ===== src/Reporting.antt =====
-- `flushJournal` and `flushCommand` of agent/commands.go: what the journal holds is reported to the
-- control plane. The mutex is free during each of its calls, so that other goroutines may change
-- the daemon: `meanwhile` says how, by the number of the call. `answered` lists the events that the
-- control plane has taken, and `given_up` those that it rejected and that are not kept.
pub mod Accounts
pub mod Journal
pub mod Flows
pub mod Whole
mod Examples
use backupchief_agent.Base.{
  ℕ, zero, suc, ◌+◌, ◌-◌, ◌*◌, ◌/◌, String, Bool, true, false, not, ◌&&◌, ◌||◌, List, [], ◌∷◌, ◌++◌,
  Option, none, some, str_eq, ltb, ◌==◌, if◌then◌else◌, Dict, lookup, insert, delete, length, take,
  drop,
}
use backupchief_agent.Protocol.{
  AgentEvent, EventKind, run_finished, snapshot_inventory_chunk, replication_finished, CommandKind,
  inspect_source, JournalCommand, CommandResult, AgentUpdateResult,
}
use backupchief_agent.Store.{Err, refused, Store, limit_of}
use backupchief_agent.Maintenance.{text_gt}
use backupchief_agent.Daemon.{Daemon, save_journal, save_state, is_nonempty, mark_spool_gap}
use backupchief_agent.Retired.{
  Completion, chunks, insert_text, maximum_event_batch, maximum_log_chunk,
}

-- `EventResult.Status`.
pub data Verdict : Type 0 where
  accepted duplicate rejected : Verdict

-- The answer to a batch: an error, or identifiers with verdicts.
pub data Answer : Type 0 where
  problem : Err → Answer
  results : List (String × Verdict) → Answer

-- The first argument of each call is its number.
pub record ControlPlane : Type 0 where
  pub answer : ℕ → List AgentEvent → Answer
  pub upload_log_chunk : ℕ → String → String → ℕ → ℕ → List ℕ → Option Err
  pub complete_log : ℕ → String → String → Completion → Option Err
  pub submit_result : ℕ → String → CommandResult → Option Err
  pub submit_inspection_result : ℕ → String → CommandResult → Option Err
  pub submit_agent_update_result : ℕ → String → AgentUpdateResult → Option Err

-- The files of the logs, the digest of one, and the compaction of the database.
pub record Disk : Type 0 where
  pub read_run_log : String → Option (List ℕ)
  pub sha256 : List ℕ → String
  pub remove_run_log : String → Option Err
  pub compact_state_database : Option Err

pub record Around : Type 0 where
  pub plane : ControlPlane
  pub disk : Disk
  pub meanwhile : ℕ → Daemon → Daemon

pub record Flusher : Type 0 where
  pub daemon : Daemon
  pub calls : ℕ
  pub answered : List AgentEvent
  pub given_up : List AgentEvent

-- A part of `flushCommand` goes on to the next, or returns.
pub data Flow : Type 0 where
  goes_on : Flow
  returns : Option Err → Flow

-- What happens during a call.
abbrev pub after_call : Around → Flusher → Flusher
after_call a f = record f { daemon = a.meanwhile f.calls f.daemon; calls = suc f.calls }

-- The check of an answer in `SubmitEvents`: an item for each event.
unfoldable pub matches_events : List AgentEvent → List (String × Verdict) → Bool
matches_events [] [] = true
matches_events [] (x ∷ xs) = false
matches_events (e ∷ es) [] = false
matches_events (e ∷ es) ((id, v) ∷ xs) = str_eq id e.event_id && matches_events es xs

unfoldable pub submit_events : ControlPlane → ℕ → List AgentEvent → Answer
submit_events p n events = elim (p.answer n events) [
  | problem e ↦ problem e
  | results items ↦
      if matches_events events items
      then results items
      else problem (refused "event response does not match request")
]

abbrev pub is_rejected : Verdict → Bool
is_rejected rejected = true
is_rejected _ = false

-- The kinds of event that are kept although they were rejected.
abbrev pub is_retained : EventKind → Bool
is_retained run_finished = true
is_retained snapshot_inventory_chunk = true
is_retained replication_finished = true
is_retained _ = false

-- The batch's events that were rejected and are kept, that were rejected and are not, and that
-- were not rejected.
unfoldable pub retained_of : List AgentEvent → List (String × Verdict) → List AgentEvent
retained_of [] items = []
retained_of (e ∷ es) [] = []
retained_of (e ∷ es) ((id, v) ∷ items) =
    let rest = retained_of es items in
    if is_rejected v && is_retained e.event_kind then e ∷ rest else rest

unfoldable pub discarded_of : List AgentEvent → List (String × Verdict) → List AgentEvent
discarded_of [] items = []
discarded_of (e ∷ es) [] = []
discarded_of (e ∷ es) ((id, v) ∷ items) =
    let rest = discarded_of es items in
    if is_rejected v && not (is_retained e.event_kind) then e ∷ rest else rest

unfoldable pub taken_of : List AgentEvent → List (String × Verdict) → List AgentEvent
taken_of [] items = []
taken_of (e ∷ es) [] = []
taken_of (e ∷ es) ((id, v) ∷ items) =
    let rest = taken_of es items in if is_rejected v then rest else e ∷ rest

unfoldable pub any_rejected : List (String × Verdict) → Bool
any_rejected [] = false
any_rejected ((id, v) ∷ items) = is_rejected v || any_rejected items

-- The entry behind an answered batch, and the mark of a gap. Where it has fewer events than the
-- batch, Go panics.
unfoldable pub take_off_batch : String → List AgentEvent → List (String × Verdict) → Daemon → Daemon
take_off_batch id batch items d = elim (lookup id d.journal) [
  | none ↦ d
  | some c ↦ record d {
    journal =
        insert id (record c { events = retained_of batch items ++ drop (length batch) c.events })
          d.journal;
    state = if is_nonempty (discarded_of batch items) then mark_spool_gap d.state else d.state;
  }
]

-- A save of the journal, if the entry is there.
unfoldable pub save_entry : String → Daemon → Option Err × Daemon
save_entry id d = elim (lookup id d.journal) [ none ↦ (none, d) | some c ↦ save_journal d ]

abbrev pub with_daemon : Flusher → Daemon → Flusher
with_daemon f d = record f { daemon = d }

-- Behind an answered batch.
unfoldable pub batch_answered :
    String → JournalCommand → List AgentEvent → List (String × Verdict) → Flusher → Flow × Flusher
batch_answered id c batch items f =
    let f' = record f {
      answered = f.answered ++ taken_of batch items;
      given_up = f.given_up ++ discarded_of batch items;
    } in
    let (e, d₁) = save_entry id (take_off_batch id batch items f.daemon) in
    let (e', d₂) = save_state d₁ in
    let rest : Flow =
      if any_rejected items
      then returns (some (refused "event was rejected"))
      else if ltb (length batch) (length c.events)
      then returns none
      else goes_on in
    elim e [
      | some err ↦ (returns (some err), with_daemon f' d₁)
      | none ↦
          if is_nonempty (discarded_of batch items)
          then elim e' [
            | some err ↦ (returns (some err), with_daemon f' d₂)
            | none ↦ (rest, with_daemon f' d₂)
          ]
          else (rest, with_daemon f' d₁)
    ]

unfoldable pub flush_events : Around → String → JournalCommand → Flusher → Flow × Flusher
flush_events a id c f =
    let batch = take maximum_event_batch c.events in
    let f' = after_call a f in
    if is_nonempty c.events
    then elim (submit_events a.plane f.calls batch) [
      | problem err ↦ (returns (some err), f')
      | results items ↦ batch_answered id c batch items f'
    ]
    else (goes_on, f)

-- A change of the entry, if it is there still, and a save of the journal.
unfoldable pub change_entry : String → (JournalCommand → JournalCommand) → Flusher → Flow × Flusher
change_entry id g f = elim (lookup id f.daemon.journal) [
  | none ↦ (goes_on, f)
  | some c ↦
      let (e, d) = save_journal (record f.daemon { journal = insert id (g c) f.daemon.journal }) in
      elim e [
        | some err ↦ (returns (some err), with_daemon f d)
        | none ↦ (goes_on, with_daemon f d)
      ]
]

-- A call that gives an error or none, and the change that follows it.
unfoldable pub call_and_change :
    Around → Option Err → String → (JournalCommand → JournalCommand) → Flusher → Flow × Flusher
call_and_change a reply id g f =
    let f' = after_call a f in
    elim reply [ some err ↦ (returns (some err), f') | none ↦ change_entry id g f' ]
