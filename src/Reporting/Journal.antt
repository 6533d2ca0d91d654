-- ===== src/Reporting/Journal.antt =====
-- What follows the events of an entry in `flushCommand`, and `flushCommand` and `flushJournal`.
use backupchief_agent.Base.{
  ℕ, zero, suc, ◌+◌, ◌-◌, ◌*◌, ◌/◌, String, Bool, true, false, not, ◌&&◌, ◌||◌, List, [], ◌∷◌,
  Option, none, some, str_eq, ltb, ◌==◌, if◌then◌else◌, Dict, lookup, delete, length, take, drop,
}
use backupchief_agent.Protocol.{CommandKind, inspect_source, JournalCommand}
use backupchief_agent.Store.{Err, refused, Store, limit_of}
use backupchief_agent.Daemon.{save_journal, is_nonempty}
use backupchief_agent.Retired.{Completion, chunks, insert_text, maximum_log_chunk}
use backupchief_agent.Reporting.{
  Disk, Around, Flusher, Flow, goes_on, returns, with_daemon, flush_events, call_and_change,
}

-- The loop over the chunks of a log: so many from an index on.
unfoldable pub upload_chunks :
    Around → String → JournalCommand → List ℕ → ℕ → ℕ → Flusher → Flow × Flusher
upload_chunks a id c log zero index f = (goes_on, f)
upload_chunks a id c log (suc n) index f =
    let offset = index * maximum_log_chunk in
    let reply =
      a.plane.upload_log_chunk f.calls c.run_id c.log_id index offset
        (take maximum_log_chunk (drop offset log)) in
    let (flow, f') =
      call_and_change a reply id (λ (x : JournalCommand). record x { next_log_chunk = index + 1 })
        f in
    let rest = upload_chunks a id c log n (index + 1) f' in
    elim flow [ returns e ↦ (returns e, f') | goes_on ↦ rest ]

abbrev completion_of : JournalCommand → Completion
completion_of c = record {
  total_bytes = c.log_bytes;
  sha256 = c.log_sha256;
  chunk_count = c.next_log_chunk;
  truncated = c.log_truncated;
  dropped_bytes = c.log_dropped_bytes;
}

unfoldable pub complete_log_of : Around → String → JournalCommand → Flusher → Flow × Flusher
complete_log_of a id c f = elim (lookup id f.daemon.journal) [
  | none ↦ (goes_on, f)
  | some current ↦
      call_and_change a (a.plane.complete_log f.calls c.run_id c.log_id (completion_of current)) id
        (λ (x : JournalCommand). record x { log_completed = true }) f
]

-- `ReadChecksummedRunLog`.
unfoldable pub read_checksummed_run_log : Disk → String → String → Option (List ℕ)
read_checksummed_run_log k log digest = elim (k.read_run_log log) [
  | none ↦ none
  | some bytes ↦ if str_eq (k.sha256 bytes) digest then some bytes else none
]

unfoldable pub flush_log : Around → String → JournalCommand → Flusher → Flow × Flusher
flush_log a id c f =
    if str_eq c.log_id "" || c.log_completed
    then (goes_on, f)
    else elim (read_checksummed_run_log a.disk c.log_id c.log_sha256) [
      | none ↦ (returns (some (refused "run log")), f)
      | some log ↦
          let (flow, f') =
            upload_chunks a id c log (chunks (length log) - c.next_log_chunk) c.next_log_chunk f in
          elim flow [ returns e ↦ (returns e, f') | goes_on ↦ complete_log_of a id c f' ]
    ]

abbrev is_inspection : CommandKind → Bool
is_inspection inspect_source = true
is_inspection _ = false

abbrev set_reported : JournalCommand → JournalCommand
set_reported c = record c { result_reported = true }

unfoldable pub flush_result : Around → String → JournalCommand → Flusher → Flow × Flusher
flush_result a id c f = if c.result_reported then (goes_on, f) else elim c.update_result [
  | some r ↦
      call_and_change a (a.plane.submit_agent_update_result f.calls c.command.id r) id set_reported
        f
  | none ↦ elim c.result [
    | none ↦ (goes_on, f)
    | some r ↦
        let reply =
          if is_inspection c.command.kind
          then a.plane.submit_inspection_result f.calls c.command.id r
          else a.plane.submit_result f.calls c.command.id r in
        call_and_change a reply id set_reported f
  ]
]

-- `compactIfPressured`.
unfoldable pub compact_if_pressured : Disk → Store → Option Err
compact_if_pressured k s =
    if ltb s.spool_usage (limit_of s * 3 / 4) then none else k.compact_state_database

-- Whether everything about an entry was reported.
abbrev pub is_done : JournalCommand → Bool
is_done c =
    c.result_reported
    && not (is_nonempty c.events)
    && (str_eq c.log_id "" || c.log_completed)
    && not (is_nonempty c.replication_pending)

-- The end of `flushCommand`: an entry that is done is taken out, and its log removed.
unfoldable pub remove_done : Around → String → JournalCommand → Flusher → Option Err × Flusher
remove_done a id c f = elim (lookup id f.daemon.journal) [
  | none ↦ (none, f)
  | some current ↦
      if is_done current
      then (let (e, d) = save_journal (record f.daemon { journal = delete id f.daemon.journal }) in
          let removed : Option Err =
            if str_eq c.log_id "" then none else a.disk.remove_run_log c.log_id in
          let f' = with_daemon f d in
          elim e [
            | some err ↦ (some err, f')
            | none ↦ elim removed [
              | some err ↦ (some err, f')
              | none ↦ (compact_if_pressured a.disk d.store, f')
            ]
          ])
      else (none, f)
]

-- The parts of `flushCommand` in their order, for the entry as it was at first.
unfoldable pub flush_parts : Around → String → JournalCommand → Flusher → Option Err × Flusher
flush_parts a id c f =
    let (flow₁, f₁) = flush_events a id c f in
    let (flow₂, f₂) = flush_log a id c f₁ in
    let (flow₃, f₃) = flush_result a id c f₂ in
    elim flow₁ [
      | returns e ↦ (e, f₁)
      | goes_on ↦ elim flow₂ [
        | returns e ↦ (e, f₂)
        | goes_on ↦ elim flow₃ [ returns e ↦ (e, f₃) | goes_on ↦ remove_done a id c f₃ ]
      ]
    ]

-- `flushCommand`.
unfoldable pub flush_command : Around → String → Flusher → Option Err × Flusher
flush_command a id f = elim (lookup id f.daemon.journal) [
  | none ↦ (none, f)
  | some c ↦ if c.acknowledged then flush_parts a id c f else (none, f)
]

-- The identifiers of the enrollment's entries, sorted.
unfoldable pub own_ids : ℕ → Dict JournalCommand → List String
own_ids generation [] = []
own_ids generation ((id, c) ∷ j) =
    let rest = own_ids generation j in
    if c.command.generation == generation then insert_text id rest else rest

-- The loop of `flushJournal`: the first error is kept, and the others follow all the same.
unfoldable pub flush_all : Around → List String → Flusher → Option Err × Flusher
flush_all a [] f = (none, f)
flush_all a (id ∷ ids) f =
    let (e, f') = flush_command a id f in
    let (later, f'') = flush_all a ids f' in
    elim e [ some err ↦ (some err, f'') | none ↦ (later, f'') ]

-- `flushJournal`.
unfoldable pub flush_journal : Around → Flusher → Option Err × Flusher
flush_journal a f =
    let (e, d) = save_journal f.daemon in
    let f' = with_daemon f d in
    let (e', f'') = flush_all a (own_ids d.generation d.journal) f' in
    elim e [ some err ↦ (some err, f') | none ↦ (e', f'') ]
