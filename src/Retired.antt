-- ===== src/Retired.antt =====
-- agent/retired.go: what is left of former enrollments is reported with their own credentials.
-- The control plane, the files of logs and the sealed list of enrollments are arguments: functions
-- that give the replies. `sent` lists the events that the control plane has answered for.
pub mod Reporting
mod Examples
use backupchief_agent.Base.{
  ℕ, zero, suc, ◌+◌, ◌-◌, ◌*◌, ◌/◌, String, Bool, true, false, not, ◌&&◌, ◌||◌, List, [], ◌∷◌, ◌++◌,
  Option, none, some, str_eq, leb, ltb, ◌==◌, if◌then◌else◌, Dict, lookup, insert, delete, length,
  take, drop,
}
use backupchief_agent.Protocol.{AgentEvent, JournalCommand}
use backupchief_agent.Store.{Err}
use backupchief_agent.Maintenance.{text_gt}
use backupchief_agent.Daemon.{Daemon, save_journal, is_nonempty}

pub record RetiredEnrollment : Type 0 where
  pub generation : ℕ
  pub expires_at : Option ℕ

-- The error `enrollment_revoked` of the control plane, another of its errors, and one of the agent.
pub data Problem : Type 0 where
  revoked other_reply : Problem
  at_agent : Err → Problem

-- The reply to a batch of events: an error, or for each event whether it was rejected.
pub data Reply : Type 0 where
  failed : Problem → Reply
  answers : List Bool → Reply

pub record Completion : Type 0 where
  pub total_bytes : ℕ
  pub sha256 : String
  pub chunk_count : ℕ
  pub truncated : Bool
  pub dropped_bytes : ℕ

pub record Outside : Type 0 where
  pub submit : ℕ → List AgentEvent → Reply
  pub upload : String → String → ℕ → ℕ → List ℕ → Option Problem
  pub complete_log : String → String → Completion → Option Problem
  pub read_log : String → String → Option (List ℕ)
  pub unreadable : Err
  pub remove_log : String → Option Err
  pub save_records : List RetiredEnrollment → Option Err

-- `records` is the sealed list on the disk.
pub record Reporter : Type 0 where
  pub daemon : Daemon
  pub sent : List AgentEvent
  pub records : List RetiredEnrollment

abbrev pub Reported : Type 0
Reported = Option Problem × Reporter

abbrev pub maximum_event_batch : ℕ
maximum_event_batch = 30

abbrev pub maximum_log_chunk : ℕ
maximum_log_chunk = 262144

abbrev pub at_agent_if : Option Err → Option Problem
at_agent_if none = none
at_agent_if (some e) = some (at_agent e)

-- A change of the entry, if it is there still, and a save of the journal.
unfoldable pub change_entry :
    String → (JournalCommand → JournalCommand) → Reporter → Option Err × Reporter
change_entry id f r = elim (lookup id r.daemon.journal) [
  | none ↦ (none, r)
  | some c ↦
      let (e, d) = save_journal (record r.daemon { journal = insert id (f c) r.daemon.journal }) in
      (e, record r { daemon = d })
]

abbrev pub is_settled : JournalCommand → Bool
is_settled c = not (is_nonempty c.events) && (str_eq c.log_id "" || c.log_completed)

abbrev pub remove_named_log : Outside → String → Option Err
remove_named_log o log = if str_eq log "" then none else o.remove_log log

-- The entry without events and log is taken out, and the file of its log removed.
unfoldable pub settle : Outside → String → String → Reporter → Reported
settle o id log r = elim (lookup id r.daemon.journal) [
  | none ↦ (none, r)
  | some c ↦
      if is_settled c
      then (let (e, d) = save_journal (record r.daemon { journal = delete id r.daemon.journal }) in
          let r' = record r { daemon = d } in
          elim e [
            | some err ↦ (some (at_agent err), r')
            | none ↦ (at_agent_if (remove_named_log o log), r')
          ])
      else (none, r)
]

-- The number of chunks of a log.
abbrev pub chunks : ℕ → ℕ
chunks bytes = (bytes + maximum_log_chunk - 1) / maximum_log_chunk

-- The loop over the chunks of the log: `n` of them from the `index`-th on.
unfoldable pub upload_chunks :
    Outside → String → JournalCommand → List ℕ → ℕ → ℕ → Reporter → Reported
upload_chunks o id c log zero index r = (none, r)
upload_chunks o id c log (suc n) index r =
    let offset = index * maximum_log_chunk in
    let (e, r') =
      change_entry id (λ (x : JournalCommand). record x { next_log_chunk = index + 1 }) r in
    let rest = upload_chunks o id c log n (index + 1) r' in
    elim (o.upload c.run_id c.log_id index offset (take maximum_log_chunk (drop offset log))) [
      | some p ↦ (some p, r)
      | none ↦ elim e [ some err ↦ (some (at_agent err), r') | none ↦ rest ]
    ]

abbrev pub completion_of : JournalCommand → Completion
completion_of c = record {
  total_bytes = c.log_bytes;
  sha256 = c.log_sha256;
  chunk_count = chunks c.log_bytes;
  truncated = c.log_truncated;
  dropped_bytes = c.log_dropped_bytes;
}

unfoldable pub complete_entry : Outside → String → JournalCommand → Reporter → Reported
complete_entry o id c r = elim (o.complete_log c.run_id c.log_id (completion_of c)) [
  | some p ↦ (some p, r)
  | none ↦
      let (e, r') = change_entry id (λ (x : JournalCommand). record x { log_completed = true }) r in
      elim e [ some err ↦ (some (at_agent err), r') | none ↦ settle o id c.log_id r' ]
]

-- The log of the entry as it was at first, and what follows it.
unfoldable pub report_log : Outside → String → JournalCommand → Reporter → Reported
report_log o id c r =
    if str_eq c.log_id "" || c.log_completed
    then settle o id c.log_id r
    else elim (o.read_log c.log_id c.log_sha256) [
      | none ↦ (some (at_agent o.unreadable), r)
      | some log ↦
          let (p, r') =
            upload_chunks o id c log (chunks (length log) - c.next_log_chunk) c.next_log_chunk r in
          elim p [ some bad ↦ (some bad, r') | none ↦ complete_entry o id c r' ]
    ]

unfoldable pub any_rejected : List Bool → Bool
any_rejected [] = false
any_rejected (b ∷ bs) = b || any_rejected bs

-- Behind an answered batch: it is taken off the entry, and only the last batch is followed by the log.
unfoldable pub batch_answered : Outside → String → JournalCommand → Reporter → Reported
batch_answered o id c r =
    let batch = take maximum_event_batch c.events in
    let r₁ = record r { sent = r.sent ++ batch } in
    let (e, r₂) =
      change_entry id (λ (x : JournalCommand). record x { events = drop (length batch) x.events })
        r₁ in
    elim e [
      | some err ↦ (some (at_agent err), r₂)
      | none ↦ if ltb (length batch) (length c.events) then (none, r₂) else report_log o id c r₂
    ]

unfoldable pub report_entry : Outside → ℕ → String → JournalCommand → Reporter → Reported
report_entry o generation id c r =
    if is_nonempty c.events
    then elim (o.submit generation (take maximum_event_batch c.events)) [
      | failed p ↦ (some p, r)
      | answers rejected ↦
          if any_rejected rejected then (some other_reply, r) else batch_answered o id c r
    ]
    else report_log o id c r

-- `flushRetiredCommand`.
unfoldable pub flush_retired_command : Outside → ℕ → String → Reporter → Reported
flush_retired_command o generation id r = elim (lookup id r.daemon.journal) [
  | none ↦ (none, r)
  | some c ↦
      if c.command.generation == generation then report_entry o generation id c r else (none, r)
]

unfoldable pub remove_logs : Outside → List String → Option Err
remove_logs o [] = none
remove_logs o (log ∷ logs) = elim (remove_named_log o log) [
  | some e ↦ some e
  | none ↦ remove_logs o logs
]

abbrev pub is_of : ℕ → JournalCommand → Bool
is_of generation c = c.command.generation == generation

-- The journal without the entries of a generation, and their logs.
unfoldable pub without : ℕ → Dict JournalCommand → Dict JournalCommand
without generation [] = []
without generation ((id, c) ∷ j) =
    let rest = without generation j in if is_of generation c then rest else (id, c) ∷ rest

unfoldable pub logs_of : ℕ → Dict JournalCommand → List String
logs_of generation [] = []
logs_of generation ((id, c) ∷ j) =
    let rest = logs_of generation j in if is_of generation c then c.log_id ∷ rest else rest

-- `purgeRetiredGeneration`.
unfoldable pub purge_retired_generation : Outside → ℕ → Reporter → Option Err × Reporter
purge_retired_generation o generation r =
    let logs = logs_of generation r.daemon.journal in
    let (e, d) = save_journal (record r.daemon { journal = without generation r.daemon.journal }) in
    let r' = record r { daemon = d } in
    elim e [ some err ↦ (some err, r') | none ↦ (remove_logs o logs, r') ]

-- `purgeRetiredCommand`.
unfoldable pub purge_retired_command : Outside → String → Reporter → Option Err × Reporter
purge_retired_command o id r =
    let log : String = elim (lookup id r.daemon.journal) [ none ↦ "" | some c ↦ c.log_id ] in
    let (e, d) = save_journal (record r.daemon { journal = delete id r.daemon.journal }) in
    let r' = record r { daemon = d } in
    elim e [ some err ↦ (some err, r') | none ↦ (remove_named_log o log, r') ]

-- `sort.Strings`.
unfoldable pub insert_text : String → List String → List String
insert_text x [] = x ∷ []
insert_text x (y ∷ ys) = let rest = insert_text x ys in if text_gt x y then y ∷ rest else x ∷ y ∷ ys

unfoldable pub ids_of : ℕ → Dict JournalCommand → List String
ids_of generation [] = []
ids_of generation ((id, c) ∷ j) =
    let rest = ids_of generation j in if is_of generation c then insert_text id rest else rest

-- The loop of `flushRetiredGeneration`; the first member says whether the generation is complete.
unfoldable pub flush_ids : Outside → ℕ → List String → Reporter → (Bool × Option Problem) × Reporter
flush_ids o generation [] r = ((true, none), r)
flush_ids o generation (id ∷ ids) r =
    let (p, r₁) = flush_retired_command o generation id r in
    let (e, r₂) = purge_retired_command o id r₁ in
    let rest = flush_ids o generation ids r₁ in
    let rest_purged = flush_ids o generation ids r₂ in
    elim p [
      | none ↦ rest
      | some revoked ↦ elim e [ some err ↦ ((false, some (at_agent err)), r₂) | none ↦ rest_purged ]
      | some other_reply ↦ ((false, some other_reply), r₁)
      | some (at_agent err) ↦ ((false, some (at_agent err)), r₁)
    ]

-- `flushRetiredGeneration`.
unfoldable pub flush_retired_generation :
    Outside → ℕ → Reporter → (Bool × Option Problem) × Reporter
flush_retired_generation o generation r =
    flush_ids o generation (ids_of generation r.daemon.journal) r

-- `sort.Slice` by generation.
unfoldable pub insert_record : RetiredEnrollment → List RetiredEnrollment → List RetiredEnrollment
insert_record x [] = x ∷ []
insert_record x (y ∷ ys) =
    let rest = insert_record x ys in if ltb y.generation x.generation then y ∷ rest else x ∷ y ∷ ys

unfoldable pub sort_records : List RetiredEnrollment → List RetiredEnrollment
sort_records [] = []
sort_records (x ∷ xs) = insert_record x (sort_records xs)

-- `saveRetiredEnrollments`: the file is replaced, or an error leaves it.
unfoldable pub save_retired : Outside → List RetiredEnrollment → Reporter → Option Err × Reporter
save_retired o kept r = elim (o.save_records kept) [
  | none ↦ (none, record r { records = kept })
  | some e ↦ (some e, r)
]

-- `kept` shares the array of `records`, so that its elements stand in the place of the first ones.
abbrev pub overwritten : List RetiredEnrollment → List RetiredEnrollment → List RetiredEnrollment
overwritten kept all = kept ++ drop (length kept) all

abbrev pub is_over : Option ℕ → ℕ → Bool
is_over none now = true
is_over (some at) now = leb at now

-- The loop of `reportRetiredJournal` over the records that are left, with those kept so far.
unfoldable pub report_records :
    Outside
    → List RetiredEnrollment
    → List RetiredEnrollment
    → List RetiredEnrollment
    → Reporter
    → Reported
report_records o all kept [] r = let (e, r') = save_retired o kept r in (at_agent_if e, r')
report_records o all kept (x ∷ xs) r =
    let (purge_error, purged) = purge_retired_generation o x.generation r in
    let rest_purged = report_records o all kept xs purged in
    let ((complete, p), r₁) = flush_retired_generation o x.generation r in
    let (revoked_error, r₂) = purge_retired_generation o x.generation r₁ in
    let rest_revoked = report_records o all kept xs r₂ in
    let (save_error, r₃) = save_retired o (overwritten kept all) r₁ in
    let rest = report_records o all (if complete then kept else kept ++ (x ∷ [])) xs r₁ in
    let stopped : Problem → Reported =
      λ bad. elim save_error [ some e ↦ (some (at_agent e), r₃) | none ↦ (some bad, r₃) ] in
    if is_over x.expires_at r.daemon.clock
    then elim purge_error [ some e ↦ (some (at_agent e), purged) | none ↦ rest_purged ]
    else elim p [
      | none ↦ rest
      | some revoked ↦ elim revoked_error [ some e ↦ (some (at_agent e), r₂) | none ↦ rest_revoked ]
      | some other_reply ↦ stopped other_reply
      | some (at_agent e) ↦ stopped (at_agent e)
    ]

-- `reportRetiredJournal`, once the list on the disk was read.
unfoldable pub report_retired_journal : Outside → Reporter → Reported
report_retired_journal o r =
    let sorted = sort_records r.records in
    let reported = report_records o sorted [] sorted r in
    elim r.records [ [] ↦ (none, r) | x ∷ xs ↦ reported ]
