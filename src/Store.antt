-- ===== src/Store.antt =====
-- agent/state_db.go and agent/journal.go: the state database of the agent.
-- bbolt is not modelled: what it does with each transaction that writes is an `Outcome` of the list
-- `outcomes`, any function that has the laws which its documentation promises of `Update`; whether an
-- opening for a read fails is in `openings`. The buckets of commands, runs, events and
-- log references are cleared and written again by each save, so they are kept as the journal itself;
-- an occurrence key is kept as the three texts that it joins by NUL bytes, and one of
-- an older version as the two that it joins.
pub mod Transactions
pub mod Atomic
pub mod Memory
pub mod Occurrences
pub mod Pressure
pub mod Skipped
mod Examples
use backupchief_agent.Base.{
  ◌≡◌, ◌≢◌, refl, ℕ, ◌+◌, ◌*◌, ◌%◌, ◌^◌, String, Bool, true, false, not, ◌&&◌, ◌||◌, List, [], ◌∷◌,
  Option, none, some, str_eq, leb, ◌==◌, if◌then◌else◌, is_some, Dict, lookup,
}
use backupchief_agent.Protocol.{
  JournalCommand, RunKind, RunKind-discrete, backup, is_backup, Trigger, scheduled, manual,
  RuntimeState,
}
use backupchief_agent.Ulid.{is_ulid}

-- The errors that the callers tell apart: `ErrSpoolCapacity` and all others.
pub data Err : Type 0 where
  spool_capacity : Err
  refused : String → Err

abbrev pub is_spool_capacity : Err → Bool
is_spool_capacity spool_capacity = true
is_spool_capacity (refused s) = false

pub record OccurrenceKey : Type 0 where
  pub occurrence_job : String
  pub occurrence_kind : RunKind
  pub occurrence_at : ℕ

abbrev pub Occurrences : Type 0
Occurrences = List (OccurrenceKey × String)

-- What a transaction may write.
pub record Content : Type 0 where
  pub journal : Dict JournalCommand
  pub occurrences : Occurrences
  pub runtime : RuntimeState

-- An error of the file system for lack of space, which `isDiskFull` knows, and all others.
pub data BoltError : Type 0 where
  no_space other_error : BoltError

-- What `Update` of bbolt does with a transaction on the old content, or the opening before it: the
-- action gives the new content, or none for an error. Without an error the new content is written, with one the old is left, and an
-- error of the action is given back.
pub record Outcome : Type 0 where
  pub update : Content → Option Content → Option BoltError × Content
  pub writes :
      (old new : Content) → (update old (some new)).0 ≡ none → (update old (some new)).1 ≡ new
  pub rolls_back :
      (old : Content) (action : Option Content)
      → (update old action).0 ≢ none
      → (update old action).1 ≡ old
  pub refuses : (old : Content) → (update old none).0 ≡ some other_error

abbrev pub update_with : Option BoltError → Content → Option Content → Option BoltError × Content
update_with e old none = (some other_error, old)
update_with none old (some new) = (none, new)
update_with (some e) old (some new) = (some e, old)

-- A transaction that meets the given error at its end, if any.
pub update_with_writes :
    (e : Option BoltError) (old new : Content)
    → (update_with e old (some new)).0 ≡ none
    → (update_with e old (some new)).1 ≡ new
update_with_writes none old new h = refl
update_with_writes (some e) old new h = cc h

pub update_with_rolls_back :
    (e : Option BoltError) (old : Content) (action : Option Content)
    → (update_with e old action).0 ≢ none
    → (update_with e old action).1 ≡ old
update_with_rolls_back e old none h = refl
update_with_rolls_back none old (some new) h = absurd (h refl)
update_with_rolls_back (some e) old (some new) h = refl

abbrev pub outcome_with : Option BoltError → Outcome
outcome_with e = record {
  update = update_with e;
  writes = update_with_writes e;
  rolls_back = update_with_rolls_back e;
  refuses = λ old. refl;
}

abbrev pub commits : Outcome
commits = outcome_with none

abbrev pub disk_full : Outcome
disk_full = outcome_with (some no_space)

pub record Store : Type 0 where
  pub journal : Dict JournalCommand
  pub occurrences : Occurrences
  pub legacy_occurrences : List (String × ℕ)
  pub runtime : RuntimeState
  pub outcomes : List Outcome
  pub openings : List (Option Err)
  pub reserve_released : Bool
  pub spool_usage : ℕ
  pub spool_limit : ℕ

abbrev pub next_outcome : List Outcome → Outcome
next_outcome [] = commits
next_outcome (o ∷ os) = o

abbrev pub outcomes_after : List Outcome → List Outcome
outcomes_after [] = []
outcomes_after (o ∷ os) = os

-- The error of the opening for a read, if any; where the list ends, none fails.
abbrev pub first_opening : List (Option Err) → Option Err
first_opening [] = none
first_opening (e ∷ es) = e

abbrev pub rest_openings : List (Option Err) → List (Option Err)
rest_openings [] = []
rest_openings (e ∷ es) = es

abbrev pub kind_eq : RunKind → RunKind → Bool
kind_eq a b = elim (RunKind-discrete a b) [ yes e ↦ true | no e ↦ false ]

unfoldable pub key_eq : OccurrenceKey → OccurrenceKey → Bool
key_eq a b =
    str_eq a.occurrence_job b.occurrence_job
    && kind_eq a.occurrence_kind b.occurrence_kind
    && a.occurrence_at == b.occurrence_at

-- `Bucket.Get` of the bucket of occurrences.
unfoldable pub run_of : OccurrenceKey → Occurrences → Option String
run_of k [] = none
run_of k ((j, r) ∷ rest) = if key_eq j k then some r else run_of k rest

abbrev pub content_of : Store → Content
content_of s = record { journal = s.journal; occurrences = s.occurrences; runtime = s.runtime }

abbrev pub with_content : Content → Store → Store
with_content k s = record s {
  journal = k.journal;
  occurrences = k.occurrences;
  runtime = k.runtime;
  outcomes = outcomes_after s.outcomes;
}

-- `updateState`, for an action that gives the new content or an error.
unfoldable pub update_state : Store → Option Content → Option Err × Store
update_state s action =
    let (e, k) = (next_outcome s.outcomes).update (content_of s) action in
    let s' = with_content k s in
    elim e [
      | none ↦ (none, s')
      | some no_space ↦ (some spool_capacity, record s' { reserve_released = true })
      | some other_error ↦ (some (refused "transaction"), s')
    ]

-- `SaveRuntimeState`.
unfoldable pub save_runtime_state : RuntimeState → Store → Option Err × Store
save_runtime_state r s = update_state s (some (record (content_of s) { runtime = r }))

abbrev pub is_scheduled : Trigger → Bool
is_scheduled scheduled = true
is_scheduled manual = false

unfoldable pub occurrence_of : JournalCommand → Option OccurrenceKey
occurrence_of c =
    if is_scheduled c.trigger
    then elim c.scheduled_for [
      | none ↦ none
      | some at ↦ some (record {
        occurrence_job = c.command.payload.job_id;
        occurrence_kind = c.run_kind;
        occurrence_at = at;
      })
    ]
    else none

-- The identity that an entry must have under its key.
abbrev pub is_identified : String → JournalCommand → Bool
is_identified id c = str_eq id c.command.id && is_ulid id && is_ulid c.run_id

unfoldable pub claim_key : OccurrenceKey → String → Occurrences → Option String → Option Occurrences
claim_key k run held none = some ((k, run) ∷ held)
claim_key k run held (some r) = if str_eq r run then some held else none

unfoldable pub claim_at : Option OccurrenceKey → String → Occurrences → Option Occurrences
claim_at none run held = some held
claim_at (some k) run held = claim_key k run held (run_of k held)

-- The occurrence of one entry: `none` if another run has it.
unfoldable pub claim : JournalCommand → Occurrences → Option Occurrences
claim c held = claim_at (occurrence_of c) c.run_id held

-- The loop of `saveCommandJournal`: `none` is an entry whose identity or occurrence is refused.
unfoldable pub claim_all : Dict JournalCommand → Occurrences → Option Occurrences
claim_all [] held = some held
claim_all ((id, c) ∷ rest) held =
    if is_identified id c
    then elim (claim c held) [ none ↦ none | some held' ↦ claim_all rest held' ]
    else none

abbrev pub journal_action : Dict JournalCommand → Store → Option Content
journal_action j s = elim (claim_all j s.occurrences) [
  | none ↦ none
  | some held ↦ some (record (content_of s) { journal = j; occurrences = held })
]

-- `SaveCommandJournal`.
unfoldable pub save_command_journal : Dict JournalCommand → Store → Option Err × Store
save_command_journal j s = update_state s (journal_action j s)

-- The keys of older versions, which had backups alone.
unfoldable pub has_legacy : String → ℕ → List (String × ℕ) → Bool
has_legacy job at [] = false
has_legacy job at ((j, t) ∷ rest) = str_eq j job && t == at || has_legacy job at rest

-- What the transaction of `occurrenceExists` finds.
unfoldable pub is_known : OccurrenceKey → Store → Bool
unfolding has_legacy
is_known k s =
    is_some (run_of k s.occurrences)
    || is_backup k.occurrence_kind
      && has_legacy k.occurrence_job k.occurrence_at s.legacy_occurrences

-- `occurrenceExists`; each call opens the database, which may fail.
unfoldable pub occurrence_exists : OccurrenceKey → Store → (Bool × Option Err) × Store
unfolding is_known
occurrence_exists k s =
    let s' = record s { openings = rest_openings s.openings } in
    elim (first_opening s.openings) [
      | none ↦ ((is_known k s, none), s')
      | some err ↦ ((false, some err), s')
    ]

-- The run of a skipped occurrence is "gap".
abbrev pub skip_action : OccurrenceKey → Option RuntimeState → Store → Content
skip_action k state s = record (content_of s) {
  occurrences = (k, "gap") ∷ s.occurrences;
  runtime = elim state [ none ↦ s.runtime | some r ↦ r ];
}

-- `recordSkippedOccurrence`.
unfoldable pub record_skipped_occurrence :
    OccurrenceKey → Option RuntimeState → Store → Option Err × Store
record_skipped_occurrence k state s = update_state s (some (skip_action k state s))

abbrev pub spool_bytes_limit : ℕ
spool_bytes_limit = 268435456

abbrev pub limit_of : Store → ℕ
limit_of s = if s.spool_limit == 0 then spool_bytes_limit else s.spool_limit

-- `canAcceptWork`; the sum is an uint64. `spool_usage` is what `spoolUsage` finds on the disk.
unfoldable pub can_accept_work : ℕ → Store → Bool
can_accept_work estimate s =
    if s.reserve_released then false else leb ((s.spool_usage + estimate) % 2 ^ 64) (limit_of s)

-- `releaseReserve`; an error of the removal is dropped by every caller.
unfoldable pub release_reserve : Store → Store
release_reserve s = record s { reserve_released = true }
