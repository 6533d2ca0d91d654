-- ===== src/Events/Entries.antt =====
-- What the events of an entry leave of it.
use backupchief_agent.Base.{
  ℕ, zero, suc, ◌+◌, ◌≡◌, refl, ap, ◌∙◌, String, List, [], ◌∷◌, Option, none, some, Option-cases,
  Bool-cases, inl, inr, drop, length,
}
use backupchief_agent.Protocol.{
  JournalCommand, SnapshotEvidence, RepositoryResult, CommandResult, EventKind, EventPayload,
  run_finished, terminal,
}
use backupchief_agent.Daemon.{Daemon, fresh_id, is_nonempty}
use backupchief_agent.Events.{
  append_event, append_chunks, append_evidence, append_repositories, append_snapshot_evidence,
  append_finished,
}
use backupchief_agent.Events.Evidence.{append_chunks-none, append_chunks-some, with_chunk}

-- The two entries differ in their events and their number at most.
abbrev pub SameRun : JournalCommand → JournalCommand → Type 0
SameRun c c' = c' ≡ record c { sequence = c'.sequence; events = c'.events }

pub SameRun-trans : (a b c : JournalCommand) → SameRun a b → SameRun b c → SameRun a c
SameRun-trans a b c p q =
    q ∙ ap (λ (x : JournalCommand). record x { sequence = c.sequence; events = c.events }) p

pub append_event-SameRun :
    (id : Option String) (at : ℕ) (kind : EventKind) (content : EventPayload) (c : JournalCommand)
    → SameRun c (append_event id at kind content c)
unfolding append_event
append_event-SameRun none at kind content c = refl
append_event-SameRun (some id) at kind content c = refl

module _ (key : Option String) (e : SnapshotEvidence) where
  append_chunks-SameRun :
      (n index : ℕ) (ids : List String) (c : JournalCommand) (d : Daemon)
      → SameRun c (append_chunks n key e index ids c d).0
  unfolding append_chunks append_event
  append_chunks-SameRun zero index ids c d = refl
  append_chunks-SameRun (suc n) index [] c d = refl
  append_chunks-SameRun (suc n) index (x ∷ xs) c d = elim (Option-cases (fresh_id d).0) [
    | inl bad ↦ rw (append_chunks-none key e n index x xs c d bad) refl
    | inr (id, made) ↦ rw (append_chunks-some key e n index x xs c d id made) (
        SameRun-trans c (with_chunk key e (some id) index x xs c) _ refl (
          append_chunks-SameRun n (index + 1) (drop 399 xs)
            (with_chunk key e (some id) index x xs c) (fresh_id d).1))
  ]

append_evidence-SameRun :
    (key : Option String) (e : Option SnapshotEvidence) (ids : List String) (c : JournalCommand)
    (d : Daemon)
    → SameRun c (append_evidence key e ids c d).0
unfolding append_evidence
append_evidence-SameRun key none ids c d = refl
append_evidence-SameRun key (some e) ids c d = append_chunks-SameRun key e (length ids) 0 ids c d

append_repositories-SameRun :
    (rs : List RepositoryResult) (c : JournalCommand) (d : Daemon)
    → SameRun c (append_repositories rs c d).0
unfolding append_repositories
append_repositories-SameRun [] c d = refl
append_repositories-SameRun (r ∷ rs) c d =
    let first =
      append_evidence (some r.repository_key) r.snapshot_evidence r.snapshot_evidence_ids c d in
    SameRun-trans c first.0 _
      (append_evidence-SameRun (some r.repository_key) r.snapshot_evidence r.snapshot_evidence_ids c
        d)
      (append_repositories-SameRun rs first.0 first.1)

pub append_snapshot_evidence-SameRun :
    (result : CommandResult) (c : JournalCommand) (d : Daemon)
    → SameRun c (append_snapshot_evidence result c d).0
unfolding append_snapshot_evidence
append_snapshot_evidence-SameRun result c d =
    elim (Bool-cases (is_nonempty result.repository_results)) [
      | inl several ↦ rw several (append_repositories-SameRun result.repository_results c d)
      | inr one ↦
          rw one
            (append_evidence-SameRun none result.snapshot_evidence result.snapshot_evidence_ids c d)
    ]

pub append_finished-SameRun :
    (result : CommandResult) (c : JournalCommand) (d : Daemon)
    → SameRun c (append_finished result c d).0
unfolding append_finished
append_finished-SameRun result c d =
    append_event-SameRun (fresh_id d).0 result.finished_at run_finished (terminal result) c
