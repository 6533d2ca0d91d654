-- ===== src/Events/Sequences.antt =====
-- The sequence numbers of an entry's events.
use backupchief_agent.Base.{
  ℕ, zero, suc, ◌+◌, ◌^◌, ◌≤◌, ◌<◌, ◌≡◌, String, List, [], ◌∷◌, ◌++◌, Option, none, some,
  Option-cases, Bool-cases, inl, inr, arith, length, take, drop,
}
use backupchief_agent.Protocol.{
  AgentEvent, EventKind, EventPayload, inventory, JournalCommand, SnapshotEvidence,
  RepositoryResult, run_finished, terminal, CommandResult, snapshot_inventory_chunk,
}
use backupchief_agent.Daemon.{Daemon, fresh_id, event_envelope, next_sequence, is_nonempty}
use backupchief_agent.Events.{
  append_event, append_chunks, append_evidence, append_repositories, append_snapshot_evidence,
  append_finished, snapshot_evidence_chunk_size,
}
use backupchief_agent.Events.Evidence.{append_chunks-none, append_chunks-some, with_chunk}

-- The numbers of the events increase from above the first bound up to the second.
abbrev pub Increasing : ℕ → List AgentEvent → ℕ → Type 0
Increasing low [] high = low ≤ high
Increasing low (e ∷ es) high = (low < e.sequence) × Increasing e.sequence es high

-- No two events of an entry have the same number, and the entry's own number is not below any.
abbrev pub IsSequenced : JournalCommand → Type 0
IsSequenced c = Increasing 0 c.events c.sequence

-- So many more events can be numbered before the number wraps around.
abbrev pub HasRoom : ℕ → JournalCommand → Type 0
HasRoom n c = c.sequence + n < 2 ^ 64

pub Increasing-append :
    (low high : ℕ) (es : List AgentEvent) (e : AgentEvent)
    → Increasing low es high
    → high < e.sequence
    → Increasing low (es ++ (e ∷ [])) e.sequence
Increasing-append low high [] e h more = (omega (arith, h, more), omega arith)
Increasing-append low high (x ∷ xs) e h more =
    (h.0, Increasing-append x.sequence high xs e h.1 more)

pub Increasing-weaken :
    (low high higher : ℕ) (es : List AgentEvent)
    → Increasing low es high
    → high ≤ higher
    → Increasing low es higher
Increasing-weaken low high higher [] h more = omega (arith, h, more)
Increasing-weaken low high higher (x ∷ xs) h more =
    (h.0, Increasing-weaken x.sequence high higher xs h.1 more)

-- An operation that adds so many events at most keeps the numbers in order.
abbrev pub Keeps : ℕ → JournalCommand → JournalCommand → Type 0
Keeps n c c' = IsSequenced c' × (c'.sequence ≤ c.sequence + n)

pub append_event-Keeps :
    (id : Option String) (at : ℕ) (kind : EventKind) (content : EventPayload) (c : JournalCommand)
    → IsSequenced c
    → HasRoom 1 c
    → Keeps 1 c (append_event id at kind content c)
unfolding append_event event_envelope
append_event-Keeps none at kind content c h room =
    let next : next_sequence c.sequence ≡ c.sequence + 1 = omega (arith, room) in
    (Increasing-weaken 0 c.sequence _ c.events h (omega (arith, next)), omega (arith, next))
append_event-Keeps (some e) at kind content c h room =
    let next : next_sequence c.sequence ≡ c.sequence + 1 = omega (arith, room) in
    (Increasing-append 0 c.sequence c.events _ h (omega (arith, next)), omega (arith, next))

module _ (key : Option String) (e : SnapshotEvidence) where
  with_chunk-Keeps :
      (id : Option String) (index : ℕ) (x : String) (xs : List String) (c : JournalCommand)
      → IsSequenced c
      → HasRoom 1 c
      → Keeps 1 c (with_chunk key e id index x xs c)
  with_chunk-Keeps id index x xs c h room =
      append_event-Keeps id e.observed_at snapshot_inventory_chunk
        (inventory key e.scope index (take snapshot_evidence_chunk_size (x ∷ xs))) c h room

  append_chunks-Keeps :
      (n index : ℕ) (ids : List String) (c : JournalCommand) (d : Daemon)
      → IsSequenced c
      → HasRoom n c
      → Keeps n c (append_chunks n key e index ids c d).0
  unfolding append_chunks
  append_chunks-Keeps zero index ids c d h room = (h, omega arith)
  append_chunks-Keeps (suc n) index [] c d h room = (h, omega arith)
  append_chunks-Keeps (suc n) index (x ∷ xs) c d h room = elim (Option-cases (fresh_id d).0) [
    | inl bad ↦
        let (ordered, near) = with_chunk-Keeps none index x xs c h (omega (arith, room)) in
        rw (append_chunks-none key e n index x xs c d bad) (ordered, omega (arith, near))
    | inr (id, made) ↦
        let c' = with_chunk key e (some id) index x xs c in
        let first = with_chunk-Keeps (some id) index x xs c h (omega (arith, room)) in
        let rest =
          append_chunks-Keeps n (index + 1) (drop 399 xs) c' (fresh_id d).1 first.0
            (omega (arith, room, first.1)) in
        rw (append_chunks-some key e n index x xs c d id made)
          (rest.0, omega (arith, first.1, rest.1))
  ]

append_evidence-Keeps :
    (key : Option String) (e : Option SnapshotEvidence) (ids : List String) (c : JournalCommand)
    (d : Daemon)
    → IsSequenced c
    → HasRoom (length ids) c
    → Keeps (length ids) c (append_evidence key e ids c d).0
unfolding append_evidence
append_evidence-Keeps key none ids c d h room = (h, omega arith)
append_evidence-Keeps key (some e) ids c d h room =
    append_chunks-Keeps key e (length ids) 0 ids c d h room

-- The number of the snapshots' identifiers in a result.
abbrev pub evidence_ids : List RepositoryResult → ℕ
evidence_ids [] = 0
evidence_ids (r ∷ rs) = length r.snapshot_evidence_ids + evidence_ids rs

abbrev pub result_ids : CommandResult → ℕ
result_ids r = length r.snapshot_evidence_ids + evidence_ids r.repository_results

append_repositories-Keeps :
    (rs : List RepositoryResult) (c : JournalCommand) (d : Daemon)
    → IsSequenced c
    → HasRoom (evidence_ids rs) c
    → Keeps (evidence_ids rs) c (append_repositories rs c d).0
unfolding append_repositories
append_repositories-Keeps [] c d h room = (h, omega arith)
append_repositories-Keeps (r ∷ rs) c d h room =
    let first =
      append_evidence-Keeps (some r.repository_key) r.snapshot_evidence r.snapshot_evidence_ids c d
        h (omega (arith, room)) in
    let next =
      append_evidence (some r.repository_key) r.snapshot_evidence r.snapshot_evidence_ids c d in
    let rest = append_repositories-Keeps rs next.0 next.1 first.0 (omega (arith, room, first.1)) in
    (rest.0, omega (arith, first.1, rest.1))

pub append_snapshot_evidence-Keeps :
    (result : CommandResult) (c : JournalCommand) (d : Daemon)
    → IsSequenced c
    → HasRoom (result_ids result) c
    → Keeps (result_ids result) c (append_snapshot_evidence result c d).0
unfolding append_snapshot_evidence
append_snapshot_evidence-Keeps result c d h room =
    elim (Bool-cases (is_nonempty result.repository_results)) [
      | inl several ↦
          let kept =
            append_repositories-Keeps result.repository_results c d h (omega (arith, room)) in
          rw several (kept.0, omega (arith, kept.1))
      | inr one ↦
          let kept =
            append_evidence-Keeps none result.snapshot_evidence result.snapshot_evidence_ids c d h
              (omega (arith, room)) in
          rw one (kept.0, omega (arith, kept.1))
    ]

pub append_finished-Keeps :
    (result : CommandResult) (c : JournalCommand) (d : Daemon)
    → IsSequenced c
    → HasRoom 1 c
    → Keeps 1 c (append_finished result c d).0
unfolding append_finished
append_finished-Keeps result c d h room =
    append_event-Keeps (fresh_id d).0 result.finished_at run_finished (terminal result) c h room
