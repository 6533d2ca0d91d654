-- ===== src/Events/Frame.antt =====
-- What the events of an entry leave of the daemon.
use backupchief_agent.Base.{
  ℕ, zero, suc, ◌+◌, ◌≡◌, refl, ap, ◌∙◌, String, List, [], ◌∷◌, Option, none, some, Option-cases,
  Bool-cases, inl, inr, drop, length, arith,
}
use backupchief_agent.Protocol.{JournalCommand, SnapshotEvidence, RepositoryResult, CommandResult}
use backupchief_agent.Daemon.{Daemon, fresh_id, save_journal, save_state, is_nonempty}
use backupchief_agent.Events.{
  append_chunks, append_evidence, append_repositories, append_snapshot_evidence, append_finished,
}
use backupchief_agent.Events.Evidence.{append_chunks-none, append_chunks-some, with_chunk}

-- Nothing but the store, the runtime state and the random numbers that are left may differ.
abbrev pub Quiet : Daemon → Daemon → Type 0
Quiet d d' = d' ≡ record d { store = d'.store; state = d'.state; entropy = d'.entropy }

pub Quiet-trans : (a b c : Daemon) → Quiet a b → Quiet b c → Quiet a c
Quiet-trans a b c p q =
    q ∙ ap (λ (x : Daemon). record x { store = c.store; state = c.state; entropy = c.entropy }) p

pub fresh_id-Quiet : (d : Daemon) → Quiet d (fresh_id d).1
unfolding fresh_id
fresh_id-Quiet d = ground arith

pub save_journal-Quiet : (d : Daemon) → Quiet d (save_journal d).1
unfolding save_journal
save_journal-Quiet d = refl

pub save_state-Quiet : (d : Daemon) → Quiet d (save_state d).1
unfolding save_state
save_state-Quiet d = refl

module _ (key : Option String) (e : SnapshotEvidence) where
  append_chunks-Quiet :
      (n index : ℕ) (ids : List String) (c : JournalCommand) (d : Daemon)
      → Quiet d (append_chunks n key e index ids c d).1
  unfolding append_chunks
  append_chunks-Quiet zero index ids c d = refl
  append_chunks-Quiet (suc n) index [] c d = refl
  append_chunks-Quiet (suc n) index (x ∷ xs) c d = elim (Option-cases (fresh_id d).0) [
    | inl bad ↦ rw (append_chunks-none key e n index x xs c d bad) (fresh_id-Quiet d)
    | inr (id, made) ↦ rw (append_chunks-some key e n index x xs c d id made) (
        Quiet-trans d (fresh_id d).1 _ (fresh_id-Quiet d) (
          append_chunks-Quiet n (index + 1) (drop 399 xs) (with_chunk key e (some id) index x xs c)
            (fresh_id d).1))
  ]

append_evidence-Quiet :
    (key : Option String) (e : Option SnapshotEvidence) (ids : List String) (c : JournalCommand)
    (d : Daemon)
    → Quiet d (append_evidence key e ids c d).1
unfolding append_evidence
append_evidence-Quiet key none ids c d = refl
append_evidence-Quiet key (some e) ids c d = append_chunks-Quiet key e (length ids) 0 ids c d

append_repositories-Quiet :
    (rs : List RepositoryResult) (c : JournalCommand) (d : Daemon)
    → Quiet d (append_repositories rs c d).1
unfolding append_repositories
append_repositories-Quiet [] c d = refl
append_repositories-Quiet (r ∷ rs) c d =
    let first =
      append_evidence (some r.repository_key) r.snapshot_evidence r.snapshot_evidence_ids c d in
    Quiet-trans d first.1 _
      (append_evidence-Quiet (some r.repository_key) r.snapshot_evidence r.snapshot_evidence_ids c
        d)
      (append_repositories-Quiet rs first.0 first.1)

pub append_snapshot_evidence-Quiet :
    (result : CommandResult) (c : JournalCommand) (d : Daemon)
    → Quiet d (append_snapshot_evidence result c d).1
unfolding append_snapshot_evidence
append_snapshot_evidence-Quiet result c d =
    elim (Bool-cases (is_nonempty result.repository_results)) [
      | inl several ↦ rw several (append_repositories-Quiet result.repository_results c d)
      | inr one ↦
          rw one
            (append_evidence-Quiet none result.snapshot_evidence result.snapshot_evidence_ids c d)
    ]

pub append_finished-Quiet :
    (result : CommandResult) (c : JournalCommand) (d : Daemon)
    → Quiet d (append_finished result c d).1
unfolding append_finished
append_finished-Quiet result c d = fresh_id-Quiet d
