-- ===== src/Events/Evidence.antt =====
-- The chunks that snapshot evidence is sent in.
use backupchief_agent.Base.{
  ℕ, zero, suc, ◌+◌, ◌-◌, ◌/◌, ◌&&◌, ◌≤◌, ◌≡◌, refl, sym, ap, ◌∙◌, String, Bool, true, List, [],
  ◌∷◌, ◌++◌, Option, none, some, is_some, Option-cases, inl, inr, subst, arith, length, take, drop,
  length-take, length-drop, take-append-drop, append-nil, append_assoc,
}
use backupchief_agent.Protocol.{
  AgentEvent, EventPayload, inventory, JournalCommand, SnapshotEvidence, snapshot_inventory_chunk,
}
use backupchief_agent.Daemon.{Daemon, fresh_id, event_envelope, next_sequence}
use backupchief_agent.Events.{
  append_event, append_chunks, append_evidence, snapshot_evidence_chunk_size,
}

pub suc≤zero : {n : ℕ} → ¬ (suc n ≤ zero)
suc≤zero h = omega (arith, h)

module _ (key : Option String) (e : SnapshotEvidence) where
  abbrev pub with_chunk : Option String → ℕ → String → List String → JournalCommand → JournalCommand
  with_chunk id index x xs c =
      append_event id e.observed_at snapshot_inventory_chunk
        (inventory key e.scope index (take snapshot_evidence_chunk_size (x ∷ xs))) c

  pub append_chunks-none :
      (n index : ℕ) (x : String) (xs : List String) (c : JournalCommand) (d : Daemon)
      → (fresh_id d).0 ≡ none
      → append_chunks (suc n) key e index (x ∷ xs) c d
        ≡ (with_chunk none index x xs c, (fresh_id d).1)
  unfolding append_chunks
  append_chunks-none n index x xs c d h = rw (h, append_chunks) (rw (h, append_chunks) refl)

  pub append_chunks-some :
      (n index : ℕ) (x : String) (xs : List String) (c : JournalCommand) (d : Daemon) (id : String)
      → (fresh_id d).0 ≡ some id
      → append_chunks (suc n) key e index (x ∷ xs) c d
        ≡ append_chunks n key e
            (index + 1)
            (drop 399 xs)
            (with_chunk (some id) index x xs c)
            (fresh_id d).1
  unfolding append_chunks
  append_chunks-some n index x xs c d id h = rw (h, append_chunks) (rw (h, append_chunks) refl)

  -- Any two amounts of fuel that are not less than the number of the identifiers give the same
  -- result, so that the loop has ended with either.
  pub append_chunks_ends :
      (n m : ℕ) (index : ℕ) (ids : List String) (c : JournalCommand) (d : Daemon)
      → length ids ≤ n
      → length ids ≤ m
      → append_chunks n key e index ids c d ≡ append_chunks m key e index ids c d
  unfolding append_chunks
  append_chunks_ends zero zero index ids c d hn hm = refl
  append_chunks_ends zero (suc m) index [] c d hn hm = refl
  append_chunks_ends zero (suc m) index (x ∷ xs) c d hn hm = absurd (suc≤zero hn)
  append_chunks_ends (suc n) zero index [] c d hn hm = refl
  append_chunks_ends (suc n) zero index (x ∷ xs) c d hn hm = absurd (suc≤zero hm)
  append_chunks_ends (suc n) (suc m) index [] c d hn hm = refl
  append_chunks_ends (suc n) (suc m) index (x ∷ xs) c d hn hm = elim (Option-cases (fresh_id d).0) [
    | inl bad ↦
        append_chunks-none n index x xs c d bad ∙ sym (append_chunks-none m index x xs c d bad)
    | inr (id, made) ↦
        let left : length (drop 399 xs) ≡ length xs - 399 = length-drop 399 xs in
        append_chunks-some n index x xs c d id made
        ∙ append_chunks_ends n m (index + 1) (drop 399 xs) (with_chunk (some id) index x xs c)
            (fresh_id d).1 (omega (arith, left, hn)) (omega (arith, left, hm))
        ∙ sym (append_chunks-some m index x xs c d id made)
  ]

-- The number of chunks for so many identifiers.
abbrev pub chunk_count : ℕ → ℕ
chunk_count n = (n + 399) / 400

-- Whether the next so many identifiers can be made.
unfoldable pub has_ids : ℕ → Daemon → Bool
has_ids zero d = true
has_ids (suc n) d = let rest = has_ids n (fresh_id d).1 in is_some (fresh_id d).0 && rest

abbrev pub ids_in : EventPayload → List String
ids_in (inventory key scope index ids) = ids
ids_in _ = []

-- The snapshots' identifiers in the events, in their order.
unfoldable pub evidence_in : List AgentEvent → List String
evidence_in [] = []
evidence_in (e ∷ es) = ids_in e.event_payload ++ evidence_in es

-- The events are chunks of the evidence, numbered from the index on, of 400 identifiers at most.
abbrev pub Chunks : Option String → SnapshotEvidence → ℕ → List AgentEvent → Type 0
Chunks key e index [] = Unit {0}
Chunks key e index (x ∷ xs) =
    (x.event_kind ≡ snapshot_inventory_chunk)
    × (x.event_payload ≡ inventory key e.scope index (ids_in x.event_payload))
    × (length (ids_in x.event_payload) ≤ snapshot_evidence_chunk_size)
    × Chunks key e (index + 1) xs

has_ids-suc :
    (n : ℕ) (d : Daemon)
    → has_ids (suc n) d ≡ true
    → ((id : String) × ((fresh_id d).0 ≡ some id)) × (has_ids n (fresh_id d).1 ≡ true)
unfolding has_ids
has_ids-suc n d h = elim (Option-cases (fresh_id d).0) [
  | inl bad ↦ ground (arith, bad)
  | inr (id, made) ↦ ((id, made), ground (arith, made))
]

module _ (key : Option String) (e : SnapshotEvidence) where
  append_chunks_new :
      (n index : ℕ) (ids : List String) (c : JournalCommand) (d : Daemon)
      → length ids ≤ n
      → has_ids (chunk_count (length ids)) d ≡ true
      → (new : List AgentEvent) × ((append_chunks n key e index ids c d).0.events ≡ c.events ++ new)
        × (evidence_in new ≡ ids)
        × (length new ≡ chunk_count (length ids))
        × Chunks key e index new
  unfolding append_chunks append_event evidence_in event_envelope
  append_chunks_new zero index [] c d hn given =
      ([], sym (append-nil c.events), unfold evidence_in in refl, omega arith, tt)
  append_chunks_new (suc n) index [] c d hn given =
      ([], sym (append-nil c.events), unfold evidence_in in refl, omega arith, tt)
  append_chunks_new zero index (x ∷ xs) c d hn given = absurd (suc≤zero hn)
  append_chunks_new (suc n) index (x ∷ xs) c d hn given =
      let left : length (drop 399 xs) ≡ length xs - 399 = length-drop 399 xs in
      let count : chunk_count (suc (length xs)) ≡ suc (chunk_count (length (drop 399 xs))) =
        omega (arith, left) in
      let (some_id, ids_left) =
        has_ids-suc (chunk_count (length (drop 399 xs))) d
          (subst (λ k. has_ids k d ≡ true) count given) in
      let (id, made) = some_id in
      let chunk = take snapshot_evidence_chunk_size (x ∷ xs) in
      let c' =
        append_event (some id) e.observed_at snapshot_inventory_chunk
          (inventory key e.scope index chunk) c in
      let own =
        event_envelope (record c { sequence = next_sequence c.sequence }) id
          (next_sequence c.sequence) e.observed_at snapshot_inventory_chunk
          (inventory key e.scope index chunk) in
      let (new, added, whole, number, chunks) =
        append_chunks_new n (index + 1) (drop 399 xs) c' (fresh_id d).1 (omega (arith, left, hn))
          ids_left in
      rw (append_chunks-some key e n index x xs c d id made) (
        own ∷ new,
        added ∙ append_assoc c.events (own ∷ []) new,
        ap (λ ys. (x ∷ take 399 xs) ++ ys) whole ∙ take-append-drop 400 (x ∷ xs),
        omega (arith, number, count),
        (refl, refl, omega (arith, length-take 399 xs), chunks),
      )

  -- If an identifier can be made for each chunk, the events that are added are the chunks of the
  -- evidence: numbered in their order from 0 on, of 400 identifiers at most, as many as are needed
  -- for that; and they hold the snapshots' identifiers, all of them in their order.
  pub append_evidence-Chunks :
      (ids : List String) (c : JournalCommand) (d : Daemon)
      → has_ids (chunk_count (length ids)) d ≡ true
      → (new : List AgentEvent) × ((append_evidence key (some e) ids c d).0.events
          ≡ c.events ++ new)
        × (evidence_in new ≡ ids)
        × (length new ≡ chunk_count (length ids))
        × Chunks key e 0 new
  unfolding append_evidence
  append_evidence-Chunks ids c d given =
      append_chunks_new (length ids) 0 ids c d (omega arith) given
