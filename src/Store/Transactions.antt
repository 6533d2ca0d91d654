-- ===== src/Store/Transactions.antt =====
-- A transaction is written whole or not at all, by the laws of bbolt.
use backupchief_agent.Base.{
  ◌≡◌, ◌≢◌, ◌⊎◌, refl, ap, true, Option, none, some, inl, inr, Option-cases, arith,
}
use backupchief_agent.Store.{
  Store, Content, no_space, other_error, spool_capacity, next_outcome, content_of, update_state,
}

-- What a failed transaction leaves of the content of the database.
abbrev pub SameContent : Store → Store → Type 0
SameContent s s' =
    (s'.journal ≡ s.journal) × (s'.occurrences ≡ s.occurrences) × (s'.runtime ≡ s.runtime)

pub same_content :
    (s : Store) (k : Content)
    → k ≡ content_of s
    → (k.journal ≡ s.journal) × (k.occurrences ≡ s.occurrences) × (k.runtime ≡ s.runtime)
same_content s k same = (
  ap (λ (x : Content). x.journal) same,
  ap (λ (x : Content). x.occurrences) same,
  ap (λ (x : Content). x.runtime) same,
)

-- The occurrences of older versions are never written, and the reserve never set up again.
pub update_state-rest :
    (s : Store) (action : Option Content)
    → ((update_state s action).1.legacy_occurrences ≡ s.legacy_occurrences)
      × (s.reserve_released ≡ true → (update_state s action).1.reserve_released ≡ true)
unfolding update_state
update_state-rest s action = (ground arith, λ h. ground arith)

-- A transaction whose action gives content has written it, or given an error and left the old one;
-- for lack of space the reserve is released.
pub update_state-cases :
    (s : Store) (new : Content)
    → let (e, s') = update_state s (some new) in
      ((e ≡ none) × (content_of s' ≡ new))
      ⊎ ((e ≢ none)
          × (content_of s' ≡ content_of s)
          × (e ≡ some spool_capacity → s'.reserve_released ≡ true))
unfolding update_state
update_state-cases s new =
    let b = next_outcome s.outcomes in
    let u = b.update (content_of s) (some new) in
    elim (Option-cases u.0) [
      | inl e ↦ rw (e, update_state) (inl (refl, b.writes (content_of s) new e))
      | inr (no_space, e) ↦
          rw (e, update_state)
            (inr ((λ h. cc h), b.rolls_back (content_of s) (some new) (λ h. cc (h, e)), λ h. refl))
      | inr (other_error, e) ↦
          rw (e, update_state)
            (inr ((λ h. cc h), b.rolls_back (content_of s) (some new) (λ h. cc (h, e)), λ h. cc h))
    ]

-- A transaction whose action gives an error leaves the old content.
pub update_state-refused :
    (s : Store)
    → let (e, s') = update_state s none in
      (e ≢ none) × (content_of s' ≡ content_of s) × (e ≢ some spool_capacity)
unfolding update_state
update_state-refused s =
    let b = next_outcome s.outcomes in
    let e = b.refuses (content_of s) in
    rw (e, update_state) ((λ h. cc h), b.rolls_back (content_of s) none (λ h. cc (h, e)), λ h. cc h)
