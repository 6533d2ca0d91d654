-- ===== src/Scheduler/Best.antt =====
-- The loop over the journal that looks for the entry to start: it finds a best one.
use backupchief_agent.Base.{
  ◌≡◌, refl, sym, subst, ◌⊎◌, Bool, true, false, ◌&&◌, String, [], ◌∷◌, none, some, Bool-cases, inl,
  inr, arith, Dict, Memᴰ, All, All-of,
}
use backupchief_agent.Protocol.{JournalCommand}
use backupchief_agent.Scheduler.Backups.{best_entry}

abbrev pub Entry : Type 0
Entry = String × JournalCommand

module _ (test : JournalCommand → Bool) (better : JournalCommand → JournalCommand → Bool) where
  -- The entry passes the test, and no entry of the journal that passes it is better.
  abbrev LeastOf : Dict JournalCommand → Entry → Type 0
  LeastOf j r =
      Memᴰ r j
      × (test r.1 ≡ true)
      × ((x : Entry) → Memᴰ x j → test x.1 ≡ true → better x.1 r.1 ≡ false)

  abbrev pub IsBest : Dict JournalCommand → Entry → Type 0
  IsBest j r =
      Memᴰ r j × (test r.1 ≡ true) × All (λ (x : Entry). (test x.1 && better x.1 r.1) ≡ false) j

  -- What the loop gives from one best entry on.
  abbrev BestFrom : Dict JournalCommand → Entry → Entry → Type 0
  BestFrom j b r =
      ((r ≡ b) ⊎ ((better r.1 b.1 ≡ true) × Memᴰ r j × (test r.1 ≡ true)))
      × ((x : Entry) → Memᴰ x j → test x.1 ≡ true → better x.1 r.1 ≡ false)

  module _ (irreflexive : (a : JournalCommand) → better a a ≡ false)
      (transitive : (a b c : JournalCommand)
        → better a b ≡ true
        → better b c ≡ true
        → better a c ≡ true) where
    better_last :
        (j : Dict JournalCommand) (b r : Entry) (x : JournalCommand)
        → BestFrom j b r
        → better x b.1 ≡ false
        → better x r.1 ≡ false
    better_last j b r x (inl same, least) h = subst (λ y. better x y.1 ≡ false) (sym same) h
    better_last j b r x (inr (less, there, ok), least) h = elim (Bool-cases (better x r.1)) [
      | inr worse ↦ worse
      | inl less' ↦ let t = transitive x r.1 b.1 less' less in absurd (cc (t, h))
    ]

    won :
        (j : Dict JournalCommand) (y b r : Entry)
        → BestFrom j y r
        → better y.1 b.1 ≡ true
        → test y.1 ≡ true
        → (better r.1 b.1 ≡ true) × Memᴰ r (y ∷ j) × (test r.1 ≡ true)
    won j y b r (inl same, least) first ok = (
      subst (λ z. better z.1 b.1 ≡ true) (sym same) first,
      Memᴰ.head same,
      subst (λ z. test z.1 ≡ true) (sym same) ok,
    )
    won j y b r (inr (less, there, ok'), least) first ok =
        (transitive r.1 y.1 b.1 less first, Memᴰ.tail there, ok')

    lost :
        (j : Dict JournalCommand) (y b r : Entry)
        → (r ≡ b) ⊎ ((better r.1 b.1 ≡ true) × Memᴰ r j × (test r.1 ≡ true))
        → (r ≡ b) ⊎ ((better r.1 b.1 ≡ true) × Memᴰ r (y ∷ j) × (test r.1 ≡ true))
    lost j y b r (inl same) = inl same
    lost j y b r (inr (less, there, ok)) = inr (less, Memᴰ.tail there, ok)

    least_test :
        (j : Dict JournalCommand) (y r : Entry)
        → (test y.1 ≡ true → better y.1 r.1 ≡ false)
        → ((x : Entry) → Memᴰ x j → test x.1 ≡ true → better x.1 r.1 ≡ false)
        → (x : Entry) → Memᴰ x (y ∷ j)
        → test x.1 ≡ true
        → better x.1 r.1 ≡ false
    least_test j y r own rest x (Memᴰ.head e) ok =
        subst (λ z. better z.1 r.1 ≡ false) (sym e) (own (subst (λ z. test z.1 ≡ true) e ok))
    least_test j y r own rest x (Memᴰ.tail h) ok = rest x h ok

    least_of :
        (j : Dict JournalCommand) (y r : Entry)
        → better y.1 r.1 ≡ false
        → ((x : Entry) → Memᴰ x j → test x.1 ≡ true → better x.1 r.1 ≡ false)
        → (x : Entry) → Memᴰ x (y ∷ j)
        → test x.1 ≡ true
        → better x.1 r.1 ≡ false
    least_of j y r own rest = least_test j y r (λ ok. own) rest

    best_entry-from :
        (j : Dict JournalCommand) (b : Entry)
        → (r : Entry) × (best_entry test better j (some b) ≡ some r) × BestFrom j b r
    unfolding best_entry
    best_entry-from [] b = (b, refl, (inl refl, λ x h. elim h [ ]))
    best_entry-from ((id, c) ∷ j) b = elim (Bool-cases (test c && better c b.1)) [
      | inl wins ↦
          let (r, e, from) = best_entry-from j (id, c) in
          let own = better_last j (id, c) r c from (irreflexive c) in
          let ok : test c ≡ true = ground (arith, wins) in
          let first : better c b.1 ≡ true = ground (arith, wins) in
          rw wins (r, e, (inr (won j (id, c) b r from first ok), least_of j (id, c) r own from.1))
      | inr loses ↦
          let (r, e, from) = best_entry-from j b in
          rw loses (
            r,
            e,
            (
              lost j (id, c) b r from.0,
              least_test j (id, c) r (λ ok. better_last j b r c from (ground (arith, loses, ok)))
                  from.1,
            ),
          )
    ]

    begun :
        (j : Dict JournalCommand) (y r : Entry)
        → test y.1 ≡ true
        → (r ≡ y) ⊎ ((better r.1 y.1 ≡ true) × Memᴰ r j × (test r.1 ≡ true))
        → Memᴰ r (y ∷ j)
    begun j y r ok (inl same) = Memᴰ.head same
    begun j y r ok (inr (less, there, ok')) = Memᴰ.tail there

    begun_ok :
        (j : Dict JournalCommand) (y r : Entry)
        → test y.1 ≡ true
        → (r ≡ y) ⊎ ((better r.1 y.1 ≡ true) × Memᴰ r j × (test r.1 ≡ true))
        → test r.1 ≡ true
    begun_ok j y r ok (inl same) = subst (λ z. test z.1 ≡ true) (sym same) ok
    begun_ok j y r ok (inr (less, there, ok')) = ok'

    fails_all :
        (j : Dict JournalCommand) (y : Entry)
        → test y.1 ≡ false
        → ((x : Entry) → Memᴰ x j → test x.1 ≡ false)
        → (x : Entry) → Memᴰ x (y ∷ j)
        → test x.1 ≡ false
    fails_all j y bad rest x (Memᴰ.head e) = subst (λ z. test z.1 ≡ false) (sym e) bad
    fails_all j y bad rest x (Memᴰ.tail h) = rest x h

    -- From no entry on, the loop gives a best entry, or none passes the test.
    best_entry-LeastOf :
        (j : Dict JournalCommand)
        → ((best_entry test better j none ≡ none) × ((x : Entry) → Memᴰ x j → test x.1 ≡ false))
          ⊎ ((r : Entry) × (best_entry test better j none ≡ some r) × LeastOf j r)
    unfolding best_entry
    best_entry-LeastOf [] = inl (refl, λ x h. elim h [ ])
    best_entry-LeastOf ((id, c) ∷ j) = elim (Bool-cases (test c)) [
      | inl ok ↦
          let (r, e, from) = best_entry-from j (id, c) in
          let own = better_last j (id, c) r c from (irreflexive c) in
          rw ok (
            inr (
              r,
              e,
              (
                begun j (id, c) r ok from.0,
                begun_ok j (id, c) r ok from.0,
                least_of j (id, c) r own from.1,
              ),
            ))
      | inr bad ↦ elim (best_entry-LeastOf j) [
        | inl (e, none_there) ↦ rw bad (inl (e, fails_all j (id, c) bad none_there))
        | inr (r, e, best) ↦ rw bad (
            inr (
              r,
              e,
              (Memᴰ.tail best.0, best.1, least_test j (id, c) r (λ good. cc (good, bad)) best.2),
            ))
      ]
    ]

    pub best_entry-IsBest :
        (j : Dict JournalCommand)
        → ((best_entry test better j none ≡ none) × All (λ (x : Entry). test x.1 ≡ false) j)
          ⊎ ((r : Entry) × (best_entry test better j none ≡ some r) × IsBest j r)
    best_entry-IsBest j = elim (best_entry-LeastOf j) [
      | inl (e, none_there) ↦ inl (e, All-of (λ (x : Entry). test x.1 ≡ false) j none_there)
      | inr (r, e, least) ↦
          let all : All (λ (x : Entry). (test x.1 && better x.1 r.1) ≡ false) j =
            All-of (λ (x : Entry). (test x.1 && better x.1 r.1) ≡ false) j
              (λ x m. elim (Bool-cases (test x.1)) [
                | inl ok ↦ rw ok (least.2 x m ok)
                | inr bad ↦ rw bad refl
              ]) in
          inr (r, e, (least.0, least.1, all))
    ]
