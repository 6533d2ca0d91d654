-- ===== src/Progress/Chunks.antt =====
-- The pieces in which the output comes do not matter.
use backupchief_agent.Base.{
  ◌≡◌, refl, sym, subst, ap, ◌∙◌, ◌⊎◌, inl, inr, ℕ, zero, suc, ◌+◌, ◌≤◌, ◌<◌, true, false, List, [],
  ◌∷◌, ◌++◌, Option, none, some, ltb, ◌==◌, if◌then◌else◌, length, length-append, Text, arith,
  Bool-cases, append-nil, append_assoc,
}
use backupchief_agent.Progress.{
  Line, ProgressOutput, newline, cut, keep, end_line, next_round, write_loop, write, write_all,
}

-- What the buffer holds between two writes: at most the limit, and nothing of a line that is
-- discarded.
pub record IsBounded (o : ProgressOutput) : Type 0 where
  pub within_limit : length o.pending ≤ 65536
  pub discards_all : o.discarding ≡ true → o.pending ≡ []

abbrev pub emptied : ProgressOutput → ProgressOutput
emptied o = record o { pending = []; discarding = true }

-- The two ways of a piece: its line is too long, or it is kept.
pub keep_long :
    (p : Text) (o : ProgressOutput)
    → IsBounded o
    → (o.discarding ≡ true) ⊎ (ltb 65536 (length o.pending + length p) ≡ true)
    → keep p o ≡ emptied o
unfolding keep
keep_long p o h (inl e) = elim (Bool-cases (ltb 65536 (length o.pending + length p))) [
  | inl long ↦ rw long refl
  | inr short ↦ rw (short, e) (λ t. record o { pending = h.discards_all e t; discarding = true })
]
keep_long p o h (inr long) = rw long refl

pub keep_short :
    (p : Text) (o : ProgressOutput)
    → o.discarding ≡ false
    → ltb 65536 (length o.pending + length p) ≡ false
    → keep p o ≡ record o { pending = o.pending ++ p }
unfolding keep
keep_short p o e short = rw (short, e) refl

pub short_le : (n : ℕ) → ltb 65536 n ≡ false → n ≤ 65536
short_le n h = ground arith

pub le_short : (n : ℕ) → n ≤ 65536 → ltb 65536 n ≡ false
le_short n h = ground arith

lt_long : (n : ℕ) → ltb 65536 n ≡ true → 65536 < n
lt_long n h = ground arith

long_lt : (n : ℕ) → 65536 < n → ltb 65536 n ≡ true
long_lt n h = ground arith

pub emptied-IsBounded : (o : ProgressOutput) → IsBounded (emptied o)
emptied-IsBounded o = record { within_limit = omega arith; discards_all = λ e. refl }

keep-IsBounded : (p : Text) (o : ProgressOutput) → IsBounded o → IsBounded (keep p o)
keep-IsBounded p o h = elim (Bool-cases (ltb 65536 (length o.pending + length p))) [
  | inl long ↦ subst IsBounded (sym (keep_long p o h (inr long))) (emptied-IsBounded o)
  | inr short ↦ elim (Bool-cases o.discarding) [
    | inl e ↦ subst IsBounded (sym (keep_long p o h (inl e))) (emptied-IsBounded o)
    | inr e ↦ subst IsBounded (sym (keep_short p o e short)) (record {
      within_limit =
          omega (arith, length-append o.pending p, short_le (length o.pending + length p) short);
      discards_all = λ e'. cc;
    })
  ]
]

pub keep_nil : (o : ProgressOutput) → IsBounded o → keep [] o ≡ o
keep_nil o h = elim (Bool-cases o.discarding) [
  | inl e ↦
      keep_long [] o h (inl e)
      ∙ (λ t. record o { pending = sym (h.discards_all e) t; discarding = sym e t })
  | inr e ↦
      keep_short [] o e (le_short (length o.pending + 0) (omega (arith, h.within_limit)))
      ∙ (λ t. record o { pending = append-nil o.pending t })
]

-- A second piece behind one that is kept.
keep_kept :
    (p q : Text) (o : ProgressOutput)
    → IsBounded o
    → o.discarding ≡ false
    → ltb 65536 (length o.pending + length p) ≡ false
    → keep (p ++ q) o ≡ keep q (keep p o)
keep_kept p q o h e short =
    let o₁ : ProgressOutput = record o { pending = o.pending ++ p } in
    let first : keep p o ≡ o₁ = keep_short p o e short in
    let h₁ : IsBounded o₁ = subst IsBounded first (keep-IsBounded p o h) in
    let same : length o.pending + length (p ++ q) ≡ length (o.pending ++ p) + length q =
      omega (arith, length-append p q, length-append o.pending p) in
    elim (Bool-cases (ltb 65536 (length o.pending + length (p ++ q)))) [
      | inl long ↦
          keep_long (p ++ q) o h (inr long)
          ∙ sym (ap (keep q) first ∙ keep_long q o₁ h₁ (inr (ap (ltb 65536) (sym same) ∙ long)))
      | inr fits ↦
          keep_short (p ++ q) o e fits
          ∙ (λ t. record o { pending = sym (append_assoc o.pending p q) t })
          ∙ sym (ap (keep q) first ∙ keep_short q o₁ e (ap (ltb 65536) (sym same) ∙ fits))
    ]

pub keep-append :
    (p q : Text) (o : ProgressOutput) → IsBounded o → keep (p ++ q) o ≡ keep q (keep p o)
keep-append p q o h =
    let none_left : keep p o ≡ emptied o → keep q (keep p o) ≡ emptied o =
      λ e. ap (keep q) e ∙ keep_long q (emptied o) (emptied-IsBounded o) (inl refl) in
    elim (Bool-cases o.discarding) [
      | inl e ↦ keep_long (p ++ q) o h (inl e) ∙ sym (none_left (keep_long p o h (inl e)))
      | inr e ↦ elim (Bool-cases (ltb 65536 (length o.pending + length p))) [
        | inl long ↦
            keep_long (p ++ q) o h (
              inr (
                long_lt _
                  (omega (arith, length-append p q, lt_long (length o.pending + length p) long))))
            ∙ sym (none_left (keep_long p o h (inr long)))
        | inr short ↦ keep_kept p q o h e short
      ]
    ]

-- The pieces of the output, one after the other.
unfoldable pub concat : List Text → Text
concat [] = []
concat (s ∷ rest) = s ++ concat rest

module _ (decode : Text → Option Line) where
  end_line-IsBounded : (o : ProgressOutput) → IsBounded (end_line decode o)
  unfolding end_line
  end_line-IsBounded o = record { within_limit = omega arith; discards_all = λ e. refl }

  -- One byte after the other.
  unfoldable pub feed : Text → ProgressOutput → ProgressOutput
  feed [] o = o
  feed (c ∷ cs) o = feed cs (if c == newline then end_line decode o else keep (c ∷ []) o)

  feed-append : (s t : Text) (o : ProgressOutput) → feed (s ++ t) o ≡ feed t (feed s o)
  unfolding feed
  feed-append [] t o = refl
  feed-append (c ∷ cs) t o = feed-append cs t _

  pub feed_nil : (o : ProgressOutput) → feed [] o ≡ o
  unfolding feed
  feed_nil o = refl

  pub feed_of_end :
      (c : ℕ) (cs : Text) (o : ProgressOutput)
      → c == newline ≡ true
      → feed (c ∷ cs) o ≡ feed cs (end_line decode o)
  unfolding feed
  feed_of_end c cs o e = ap (λ b. feed cs (if b then end_line decode o else keep (c ∷ []) o)) e

  pub feed_other :
      (c : ℕ) (cs : Text) (o : ProgressOutput)
      → c == newline ≡ false
      → feed (c ∷ cs) o ≡ feed cs (keep (c ∷ []) o)
  unfolding feed
  feed_other c cs o e = ap (λ b. feed cs (if b then end_line decode o else keep (c ∷ []) o)) e

  -- The loop's body on a cut text.
  after_cut : Option Text → ProgressOutput → ProgressOutput
  after_cut none o = o
  after_cut (some rest) o = feed rest (end_line decode o)

  feed_lem :
      (s : Text) (o : ProgressOutput)
      → IsBounded o
      → feed s o ≡ after_cut (cut s).1 (keep (cut s).0 o)
  unfolding feed after_cut cut
  feed_lem [] o h = sym (keep_nil o h)
  feed_lem (c ∷ cs) o h = elim (Bool-cases (c == newline)) [
    | inl e ↦ rw e (ap (λ x. feed cs (end_line decode x)) (sym (keep_nil o h)))
    | inr e ↦ rw e (
        feed_lem cs (keep (c ∷ []) o) (keep-IsBounded (c ∷ []) o h)
        ∙ ap (after_cut (cut cs).1) (sym (keep-append (c ∷ []) (cut cs).0 o h)))
  ]

  cut_shorter : (s rest : Text) → (cut s).1 ≡ some rest → length rest < length s
  unfolding cut
  cut_shorter [] rest h = cc
  cut_shorter (c ∷ cs) rest h = ground (arith, cut_shorter cs rest)

  round_lem :
      (n : ℕ) (rest : Option Text) (o : ProgressOutput)
      → ((r : Text)
          → rest ≡ some r
          → write_loop decode n r (end_line decode o) ≡ feed r (end_line decode o))
      → next_round decode (write_loop decode n) rest o ≡ after_cut rest o
  unfolding next_round after_cut
  round_lem n none o h = refl
  round_lem n (some r) o h = h r refl

  -- Enough fuel: a byte for each round.
  loop_lem :
      (n : ℕ) (s : Text) (o : ProgressOutput)
      → length s ≤ n
      → IsBounded o
      → write_loop decode n s o ≡ feed s o
  unfolding write_loop
  loop_lem zero [] o le h = sym (feed_nil o)
  loop_lem zero (c ∷ cs) o le h = absurd (omega (arith, le))
  loop_lem (suc n) [] o le h = sym (feed_nil o)
  loop_lem (suc n) (c ∷ cs) o le h =
      let kept = keep (cut (c ∷ cs)).0 o in
      round_lem n (cut (c ∷ cs)).1 kept (λ r e.
        loop_lem n r (end_line decode kept) (omega (arith, le, cut_shorter (c ∷ cs) r e))
          (end_line-IsBounded kept))
      ∙ sym (feed_lem (c ∷ cs) o h)

  feed-IsBounded : (s : Text) (o : ProgressOutput) → IsBounded o → IsBounded (feed s o)
  unfolding feed
  feed-IsBounded [] o h = h
  feed-IsBounded (c ∷ cs) o h = elim (Bool-cases (c == newline)) [
    | inl e ↦ rw e (feed-IsBounded cs (end_line decode o) (end_line-IsBounded o))
    | inr e ↦ rw e (feed-IsBounded cs (keep (c ∷ []) o) (keep-IsBounded (c ∷ []) o h))
  ]

  write-feed : (s : Text) (o : ProgressOutput) → IsBounded o → write decode s o ≡ feed s o
  unfolding write
  write-feed s o h = loop_lem (length s) s o (omega arith) h

  pub all_pieces :
      (pieces : List Text) (o : ProgressOutput)
      → IsBounded o
      → write_all decode pieces o ≡ feed (concat pieces) o
  unfolding write_all concat
  all_pieces [] o h = sym (feed_nil o)
  all_pieces (s ∷ rest) o h =
      ap (write_all decode rest) (write-feed s o h)
      ∙ all_pieces rest (feed s o) (feed-IsBounded s o h)
      ∙ sym (feed-append s (concat rest) o)

  -- The output of restic written in any two ways of cutting it into pieces leaves the same buffer and
  -- has told the observer the same, from any buffer that is bounded.
  pub write_all-concat :
      (pieces others : List Text) (o : ProgressOutput)
      → IsBounded o
      → concat pieces ≡ concat others
      → write_all decode pieces o ≡ write_all decode others o
  write_all-concat pieces others o h same =
      all_pieces pieces o h ∙ ap (λ s. feed s o) same ∙ sym (all_pieces others o h)
