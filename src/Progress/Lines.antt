-- ===== src/Progress/Lines.antt =====
-- What the observer is told, line by line.
use backupchief_agent.Base.{
  ◌≡◌, refl, sym, ap, ◌∙◌, inl, inr, ℕ, ◌+◌, false, List, [], ◌∷◌, ◌++◌, Option, ltb, ◌==◌,
  if◌then◌else◌, length, Text, arith, Bool-cases, append-nil, append_assoc, split, split_parts,
  onto_first,
}
use backupchief_agent.Progress.{
  Line, Progress, ProgressOutput, newline, progress_of, keep, report, end_line, write_all,
}
use backupchief_agent.Progress.Chunks.{
  IsBounded, keep_long, keep_short, keep_nil, keep-append, feed, feed_nil, feed_of_end, feed_other,
  all_pieces, concat,
}

-- An empty buffer.
abbrev pub clean : List Progress → ProgressOutput
clean told = record { pending = []; discarding = false; observed = told }

clean-IsBounded : (told : List Progress) → IsBounded (clean told)
clean-IsBounded told = record { within_limit = omega arith; discards_all = λ e. refl }

-- The text before the first line's end goes in front of the first part.
onto : Text → List Text → List Text
onto t [] = t ∷ []
onto t (p ∷ ps) = (t ++ p) ∷ ps

module _ (decode : Text → Option Line) where
  -- A line that is not too long.
  unfoldable pub told_by : Text → List Progress
  told_by line = if ltb 65536 (length line) then [] else progress_of (decode line)

  -- The lines that have an end: all parts between line ends but the last one.
  unfoldable pub told_by_lines : List Text → List Progress
  unfolding told_by
  told_by_lines [] = []
  told_by_lines (last ∷ []) = []
  told_by_lines (line ∷ next ∷ rest) = told_by line ++ told_by_lines (next ∷ rest)

  end_line-keep :
      (t : Text) (told : List Progress)
      → end_line decode (keep t (clean told)) ≡ clean (told ++ told_by t)
  unfolding end_line report told_by
  end_line-keep t told = elim (Bool-cases (ltb 65536 (length t))) [
    | inl long ↦
        ap (end_line decode) (
          keep_long t (clean told) (clean-IsBounded told)
            (inr (ap (ltb 65536) (omega arith) ∙ long)))
        ∙ rw long (λ i. clean (sym (append-nil told) i))
    | inr short ↦
        ap (end_line decode) (keep_short t (clean told) refl (ap (ltb 65536) (omega arith) ∙ short))
        ∙ rw short refl
  ]

  onto_nil : (s : Text) → onto [] (split newline s) ≡ split newline s
  unfolding onto
  onto_nil s = let (p, ps, e) = split_parts newline s in rw e refl

  told_by_lines_end :
      (t s : Text)
      → told_by_lines (onto t ([] ∷ split newline s)) ≡ told_by t ++ told_by_lines (split newline s)
  unfolding onto told_by_lines
  told_by_lines_end t s = let (p, ps, e) = split_parts newline s in rw (e, append-nil t) refl

  onto-onto_first :
      (t : Text) (c : ℕ) (s : Text)
      → onto t (onto_first c (split newline s)) ≡ onto (t ++ c ∷ []) (split newline s)
  unfolding onto onto_first
  onto-onto_first t c s =
      let (p, ps, e) = split_parts newline s in rw e (λ i. sym (append_assoc t (c ∷ []) p) i ∷ ps)

  told_by_last : (t : Text) → told_by_lines (onto t ([] ∷ [])) ≡ []
  unfolding onto told_by_lines
  told_by_last t = refl

  keep-observed : (t : Text) (o : ProgressOutput) → (keep t o).observed ≡ o.observed
  unfolding keep
  keep-observed t o = elim (Bool-cases (ltb 65536 (length o.pending + length t))) [
    | inl long ↦ rw long refl
    | inr short ↦ elim (Bool-cases o.discarding) [
      | inl e ↦ rw (short, e) refl
      | inr e ↦ rw (short, e) refl
    ]
  ]

  feed-lines :
      (s t : Text) (told : List Progress)
      → (feed decode s (keep t (clean told))).observed
        ≡ told ++ told_by_lines (onto t (split newline s))
  unfolding split
  feed-lines [] t told =
      ap (λ o. o.observed) (feed_nil decode (keep t (clean told)))
      ∙ keep-observed t (clean told)
      ∙ sym (append-nil told)
      ∙ ap (λ ls. told ++ ls) (sym (told_by_last t))
  feed-lines (c ∷ cs) t told = elim (Bool-cases (c == newline)) [
    | inl e ↦ rw e (
        ap (λ o. o.observed) (feed_of_end decode c cs (keep t (clean told)) e)
        ∙ ap (λ o. (feed decode cs o).observed)
            (end_line-keep t told ∙ sym (keep_nil (clean (told ++ told_by t)) (clean-IsBounded _)))
        ∙ feed-lines cs [] (told ++ told_by t)
        ∙ ap (λ ls. (told ++ told_by t) ++ told_by_lines ls) (onto_nil cs)
        ∙ append_assoc told (told_by t) (told_by_lines (split newline cs))
        ∙ ap (λ ls. told ++ ls) (sym (told_by_lines_end t cs)))
    | inr e ↦ rw e (
        ap (λ o. o.observed) (feed_other decode c cs (keep t (clean told)) e)
        ∙ ap (λ o. (feed decode cs o).observed)
            (sym (keep-append t (c ∷ []) (clean told) (clean-IsBounded told)))
        ∙ feed-lines cs (t ++ c ∷ []) told
        ∙ ap (λ ls. told ++ told_by_lines ls) (sym (onto-onto_first t c cs)))
  ]

  -- From an empty buffer, however the output of restic is cut into pieces, the observer is told, in
  -- this order, what each line tells that has its end in the output and is not longer than 65536
  -- bytes, and nothing else.
  pub write_all-lines :
      (pieces : List Text) (told : List Progress)
      → (write_all decode pieces (clean told)).observed
        ≡ told ++ told_by_lines (split newline (concat pieces))
  write_all-lines pieces told =
      ap (λ o. o.observed)
        (all_pieces decode pieces (clean told) (clean-IsBounded told)
          ∙ ap (feed decode (concat pieces)) (sym (keep_nil (clean told) (clean-IsBounded told))))
      ∙ feed-lines (concat pieces) [] told
      ∙ ap (λ ls. told ++ told_by_lines ls) (onto_nil (concat pieces))
