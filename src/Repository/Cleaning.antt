-- ===== src/Repository/Cleaning.antt =====
-- What `filepath.Join` keeps: an absolute path stays absolute, and no character is new.
use backupchief_agent.Base.{
  ℕ, Bool, true, false, not, ◌≡◌, refl, inl, inr, arith, List, [], ◌∷◌, ◌++◌, ◌==◌, Text, has_char,
  has_char-append, has_prefix, split, onto_first, join, all, Bool-cases,
}
use backupchief_agent.Repository.Paths.{
  is_abs, go_up, push_part, push_all, unwind, clean, join_paths,
}

-- A text without NUL.
abbrev pub is_clear : Text → Bool
is_clear v = not (has_char 0 v)

onto_first-clear :
    (c : ℕ) (ps : List Text)
    → (0 == c) ≡ false
    → all is_clear ps ≡ true
    → all is_clear (onto_first c ps) ≡ true
unfolding onto_first all has_char
onto_first-clear c [] h hs = ground arith
onto_first-clear c (p ∷ ps) h hs = ground arith

blank_first-clear : (ps : List Text) → all is_clear ps ≡ true → all is_clear ([] ∷ ps) ≡ true
unfolding all has_char
blank_first-clear ps h = h

split-clear : (v : Text) → is_clear v ≡ true → all is_clear (split b'/' v) ≡ true
unfolding split
split-clear [] h = unfold all has_char in refl
split-clear (c ∷ cs) h =
    let (other, rest) = parts c cs h in
    elim (Bool-cases (c == b'/')) [
      | inl slash ↦ rw slash (blank_first-clear (split b'/' cs) (split-clear cs rest))
      | inr plain ↦ rw plain (onto_first-clear c (split b'/' cs) other (split-clear cs rest))
    ]
  where
    parts :
        (c : ℕ) (cs : Text) → is_clear (c ∷ cs) ≡ true → ((0 == c) ≡ false) × (is_clear cs ≡ true)
    parts c cs h = unfold has_char in (ground arith, ground arith)

go_up-clear :
    (rooted : Bool) (stack : List Text)
    → all is_clear stack ≡ true
    → all is_clear (go_up rooted stack) ≡ true
unfolding go_up all has_char
go_up-clear rooted [] h = ground arith
go_up-clear rooted (q ∷ qs) h = ground arith

push_part-clear :
    (rooted : Bool) (stack : List Text) (p : Text)
    → all is_clear stack ≡ true
    → is_clear p ≡ true
    → all is_clear (push_part rooted stack p) ≡ true
unfolding push_part all
push_part-clear rooted stack p h hp = ground (arith, go_up-clear rooted stack h)

push_all-clear :
    (rooted : Bool) (stack ps : List Text)
    → all is_clear stack ≡ true
    → all is_clear ps ≡ true
    → all is_clear (push_all rooted stack ps) ≡ true
unfolding push_all
push_all-clear rooted stack [] h hs = h
push_all-clear rooted stack (p ∷ ps) h hs =
    push_all-clear rooted (push_part rooted stack p) ps
      (push_part-clear rooted stack p h (unfold all in ground arith)) (unfold all in ground arith)

unwind-clear :
    (stack parts : List Text)
    → all is_clear stack ≡ true
    → all is_clear parts ≡ true
    → all is_clear (unwind stack parts) ≡ true
unfolding unwind
unwind-clear [] parts h hs = hs
unwind-clear (p ∷ ps) parts h hs =
    unwind-clear ps (p ∷ parts) (unfold all in ground arith) (unfold all in ground arith)

join-clear : (ps : List Text) → all is_clear ps ≡ true → is_clear (join b'/' ps) ≡ true
unfolding join all
join-clear [] h = unfold has_char in refl
join-clear (p ∷ []) h = ground arith
join-clear (p ∷ q ∷ ps) h = ground (
  arith,
  has_char-append 0 p (b'/' ∷ join b'/' (q ∷ ps)),
  after_slash (join b'/' (q ∷ ps)),
  join-clear (q ∷ ps),
)
  where
    after_slash : (v : Text) → has_char 0 (b'/' ∷ v) ≡ has_char 0 v
    after_slash v = unfold has_char in refl

clean-clear : (v : Text) → is_clear v ≡ true → is_clear (clean v) ≡ true
unfolding clean
clean-clear v h =
    let rooted = has_prefix v (b'/' ∷ []) in
    let kept = push_all-clear rooted [] (split b'/' v) (unfold all in refl) (split-clear v h) in
    let body =
      join-clear (unwind (push_all rooted [] (split b'/' v)) [])
        (unwind-clear _ [] kept (unfold all in refl)) in
    unfold has_char in ground (arith, body)

clean-abs : (v : Text) → is_abs v ≡ true → is_abs (clean v) ≡ true
unfolding clean has_prefix
clean-abs v h = ground arith

append-clear :
    (a b : Text) → is_clear a ≡ true → is_clear b ≡ true → is_clear (a ++ b'/' ∷ b) ≡ true
append-clear a b ha hb = ground (arith, has_char-append 0 a (b'/' ∷ b), after_slash b)
  where
    after_slash : (v : Text) → has_char 0 (b'/' ∷ v) ≡ has_char 0 v
    after_slash v = unfold has_char in refl

-- An absolute path without NUL, joined with a path without NUL, gives such a path.
pub join_paths_local :
    (a b : Text)
    → is_abs a ≡ true
    → is_clear a ≡ true
    → is_clear b ≡ true
    → (is_abs (join_paths a b) ≡ true) × (is_clear (join_paths a b) ≡ true)
unfolding join_paths
join_paths_local [] b rooted ha hb = absurd (unfold has_prefix in cc)
join_paths_local (c ∷ cs) b rooted ha hb = (
  clean-abs (c ∷ cs ++ b'/' ∷ b) (unfold has_prefix in ground arith),
  clean-clear (c ∷ cs ++ b'/' ∷ b) (append-clear (c ∷ cs) b ha hb),
)
