-- ===== src/Repository/Joining.antt =====
-- Safe relative paths and paths of SFTP servers, joined by a slash.
use backupchief_agent.Base.{
  ℕ, ◌≤◌, Bool, true, false, ◌||◌, ◌≡◌, ◌⊎◌, refl, inl, inr, arith, [], ◌∷◌, ◌++◌, ltb, ◌==◌,
  if◌then◌else◌, length, Text, is_blank, same_text, same_text_iff, has_char, has_char-append,
  has_prefix, ends_with, trim_first, has_double, split, split_parts, split-append, onto_first, all,
  all-append, Bool-cases,
}
use backupchief_agent.Repository.Paths.{
  is_part, has_bad_char, valid_relative_path, is_home_path, valid_sftp_path,
}

abbrev pub parts_fit : Text → Bool
parts_fit v = all is_part (split b'/' v)

pub relative_path_parts :
    (v : Text) → valid_relative_path v ≡ true → (has_bad_char v ≡ false) × (parts_fit v ≡ true)
unfolding valid_relative_path
relative_path_parts v h = (ground arith, ground arith)

relative_path_of_parts :
    (v : Text) → has_bad_char v ≡ false → parts_fit v ≡ true → valid_relative_path v ≡ true
unfolding valid_relative_path has_prefix split all
relative_path_of_parts [] good fit = absurd (ground arith)
relative_path_of_parts (c ∷ cs) good fit = elim (Bool-cases (c == b'/')) [
  | inl slash ↦ absurd (cc (rw slash at fit))
  | inr other ↦ ground arith
]

has_char-cons : (c d : ℕ) (s : Text) → has_char c (d ∷ s) ≡ (c == d || has_char c s)
unfolding has_char
has_char-cons c d s = refl

pub has_bad_char-join :
    (a b : Text)
    → has_bad_char a ≡ false
    → has_bad_char b ≡ false
    → has_bad_char (a ++ b'/' ∷ b) ≡ false
has_bad_char-join a b ha hb = ground (
  arith,
  has_char-append b'\\' a (b'/' ∷ b),
  has_char-append 0 a (b'/' ∷ b),
  has_char-cons b'\\' b'/' b,
  has_char-cons 0 b'/' b,
)

parts_fit-join :
    (a b : Text) → parts_fit a ≡ true → parts_fit b ≡ true → parts_fit (a ++ b'/' ∷ b) ≡ true
parts_fit-join a b ha hb =
    rw (split-append b'/' a b, all-append is_part (split b'/' a) (split b'/' b), ha) hb

-- Two safe relative paths, joined by a slash, are one.
pub valid_relative_path-join :
    (a b : Text)
    → valid_relative_path a ≡ true
    → valid_relative_path b ≡ true
    → valid_relative_path (a ++ b'/' ∷ b) ≡ true
valid_relative_path-join a b ha hb =
    let (good, fit) = relative_path_parts a ha in
    let (good', fit') = relative_path_parts b hb in
    relative_path_of_parts (a ++ b'/' ∷ b) (has_bad_char-join a b good good')
      (parts_fit-join a b fit fit')

-- All parts but the first.
rest_fit : Text → Bool
rest_fit v = elim (split b'/' v) [ [] ↦ true | p ∷ ps ↦ all is_part ps ]

rest_of_parts : (v : Text) → parts_fit v ≡ true → rest_fit v ≡ true
unfolding rest_fit all
rest_of_parts v h = let (p, ps, e) = split_parts (b'/') v in ground (arith, e)

rest_fit-slash : (c : ℕ) (v : Text) → (c == b'/') ≡ true → rest_fit (c ∷ v) ≡ parts_fit v
unfolding rest_fit split
rest_fit-slash c v h = ground arith

rest_fit-other : (c : ℕ) (v : Text) → (c == b'/') ≡ false → rest_fit (c ∷ v) ≡ rest_fit v
unfolding rest_fit split onto_first
rest_fit-other c v h = let (p, ps, e) = split_parts b'/' v in ground (arith, e)

parts_fit-first : (c : ℕ) (v : Text) → parts_fit (c ∷ v) ≡ true → (c == b'/') ≡ false
unfolding split all
parts_fit-first c v h = elim (Bool-cases (c == b'/')) [
  | inl slash ↦ absurd (cc (rw slash at h))
  | inr other ↦ other
]

-- A text whose parts behind the first are fit ends in no slash and has no two in a row.
rest_fit_slashes :
    (v : Text) → rest_fit v ≡ true → (ends_with b'/' v ≡ false) × (has_double b'/' v ≡ false)
unfolding ends_with has_double
rest_fit_slashes [] h = (refl, refl)
rest_fit_slashes (c ∷ []) h = elim (Bool-cases (c == b'/')) [
  | inl slash ↦ absurd (unfold split all in cc (rw (rest_fit-slash c [] slash) at h))
  | inr other ↦ (other, refl)
]
rest_fit_slashes (c ∷ d ∷ s) h = elim (Bool-cases (c == b'/')) [
  | inl slash ↦
      let fit = rw (rest_fit-slash c (d ∷ s) slash) at h in
      ground (arith, parts_fit-first d s fit, rest_fit_slashes (d ∷ s) (rest_of_parts (d ∷ s) fit))
  | inr other ↦ ground (arith, rest_fit_slashes (d ∷ s) (rw (rest_fit-other c (d ∷ s) other) at h))
]

-- The same of a path that may begin with a slash.
trimmed_slashes :
    (v : Text)
    → parts_fit (trim_first b'/' v) ≡ true
    → (ends_with b'/' v ≡ false) × (has_double b'/' v ≡ false)
unfolding trim_first
trimmed_slashes [] h = rest_fit_slashes [] (rest_of_parts [] h)
trimmed_slashes (c ∷ cs) h = elim (Bool-cases (c == b'/')) [
  | inl slash ↦ rest_fit_slashes (c ∷ cs) (rw (rest_fit-slash c cs slash) (rw slash at h))
  | inr other ↦ rest_fit_slashes (c ∷ cs) (rest_of_parts (c ∷ cs) (rw other at h))
]

sftp_path_of_parts :
    (v : Text)
    → is_blank v ≡ false
    → length v ≤ 1024
    → has_bad_char v ≡ false
    → is_home_path v ≡ false
    → parts_fit (trim_first b'/' v) ≡ true
    → valid_sftp_path v ≡ true
unfolding valid_sftp_path
sftp_path_of_parts v some_char short good away fit =
    let (no_end, no_double) = trimmed_slashes v fit in
    let small : ltb 1024 (length v) ≡ false = ground arith in
    rw (some_char, small, good, away, no_end, no_double, fit) (ground arith)

sftp_path_parts :
    (v : Text)
    → valid_sftp_path v ≡ true
    → (v ≡ b'/' ∷ [])
      ⊎ ((is_blank v ≡ false)
          × (has_bad_char v ≡ false)
          × (is_home_path v ≡ false)
          × (parts_fit (trim_first b'/' v) ≡ true))
unfolding valid_sftp_path
sftp_path_parts v h = elim (Bool-cases (same_text v (b'/' ∷ []))) [
  | inl e ↦ inl ((same_text_iff v (b'/' ∷ [])).0 e)
  | inr e ↦ inr (ground arith, ground arith, ground arith, ground arith)
]

trim_first-append :
    (v w : Text) → is_blank v ≡ false → trim_first b'/' (v ++ w) ≡ trim_first b'/' v ++ w
unfolding trim_first
trim_first-append [] w h = cc
trim_first-append (c ∷ cs) w h = ground arith

is_home_path-join :
    (v w : Text)
    → is_blank v ≡ false
    → is_home_path v ≡ false
    → is_home_path (v ++ b'/' ∷ w) ≡ false
unfolding has_prefix same_text
is_home_path-join [] w h away = cc
is_home_path-join (c ∷ []) w h away = ground arith
is_home_path-join (c ∷ d ∷ s) w h away = ground arith

-- A path below the root of an SFTP server.
abbrev pub below : Text → Text → Text
below root p = if same_text root (b'/' ∷ []) then b'/' ∷ p else root ++ b'/' ∷ p

is_blank-append : (v w : Text) → is_blank v ≡ false → is_blank (v ++ w) ≡ false
is_blank-append [] w h = cc
is_blank-append (c ∷ cs) w h = refl

slash_path :
    (p : Text)
    → valid_relative_path p ≡ true
    → length (b'/' ∷ p) ≤ 1024
    → valid_sftp_path (b'/' ∷ p) ≡ true
unfolding same_text has_prefix trim_first
slash_path p hp short =
    let (good, fit) = relative_path_parts p hp in
    sftp_path_of_parts (b'/' ∷ p) refl short
      (ground (arith, has_char-cons b'\\' b'/' p, has_char-cons 0 b'/' p)) (ground arith) fit

joined_path :
    (root p : Text)
    → valid_sftp_path root ≡ true
    → same_text root (b'/' ∷ []) ≡ false
    → valid_relative_path p ≡ true
    → length (root ++ b'/' ∷ p) ≤ 1024
    → valid_sftp_path (root ++ b'/' ∷ p) ≡ true
joined_path root p h under hp short =
    let (good', fit') = relative_path_parts p hp in
    elim (sftp_path_parts root h) [
      | inl top ↦ absurd (cc (under, (same_text_iff root (b'/' ∷ [])).1 top))
      | inr (some_char, good, away, fit) ↦
          sftp_path_of_parts (root ++ b'/' ∷ p) (is_blank-append root (b'/' ∷ p) some_char) short
            (has_bad_char-join root p good good') (is_home_path-join root p some_char away)
            (rw (trim_first-append root (b'/' ∷ p) some_char)
              (parts_fit-join (trim_first b'/' root) p fit fit'))
    ]

-- A safe relative path below a valid path of an SFTP server is a valid path of it, unless the two
-- together are too long.
pub valid_sftp_path-below :
    (root p : Text)
    → valid_sftp_path root ≡ true
    → valid_relative_path p ≡ true
    → length (below root p) ≤ 1024
    → valid_sftp_path (below root p) ≡ true
valid_sftp_path-below root p h hp short = elim (Bool-cases (same_text root (b'/' ∷ []))) [
  | inl top ↦ rw top (slash_path p hp (rw top at short))
  | inr under ↦ rw under (joined_path root p h under hp (rw under at short))
]
