-- ===== src/Repository/Paths.antt =====
-- The path checks at the end of repository/model.go, and what it calls of path/filepath on Unix.
use backupchief_agent.Base.{
  ℕ, Bool, true, false, not, ◌&&◌, ◌||◌, List, [], ◌∷◌, ◌++◌, ltb, leb, ◌==◌, if◌then◌else◌, length,
  Text, is_blank, same_text, has_char, has_prefix, ends_with, trim_first, has_double, split, join,
  all,
}

-- A part of a path that is neither empty nor names a directory itself or the one above it.
abbrev pub is_part : Text → Bool
is_part p = not (is_blank p || same_text p (b'.' ∷ []) || same_text p (b'.' ∷ b'.' ∷ []))

abbrev pub has_bad_char : Text → Bool
has_bad_char v = has_char b'\\' v || has_char 0 v

-- `validRelativePath`.
unfoldable pub valid_relative_path : Text → Bool
unfolding has_prefix
valid_relative_path v =
    if is_blank v || has_bad_char v || has_prefix v (b'/' ∷ [])
    then false
    else all is_part (split b'/' v)

-- `safePrefix`.
abbrev pub safe_prefix : Text → Bool
safe_prefix v = not (is_blank v) && valid_relative_path v

-- A path of the home directory, which an SFTP server would have to expand.
abbrev pub is_home_path : Text → Bool
is_home_path v = same_text v (b'~' ∷ []) || has_prefix v (b'~' ∷ b'/' ∷ [])

-- `validSFTPPath`.
unfoldable pub valid_sftp_path : Text → Bool
unfolding has_prefix trim_first
valid_sftp_path v =
    if is_blank v || ltb 1024 (length v) || has_bad_char v || is_home_path v
    then false
    else if same_text v (b'/' ∷ [])
    then true
    else if ends_with b'/' v || has_double b'/' v
    then false
    else all is_part (split b'/' (trim_first b'/' v))

-- `lineSafe`.
unfoldable pub line_safe : Text → ℕ → Bool
line_safe v maximum =
    not (is_blank v)
    && leb (length v) maximum
    && not (has_char b'\r' v || has_char b'\n' v || has_char 0 v)

-- The part before the last separator, and the part behind it.
unfoldable pub before_last : Text → Text
before_last [] = []
before_last (c ∷ cs) = let rest = before_last cs in if has_char b'/' cs then c ∷ rest else []

unfoldable pub after_last : Text → Text
after_last [] = []
after_last (c ∷ cs) =
    let rest = after_last cs in if has_char b'/' cs then rest else if c == b'/' then cs else c ∷ cs

-- `pathDir`.
unfoldable pub path_dir : Text → Text
path_dir v =
    if not (has_char b'/' v)
    then b'.' ∷ []
    else if is_blank (before_last v)
    then b'/' ∷ []
    else before_last v

-- `pathBase`.
unfoldable pub path_base : Text → Text
path_base v = if not (has_char b'/' v) then v else after_last v

-- One part of a path after the stack of the parts before it.
unfoldable pub go_up : Bool → List Text → List Text
go_up rooted [] = if rooted then [] else (b'.' ∷ b'.' ∷ []) ∷ []
go_up rooted (q ∷ qs) = if same_text q (b'.' ∷ b'.' ∷ []) then (b'.' ∷ b'.' ∷ []) ∷ q ∷ qs else qs

unfoldable pub push_part : Bool → List Text → Text → List Text
unfolding go_up
push_part rooted stack p =
    if is_blank p || same_text p (b'.' ∷ [])
    then stack
    else if same_text p (b'.' ∷ b'.' ∷ [])
    then go_up rooted stack
    else p ∷ stack

unfoldable pub push_all : Bool → List Text → List Text → List Text
push_all rooted stack [] = stack
push_all rooted stack (p ∷ ps) = push_all rooted (push_part rooted stack p) ps

-- The parts that the stack holds, from the first on.
unfoldable pub unwind : List Text → List Text → List Text
unwind [] parts = parts
unwind (p ∷ ps) parts = unwind ps (p ∷ parts)

-- `filepath.Clean`.
unfoldable pub clean : Text → Text
unfolding push_all push_part unwind has_prefix
clean v =
    let rooted = has_prefix v (b'/' ∷ []) in
    let body = join b'/' (unwind (push_all rooted [] (split b'/' v)) []) in
    if rooted then b'/' ∷ body else if is_blank body then b'.' ∷ [] else body

-- `filepath.Join` of two paths.
unfoldable pub join_paths : Text → Text → Text
unfolding clean
join_paths a b = if is_blank a then (if is_blank b then [] else clean b) else clean (a ++ b'/' ∷ b)

-- `filepath.IsAbs`.
abbrev pub is_abs : Text → Bool
is_abs v = has_prefix v (b'/' ∷ [])
