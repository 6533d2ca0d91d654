-- ===== src/Progress/Examples.antt =====
-- Two lines in pieces: a test, and instances of the theorems. The decoder of the test reads a line
-- "s" followed by a byte as a status with that many bytes done.
use backupchief_agent.Base.{
  ◌≡◌, refl, ◌++◌, List, [], ◌∷◌, Option, none, some, Text, chars, split, same_text, ◌==◌,
  if◌then◌else◌, arith,
}
use backupchief_agent.Progress.{
  Line, Progress, progress_of, cut, keep, report, end_line, next_round, write_loop, write,
  write_all, newline,
}
use backupchief_agent.Progress.Chunks.{IsBounded, concat}
use backupchief_agent.Progress.Lines.{clean, told_by_lines, write_all-lines}

unfoldable decode : Text → Option Line
decode (c ∷ d ∷ []) =
    if c == b's'
    then some (record { message_type = chars "status"; bytes_done = d; files_done = 1 })
    else none
decode _ = none

abbrev pieces : List Text
pieces = (b's' ∷ []) ∷ (7 ∷ newline ∷ b'x' ∷ newline ∷ b's' ∷ []) ∷ (9 ∷ newline ∷ b's' ∷ []) ∷ []

abbrev others : List Text
others = (b's' ∷ 7 ∷ newline ∷ b'x' ∷ newline ∷ b's' ∷ 9 ∷ newline ∷ b's' ∷ []) ∷ []

abbrev seen : List Progress
seen =
    record { bytes_processed = 7; files_processed = 1 }
    ∷ record { bytes_processed = 9; files_processed = 1 }
    ∷ []

written : (write_all decode pieces (clean [])).observed ≡ seen
unfolding write_all write write_loop next_round end_line report keep cut progress_of decode
    same_text
written = refl

clean-IsBounded_example : IsBounded (clean [])
clean-IsBounded_example = record { within_limit = omega arith; discards_all = λ e. refl }

same_output : concat pieces ≡ concat others
unfolding concat
same_output = refl

write_all-lines_example :
    (write_all decode pieces (clean [])).observed
    ≡ [] ++ told_by_lines decode (split newline (concat pieces))
write_all-lines_example = write_all-lines decode pieces []
