-- ===== src/Progress.antt =====
-- restic/progress.go: the status lines in the output of restic, which comes in pieces of any size.
-- Texts are lists of bytes. encoding/json is the parameter `decode`: the three members of a line, or
-- none for a line that it refuses. The calls of the observer are kept in their order.
pub mod Chunks
pub mod Lines
mod Examples
use backupchief_agent.Base.{
  ℕ, zero, suc, ◌+◌, min, Bool, true, false, List, [], ◌∷◌, ◌++◌, Option, none, some, ltb, ◌==◌,
  if◌then◌else◌, length, Text, chars, same_text,
}

-- What a line holds: `message_type`, `bytes_done` and `files_done`.
pub record Line : Type 0 where
  pub message_type : Text
  pub bytes_done : ℕ
  pub files_done : ℕ

-- `Progress` of the stage "backing_up", with its two counters.
pub record Progress : Type 0 where
  pub bytes_processed : ℕ
  pub files_processed : ℕ

-- `progressOutput`, and what its observer was told.
pub record ProgressOutput : Type 0 where
  pub pending : Text
  pub discarding : Bool
  pub observed : List Progress

abbrev pub line_limit : ℕ
line_limit = 65536

abbrev maximum : ℕ
maximum = 9007199254740991

abbrev pub newline : ℕ
newline = 10

-- What a line tells the observer.
unfoldable pub progress_of : Option Line → List Progress
progress_of none = []
progress_of (some l) =
    if same_text l.message_type (chars "status")
    then record {
      bytes_processed = min l.bytes_done maximum;
      files_processed = min l.files_done maximum;
    }
      ∷ []
    else []

-- `bytes.IndexByte` and the two parts: what stands before the first newline, and behind it if there
-- is one.
unfoldable pub cut : Text → Text × Option Text
cut [] = ([], none)
cut (c ∷ cs) =
    let (piece, rest) = cut cs in if c == newline then ([], some cs) else (c ∷ piece, rest)

-- The first half of the loop's body: a piece is kept, unless its line is too long.
unfoldable pub keep : Text → ProgressOutput → ProgressOutput
keep piece o =
    let o' =
      if ltb line_limit (length o.pending + length piece)
      then record o { pending = []; discarding = true }
      else o in
    if o'.discarding then o' else record o' { pending = o'.pending ++ piece }

module _ (decode : Text → Option Line) where
  -- `report`.
  unfoldable pub report : Text → ProgressOutput → ProgressOutput
  unfolding progress_of
  report line o = record o { observed = o.observed ++ progress_of (decode line) }

  -- The second half: the end of a line.
  unfoldable pub end_line : ProgressOutput → ProgressOutput
  unfolding report
  end_line o =
      let o' = if o.discarding then o else report o.pending o in
      record o' { pending = []; discarding = false }

  -- The end of the loop's body: without a line's end in what was left the loop is over.
  unfoldable pub next_round :
      (Text → ProgressOutput → ProgressOutput) → Option Text → ProgressOutput → ProgressOutput
  unfolding end_line
  next_round loop none o = o
  next_round loop (some rest) o = loop rest (end_line o)

  -- The loop of `Write`, with fuel for its rounds.
  unfoldable pub write_loop : ℕ → Text → ProgressOutput → ProgressOutput
  unfolding next_round cut keep
  write_loop zero bytes o = o
  write_loop (suc n) [] o = o
  write_loop (suc n) (c ∷ cs) o =
      let (piece, rest) = cut (c ∷ cs) in next_round (write_loop n) rest (keep piece o)

  -- `Write`; each round but the last one takes a byte at least.
  unfoldable pub write : Text → ProgressOutput → ProgressOutput
  unfolding write_loop
  write bytes o = write_loop (length bytes) bytes o

  -- `Write` on each piece of the output.
  unfoldable pub write_all : List Text → ProgressOutput → ProgressOutput
  unfolding write
  write_all [] o = o
  write_all (bytes ∷ rest) o = write_all rest (write bytes o)
