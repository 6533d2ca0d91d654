-- ===== src/LogFile.antt =====
-- logfile/logfile.go: the agent's log in a file with a size cap and numbered backups.
-- The directory is a function from slots to contents: slot 0 is `path` and slot k is `path.k`.
-- Each call of the operating system takes its outcome from `faults`, the list of what goes wrong;
-- an empty list means that nothing does. Sizes stay below 2 ^ 63, so int64 does not wrap.
pub mod Rotation
pub mod Size
pub mod Loss
mod Examples
use backupchief_agent.Base.{
  ℕ, zero, suc, ◌+◌, ◌-◌, Bool, true, false, ◌&&◌, List, [], ◌∷◌, ◌++◌, Option, none, some, ltb,
  leb, ◌==◌, if◌then◌else◌, length, take,
}

-- What a call of the operating system does: it works, or it fails (a write after some bytes).
pub data Fault : Type 0 where
  works : Fault
  fails_after : ℕ → Fault

-- `*os.File`: nil, open on slot 0, or closed and not nil.
pub data Handle : Type 0 where
  nil opened closed : Handle

pub record Disk : Type 0 where
  pub slot : ℕ → Option (List ℕ)
  pub faults : List Fault

pub record RotatingFile : Type 0 where
  pub max_bytes : ℕ
  pub backups : ℕ
  pub file : Handle
  pub size : ℕ

abbrev pub default_max_bytes : ℕ
default_max_bytes = 10485760

abbrev pub default_backups : ℕ
default_backups = 3

abbrev pub update : (ℕ → Option (List ℕ)) → ℕ → Option (List ℕ) → ℕ → Option (List ℕ)
update f i v j = if i == j then v else f j

abbrev pub fault_of : List Fault → Fault
fault_of [] = works
fault_of (f ∷ fs) = f

abbrev faults_after : List Fault → List Fault
faults_after [] = []
faults_after (f ∷ fs) = fs

abbrev failed : Fault → Bool
failed works = false
failed (fails_after n) = true

-- The next call fails, and the disk after it.
abbrev pub syscall : Disk → Bool × Disk
syscall d = (failed (fault_of d.faults), record d { faults = faults_after d.faults })

-- `os.Remove`; the error, if any, is dropped or is not `os.IsNotExist`.
pub remove : ℕ → Disk → Bool × Disk
remove i d =
    let (bad, d') = syscall d in
    if bad then (true, d') else (false, record d' { slot = update d'.slot i none })

rename_found : ℕ → ℕ → Disk → Option (List ℕ) → Disk
rename_found i j d none = d
rename_found i j d (some c) = record d { slot = update (update d.slot j (some c)) i none }

-- `os.Rename` with `os.IsNotExist` let through: true for any other error.
pub rename : ℕ → ℕ → Disk → Bool × Disk
unfolding rename_found
rename i j d =
    let (bad, d') = syscall d in
    if bad then (true, d') else (false, rename_found i j d' (d'.slot i))

abbrev pub contents : Option (List ℕ) → List ℕ
contents none = []
contents (some c) = c

-- `file.Close`: a nil or closed file refuses.
close_handle : Handle → Disk → Bool × Disk
close_handle nil d = (true, d)
close_handle closed d = (true, d)
close_handle opened d = syscall d

-- `open`: the directory, the file and its size; true for an error, which leaves the writer alone.
pub open_file : RotatingFile → Disk → Bool × RotatingFile × Disk
open_file w d =
    let (no_directory, d₁) = syscall d in
    if no_directory
    then (true, w, d₁)
    else let (no_file, d₂) = syscall d₁ in
      if no_file
      then (true, w, d₂)
      else let c = contents (d₂.slot 0) in
        let (no_stat, d₃) = syscall (record d₂ { slot = update d₂.slot 0 (some c) }) in
        if no_stat then (true, w, d₃) else (false, record w { file = opened; size = length c }, d₃)

-- `for index := writer.backups - 1; index >= 1; index--`, from `index` down.
shift_backups : ℕ → Disk → Bool × Disk
shift_backups zero d = (false, d)
shift_backups (suc k) d =
    let (bad, d') = rename (suc k) (suc (suc k)) d in
    let rest = shift_backups k d' in if bad then (true, d') else rest

-- The two ways to make room for a new file.
move_aside : RotatingFile → Disk → Bool × Disk
unfolding remove
move_aside w d =
    if w.backups == 0
    then remove 0 d
    else let (ignored, d₁) = remove w.backups d in
      let (bad, d₂) = shift_backups (w.backups - 1) d₁ in if bad then (true, d₂) else rename 0 1 d₂

-- `rotate`; a failed close leaves the handle closed and not nil.
pub rotate : RotatingFile → Disk → Bool × RotatingFile × Disk
unfolding close_handle open_file
rotate w d =
    let (unclosed, d₁) = close_handle w.file d in
    if unclosed
    then (true, record w { file = closed }, d₁)
    else let w' = record w { file = nil } in
      let (bad, d₂) = move_aside w' d₁ in if bad then (true, w', d₂) else open_file w' d₂

-- The bytes that a write puts in the file before it fails.
unfoldable pub taken : Fault → List ℕ → List ℕ
taken works p = p
taken (fails_after n) p = take n p

-- `file.Write`: the bytes written and whether it failed; a nil or closed file takes none.
pub append_bytes : Handle → List ℕ → Disk → ℕ × Bool × Disk
append_bytes nil p d = (0, true, d)
append_bytes closed p d = (0, true, d)
append_bytes opened p d =
    let q = taken (fault_of d.faults) p in
    let (bad, d') = syscall d in
    (length q, bad, record d' { slot = update d.slot 0 (some (contents (d.slot 0) ++ q)) })

-- The part of `Write` behind the check that the file is open.
pub write_opened : RotatingFile → List ℕ → Disk → ℕ × Bool × RotatingFile × Disk
write_opened w p d =
    let (e, w', d') =
      if ltb 0 w.size && ltb w.max_bytes (w.size + length p) then rotate w d else (false, w, d) in
    let (n, bad, d'') = append_bytes w'.file p d' in (n, bad, record w' { size = w'.size + n }, d'')

abbrev pub is_nil : Handle → Bool
is_nil nil = true
is_nil opened = false
is_nil closed = false

write_reopened : Bool × RotatingFile × Disk → List ℕ → ℕ × Bool × RotatingFile × Disk
write_reopened (bad, w, d) p = if bad then (0, true, w, d) else write_opened w p d

-- `Write`: the bytes written, whether it failed, the writer and the disk.
unfoldable pub write : RotatingFile → List ℕ → Disk → ℕ × Bool × RotatingFile × Disk
unfolding write_reopened
write w p d = if is_nil w.file then write_reopened (open_file w d) p else write_opened w p d

-- `Close`.
unfoldable pub close : RotatingFile → Disk → Bool × RotatingFile × Disk
unfolding close_handle
close w d =
    if is_nil w.file
    then (false, w, d)
    else let (bad, d') = close_handle w.file d in (bad, record w { file = nil }, d')

-- `Reopen`; an error of the close is dropped.
unfoldable pub reopen : RotatingFile → Disk → Bool × RotatingFile × Disk
unfolding close open_file
reopen w d = let (ignored, w', d') = close w d in open_file w' d'

-- `OpenRotatingFile`, whose cap and number of backups are Go ints: `none` is a negative one.
unfoldable pub open_rotating_file : Option ℕ → Option ℕ → Disk → Bool × RotatingFile × Disk
unfolding open_file
open_rotating_file max_bytes backups d =
    let cap : ℕ = elim max_bytes [
      | none ↦ default_max_bytes
      | some n ↦ if n == 0 then default_max_bytes else n
    ] in
    let kept : ℕ = elim backups [ none ↦ 0 | some n ↦ n ] in
    open_file (record { max_bytes = cap; backups = kept; file = nil; size = 0 }) d
