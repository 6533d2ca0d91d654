-- ===== src/LogFile/Size.antt =====
-- The size that the writer keeps, and the cap on the active file.
use backupchief_agent.Base.{
  ℕ, ◌+◌, ◌≤◌, ◌≡◌, refl, false, List, [], ◌∷◌, ◌++◌, ap, ◌≢◌, Option, some, arith, max, length,
  length-append,
}
use backupchief_agent.LogFile.{
  Handle, Disk, RotatingFile, nil, opened, closed, contents, close_handle, move_aside, open_file,
  rotate, update, fault_of, taken, append_bytes, write_opened, write, close, reopen,
  open_rotating_file,
}
use backupchief_agent.LogFile.Rotation.{rotate_lem}

-- While the file is open it is there, and `size` is its length.
abbrev pub IsTracked : RotatingFile → Disk → Type 0
IsTracked w d =
    w.file ≡ opened
    → (d.slot 0 ≡ some (contents (d.slot 0))) × (w.size ≡ length (contents (d.slot 0)))

open_file-IsTracked :
    (w : RotatingFile) (d : Disk) → IsTracked w d → IsTracked (open_file w d).1 (open_file w d).2
unfolding open_file
open_file-IsTracked w d h = ground arith

open_file_fresh :
    (w : RotatingFile) (d : Disk) → w.file ≡ nil → IsTracked (open_file w d).1 (open_file w d).2
open_file_fresh w d e = open_file-IsTracked w d (ground arith)

rotate-IsTracked : (w : RotatingFile) (d : Disk) → IsTracked (rotate w d).1 (rotate w d).2
unfolding rotate
rotate-IsTracked w d =
    let w' = record w { file = nil } in
    ground (arith, open_file_fresh w' (move_aside w' (close_handle w.file d).1).1 refl)

append_bytes-IsTracked :
    (w : RotatingFile) (p : List ℕ) (d : Disk)
    → IsTracked w d
    → let (n, bad, d') = append_bytes w.file p d in IsTracked (record w { size = w.size + n }) d'
unfolding append_bytes
append_bytes-IsTracked w p d h =
    ground (arith, length-append (contents (d.slot 0)) (taken (fault_of d.faults) p))

-- Without faults a write to the open file appends all of it.
pub append_calm :
    (f : Handle) (p : List ℕ) (d : Disk)
    → d.faults ≡ []
    → f ≡ opened
    → ((append_bytes f p d).0 ≡ length p)
      × ((append_bytes f p d).1 ≡ false)
      × ((m : ℕ)
          → (append_bytes f p d).2.slot m ≡ update d.slot 0 (some (contents (d.slot 0) ++ p)) m)
unfolding append_bytes taken
append_calm f p d calm ready = (ground arith, ground arith, λ m. ground arith)

pub opened_calm :
    (w : RotatingFile) (d : Disk)
    → d.faults ≡ []
    → let d' = record d { slot = update d.slot 0 (some (contents (d.slot 0))) } in
      open_file w d ≡ (false, record w { file = opened; size = length (contents (d.slot 0)) }, d')
unfolding open_file
opened_calm w d calm = ground arith

write_opened-IsTracked :
    (w : RotatingFile) (p : List ℕ) (d : Disk)
    → IsTracked w d
    → IsTracked (write_opened w p d).2 (write_opened w p d).3
unfolding write_opened
write_opened-IsTracked w p d h = ground (
  arith,
  append_bytes-IsTracked w p d h,
  append_bytes-IsTracked (rotate w d).1 p (rotate w d).2 (rotate-IsTracked w d),
)

write-IsTracked :
    (w : RotatingFile) (p : List ℕ) (d : Disk)
    → IsTracked w d
    → IsTracked (write w p d).2 (write w p d).3
unfolding write
write-IsTracked w p d h = ground (
  arith,
  write_opened-IsTracked w p d h,
  open_file-IsTracked w d h,
  write_opened-IsTracked (open_file w d).1 p (open_file w d).2 (open_file-IsTracked w d h),
)

reopen-IsTracked : (w : RotatingFile) (d : Disk) → IsTracked (reopen w d).1 (reopen w d).2
unfolding reopen
reopen-IsTracked w d = ground (arith, open_file_fresh (close w d).1 (close w d).2)

-- What the agent may do with its log.
pub data Call : Type 0 where
  log : List ℕ → Call
  hang_up : Call
  stop : Call

abbrev pub perform : Call → RotatingFile × Disk → RotatingFile × Disk
perform (log p) (w, d) = let (n, bad, w', d') = write w p d in (w', d')
perform hang_up (w, d) = let (bad, w', d') = reopen w d in (w', d')
perform stop (w, d) = let (bad, w', d') = close w d in (w', d')

abbrev pub perform_all : List Call → RotatingFile × Disk → RotatingFile × Disk
perform_all [] s = s
perform_all (c ∷ cs) s = perform_all cs (perform c s)

perform-IsTracked :
    (c : Call) (s : RotatingFile × Disk)
    → IsTracked s.0 s.1
    → IsTracked (perform c s).0 (perform c s).1
unfolding close
perform-IsTracked (log p) s h = write-IsTracked s.0 p s.1 h
perform-IsTracked hang_up s h = reopen-IsTracked s.0 s.1
perform-IsTracked stop s h = ground arith

perform_all-IsTracked :
    (cs : List Call) (s : RotatingFile × Disk)
    → IsTracked s.0 s.1
    → IsTracked (perform_all cs s).0 (perform_all cs s).1
perform_all-IsTracked [] s h = h
perform_all-IsTracked (c ∷ cs) s h =
    perform_all-IsTracked cs (perform c s) (perform-IsTracked c s h)

-- From `OpenRotatingFile` on, whatever is written, reopened or closed and whichever calls of the
-- operating system fail: while the log file is open it exists, and `size` is its length.
pub perform_all-open_rotating_file-IsTracked :
    (max_bytes backups : Option ℕ) (d : Disk) (cs : List Call)
    → let (bad, w, d') = open_rotating_file max_bytes backups d in
      IsTracked (perform_all cs (w, d')).0 (perform_all cs (w, d')).1
unfolding open_rotating_file
perform_all-open_rotating_file-IsTracked max_bytes backups d cs =
    perform_all-IsTracked cs _ (open_file_fresh _ d refl)

write_opened_cap :
    (w : RotatingFile) (p : List ℕ) (d : Disk)
    → d.faults ≡ []
    → w.file ≡ opened
    → IsTracked w d
    → length (contents ((write_opened w p d).3.slot 0)) ≤ max w.max_bytes (length p)
unfolding write_opened
write_opened_cap w p d calm ready h =
    let (fine, fresh, calm', moved) = rotate_lem w d calm ready in
    ground (
      arith,
      h ready,
      fine,
      fresh,
      calm',
      moved 0,
      (append_calm w.file p d calm ready).2 0,
      (append_calm (rotate w d).1.file p (rotate w d).2 calm'
            (ap (λ (v : RotatingFile). v.file) fresh)).2
          0,
      length-append (contents (d.slot 0)) p,
    )

-- When no call fails, a write to a file that is open or was never opened leaves an active file of
-- at most `max_bytes`, or of the record's own length if that is more.
pub write_cap :
    (w : RotatingFile) (p : List ℕ) (d : Disk)
    → d.faults ≡ []
    → w.file ≢ closed
    → IsTracked w d
    → length (contents ((write w p d).3.slot 0)) ≤ max w.max_bytes (length p)
unfolding write
write_cap w p d calm usable h = ground (
  arith,
  write_opened_cap w p d calm,
  opened_calm w d calm,
  open_file-IsTracked w d h,
  write_opened_cap (open_file w d).1 p (open_file w d).2,
)
