-- ===== src/LogFile/Loss.antt =====
-- Which log bytes a write keeps, over the active file and its backups.
use mathlib.Core.Path.{fun_ext}
use backupchief_agent.Base.{
  ℕ, zero, suc, ◌+◌, ◌≤◌, ◌≡◌, ◌≢◌, ◌⊎◌, refl, ap, Bool, true, false, ◌&&◌, List, [], ◌++◌, Option,
  some, Bool-cases, inl, inr, append-nil, append_assoc, arith, ltb, if◌then◌else◌, length,
}
use backupchief_agent.LogFile.{
  Handle, Disk, RotatingFile, is_nil, opened, closed, nil, append_bytes, open_file, contents,
  update, open_file, rotate, append_bytes, write_opened, write,
}
use backupchief_agent.LogFile.Rotation.{rotated, rotate_lem}
use backupchief_agent.LogFile.Size.{IsTracked, append_calm, opened_calm}

-- The log from the oldest of `k` backups to the active file.
abbrev pub retained : ℕ → (ℕ → Option (List ℕ)) → List ℕ
retained zero f = contents (f 0)
retained (suc k) f = contents (f (suc k)) ++ retained k f

retained-rotated :
    (backups k : ℕ) (f : ℕ → Option (List ℕ))
    → k ≤ backups
    → contents (f k) ++ retained k (rotated f backups) ≡ retained k f
retained-rotated backups zero f h = append-nil (contents (f 0))
retained-rotated backups (suc k) f h =
    ap (λ (xs : List ℕ). contents (f (suc k)) ++ xs)
      (let e : contents (rotated f backups (suc k)) ≡ contents (f k) = ground arith in
        rw e (retained-rotated backups k f (omega arith)))

retained-append :
    (k : ℕ) (f : ℕ → Option (List ℕ)) (p : List ℕ)
    → retained k (update f 0 (some (contents (f 0) ++ p))) ≡ retained k f ++ p
retained-append zero f p = refl
retained-append (suc k) f p =
    let v = some (contents (f 0) ++ p) in
    let e : contents (update f 0 v (suc k)) ≡ contents (f (suc k)) = ground arith in
    rw (e, append_assoc) (ap (λ (xs : List ℕ). contents (f (suc k)) ++ xs) (retained-append k f p))

-- Whether the write of `p` rotates first.
abbrev pub is_due : RotatingFile → List ℕ → Disk → Bool
is_due w p d = let n = length (contents (d.slot 0)) in ltb 0 n && ltb w.max_bytes (n + length p)

-- What the write drops: the oldest backup if it rotates.
abbrev pub dropped : RotatingFile → List ℕ → Disk → List ℕ
dropped w p d = if is_due w p d then contents (d.slot w.backups) else []

-- The write of `p` succeeds, and the log grows by `p` up to what is dropped.
abbrev pub Keeps : RotatingFile → List ℕ → Disk → ℕ × Bool × RotatingFile × Disk → Type 0
Keeps w p d (n, bad, w', d') =
    (n ≡ length p)
    × (bad ≡ false)
    × (dropped w p d ++ retained w.backups d'.slot ≡ retained w.backups d.slot ++ p)

abbrev appended : (ℕ → Option (List ℕ)) → List ℕ → ℕ → Option (List ℕ)
appended f p = update f 0 (some (contents (f 0) ++ p))

module _ (w : RotatingFile) (p : List ℕ) (d : Disk) (calm : d.faults ≡ []) (ready : w.file ≡ opened)
    (tracked : IsTracked w d) where
  -- What `append_bytes` finds after the rotation.
  renewed : (rotate w d).1.file ≡ opened
  renewed = ap (λ (v : RotatingFile). v.file) (rotate_lem w d calm ready).1

  slots_due :
      is_due w p d ≡ true
      → (m : ℕ) → (write_opened w p d).3.slot m ≡ appended (rotated d.slot w.backups) p m
  unfolding write_opened
  slots_due due m =
      let (fine, fresh, calm', moved) = rotate_lem w d calm ready in
      ground (
        arith,
        tracked ready,
        fine,
        moved 0,
        moved m,
        (append_calm (rotate w d).1.file p (rotate w d).2 calm' renewed).2 m,
      )

  slots_not_due :
      is_due w p d ≡ false → (m : ℕ) → (write_opened w p d).3.slot m ≡ appended d.slot p m
  unfolding write_opened
  slots_not_due early m = ground (arith, tracked ready, (append_calm w.file p d calm ready).2 m)

  complete : ((write_opened w p d).0 ≡ length p) × ((write_opened w p d).1 ≡ false)
  unfolding write_opened
  complete =
      let (fine, fresh, calm', moved) = rotate_lem w d calm ready in
      let (n, good, slots) = append_calm w.file p d calm ready in
      let (n', good', slots') = append_calm (rotate w d).1.file p (rotate w d).2 calm' renewed in
      ground arith

  log_due :
      contents (d.slot w.backups) ++ retained w.backups (appended (rotated d.slot w.backups) p)
      ≡ retained w.backups d.slot ++ p
  log_due =
      rw (retained-append w.backups (rotated d.slot w.backups) p, ← append_assoc)
        (ap (λ (xs : List ℕ). xs ++ p) (retained-rotated w.backups w.backups d.slot (omega arith)))

  write_opened-Keeps : Keeps w p d (write_opened w p d)
  write_opened-Keeps = elim (Bool-cases (is_due w p d)) [
    | inl due ↦ (complete.0, complete.1, rw (due, fun_ext (slots_due due)) log_due)
    | inr early ↦ (
      complete.0,
      complete.1,
      rw (early, fun_ext (slots_not_due early)) (retained-append w.backups d.slot p),
    )
  ]

Handle-cases : (f : Handle) → (f ≡ nil) ⊎ ((f ≡ opened) ⊎ (f ≡ closed))
Handle-cases nil = inl refl
Handle-cases opened = inr (inl refl)
Handle-cases closed = inr (inr refl)

-- Opening the file changes no content.
retained_opened :
    (k : ℕ) (f : ℕ → Option (List ℕ))
    → retained k (update f 0 (some (contents (f 0)))) ≡ retained k f
retained_opened zero f = refl
retained_opened (suc k) f =
    let v = some (contents (f 0)) in
    let e : contents (update f 0 v (suc k)) ≡ contents (f (suc k)) = ground arith in
    rw e (ap (λ (xs : List ℕ). contents (f (suc k)) ++ xs) (retained_opened k f))

module _ (w : RotatingFile) (p : List ℕ) (d : Disk) (calm : d.faults ≡ []) where
  -- The writer and the disk after `open`.
  fresh_writer : RotatingFile
  fresh_writer = record w { file = opened; size = length (contents (d.slot 0)) }

  fresh_disk : Disk
  fresh_disk = record d { slot = update d.slot 0 (some (contents (d.slot 0))) }

  write-opened : w.file ≡ nil → write w p d ≡ write_opened fresh_writer p fresh_disk
  unfolding write fresh_writer fresh_disk
  write-opened e = rw (ap is_nil e, opened_calm w d calm)

  fresh_dropped : dropped fresh_writer p fresh_disk ≡ dropped w p d
  unfolding fresh_writer fresh_disk
  fresh_dropped = ground arith

  write_nil-Keeps : w.file ≡ nil → Keeps w p d (write w p d)
  unfolding fresh_writer fresh_disk
  write_nil-Keeps e =
      let whole = write_opened-Keeps fresh_writer p fresh_disk calm refl (λ r. (refl, refl)) in
      rw (write-opened e)
        (whole.0, whole.1, rw (fresh_dropped, retained_opened w.backups d.slot) at whole.2)

  write_ready-Keeps : w.file ≡ opened → IsTracked w d → Keeps w p d (write w p d)
  unfolding write
  write_ready-Keeps e h = rw (ap is_nil e) (write_opened-Keeps w p d calm e h)

  -- When no call fails, a write to a file that is open or was never opened writes the whole record, and
  -- the log (the backups from the oldest on, then the active file) grows by it at its end; it loses at its start the oldest backup exactly if the write rotates.
  pub write-Keeps : w.file ≢ closed → IsTracked w d → Keeps w p d (write w p d)
  write-Keeps usable h = elim (Handle-cases w.file) [
    | inl e ↦ write_nil-Keeps e
    | inr (inl e) ↦ write_ready-Keeps e h
    | inr (inr e) ↦ absurd (usable e)
  ]

rotate_failed : (w : RotatingFile) (d : Disk) → (rotate w d).0 ≡ true → (rotate w d).1.file ≢ opened
unfolding rotate open_file
rotate_failed w d h = ground arith

append_bytes_refused :
    (f : Handle) (p : List ℕ) (d : Disk) → f ≢ opened → append_bytes f p d ≡ (0, true, d)
unfolding append_bytes
append_bytes_refused nil p d h = refl
append_bytes_refused opened p d h = absurd (h refl)
append_bytes_refused closed p d h = refl

-- A write that has to rotate, and whose rotation fails at any of its calls, writes nothing of the
-- record, reports an error and leaves the disk as the failed rotation left it: the record is lost.
pub write_after_failed_rotation :
    (w : RotatingFile) (p : List ℕ) (d : Disk)
    → w.file ≡ opened
    → IsTracked w d
    → is_due w p d ≡ true
    → (rotate w d).0 ≡ true
    → ((write w p d).0 ≡ 0) × ((write w p d).1 ≡ true) × ((write w p d).3 ≡ (rotate w d).2)
unfolding write write_opened
write_after_failed_rotation w p d ready tracked due failed = ground (
  arith,
  ap is_nil ready,
  tracked ready,
  append_bytes_refused (rotate w d).1.file p (rotate w d).2 (rotate_failed w d failed),
)
