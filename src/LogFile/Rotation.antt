-- ===== src/LogFile/Rotation.antt =====
-- What `rotate` does to the backups when no call fails.
use backupchief_agent.Base.{
  ℕ, zero, suc, ◌-◌, ◌≡◌, ◌≢◌, refl, false, List, [], Option, none, some, inl, inr, ℕ-cases, arith,
  leb, ◌==◌, if◌then◌else◌,
}
use backupchief_agent.LogFile.{
  Disk, RotatingFile, opened, nil, remove, rename, shift_backups, move_aside, rotate,
}

module _ (i j : ℕ) (d : Disk) (calm : d.faults ≡ []) (free : d.slot j ≡ none) (apart : i ≢ j) where
  rename-slot :
      (m : ℕ)
      → (rename i j d).1.slot m ≡ (if m == i then none else if m == j then d.slot i else d.slot m)
  unfolding rename
  rename-slot m = ground arith

  rename_calm : ((rename i j d).0 ≡ false) × ((rename i j d).1.faults ≡ [])
  unfolding rename
  rename_calm = ground arith

-- From slot k down, each backup moves up by one.
pub shifted : (ℕ → Option (List ℕ)) → ℕ → ℕ → Option (List ℕ)
shifted f k m =
    if m == 0 then f 0 else if m == 1 then none else if leb m (suc k) then f (m - 1) else f m

module _ (k : ℕ) (d : Disk) (calm : d.faults ≡ []) (free : d.slot (suc (suc k)) ≡ none) where
  -- What one round of the loop leaves for the next one.
  round : Disk
  round = (rename (suc k) (suc (suc k)) d).1

  round-slot :
      (m : ℕ)
      → round.slot m
        ≡ (if m == suc k then none else if m == suc (suc k) then d.slot (suc k) else d.slot m)
  unfolding round
  round-slot m = rename-slot (suc k) (suc (suc k)) d calm free (omega arith) m

  round_calm : ((rename (suc k) (suc (suc k)) d).0 ≡ false) × (round.faults ≡ [])
  unfolding round
  round_calm = rename_calm (suc k) (suc (suc k)) d calm free (omega arith)

  round_free : round.slot (suc k) ≡ none
  round_free = ground (arith, round-slot (suc k))

shift_backups-suc :
    (k : ℕ) (d : Disk)
    → (rename (suc k) (suc (suc k)) d).0 ≡ false
    → shift_backups (suc k) d ≡ shift_backups k (rename (suc k) (suc (suc k)) d).1
unfolding shift_backups
shift_backups-suc k d h = rw h

shift_backups-slot :
    (k : ℕ) (d : Disk)
    → d.faults ≡ []
    → d.slot (suc k) ≡ none
    → (m : ℕ) → (shift_backups k d).1.slot m ≡ shifted d.slot k m
unfolding shift_backups shifted round
shift_backups-slot zero d calm free m = ground (arith, free)
shift_backups-slot (suc k) d calm free m = rw (shift_backups-suc k d (round_calm k d calm free).0) (
    ground (
      arith,
      shift_backups-slot k (round k d calm free) (round_calm k d calm free).1
          (round_free k d calm free) m,
      round-slot k d calm free 0,
      round-slot k d calm free (m - 1),
      round-slot k d calm free m,
    ))

shift_backups_calm :
    (k : ℕ) (d : Disk)
    → d.faults ≡ []
    → d.slot (suc k) ≡ none
    → ((shift_backups k d).0 ≡ false) × ((shift_backups k d).1.faults ≡ [])
unfolding shift_backups round
shift_backups_calm zero d calm free = (refl, calm)
shift_backups_calm (suc k) d calm free = rw (shift_backups-suc k d (round_calm k d calm free).0) (
    shift_backups_calm k (round k d calm free) (round_calm k d calm free).1
      (round_free k d calm free))

module _ (k : ℕ) (d : Disk) (calm : d.faults ≡ []) where
  -- The disk without the oldest backup.
  trimmed : Disk
  unfolding remove
  trimmed = (remove (suc k) d).1

  trimmed-slot : (m : ℕ) → trimmed.slot m ≡ (if m == suc k then none else d.slot m)
  unfolding trimmed
  trimmed-slot m = ground arith

  trimmed_calm : ((remove (suc k) d).0 ≡ false) × (trimmed.faults ≡ [])
  unfolding trimmed
  trimmed_calm = ground arith

  trimmed_free : trimmed.slot (suc k) ≡ none
  trimmed_free = ground (arith, trimmed-slot (suc k))

  -- The disk with the backups moved up.
  raised : Disk
  raised = (shift_backups k trimmed).1

  raised-slot : (m : ℕ) → raised.slot m ≡ shifted trimmed.slot k m
  unfolding raised
  raised-slot = shift_backups-slot k trimmed trimmed_calm.1 trimmed_free

  raised_calm : ((shift_backups k trimmed).0 ≡ false) × (raised.faults ≡ [])
  unfolding raised
  raised_calm = shift_backups_calm k trimmed trimmed_calm.1 trimmed_free

  raised_free : raised.slot 1 ≡ none
  unfolding shifted
  raised_free = ground (arith, raised-slot 1)

  move_aside_lem : (w : RotatingFile) → w.backups ≡ suc k → move_aside w d ≡ rename 0 1 raised
  unfolding move_aside trimmed raised
  move_aside_lem w h = ground (arith, raised_calm)

  vacated :
      (m : ℕ)
      → (rename 0 1 raised).1.slot m
        ≡ (if m == 0 then none else if m == 1 then raised.slot 0 else raised.slot m)
  vacated = rename-slot 0 1 raised raised_calm.1 raised_free (omega arith)

  vacated_calm : ((rename 0 1 raised).0 ≡ false) × ((rename 0 1 raised).1.faults ≡ [])
  vacated_calm = rename_calm 0 1 raised raised_calm.1 raised_free (omega arith)

  move_aside-slot :
      (w : RotatingFile)
      → w.backups ≡ suc k
      → (m : ℕ)
      → (move_aside w d).1.slot m
        ≡ (if m == 0 then none else if leb m (suc k) then d.slot (m - 1) else d.slot m)
  unfolding shifted
  move_aside-slot w h m = rw (move_aside_lem w h) (
      ground (
        arith,
        vacated m,
        raised-slot 0,
        raised-slot m,
        trimmed-slot 0,
        trimmed-slot m,
        trimmed-slot (m - 1),
      ))

  move_aside_calm :
      (w : RotatingFile)
      → w.backups ≡ suc k
      → ((move_aside w d).0 ≡ false) × ((move_aside w d).1.faults ≡ [])
  move_aside_calm w h = rw (move_aside_lem w h) vacated_calm

-- With no backups the active file is removed.
move_aside_without_backups :
    (w : RotatingFile) (d : Disk)
    → d.faults ≡ []
    → w.backups ≡ 0
    → ((move_aside w d).0 ≡ false)
      × ((move_aside w d).1.faults ≡ [])
      × ((m : ℕ) → (move_aside w d).1.slot m ≡ (if m == 0 then none else d.slot m))
unfolding move_aside
move_aside_without_backups w d calm h = (ground arith, ground arith, λ m. ground arith)

-- Where the content of slot m goes to: out of slot `backups`, and up by one otherwise.
abbrev pub rotated : (ℕ → Option (List ℕ)) → ℕ → ℕ → Option (List ℕ)
rotated f backups m = if m == 0 then some [] else if leb m backups then f (m - 1) else f m

module _ (w : RotatingFile) (d : Disk) (calm : d.faults ≡ []) where
  moved-slot :
      (m : ℕ)
      → (move_aside w d).1.slot m
        ≡ (if m == 0 then none else if leb m w.backups then d.slot (m - 1) else d.slot m)
  moved-slot m = elim (ℕ-cases w.backups) [
    | inl e ↦ ground (arith, (move_aside_without_backups w d calm e).2 m)
    | inr (k, e) ↦ ground (arith, move_aside-slot k d calm w e m)
  ]

  moved_calm : ((move_aside w d).0 ≡ false) × ((move_aside w d).1.faults ≡ [])
  moved_calm = elim (ℕ-cases w.backups) [
    | inl e ↦ ground (arith, move_aside_without_backups w d calm e)
    | inr (k, e) ↦ move_aside_calm k d calm w e
  ]

-- When no call fails, `rotate` succeeds, opens an empty file in slot 0, moves the content of each
-- slot below `backups` up by one and drops that of slot `backups`; the slots above are left alone.
pub rotate_lem :
    (w : RotatingFile) (d : Disk)
    → d.faults ≡ []
    → w.file ≡ opened
    → ((rotate w d).0 ≡ false)
      × ((rotate w d).1 ≡ record w { file = opened; size = 0 })
      × ((rotate w d).2.faults ≡ [])
      × ((m : ℕ) → (rotate w d).2.slot m ≡ rotated d.slot w.backups m)
unfolding rotate
rotate_lem w d calm ready =
    let w' = record w { file = nil } in
    let d' = record d { faults = [] } in
    (
      ground (arith, moved_calm w' d' refl),
      ground (arith, moved_calm w' d' refl, moved-slot w' d' refl 0),
      ground (arith, moved_calm w' d' refl),
      λ m. ground (arith, moved_calm w' d' refl, moved-slot w' d' refl m),
    )
