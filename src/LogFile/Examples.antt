-- ===== src/LogFile/Examples.antt =====
-- Runs of the log file on small inputs, and its theorems at concrete inputs.
use backupchief_agent.Base.{ℕ, ◌≡◌, refl, true, false, List, [], ◌∷◌, Option, none, some}
use backupchief_agent.LogFile.{
  works, fails_after, Disk, RotatingFile, opened, update, shift_backups, rename, move_aside, rotate,
  append_bytes, taken, write_opened, write, open_rotating_file,
}
use backupchief_agent.LogFile.Rotation.{rotated, rotate_lem}
use backupchief_agent.LogFile.Size.{
  IsTracked, log, hang_up, stop, perform_all, perform_all-open_rotating_file-IsTracked,
}
use backupchief_agent.LogFile.Loss.{Keeps, write-Keeps, write_after_failed_rotation}

abbrev empty_slots : ℕ → Option (List ℕ)
empty_slots i = none

-- agent.log holds "34" and agent.log.1 holds "12", and no call fails.
abbrev calm_disk : Disk
calm_disk = record {
  slot = update (update empty_slots 0 (some (b'3' ∷ b'4' ∷ []))) 1 (some (b'1' ∷ b'2' ∷ []));
  faults = [];
}

-- The same files; the file closes, and the removal of agent.log.1 fails, as its rename does.
abbrev bad_disk : Disk
bad_disk = record { slot = calm_disk.slot; faults = works ∷ fails_after 0 ∷ fails_after 0 ∷ [] }

-- A cap of three bytes and one backup.
abbrev writer : RotatingFile
writer = record { max_bytes = 3; backups = 1; file = opened; size = 2 }

abbrev message : List ℕ
message = b'5' ∷ b'6' ∷ []

write_rotates :
    let (n, bad, w, d) = write writer message calm_disk in
    (n ≡ 2) × (d.slot 0 ≡ some message) × (d.slot 1 ≡ calm_disk.slot 0) × (d.slot 2 ≡ none)
unfolding write write_opened rotate move_aside shift_backups rename append_bytes taken
write_rotates = (refl, refl, refl, refl)

rotate_lem_example :
    ((rotate writer calm_disk).0 ≡ false)
    × ((rotate writer calm_disk).1 ≡ record writer { file = opened; size = 0 })
    × ((rotate writer calm_disk).2.faults ≡ [])
    × ((m : ℕ) → (rotate writer calm_disk).2.slot m ≡ rotated calm_disk.slot 1 m)
rotate_lem_example = rotate_lem writer calm_disk refl refl

perform_all-open_rotating_file-IsTracked_example :
    let (bad, w, d) = open_rotating_file (some 3) (some 1) bad_disk in
    let (w', d') = perform_all (log message ∷ hang_up ∷ log message ∷ stop ∷ []) (w, d) in
    IsTracked w' d'
perform_all-open_rotating_file-IsTracked_example =
    perform_all-open_rotating_file-IsTracked (some 3) (some 1) bad_disk
      (log message ∷ hang_up ∷ log message ∷ stop ∷ [])

write-Keeps_example : Keeps writer message calm_disk (write writer message calm_disk)
write-Keeps_example = write-Keeps writer message calm_disk refl (λ e. cc) (λ e. (refl, refl))

failed_rotation : (rotate writer bad_disk).0 ≡ true
unfolding rotate move_aside shift_backups rename
failed_rotation = refl

write_after_failed_rotation_example :
    ((write writer message bad_disk).0 ≡ 0)
    × ((write writer message bad_disk).1 ≡ true)
    × ((write writer message bad_disk).3 ≡ (rotate writer bad_disk).2)
write_after_failed_rotation_example =
    write_after_failed_rotation writer message bad_disk refl (λ e. (refl, refl)) refl
      failed_rotation
