-- ===== src/Finish/Frame.antt =====
-- What the end of a run leaves of the daemon and of the entry's numbers.
use backupchief_agent.Base.{
  ◌+◌, ◌%◌, ◌^◌, ◌≡◌, refl, String, Bool, ◌&&◌, ◌||◌, [], ◌∷◌, Option, none, some, Bool-cases, inl,
  inr, length, arith, Dict, lookup,
}
use backupchief_agent.Protocol.{
  JournalCommand, CommandResult, Job, reporting_gap, gap, finished, is_backup,
}
use backupchief_agent.Store.{Err, is_scheduled}
use backupchief_agent.Maintenance.{is_complete}
use backupchief_agent.Daemon.{Daemon, fresh_id, save_journal, save_state, is_nonempty}
use backupchief_agent.Events.{append_snapshot_evidence, append_finished, cancel_all}
use backupchief_agent.Events.Frame.{
  Quiet, Quiet-trans, fresh_id-Quiet, append_snapshot_evidence-Quiet, append_finished-Quiet,
}
use backupchief_agent.Events.Sequences.{
  IsSequenced, HasRoom, Keeps, result_ids, append_event-Keeps, append_snapshot_evidence-Keeps,
  append_finished-Keeps,
}
use backupchief_agent.Finish.{
  Ending, with_replication, with_log, with_gap, gap_reason, is_partial, close_log, finish_entry,
  record_outcome_locked, save_or_cancel,
}

module _ (e : Ending) (result : CommandResult) where
  with_gap-Quiet :
      (err : Option Err) (c : JournalCommand) (d : Daemon) → Quiet d (with_gap e result err c d).1
  unfolding with_gap save_state
  with_gap-Quiet err c d = Quiet-trans d (fresh_id d).1 _ (fresh_id-Quiet d) refl

  close_log-Quiet :
      (written : Option String × Option Err) (c : JournalCommand) (d : Daemon)
      → Quiet d (close_log e result written c d).1
  unfolding close_log
  close_log-Quiet (none, err) c d = with_gap-Quiet err c d
  close_log-Quiet (some log, none) c d = refl
  close_log-Quiet (some log, some err) c d = with_gap-Quiet (some err) c d

  with_gap-Keeps :
      (err : Option Err) (c : JournalCommand) (d : Daemon)
      → IsSequenced c
      → HasRoom 1 c
      → Keeps 1 c (with_gap e result err c d).0
  unfolding with_gap
  with_gap-Keeps err c d h room =
      append_event-Keeps (fresh_id d).0 result.finished_at reporting_gap
        (gap (gap_reason err) ((length e.ending_log + e.bytes_dropped) % 2 ^ 64)) c h room

  close_log-Keeps :
      (written : Option String × Option Err) (c : JournalCommand) (d : Daemon)
      → IsSequenced c
      → HasRoom 1 c
      → Keeps 1 c (close_log e result written c d).0
  unfolding close_log
  close_log-Keeps (none, err) c d h room = with_gap-Keeps err c d h room
  close_log-Keeps (some log, none) c d h room = unfold with_log in (h, omega arith)
  close_log-Keeps (some log, some err) c d h room = with_gap-Keeps (some err) c d h room

  module _ (job : Job) (written : Option String × Option Err) (c : JournalCommand)
      (d : Daemon) where
    abbrev pub started : JournalCommand
    started = with_replication job result (record c { state = finished; result = some result })

    started_numbers : IsSequenced c → IsSequenced started × (started.sequence ≡ c.sequence)
    unfolding with_replication
    started_numbers h =
        let test =
          is_backup result.run_kind
          && (is_complete result.status || is_partial result.status)
          && is_nonempty result.snapshot_ids
          && is_nonempty job.replicas in
        elim (Bool-cases test) [ inl on ↦ rw on (h, refl) | inr off ↦ rw off (h, refl) ]

    pub finish_entry-Quiet : Quiet d (finish_entry e job result written c d).1
    unfolding finish_entry
    finish_entry-Quiet =
        let evidence = append_snapshot_evidence result started d in
        let end = append_finished result evidence.0 evidence.1 in
        Quiet-trans d end.1 _
          (Quiet-trans d evidence.1 _ (append_snapshot_evidence-Quiet result started d)
            (append_finished-Quiet result evidence.0 evidence.1))
          (close_log-Quiet written _ end.1)

    -- If the entry's numbers are in order and enough are left for an event for each snapshot and two
    -- more, the entry of a run that ended has its numbers in order too.
    pub finish_entry-IsSequenced :
        IsSequenced c
        → HasRoom (result_ids result + 2) c
        → IsSequenced (finish_entry e job result written c d).0
    unfolding finish_entry
    finish_entry-IsSequenced h room =
        let (fresh, same) = started_numbers h in
        let evidence =
          append_snapshot_evidence-Keeps result started d fresh (omega (arith, room, same)) in
        let (c₂, d₂) = append_snapshot_evidence result started d in
        let end =
          append_finished-Keeps result c₂ d₂ evidence.0 (omega (arith, room, same, evidence.1)) in
        let (c₃, d₃) = append_finished result c₂ d₂ in
        (close_log-Keeps written (record c₃ { result_reported = is_scheduled c₃.trigger }) d₃ end.0
          (omega (arith, room, same, evidence.1, end.1))).0

pub record_outcome_locked-Quiet :
    (job : Job) (result : CommandResult) (d : Daemon) → Quiet d (record_outcome_locked job result d)
unfolding record_outcome_locked save_state
record_outcome_locked-Quiet job result d = refl

lookup-cancel_all :
    (run : String) (m : Dict Bool) → lookup run m ≡ none → lookup run (cancel_all m) ≡ none
unfolding lookup cancel_all
lookup-cancel_all run [] h = h
lookup-cancel_all run ((own, b) ∷ m) h = ground (arith, lookup-cancel_all run m)

-- What a save that may cancel leaves: no run becomes active by it.
pub record Stopped (run : String) (d d' : Daemon) : Type 0 where
  pub same_journal : d'.journal ≡ d.journal
  pub same_kinds : d'.active_run_kinds ≡ d.active_run_kinds
  pub same_repositories : d'.repositories ≡ d.repositories
  pub inactive : lookup run d.active ≡ none → lookup run d'.active ≡ none

pub save_or_cancel-Stopped : (run : String) (d : Daemon) → Stopped run d (save_or_cancel d)
unfolding save_or_cancel save_journal
save_or_cancel-Stopped run d =
    let none_left = lookup-cancel_all run d.active in
    record {
      same_journal = ground arith;
      same_kinds = ground arith;
      same_repositories = ground arith;
      inactive = λ h. ground (arith, none_left);
    }
