-- ===== src/Finish/Entries.antt =====
-- The entry that a run leaves at its end.
use backupchief_agent.Base.{
  ◌≡◌, refl, ap, ◌∙◌, String, ◌&&◌, ◌||◌, Option, none, some, Bool-cases, inl, inr, ◌+◌, ◌%◌, ◌^◌,
  length,
}
use backupchief_agent.Protocol.{
  JournalCommand, CommandResult, Job, finished, is_backup, reporting_gap, gap,
}
use backupchief_agent.Store.{Err}
use backupchief_agent.Maintenance.{is_complete}
use backupchief_agent.Daemon.{Daemon, fresh_id, is_nonempty}
use backupchief_agent.Events.{append_snapshot_evidence, append_finished}
use backupchief_agent.Events.Entries.{
  SameRun, SameRun-trans, append_snapshot_evidence-SameRun, append_finished-SameRun,
  append_event-SameRun,
}
use backupchief_agent.Finish.{
  Ending, with_replication, with_log, with_gap, gap_reason, close_log, finish_entry, is_partial,
}
use backupchief_agent.Finish.Frame.{started}

-- The result of an entry that ended.
abbrev pub Ended : CommandResult → JournalCommand → Type 0
Ended result c = (c.state ≡ finished) × (c.result ≡ some result)

pub Ended-SameRun :
    (result : CommandResult) (c c' : JournalCommand)
    → SameRun c c'
    → Ended result c
    → Ended result c'
Ended-SameRun result c c' p (state, kept) =
    (ap (λ x. x.state) p ∙ state, ap (λ x. x.result) p ∙ kept)

module _ (e : Ending) (result : CommandResult) where
  with_gap-Ended :
      (err : Option Err) (c : JournalCommand) (d : Daemon)
      → Ended result c
      → Ended result (with_gap e result err c d).0
  unfolding with_gap
  with_gap-Ended err c d h =
      Ended-SameRun result c _
        (append_event-SameRun (fresh_id d).0 result.finished_at reporting_gap
          (gap (gap_reason err) ((length e.ending_log + e.bytes_dropped) % 2 ^ 64)) c)
        h

  close_log-Ended :
      (written : Option String × Option Err) (c : JournalCommand) (d : Daemon)
      → Ended result c
      → Ended result (close_log e result written c d).0
  unfolding close_log
  close_log-Ended (none, err) c d h = with_gap-Ended err c d h
  close_log-Ended (some log, none) c d h = unfold with_log in h
  close_log-Ended (some log, some err) c d h = with_gap-Ended (some err) c d h

  module _ (job : Job) (written : Option String × Option Err) (c : JournalCommand)
      (d : Daemon) where
    started-Ended : Ended result (started e result job written c d)
    unfolding with_replication
    started-Ended =
        let test =
          is_backup result.run_kind
          && (is_complete result.status || is_partial result.status)
          && is_nonempty result.snapshot_ids
          && is_nonempty job.replicas in
        elim (Bool-cases test) [ inl on ↦ rw on (refl, refl) | inr off ↦ rw off (refl, refl) ]

    pub finish_entry-Ended : Ended result (finish_entry e job result written c d).0
    unfolding finish_entry
    finish_entry-Ended =
        let first = started e result job written c d in
        let (c₂, d₂) = append_snapshot_evidence result first d in
        let (c₃, d₃) = append_finished result c₂ d₂ in
        let same =
          SameRun-trans first c₂ c₃ (append_snapshot_evidence-SameRun result first d)
            (append_finished-SameRun result c₂ d₂) in
        close_log-Ended written _ d₃ (Ended-SameRun result first c₃ same started-Ended)
