-- ===== src/Finish/Release.antt =====
-- The end of a run: what it gives back, and the entry that it leaves.
use backupchief_agent.Base.{
  ◌≡◌, refl, sym, subst, ap, ◌∙◌, String, Bool, false, ◌||◌, List, [], ◌∷◌, Option, none, some,
  str_eq, if◌then◌else◌, Option-cases, inl, inr, arith, Dict, lookup, delete, map, lookup-delete,
  lookup-delete_self, ◌+◌, lookup-insert_self, insert,
}
use backupchief_agent.Protocol.{JournalCommand, CommandResult, Job, Replica}
use backupchief_agent.Store.{Err}
use backupchief_agent.Daemon.{Daemon}
use backupchief_agent.Events.Frame.{Quiet, fresh_id-Quiet}
use backupchief_agent.Events.Sequences.{IsSequenced, HasRoom, result_ids}
use backupchief_agent.Finish.{
  Ending, finish_entry, write_log, release, delete_all, known_result, finish_operation,
  record_outcome_locked, save_or_cancel,
}
use backupchief_agent.Finish.Entries.{Ended, finish_entry-Ended}
use backupchief_agent.Finish.Frame.{
  finish_entry-Quiet, finish_entry-IsSequenced, record_outcome_locked-Quiet, Stopped,
  save_or_cancel-Stopped,
}

abbrev pub is_in : String → List String → Bool
is_in k [] = false
is_in k (x ∷ xs) = str_eq x k || is_in k xs

lookup-delete_all :
    (k : String) (ks : List String) (m : Dict Bool)
    → lookup k (delete_all ks m) ≡ (if is_in k ks then none else lookup k m)
unfolding delete_all
lookup-delete_all k [] m = refl
lookup-delete_all k (x ∷ xs) m =
    ground (arith, lookup-delete_all k xs (delete x m), lookup-delete x k m)

-- The repositories that a job names.
abbrev pub repositories_of : Job → List String
repositories_of job = job.repository_id ∷ map (λ (r : Replica). r.replica_id) job.replicas

write_log-Quiet : (e : Ending) (d : Daemon) → Quiet d (write_log e d).1
unfolding write_log
write_log-Quiet e d = let quiet = fresh_id-Quiet d in ground (arith, quiet)

-- The run is no longer active; its kind is gone, and that of no other run; and the repositories of
-- its job are free, while no other loses its mark.
pub record Released (run : String) (job : Job) (d d' : Daemon) : Type 0 where
  pub inactive : lookup run d'.active ≡ none
  pub kinds :
      (other : String)
      → lookup other d'.active_run_kinds
        ≡ (if str_eq run other then none else lookup other d.active_run_kinds)
  pub marks :
      (k : String)
      → lookup k d'.repositories
        ≡ (if is_in k (repositories_of job) then none else lookup k d.repositories)

release-Released : (run : String) (job : Job) (d : Daemon) → Released run job d (release run job d)
unfolding release
release-Released run job d = record {
  inactive = lookup-delete_self run d.active;
  kinds = λ other. lookup-delete run other d.active_run_kinds;
  marks = λ k. lookup-delete_all k (repositories_of job) d.repositories;
}

Released-after :
    (run : String) (job : Job) (d d' d'' : Daemon)
    → Released run job d d'
    → d''.active_run_kinds ≡ d'.active_run_kinds
    → d''.repositories ≡ d'.repositories
    → (lookup run d'.active ≡ none → lookup run d''.active ≡ none)
    → Released run job d d''
Released-after run job d d' d'' h kinds repositories idle = record {
  inactive = idle h.inactive;
  kinds = λ other. rw kinds (h.kinds other);
  marks = λ k. rw repositories (h.marks k);
}

Released-before :
    (run : String) (job : Job) (d d₁ d' : Daemon)
    → Quiet d d₁
    → Released run job d₁ d'
    → Released run job d d'
Released-before run job d d₁ d' q h = record {
  inactive = h.inactive;
  kinds = λ other.
      h.kinds other
      ∙ ap (λ (x : Daemon). if str_eq run other then none else lookup other x.active_run_kinds) q;
  marks = λ k.
      h.marks k
      ∙ ap (λ (x : Daemon). if is_in k (repositories_of job) then none else lookup k x.repositories)
          q;
}

module _ (e : Ending) (id run : String) (job : Job) (full_result : CommandResult) (d : Daemon) where
  abbrev result : CommandResult
  result = known_result e full_result

  abbrev released : Daemon
  released = release run job (write_log e d).1

  abbrev written : Option String × Option Err
  written = (write_log e d).0

  released-Released : Released run job d released
  released-Released =
      Released-before run job d (write_log e d).1 released (write_log-Quiet e d)
        (release-Released run job (write_log e d).1)

  module _ (c : JournalCommand) where
    abbrev last_entry : JournalCommand
    last_entry = (finish_entry e job result written c released).0

    abbrev put : Daemon
    put =
        let d₃ = (finish_entry e job result written c released).1 in
        record d₃ { journal = insert id last_entry d₃.journal }

    abbrev last : Daemon
    last = save_or_cancel (record_outcome_locked job result put)

    finish_operation-some :
        lookup id released.journal ≡ some c → (finish_operation e id run job full_result d).1 ≡ last
    unfolding finish_operation
    finish_operation-some there = rw (there, finish_operation) refl

    last-Stopped : Stopped run put last
    last-Stopped =
        let outcome = record_outcome_locked job result put in
        let q : Quiet put outcome = record_outcome_locked-Quiet job result put in
        let s = save_or_cancel-Stopped run outcome in
        record {
          same_journal = s.same_journal ∙ ap (λ x. x.journal) q;
          same_kinds = s.same_kinds ∙ ap (λ x. x.active_run_kinds) q;
          same_repositories = s.same_repositories ∙ ap (λ x. x.repositories) q;
          inactive = λ h. s.inactive (ap (λ x. lookup run x.active) q ∙ h);
        }

    last-Released : Released run job d last
    last-Released =
        let q = finish_entry-Quiet e result job written c released in
        let s = last-Stopped in
        Released-after run job d released last released-Released
          (s.same_kinds ∙ ap (λ x. x.active_run_kinds) q)
          (s.same_repositories ∙ ap (λ x. x.repositories) q)
          (λ h. s.inactive (ap (λ x. lookup run x.active) q ∙ h))

    last_lookup : lookup id last.journal ≡ some last_entry
    last_lookup =
        ap (λ j. lookup id j) last-Stopped.same_journal ∙ lookup-insert_self id last_entry _

  -- Whatever fails at the end of a run, the log, an identifier or a save, and whether its entry is
  -- still there or not: afterwards the run is not active and its kind does not count any more, all
  -- repositories that its job names are free, and no other run loses its kind and no other
  -- repository its mark.
  pub finish_operation-Released : Released run job d (finish_operation e id run job full_result d).1
  unfolding finish_operation
  finish_operation-Released = elim (Option-cases (lookup id released.journal)) [
    | inl gone ↦ rw (gone, finish_operation) released-Released
    | inr (c, there) ↦
        subst (λ x. Released run job d x) (sym (finish_operation-some c there)) (last-Released c)
  ]

  -- If the entry is in the journal with its event numbers in order, and enough numbers are left for
  -- an event for each snapshot and two more, it is in the journal afterwards, finished and with the
  -- result that the control plane knows, and its numbers are in order, whatever fails.
  pub finish_operation-Ended :
      (c : JournalCommand)
      → lookup id d.journal ≡ some c
      → IsSequenced c
      → HasRoom (result_ids result + 2) c
      → (c' : JournalCommand) × (lookup id (finish_operation e id run job full_result d).1.journal
          ≡ some c')
        × Ended result c'
        × IsSequenced c'
  unfolding release write_log
  finish_operation-Ended c there ordered room =
      let same : lookup id released.journal ≡ some c =
        ap (λ x. lookup id x.journal) (write_log-Quiet e d) ∙ there in
      (
        last_entry c,
        ap (λ x. lookup id x.journal) (finish_operation-some c same) ∙ last_lookup c,
        finish_entry-Ended e result job written c released,
        finish_entry-IsSequenced e result job written c released ordered room,
      )
