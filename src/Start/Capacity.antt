-- ===== src/Start/Capacity.antt =====
-- The bounds on the runs that are active at once, and the repositories that a run holds alone.
use backupchief_agent.Base.{
  ◌≡◌, ◌≢◌, inl, inr, ◌+◌, ◌≤◌, String, Bool, true, false, List, [], ◌∷◌, arith, Dict, insert,
  lookup-insert, lookup-insert_self, if◌then◌else◌, map,
}
use backupchief_agent.Protocol.{RunKind, is_backup, Job, Replica}
use backupchief_agent.Daemon.{Daemon, active_backups, active_maintenance, is_set}
use backupchief_agent.Start.{
  repository_ids, any_busy, mark_busy, capacity_reached, is_blocked, with_run_kind, start_operation,
}
use backupchief_agent.Start.Journal.{filled, start_operation_lem}

active_backups-insert :
    (r : String) (k : RunKind) (m : Dict RunKind)
    → active_backups (insert r k m) ≤ active_backups m + (if is_backup k then 1 else 0)
unfolding active_backups insert
active_backups-insert r k [] = ground arith
active_backups-insert r k ((j, w) ∷ m) = ground (arith, active_backups-insert r k m)

active_maintenance-insert :
    (r : String) (k : RunKind) (m : Dict RunKind)
    → active_maintenance (insert r k m) ≤ active_maintenance m + (if is_backup k then 0 else 1)
unfolding active_maintenance insert
active_maintenance-insert r k [] = ground arith
active_maintenance-insert r k ((j, w) ∷ m) = ground (arith, active_maintenance-insert r k m)

-- At most two backups and one maintenance run are active.
pub record IsWithinCapacity (m : Dict RunKind) : Type 0 where
  pub backups : active_backups m ≤ 2
  pub maintenance : active_maintenance m ≤ 1

insert-IsWithinCapacity :
    (r : String) (k : RunKind) (m : Dict RunKind)
    → IsWithinCapacity m
    → capacity_reached k m ≡ false
    → IsWithinCapacity (insert r k m)
unfolding capacity_reached
insert-IsWithinCapacity r k m h free = record {
  backups = ground (arith, active_backups-insert r k m, h.backups);
  maintenance = ground (arith, active_maintenance-insert r k m, h.maintenance);
}

is_blocked-capacity :
    (k : RunKind) (job : Job) (d : Daemon)
    → is_blocked k job d ≡ false
    → capacity_reached k d.active_run_kinds ≡ false
unfolding is_blocked
is_blocked-capacity k job d h = ground arith

is_blocked-any_busy :
    (k : RunKind) (job : Job) (d : Daemon)
    → is_blocked k job d ≡ false
    → any_busy (repository_ids k job) d.repositories ≡ false
unfolding is_blocked
is_blocked-any_busy k job d h = ground arith

-- An attempt to start an operation keeps the bounds: at most two backups and at most one
-- maintenance run are active after it if they were before.
pub start_operation-IsWithinCapacity :
    (id : String) (job : Job) (d : Daemon)
    → IsWithinCapacity d.active_run_kinds
    → IsWithinCapacity (start_operation id job d).1.active_run_kinds
start_operation-IsWithinCapacity id job d h = elim (start_operation_lem id job d) [
  | inl idle ↦ rw idle.kinds h
  | inr (c, admitted, s) ↦ rw s.kinds (
      insert-IsWithinCapacity s.entry.run_id (with_run_kind c).run_kind d.active_run_kinds h
        (is_blocked-capacity (with_run_kind c).run_kind job (filled id c d) admitted.is_free))
]

is_set-mark_busy :
    (r : String) (ids : List String) (m : Dict Bool)
    → is_set r m ≡ true
    → is_set r (mark_busy ids m) ≡ true
unfolding mark_busy
is_set-mark_busy r [] m h = h
is_set-mark_busy r (i ∷ ids) m h =
    is_set-mark_busy r ids (insert i true m) (ground (arith, lookup-insert i r true m))

is_set-mark_busy_head :
    (r : String) (ids : List String) (m : Dict Bool) → is_set r (mark_busy (r ∷ ids) m) ≡ true
unfolding mark_busy
is_set-mark_busy_head r ids m =
    is_set-mark_busy r ids (insert r true m) (ground (arith, lookup-insert_self r true m))

-- A run of either kind holds its job's own repository.
repository_ids_marked :
    (k : RunKind) (job : Job) (m : Dict Bool)
    → is_set job.repository_id (mark_busy (repository_ids k job) m) ≡ true
unfolding repository_ids
repository_ids_marked k job m =
    is_set-mark_busy_head job.repository_id
      (if is_backup k then [] else map (λ (r : Replica). r.replica_id) job.replicas) m

busy_blocks :
    (k : RunKind) (job : Job) (d : Daemon)
    → is_set job.repository_id d.repositories ≡ true
    → is_blocked k job d ≡ true
unfolding is_blocked repository_ids any_busy
busy_blocks k job d h = ground arith

-- Of two attempts in a row on jobs of one repository at most one launches its run: after a launch
-- the other attempt, for any entry and either kind of run, launches nothing.
pub start_operation_exclusive :
    (id id' : String) (job job' : Job) (d : Daemon)
    → job'.repository_id ≡ job.repository_id
    → (start_operation id job d).1.launched ≢ d.launched
    → (start_operation id' job' (start_operation id job d).1).1.launched
      ≡ (start_operation id job d).1.launched
start_operation_exclusive id id' job job' d same launched = elim (start_operation_lem id job d) [
  | inl idle ↦ absurd (launched idle.launched)
  | inr (c, admitted, s) ↦ elim (start_operation_lem id' job' (start_operation id job d).1) [
    | inl idle ↦ idle.launched
    | inr (c', admitted', s') ↦
        let marked = repository_ids_marked (with_run_kind c).run_kind job d.repositories in
        let held : is_set job'.repository_id (start_operation id job d).1.repositories ≡ true =
          rw (same, s.marks) marked in
        let blocked =
          busy_blocks (with_run_kind c').run_kind job' (filled id' c' (start_operation id job d).1)
            held in
        cc (blocked, admitted'.is_free)
  ]
]
