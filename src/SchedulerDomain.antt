-- ===== src/SchedulerDomain.antt =====
-- crates/kernel-core/src/scheduler_domain.rs: `SchedulerDomain`, the migration of threads between the
-- schedulers of two processors. The locks of the two are held by the caller.
pub mod Migration
use gaxera.Prelude.{
  ℕ, Bool, true, false, not, Option, none, some, ◌==◌, if◌then◌else◌, Result, ok, err,
}
use gaxera.Abi.Ids.{ObjectId}
use gaxera.Affinity.{CpuAffinityMask}
use gaxera.Affinity
use gaxera.Thread.{Thread, ThreadError, assign_cpu}
use gaxera.Scheduler.{Scheduler, SchedulerError, remove_thread, enqueue, pop_stealable_work}

pub data DomainError : Type 0 where
  same_cpu_migration thread_not_runnable : DomainError
  scheduler_error : SchedulerError → DomainError
  thread_error : ThreadError → DomainError

-- The result, the thread, the source and the destination.
abbrev pub Migrated : Type 0
Migrated = Result (Unit {0}) DomainError × Thread × Scheduler × Scheduler

unfoldable pub migrate_thread : Thread → Scheduler → Scheduler → ℕ → ℕ → Migrated
unfolding remove_thread assign_cpu enqueue
migrate_thread t source target src_cpu dst_cpu =
    if src_cpu == dst_cpu
    then (err same_cpu_migration, t, source, target)
    else let (removed, source') = remove_thread source t.id in
      let (assigned, t') = assign_cpu t dst_cpu in
      elim assigned [
        | err e ↦ (err (thread_error e), t', source', target)
        | ok _ ↦
            let (entered, target', t'') = enqueue target t' in
            elim entered [
              | err e ↦ (err (scheduler_error e), t'', source', target')
              | ok _ ↦ (ok tt, t'', source', target')
            ]
      ]

-- The checker of `attempt_work_steal`.
abbrev pub permits : Option CpuAffinityMask → ℕ → Bool
permits none cpu = false
permits (some a) cpu = Affinity.contains a cpu

-- `threads` is the kernel's table of affinities.
unfoldable pub attempt_work_steal :
    Scheduler → ℕ → (ObjectId → Option CpuAffinityMask) → Option ObjectId × Scheduler
unfolding pop_stealable_work
attempt_work_steal source dst_cpu threads =
    pop_stealable_work source (λ t. permits (threads t) dst_cpu)
