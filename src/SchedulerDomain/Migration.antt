-- ===== src/SchedulerDomain/Migration.antt =====
-- crates/kernel-core/src/scheduler_domain.rs: where a thread stands after a migration.
use gaxera.Prelude.{
  ℕ, ◌<◌, ◌-◌, ◌^◌, Bool, none, set, bit_or, ◌≡◌, ◌≢◌, ◌+◌, subst, inl, inr, sym, ◌∙◌, ap, true,
  false, List, [], ◌∷◌, ◌++◌, if◌then◌else◌, ok, is_error, arith, Bool-cases,
}
use gaxera.Abi.Ids.{ObjectId, same_id, same_id_iff}
use gaxera.Thread.{make_runnable, Thread, runnable, is_running, assign_cpu}
use gaxera.Scheduler.{
  take_active, put_taken, put_marked, push_back, queue_at, Scheduler, level, is_thread,
  queue_contains, remove_thread, enqueue,
}
use gaxera.Scheduler.Queues.{ready_from, ready_below}
use gaxera.Scheduler.Valid.{ready, IsValid}
use gaxera.Scheduler.Insert.{enqueue_cases}
use gaxera.Scheduler.Remove.{remove_thread_cases}
use gaxera.SchedulerDomain.{Migrated, migrate_thread}

-- Where a thread that enters goes, and that nothing else of the scheduler changes.
enqueue_frame :
    (s : Scheduler) (t : Thread)
    → (enqueue s t).0 ≡ ok tt
    → let p = level t.effective_priority in
      (enqueue s t).1 ≡ record s {
        queues = set s.queues p (queue_at s.queues p ++ t.id ∷ []);
        active_bitmap = bit_or s.active_bitmap (2 ^ p);
        count = s.count + 1;
      }
unfolding enqueue make_runnable push_back put_marked
enqueue_frame s t h = ground arith

-- What a removal from the line leaves of the scheduler.
remove_thread_frame :
    (s : Scheduler) (id : ObjectId)
    → is_thread s.current_thread id ≡ false
    → (remove_thread s id).0 ≡ true
    → let s' = (remove_thread s id).1 in
      s' ≡ record s { queues = s'.queues; active_bitmap = s'.active_bitmap; count = s.count - 1 }
unfolding remove_thread take_active put_taken
remove_thread_frame s id idle h = ground arith

-- A migration that succeeds between valid schedulers of two processors leaves both valid, gives the thread its
-- new processor and makes it runnable, and puts it into the target's line, behind the threads of its
-- priority and above. In the target only the queue of that priority, its mark and the count
-- change. In the source, a thread that was current is current no more, and nothing else changes;
-- one that stood in the line and was not current leaves it at one place, with the others in their order, and only the
-- queues, the marks and the count change; and if it was neither, the source stays as it was.
pub migrate_thread_moves :
    (t : Thread) (source target : Scheduler) (src dst : ℕ)
    → IsValid source
    → IsValid target
    → (migrate_thread t source target src dst).0 ≡ ok tt
    → let r = migrate_thread t source target src dst in
      let p = level t.effective_priority in
      IsValid r.2
      × IsValid r.3
      × (r.1 ≡ record t { assigned_cpu = dst; state = runnable })
      × (ready r.3 ≡ ready_from p target.queues ++ (t.id ∷ ready_below p target.queues))
      × (r.3 ≡ record target {
        queues = set target.queues p (queue_at target.queues p ++ t.id ∷ []);
        active_bitmap = bit_or target.active_bitmap (2 ^ p);
        count = target.count + 1;
      })
      × (is_thread source.current_thread t.id ≡ true
          → r.2 ≡ record source { current_thread = none })
      × (is_thread source.current_thread t.id ≡ false
          → queue_contains t.id (ready source) ≡ true
          → ((before : List ObjectId) × (rest : List ObjectId) × (ready source
                ≡ before ++ t.id ∷ rest)
              × (ready r.2 ≡ before ++ rest))
            × (r.2 ≡ record source {
              queues = r.2.queues;
              active_bitmap = r.2.active_bitmap;
              count = source.count - 1;
            }))
      × (is_thread source.current_thread t.id ≡ false
          → queue_contains t.id (ready source) ≡ false
          → r.2 ≡ source)
unfolding migrate_thread assign_cpu
migrate_thread_moves t source target src dst vs vt h =
    let moved : Thread = record t { assigned_cpu = dst } in
    let entered : (enqueue target moved).0 ≡ ok tt = ground arith in
    let (was, line, state, valid) = (enqueue_cases target moved vt).1 entered in
    let removed = remove_thread_cases source t.id vs in
    let e : migrate_thread t source target src dst ≡ (
      ok tt,
      (enqueue target moved).2,
      (remove_thread source t.id).1,
      (enqueue target moved).1,
    ) =
      ground arith in
    let left : (migrate_thread t source target src dst).2 ≡ (remove_thread source t.id).1 =
      ap (λ (r : Migrated). r.2) e in
    (
      subst IsValid (sym left) removed.0,
      subst IsValid (sym (ap (λ (r : Migrated). r.3) e)) valid,
      ap (λ (r : Migrated). r.1) e ∙ state,
      ap (λ (r : Migrated). ready r.3) e ∙ line,
      ap (λ (r : Migrated). r.3) e ∙ enqueue_frame target moved entered,
      (λ current. left ∙ ap (λ (r : Bool × Scheduler). r.1) (removed.1 current)),
      (λ idle there.
          let (found, place) = removed.2 idle there in
          let (before, rest, at, now) = place in
          (
            (before, rest, at, ap ready left ∙ now),
            subst
                (λ (s : Scheduler). s ≡ record source {
                  queues = s.queues;
                  active_bitmap = s.active_bitmap;
                  count = source.count - 1;
                })
                (sym left) (remove_thread_frame source t.id idle found),
          )),
      (λ idle away. left ∙ ap (λ (r : Bool × Scheduler). r.1) (removed.3 idle away)),
    )

-- How often a thread stands in a line.
unfoldable pub occurrences : ObjectId → List ObjectId → ℕ
unfolding same_id
occurrences id [] = 0
occurrences id (t ∷ ts) = (if same_id t id then 1 else 0) + occurrences id ts

occurrences-append :
    (id : ObjectId) (xs ys : List ObjectId)
    → occurrences id (xs ++ ys) ≡ occurrences id xs + occurrences id ys
unfolding occurrences
occurrences-append id [] ys = omega arith
occurrences-append id (x ∷ xs) ys = omega (arith, occurrences-append id xs ys)

occurrences-cons :
    (id : ObjectId) (ts : List ObjectId) → occurrences id (id ∷ ts) ≡ 1 + occurrences id ts
unfolding occurrences
occurrences-cons id ts = ground (arith, same_id_iff id id)

queue_contains-occurrences :
    (id : ObjectId) (ts : List ObjectId) → 0 < occurrences id ts → queue_contains id ts ≡ true
unfolding occurrences queue_contains
queue_contains-occurrences id [] h = absurd (omega arith)
queue_contains-occurrences id (t ∷ ts) h = ground (arith, queue_contains-occurrences id ts)

-- A migration between valid schedulers whose target is full fails after the thread has been taken out of the
-- source: a thread that is neither running nor current, and stood once in the source's line and not
-- in the target's, is then in the line of neither.
pub migrate_thread_loses :
    (t : Thread) (source target : Scheduler) (src dst : ℕ)
    → IsValid source
    → IsValid target
    → src ≢ dst
    → is_running t.state ≡ false
    → is_thread source.current_thread t.id ≡ false
    → occurrences t.id (ready source) ≡ 1
    → occurrences t.id (ready target) ≡ 0
    → target.count ≡ target.capacity
    → let r = migrate_thread t source target src dst in
      (is_error r.0 ≡ true)
      × (occurrences t.id (ready r.2) ≡ 0)
      × (occurrences t.id (ready r.3) ≡ 0)
unfolding migrate_thread assign_cpu
migrate_thread_loses t source target src dst vs vt apart idle away once absent full =
    let moved : Thread = record t { assigned_cpu = dst } in
    let refused : is_error (enqueue target moved).0 ≡ true =
      elim (Bool-cases (is_error (enqueue target moved).0)) [
        | inl e ↦ e
        | inr fine ↦ absurd (omega (arith, ((enqueue_cases target moved vt).0.0 (ground arith)).2))
      ] in
    let kept = ((enqueue_cases target moved vt).2 refused).0 in
    let there = queue_contains-occurrences t.id (ready source) (omega arith) in
    let (before, rest, at, now) = ((remove_thread_cases source t.id vs).2 away there).1 in
    let gone : occurrences t.id (ready (remove_thread source t.id).1) ≡ 0 = rw now (
      omega (
        arith,
        ap (occurrences t.id) at,
        occurrences-append t.id before (t.id ∷ rest),
        occurrences-cons t.id rest,
        occurrences-append t.id before rest,
      )) in
    (ground arith, ground (arith, gone), ground (arith, kept))
