-- ===== src/Scheduler/Steps.antt =====
-- crates/kernel-core/src/scheduler.rs: the invariant over all operations.
use gaxera.Prelude.{
  ℕ, inl, inr, refl, sym, subst, ap, Bool, Option, List, [], ◌∷◌, ltb, Result, is_error, arith,
  Bool-cases,
}
use gaxera.Abi.Ids.{ObjectId}
use gaxera.Thread.{Thread, make_runnable}
use gaxera.Scheduler.{
  Scheduler, SchedulerError, level, enqueue, apply_wake, dequeue_next, commit_yield_with_priority,
  try_direct_switch, set_current_thread, block_current, tick, reset_quantum, pop_stealable_work,
  remove_thread,
}
use gaxera.Scheduler.Valid.{ready, IsValid}
use gaxera.Scheduler.Order.{dequeue_next_takes, line_cases}
use gaxera.Scheduler.Insert.{level-lt, push_front-IsValid, enqueue_cases}
use gaxera.Scheduler.Steal.{pop_stealable_work_cases}
use gaxera.Scheduler.Remove.{remove_thread_cases}
use gaxera.Scheduler.Yield.{same_line-IsValid, yield_line, yield-IsValid, yield_cases}

pub data Event : Type 0 where
  enqueues wakes blocks : Thread → Event
  dequeues ticks resets : Event
  steals : (ObjectId → Bool) → Event
  removes : ObjectId → Event
  yields : ObjectId → ℕ → ObjectId → Event
  switches : ObjectId → ObjectId → Event
  sets : Option ObjectId → Event

unfoldable pub after : Scheduler → Event → Scheduler
after s (enqueues t) = (enqueue s t).1
after s (wakes t) = (apply_wake s t).1
after s (blocks t) = (block_current s t).1
after s dequeues = (dequeue_next s).1
after s ticks = (tick s).1
after s resets = reset_quantum s
after s (steals checker) = (pop_stealable_work s checker).1
after s (removes id) = (remove_thread s id).1
after s (yields current prio next) = (commit_yield_with_priority s current prio next).1
after s (switches current target) = (try_direct_switch s current target).1
after s (sets t) = set_current_thread s t

unfoldable pub after_all : Scheduler → List Event → Scheduler
after_all s [] = s
after_all s (e ∷ es) = after_all (after s e) es

apply_wake-IsValid : (s : Scheduler) (t : Thread) → IsValid s → IsValid (apply_wake s t).1
unfolding apply_wake make_runnable
apply_wake-IsValid s t v = elim (Bool-cases (ltb s.count s.capacity)) [
  | inl room ↦
      let pushed =
        push_front-IsValid s (level t.effective_priority) t.id v (level-lt t.effective_priority)
          (ground arith) in
      ground (arith, pushed)
  | inr full ↦ ground arith
]

after-IsValid : (s : Scheduler) (e : Event) → IsValid s → IsValid (after s e)
unfolding after
after-IsValid s (enqueues t) v = elim (Bool-cases (is_error (enqueue s t).0)) [
  | inl refused ↦ rw ((enqueue_cases s t v).2 refused).0 v
  | inr taken ↦ ((enqueue_cases s t v).1 (ground arith)).3
]
after-IsValid s (wakes t) v = apply_wake-IsValid s t v
after-IsValid s (blocks t) v =
    unfold block_current in
    same_line-IsValid s _ v (ground arith) (ground arith) (ground arith) (ground arith)
after-IsValid s dequeues v = elim (line_cases (ready s)) [
  | inl empty ↦
      subst (λ (r : Option ObjectId × Scheduler). IsValid r.1)
        (sym ((dequeue_next_takes s v).0 empty).0) v
  | inr (t, ts, first) ↦ ((dequeue_next_takes s v).1 t ts first).3
]
after-IsValid s ticks v = unfold tick in same_line-IsValid s _ v refl refl refl refl
after-IsValid s resets v = unfold reset_quantum in same_line-IsValid s _ v refl refl refl refl
after-IsValid s (steals checker) v = elim (pop_stealable_work_cases s checker v) [
  | inl (before, t, rest, taken, pass, was, now, valid) ↦ valid
  | inr (e, none_pass) ↦ subst (λ (r : Option ObjectId × Scheduler). IsValid r.1) (sym e) v
]
after-IsValid s (removes id) v = (remove_thread_cases s id v).0
after-IsValid s (yields current prio next) v = elim (yield_cases s current next prio v) [
  | inl (rest, there, first, apart) ↦
      subst IsValid
        (ap (λ (r : Result Unit SchedulerError × Scheduler). r.1)
          (sym (yield_line s current next prio rest v there first apart)))
        (yield-IsValid s current next prio rest v first)
  | inr (refused, kept) ↦ subst IsValid (sym kept) v
]
after-IsValid s (switches current target) v =
    unfold try_direct_switch in
    same_line-IsValid s _ v (ground arith) (ground arith) (ground arith) (ground arith)
after-IsValid s (sets t) v =
    unfold set_current_thread in same_line-IsValid s _ v refl refl refl refl

-- Whatever operations a scheduler goes through, accepted or refused: if it was valid at first, its bitmap
-- marks exactly the queues that hold a thread, its count is the number of threads in line and is at
-- most its capacity.
pub after_all_agrees : (s : Scheduler) (es : List Event) → IsValid s → IsValid (after_all s es)
unfolding after_all
after_all_agrees s [] v = v
after_all_agrees s (e ∷ es) v = after_all_agrees (after s e) es (after-IsValid s e v)
