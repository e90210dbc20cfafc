-- ===== src/Scheduler/Insert.antt =====
-- crates/kernel-core/src/scheduler.rs: how threads enter the line, and the cooperative yield.
use gaxera.Prelude.{
  ℕ, suc, ◌<◌, ◌≡◌, ◌≢◌, ◌⊎◌, ◌↔◌, refl, sym, ◌∙◌, ap, Bool, true, false, List, [], ◌∷◌, ◌++◌,
  length, length-append, ok, err, is_error, arith,
}
use gaxera.Abi.Ids.{ObjectId}
use gaxera.Thread.{Thread, ThreadState, new, runnable, blocked, dying, dead, make_runnable}
use gaxera.Scheduler.{
  Scheduler, invalid_state, queue_at, put_marked, push_back, push_front, level, is_thread, contains,
  enqueue, apply_wake,
}
use gaxera.Scheduler.Queues.{ready_from, ready_below, ready_of-set, ready_of-split, ready_from-suc}
use gaxera.Scheduler.Valid.{ready, IsValid, put_marked-IsValid}
use mathlib.Core.List.{append_assoc}

pub level-lt : (p : ℕ) → level p < 32
level-lt p = omega arith

-- Behind all threads of its priority and above.
pub ready-push_back :
    (s : Scheduler) (p : ℕ) (id : ObjectId)
    → p < length s.queues
    → ready (push_back s p id) ≡ ready_from p s.queues ++ (id ∷ ready_below p s.queues)
unfolding push_back put_marked
ready-push_back s p id h =
    ready_of-set p s.queues (queue_at s.queues p ++ id ∷ []) h
    ∙ ap (λ (l : List ObjectId). ready_from (suc p) s.queues ++ l)
        (append_assoc (queue_at s.queues p) (id ∷ []) (ready_below p s.queues))
    ∙ sym (
        append_assoc (ready_from (suc p) s.queues) (queue_at s.queues p)
          (id ∷ ready_below p s.queues))
    ∙ ap (λ (l : List ObjectId). l ++ (id ∷ ready_below p s.queues))
        (sym (ready_from-suc p s.queues))

pub push_back-IsValid :
    (s : Scheduler) (p : ℕ) (id : ObjectId)
    → IsValid s
    → p < 32
    → s.count < s.capacity
    → IsValid (push_back s p id)
unfolding push_back
push_back-IsValid s p id v h room =
    put_marked-IsValid s p (queue_at s.queues p ++ id ∷ []) v h room
      (omega (arith, length-append (queue_at s.queues p) (id ∷ [])))

pub push_front-IsValid :
    (s : Scheduler) (p : ℕ) (id : ObjectId)
    → IsValid s
    → p < 32
    → s.count < s.capacity
    → IsValid (push_front s p id)
unfolding push_front
push_front-IsValid s p id v h room = put_marked-IsValid s p (id ∷ queue_at s.queues p) v h room refl

ready-push_front :
    (s : Scheduler) (p : ℕ) (id : ObjectId)
    → p < length s.queues
    → ready (push_front s p id)
      ≡ ready_from (suc p) s.queues ++ (id ∷ (queue_at s.queues p ++ ready_below p s.queues))
unfolding push_front put_marked
ready-push_front s p id h = ready_of-set p s.queues (id ∷ queue_at s.queues p) h

-- The states from which a thread may be enqueued.
abbrev pub is_alive : ThreadState → Bool
is_alive dying = false
is_alive dead = false
is_alive _ = true

-- In a valid scheduler, a thread enters exactly when it is neither in line nor current, there is
-- room and it is neither dying nor dead. It becomes runnable and stands behind all threads
-- of its priority (at most 31) and above, and before those below, and the scheduler stays valid. A thread that is
-- refused leaves the scheduler and itself as they were.
pub enqueue_cases :
    (s : Scheduler) (t : Thread)
    → IsValid s
    → let p = level t.effective_priority in
      (((enqueue s t).0 ≡ ok tt) ↔ (
        (contains s t.id ≡ false)
        × (is_thread s.current_thread t.id ≡ false)
        × (s.count < s.capacity)
        × (is_alive t.state ≡ true)))
      × ((enqueue s t).0 ≡ ok tt
          → (ready s ≡ ready_from p s.queues ++ ready_below p s.queues)
            × (ready (enqueue s t).1 ≡ ready_from p s.queues ++ (t.id ∷ ready_below p s.queues))
            × ((enqueue s t).2 ≡ record t { state = runnable })
            × IsValid (enqueue s t).1)
      × (is_error (enqueue s t).0 ≡ true → ((enqueue s t).1 ≡ s) × ((enqueue s t).2 ≡ t))
unfolding enqueue make_runnable
enqueue_cases s t v =
    let p = level t.effective_priority in
    let line = ready-push_back s p t.id (omega (arith, v.levels)) in
    (
      (ground arith, ground arith),
      (λ h.
          let room : s.count < s.capacity = ground arith in
          let valid = push_back-IsValid s p t.id v (level-lt t.effective_priority) room in
          (ready_of-split p s.queues, ground (arith, line), ground arith, ground (arith, valid))),
      (λ h. (ground arith, ground arith)),
    )

-- In a valid scheduler with room, waking a blocked thread makes it runnable and puts it
-- behind the threads of higher priority and before all others of its own, and the scheduler stays
-- valid. Waking a thread that runs, is runnable or dead changes nothing, and a new or dying one is
-- refused.
pub apply_wake_cases :
    (s : Scheduler) (t : Thread)
    → IsValid s
    → s.count < s.capacity
    → let p = level t.effective_priority in
      (t.state ≡ blocked
        → ((apply_wake s t).0 ≡ ok tt)
          × ((apply_wake s t).2 ≡ record t { state = runnable })
          × (ready (apply_wake s t).1
              ≡ ready_from (suc p) s.queues
                ++ (t.id ∷ (queue_at s.queues p ++ ready_below p s.queues)))
          × IsValid (apply_wake s t).1)
      × (t.state ≢ blocked → ((apply_wake s t).1 ≡ s) × ((apply_wake s t).2 ≡ t))
      × (((apply_wake s t).0 ≡ err invalid_state) ↔ ((t.state ≡ new) ⊎ (t.state ≡ dying)))
unfolding apply_wake make_runnable
apply_wake_cases s t v room =
    let p = level t.effective_priority in
    let line = ready-push_front s p t.id (omega (arith, v.levels)) in
    let valid = push_front-IsValid s p t.id v (level-lt t.effective_priority) room in
    (
      (λ h. (ground arith, ground arith, ground (arith, line), ground (arith, valid))),
      (λ h. (ground arith, ground arith)),
      (ground arith, ground arith),
    )
