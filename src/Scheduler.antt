-- ===== src/Scheduler.antt =====
-- crates/kernel-core/src/scheduler.rs: `Scheduler`, 32 queues of threads with a word that marks
-- those that are not empty. A method that changes the scheduler or a thread returns them after it.
pub mod Queues
pub mod Valid
pub mod Order
pub mod Insert
pub mod Steal
pub mod Remove
pub mod Yield
pub mod Steps
use gaxera.Prelude.{
  ℕ, zero, suc, ◌+◌, ◌-◌, ◌^◌, Bool, true, false, not, ◌&&◌, ◌||◌, Option, none, some, List, [],
  ◌∷◌, ◌++◌, length, set, replicate, min, bit_and, bit_or, ltb, leb, ◌==◌, u32_mod, if◌then◌else◌,
  Result, ok, err, is_some,
}
use gaxera.Prelude.Masks.{without_bit, leading_zeros}
use gaxera.Abi.Ids.{ObjectId, same_id}
use gaxera.Ipc.Endpoint.{FastPathRejectReason, scheduler_declined}
use gaxera.Thread.{
  Thread, ThreadState, new, runnable, running, blocked, dying, dead, make_runnable, make_blocked,
}

pub data SchedulerError : Type 0 where
  capacity_too_large allocation_failed queue_full invalid_state : SchedulerError
  duplicate_entry no_current_thread no_runnable_thread queue_invariant : SchedulerError

abbrev pub priority_levels : ℕ
priority_levels = 32

abbrev pub quantum_ticks : ℕ
quantum_ticks = 10

pub record Scheduler : Type 0 where
  pub queues : List (List ObjectId)
  pub active_bitmap : ℕ
  pub current_thread : Option ObjectId
  pub capacity : ℕ
  pub count : ℕ
  pub quantum_remaining : ℕ
  pub quantum_size : ℕ

-- The second argument says whether the allocator grants every reservation.
unfoldable pub try_new : ℕ → Bool → Result Scheduler SchedulerError
try_new capacity reserved =
    if ltb (u32_mod - 1) capacity
    then err capacity_too_large
    else if reserved
    then ok (record {
      queues = replicate priority_levels [];
      active_bitmap = 0;
      current_thread = none;
      capacity = capacity;
      count = 0;
      quantum_remaining = quantum_ticks;
      quantum_size = quantum_ticks;
    })
    else err allocation_failed

-- `self.queues[prio]`; every index in use is below 32.
abbrev pub queue_at : List (List ObjectId) → ℕ → List ObjectId
queue_at [] p = []
queue_at (q ∷ qs) zero = q
queue_at (q ∷ qs) (suc p) = queue_at qs p

abbrev pub is_thread : Option ObjectId → ObjectId → Bool
is_thread none id = false
is_thread (some t) id = same_id t id

abbrev pub is_empty : List ObjectId → Bool
is_empty [] = true
is_empty (t ∷ ts) = false

-- `VecDeque::contains` on one queue and on all of them.
unfoldable pub queue_contains : ObjectId → List ObjectId → Bool
unfolding same_id
queue_contains id [] = false
queue_contains id (t ∷ ts) = let rest = queue_contains id ts in if same_id t id then true else rest

unfoldable pub queues_contain : ObjectId → List (List ObjectId) → Bool
unfolding queue_contains
queues_contain id [] = false
queues_contain id (q ∷ qs) =
    let rest = queues_contain id qs in if queue_contains id q then true else rest

unfoldable pub contains : Scheduler → ObjectId → Bool
unfolding queues_contain
contains s id = if s.count == 0 then false else queues_contain id s.queues

-- The write to one queue, with its mark set, or cleared when nothing is left.
unfoldable pub put_marked : Scheduler → ℕ → List ObjectId → Scheduler
put_marked s prio queue = record s {
  queues = set s.queues prio queue;
  active_bitmap = bit_or s.active_bitmap (2 ^ prio);
  count = s.count + 1;
}

unfoldable pub put_taken : Scheduler → ℕ → List ObjectId → Scheduler
put_taken s prio queue = record s {
  queues = set s.queues prio queue;
  active_bitmap = (if is_empty queue then without_bit 32 s.active_bitmap prio else s.active_bitmap);
  count = s.count - 1;
}

-- `prio.min(PRIORITY_LEVELS - 1)`
abbrev pub level : ℕ → ℕ
level priority = min priority (priority_levels - 1)

unfoldable pub push_back : Scheduler → ℕ → ObjectId → Scheduler
unfolding put_marked
push_back s prio id = put_marked s prio (queue_at s.queues prio ++ id ∷ [])

unfoldable pub push_front : Scheduler → ℕ → ObjectId → Scheduler
unfolding put_marked
push_front s prio id = put_marked s prio (id ∷ queue_at s.queues prio)

unfoldable pub try_direct_switch :
    Scheduler → ObjectId → ObjectId → Result ObjectId FastPathRejectReason × Scheduler
try_direct_switch s current target =
    if not (is_thread s.current_thread current)
    then (err scheduler_declined, s)
    else (ok target, record s { current_thread = some target })

-- The result, the scheduler and the thread.
abbrev pub Scheduled : Type 0
Scheduled = Result (Unit {0}) SchedulerError × Scheduler × Thread

unfoldable pub enqueue : Scheduler → Thread → Scheduled
unfolding contains make_runnable push_back
enqueue s t =
    if contains s t.id || is_thread s.current_thread t.id
    then (err duplicate_entry, s, t)
    else if leb s.capacity s.count
    then (err queue_full, s, t)
    else let (moved, t') = make_runnable t in
      elim moved [
        | err e ↦ (err invalid_state, s, t')
        | ok _ ↦ (ok tt, push_back s (level t'.effective_priority) t'.id, t')
      ]

-- `31 - self.active_bitmap.leading_zeros()`
abbrev pub highest_prio : Scheduler → ℕ
highest_prio s = 31 - leading_zeros 32 s.active_bitmap

unfoldable pub dequeue_next : Scheduler → Option ObjectId × Scheduler
unfolding leading_zeros put_taken
dequeue_next s =
    if s.active_bitmap == 0
    then (none, s)
    else let prio = highest_prio s in
      elim (queue_at s.queues prio) [
        | [] ↦ (none, record s { active_bitmap = without_bit 32 s.active_bitmap prio })
        | t ∷ ts ↦ (some t, put_taken s prio ts)
      ]

abbrev pub front : List ObjectId → Option ObjectId
front [] = none
front (t ∷ ts) = some t

unfoldable pub next_runnable : Scheduler → Option ObjectId
unfolding leading_zeros
next_runnable s = if s.active_bitmap == 0 then none else front (queue_at s.queues (highest_prio s))

-- `iter().position` and `remove` on one queue: the first thread that passes, and the others.
unfoldable pub take_first : (ObjectId → Bool) → List ObjectId → Option (ObjectId × List ObjectId)
take_first test [] = none
take_first test (t ∷ ts) =
    let rest = take_first test ts in
    if test t then some (t, ts) else elim rest [ none ↦ none | some r ↦ some (r.0, t ∷ r.1) ]

-- The loop over the priorities from `prio` upwards, on the queues from there on: the priority, the
-- thread that is taken, and the rest of its queue.
unfoldable pub find_active :
    (ObjectId → Bool) → ℕ → ℕ → List (List ObjectId) → Option (ℕ × ObjectId × List ObjectId)
unfolding take_first
find_active test bitmap prio [] = none
find_active test bitmap prio (q ∷ qs) =
    let rest = find_active test bitmap (prio + 1) qs in
    if bit_and bitmap (2 ^ prio) == 0
    then rest
    else elim (take_first test q) [ none ↦ rest | some r ↦ some (prio, r.0, r.1) ]

unfoldable pub take_active : (ObjectId → Bool) → Scheduler → Option ObjectId × Scheduler
unfolding find_active put_taken
take_active test s = elim (find_active test s.active_bitmap 0 s.queues) [
  | none ↦ (none, s)
  | some r ↦ (some r.1, put_taken s r.0 r.2)
]

-- The checker is a function of the thread: the kernel's reads a table.
unfoldable pub pop_stealable_work : Scheduler → (ObjectId → Bool) → Option ObjectId × Scheduler
unfolding take_active
pop_stealable_work s affinity_checker =
    if s.active_bitmap == 0 then (none, s) else take_active affinity_checker s

unfoldable pub remove_thread : Scheduler → ObjectId → Bool × Scheduler
unfolding take_active same_id
remove_thread s id =
    if is_thread s.current_thread id
    then (true, record s { current_thread = none })
    else let (taken, s') = take_active (λ t. same_id t id) s in (is_some taken, s')

unfoldable pub commit_yield_with_priority :
    Scheduler → ObjectId → ℕ → ObjectId → Result (Unit {0}) SchedulerError × Scheduler
unfolding next_runnable dequeue_next push_back
commit_yield_with_priority s current current_prio next =
    if not (is_thread s.current_thread current)
    then (err no_current_thread, s)
    else elim (next_runnable s) [
      | none ↦ (err no_runnable_thread, s)
      | some highest ↦
          if same_id current next || not (same_id highest next)
          then (err no_runnable_thread, s)
          else let (dequeued, s') = dequeue_next s in
            if not (is_thread dequeued next) then (err queue_invariant, s') else (
              ok tt,
              record (push_back s' (level current_prio) current) { current_thread = some next },
            )
    ]

unfoldable pub commit_yield :
    Scheduler → ObjectId → ObjectId → Result (Unit {0}) SchedulerError × Scheduler
unfolding commit_yield_with_priority
commit_yield s current next = commit_yield_with_priority s current 0 next

unfoldable pub set_current_thread : Scheduler → Option ObjectId → Scheduler
set_current_thread s thread = record s { current_thread = thread }

unfoldable pub block_current :
    Scheduler → Thread → Result ObjectId SchedulerError × Scheduler × Thread
unfolding make_blocked
block_current s t =
    if not (is_thread s.current_thread t.id)
    then (err no_current_thread, s, t)
    else let (moved, t') = make_blocked t in
      elim moved [
        | err e ↦ (err invalid_state, s, t')
        | ok _ ↦ (ok t.id, record s { current_thread = none }, t')
      ]

unfoldable pub apply_wake : Scheduler → Thread → Scheduled
unfolding make_runnable push_front
apply_wake s t = if leb s.capacity s.count then (err queue_full, s, t) else elim t.state [
  | blocked ↦
      let (moved, t') = make_runnable t in
      elim moved [
        | err e ↦ (err invalid_state, s, t')
        | ok _ ↦ (ok tt, push_front s (level t'.effective_priority) t'.id, t')
      ]
  | dead ↦ (ok tt, s, t)
  | running ↦ (ok tt, s, t)
  | runnable ↦ (ok tt, s, t)
  | _ ↦ (err invalid_state, s, t)
]

unfoldable pub tick : Scheduler → Bool × Scheduler
tick s = let left = s.quantum_remaining - 1 in (left == 0, record s { quantum_remaining = left })

unfoldable pub reset_quantum : Scheduler → Scheduler
reset_quantum s = record s { quantum_remaining = s.quantum_size }
