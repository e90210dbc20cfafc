-- ===== src/Tests/Scheduling.antt =====
-- Examples for crates/kernel-core/src/affinity.rs, thread.rs, scheduler.rs and scheduler_domain.rs.
use gaxera.Prelude.{
  ◌+◌, ◌-◌, bit_or, ◌^◌, ◌<◌, true, false, some, none, List, [], ◌∷◌, ◌++◌, ◌≡◌, ◌↔◌, refl,
  replicate, set, take, ok, is_error, arith,
}
use gaxera.Abi.Ids.{ObjectId}
use gaxera.Affinity.{CpuAffinityMask, set_cpu, contains-set_cpu}
use gaxera.Affinity
use gaxera.Thread.{Thread, new, runnable, blocked}
use gaxera.Scheduler.Insert.{is_alive}
use gaxera.Scheduler.{
  Scheduler, enqueue, dequeue_next, next_runnable, contains, is_thread, queue_contains,
  set_current_thread,
}
use gaxera.Scheduler.Queues.{ready_of, ready_from, ready_below}
use gaxera.Scheduler.Valid.{IsValid, ready, try_new-IsValid}
use gaxera.Scheduler.{try_new}
use gaxera.Scheduler.Order.{dequeue_next_takes, dispatch, dispatch_serves}
use gaxera.Scheduler.Insert.{enqueue_cases}
use gaxera.Scheduler.Steps.{enqueues, sets, dequeues, after, after_all, after_all_agrees}
use gaxera.SchedulerDomain.{migrate_thread}
use gaxera.SchedulerDomain.Migration.{migrate_thread_moves, migrate_thread_loses, occurrences}

abbrev first_id : ObjectId
first_id = record { index = 1; generation = 1 }

abbrev second_id : ObjectId
second_id = record { index = 2; generation = 1 }

abbrev third_id : ObjectId
third_id = record { index = 3; generation = 1 }

abbrev low : Thread
low = record {
  id = first_id;
  state = new;
  address_space = none;
  cspace = none;
  base_priority = 0;
  effective_priority = 0;
  assigned_cpu = 0;
  affinity = Affinity.all;
  ipc_receive_buffer = none;
}

abbrev high : Thread
high = record low { id = second_id; base_priority = 20; effective_priority = 20 }

abbrev sleeping : Thread
sleeping = record low { id = third_id; state = blocked }

abbrev idle : Scheduler
idle = record {
  queues = replicate 32 [];
  active_bitmap = 0;
  current_thread = none;
  capacity = 2;
  count = 0;
  quantum_remaining = 10;
  quantum_size = 10;
}

idle-IsValid : IsValid idle
unfolding try_new
idle-IsValid = (try_new-IsValid 2 idle refl).0

abbrev one : Scheduler
one = record idle { queues = set idle.queues 0 (first_id ∷ []); active_bitmap = 1; count = 1 }

one-IsValid : IsValid one
unfolding after_all after enqueue
one-IsValid = after_all_agrees idle (enqueues low ∷ []) idle-IsValid

abbrev busy : Scheduler
busy = record one {
  queues = set one.queues 20 (second_id ∷ []);
  active_bitmap = 1 + 2 ^ 20;
  count = 2;
}

busy-IsValid : IsValid busy
unfolding after_all after enqueue
busy-IsValid = after_all_agrees one (enqueues high ∷ []) one-IsValid

ready-busy : ready busy ≡ second_id ∷ first_id ∷ []
unfolding ready_of
ready-busy = refl

dequeue_next_takes_example :
    (ready busy ≡ [] → (dequeue_next busy ≡ (none, busy)) × (next_runnable busy ≡ none))
    × ((t : ObjectId) (ts : List ObjectId)
        → ready busy ≡ t ∷ ts
        → (next_runnable busy ≡ some t)
          × ((dequeue_next busy).0 ≡ some t)
          × (ready (dequeue_next busy).1 ≡ ts)
          × IsValid (dequeue_next busy).1)
dequeue_next_takes_example = dequeue_next_takes busy busy-IsValid

dispatch_serves_example :
    ((dispatch 5 busy).0 ≡ take 5 (ready busy))
    × ((dispatch 5 busy).0 ++ ready (dispatch 5 busy).1 ≡ ready busy)
    × IsValid (dispatch 5 busy).1
dispatch_serves_example = dispatch_serves 5 busy busy-IsValid

after_all_agrees_example :
    IsValid (after_all idle (enqueues low ∷ enqueues high ∷ enqueues low ∷ dequeues ∷ []))
after_all_agrees_example =
    after_all_agrees idle (enqueues low ∷ enqueues high ∷ enqueues low ∷ dequeues ∷ []) idle-IsValid

enqueue_cases_example :
    (((enqueue one high).0 ≡ ok tt) ↔ (
      (contains one second_id ≡ false)
      × (is_thread one.current_thread second_id ≡ false)
      × (one.count < one.capacity)
      × (is_alive high.state ≡ true)))
    × ((enqueue one high).0 ≡ ok tt
        → (ready one ≡ ready_from 20 one.queues ++ ready_below 20 one.queues)
          × (ready (enqueue one high).1
              ≡ ready_from 20 one.queues ++ (second_id ∷ ready_below 20 one.queues))
          × ((enqueue one high).2 ≡ record high { state = runnable })
          × IsValid (enqueue one high).1)
    × (is_error (enqueue one high).0 ≡ true
        → ((enqueue one high).1 ≡ one) × ((enqueue one high).2 ≡ high))
enqueue_cases_example = enqueue_cases one high one-IsValid

abbrev yielding : Scheduler
yielding = record busy { current_thread = some third_id }

yielding-IsValid : IsValid yielding
unfolding after_all after set_current_thread
yielding-IsValid = after_all_agrees busy (sets (some third_id) ∷ []) busy-IsValid

goes : (migrate_thread low one idle 0 1).0 ≡ ok tt
unfolding migrate_thread
goes = refl

migrate_thread_moves_example :
    let r = migrate_thread low one idle 0 1 in
    IsValid r.2
    × IsValid r.3
    × (r.1 ≡ record low { assigned_cpu = 1; state = runnable })
    × (ready r.3 ≡ ready_from 0 idle.queues ++ (first_id ∷ ready_below 0 idle.queues))
    × (r.3 ≡ record idle {
      queues = set idle.queues 0 (first_id ∷ []);
      active_bitmap = bit_or 0 (2 ^ 0);
      count = 0 + 1;
    })
    × (is_thread one.current_thread first_id ≡ true → r.2 ≡ record one { current_thread = none })
    × (is_thread one.current_thread first_id ≡ false
        → queue_contains first_id (ready one) ≡ true
        → ((before : List ObjectId) × (rest : List ObjectId) × (ready one
              ≡ before ++ first_id ∷ rest)
            × (ready r.2 ≡ before ++ rest))
          × (r.2 ≡ record one {
            queues = r.2.queues;
            active_bitmap = r.2.active_bitmap;
            count = 1 - 1;
          }))
    × (is_thread one.current_thread first_id ≡ false
        → queue_contains first_id (ready one) ≡ false
        → r.2 ≡ one)
migrate_thread_moves_example = migrate_thread_moves low one idle 0 1 one-IsValid idle-IsValid goes

abbrev full : Scheduler
full = record idle { capacity = 0 }

full-IsValid : IsValid full
unfolding try_new
full-IsValid = (try_new-IsValid 0 full refl).0

stands_once : occurrences first_id (ready one) ≡ 1
unfolding occurrences ready_of
stands_once = refl

stands_nowhere : occurrences first_id (ready full) ≡ 0
unfolding occurrences ready_of
stands_nowhere = refl

migrate_thread_loses_example :
    let r = migrate_thread low one full 0 1 in
    (is_error r.0 ≡ true)
    × (occurrences first_id (ready r.2) ≡ 0)
    × (occurrences first_id (ready r.3) ≡ 0)
migrate_thread_loses_example =
    migrate_thread_loses low one full 0 1 one-IsValid full-IsValid (omega arith) refl refl
      stands_once stands_nowhere refl
