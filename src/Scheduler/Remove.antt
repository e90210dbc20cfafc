-- ===== src/Scheduler/Remove.antt =====
-- crates/kernel-core/src/scheduler.rs: the removal of a thread.
use gaxera.Prelude.{◌≡◌, inl, inr, ◌∙◌, ap, true, false, none, List, [], ◌∷◌, ◌++◌, arith}
use gaxera.Abi.Ids.{ObjectId, same_id, same_id_iff}
use gaxera.Scheduler.{Scheduler, is_thread, queue_contains, remove_thread}
use gaxera.Scheduler.Valid.{ready, IsValid}
use gaxera.Scheduler.Steal.{take_active_cases}

idle-IsValid : (s : Scheduler) → IsValid s → IsValid (record s { current_thread = none })
idle-IsValid s v = record {
  levels = v.levels;
  word = v.word;
  marked = v.marked;
  counted = v.counted;
  within = v.within;
}

queue_contains-middle :
    (before : List ObjectId) (t : ObjectId) (rest : List ObjectId)
    → queue_contains t (before ++ t ∷ rest) ≡ true
unfolding queue_contains
queue_contains-middle [] t rest = ground (arith, same_id_iff t t)
queue_contains-middle (x ∷ before) t rest = ground (arith, queue_contains-middle before t rest)

-- In a valid scheduler, removing the current thread leaves the line as it was and no thread current; removing a
-- thread of the line takes it out at one place and all others stay in their order; removing any
-- other is answered with `false` and changes nothing. The scheduler stays valid.
pub remove_thread_cases :
    (s : Scheduler) (id : ObjectId)
    → IsValid s
    → IsValid (remove_thread s id).1
      × (is_thread s.current_thread id ≡ true
          → remove_thread s id ≡ (true, record s { current_thread = none }))
      × (is_thread s.current_thread id ≡ false
          → queue_contains id (ready s) ≡ true
          → ((remove_thread s id).0 ≡ true)
            × ((before : List ObjectId) × (rest : List ObjectId) × (ready s ≡ before ++ id ∷ rest)
                × (ready (remove_thread s id).1 ≡ before ++ rest)))
      × (is_thread s.current_thread id ≡ false
          → queue_contains id (ready s) ≡ false
          → remove_thread s id ≡ (false, s))
unfolding remove_thread
remove_thread_cases s id v = elim (take_active_cases (λ t. same_id t id) s v) [
  | inl (before, t, rest, taken, pass, was, now, valid, kept) ↦
      let e : t ≡ id = (same_id_iff t id).0 pass in
      let at : ready s ≡ before ++ id ∷ rest = was ∙ ap (λ (u : ObjectId). before ++ u ∷ rest) e in
      (
        ground (arith, idle-IsValid s v, valid),
        (λ h. ground arith),
        (λ h k. (ground arith, (before, rest, at, ground (arith, now)))),
        (λ h k. absurd (cc (k, ap (queue_contains id) at, queue_contains-middle before id rest))),
      )
  | inr (e, none_pass) ↦ (
    ground (arith, idle-IsValid s v, v, e),
    (λ h. ground arith),
    (λ h k. absurd (ground (arith, none_pass id k, same_id_iff id id))),
    (λ h k. ground (arith, e)),
  )
]
