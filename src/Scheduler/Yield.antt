-- ===== src/Scheduler/Yield.antt =====
-- crates/kernel-core/src/scheduler.rs: the cooperative yield.
use gaxera.Prelude.{
  ℕ, ◌<◌, ◌≡◌, ◌⊎◌, inl, inr, refl, ◌∙◌, ap, true, false, some, List, [], ◌∷◌, ◌++◌, length, Result,
  ok, is_error, arith, Bool-cases,
}
use gaxera.Abi.Ids.{ObjectId, same_id, same_id_iff}
use gaxera.Scheduler.{
  Scheduler, SchedulerError, level, is_thread, push_back, dequeue_next, commit_yield_with_priority,
  put_taken, commit_yield,
}
use gaxera.Scheduler.Queues.{ready_from, ready_below}
use gaxera.Scheduler.Valid.{ready, IsValid}
use gaxera.Scheduler.Order.{dequeue_next_takes, line_cases}
use gaxera.Scheduler.Insert.{level-lt, ready-push_back, push_back-IsValid}

pub same_line-IsValid :
    (s s' : Scheduler)
    → IsValid s
    → s'.queues ≡ s.queues
    → s'.active_bitmap ≡ s.active_bitmap
    → s'.count ≡ s.count
    → s'.capacity ≡ s.capacity
    → IsValid s'
same_line-IsValid s s' v q b c k = ground (arith, v.levels, v.word, v.counted, v.within)

dequeue_next_kept :
    (s : Scheduler)
    → ((dequeue_next s).1.capacity ≡ s.capacity)
      × ((dequeue_next s).1.current_thread ≡ s.current_thread)
unfolding dequeue_next put_taken
dequeue_next_kept s = (ground arith, ground arith)

-- With the first of the line taken, there is room for one more.
room_after :
    (s : Scheduler) (t : ObjectId) (ts : List ObjectId)
    → IsValid s
    → ready s ≡ t ∷ ts
    → (dequeue_next s).1.count < (dequeue_next s).1.capacity
room_after s t ts v first =
    let (announced, took, line, valid) = (dequeue_next_takes s v).1 t ts first in
    omega (
      arith,
      dequeue_next_kept s,
      valid.counted,
      ap length line,
      v.counted,
      ap length first,
      v.within,
    )

pub yield_line :
    (s : Scheduler) (current next : ObjectId) (prio : ℕ) (rest : List ObjectId)
    → IsValid s
    → is_thread s.current_thread current ≡ true
    → ready s ≡ next ∷ rest
    → same_id current next ≡ false
    → commit_yield_with_priority s current prio next ≡ (
      ok tt,
      record (push_back (dequeue_next s).1 (level prio) current) { current_thread = some next },
    )
unfolding commit_yield_with_priority
yield_line s current next prio rest v is_current first other =
    let (announced, took, line, valid) = (dequeue_next_takes s v).1 next rest first in
    ground (arith, announced, took, same_id_iff next next)

pub yield-IsValid :
    (s : Scheduler) (current next : ObjectId) (prio : ℕ) (rest : List ObjectId)
    → IsValid s
    → ready s ≡ next ∷ rest
    → IsValid
        (record (push_back (dequeue_next s).1 (level prio) current) { current_thread = some next })
yield-IsValid s current next prio rest v first =
    let (announced, took, line, valid) = (dequeue_next_takes s v).1 next rest first in
    same_line-IsValid (push_back (dequeue_next s).1 (level prio) current) _
      (push_back-IsValid (dequeue_next s).1 (level prio) current valid (level-lt prio)
        (room_after s next rest v first))
      refl refl refl refl

-- A yield that is refused leaves the scheduler as it was.
pub yield_cases :
    (s : Scheduler) (current next : ObjectId) (prio : ℕ)
    → IsValid s
    → ((rest : List ObjectId) × (is_thread s.current_thread current ≡ true)
        × (ready s ≡ next ∷ rest)
        × (same_id current next ≡ false))
      ⊎ ((is_error (commit_yield_with_priority s current prio next).0 ≡ true)
          × ((commit_yield_with_priority s current prio next).1 ≡ s))
unfolding commit_yield_with_priority
yield_cases s current next prio v = elim (line_cases (ready s)) [
  | inl empty ↦
      let (nothing, announced) = (dequeue_next_takes s v).0 empty in
      inr (ground (arith, announced), ground (arith, announced))
  | inr (t, ts, first) ↦
      let (announced, took, line, valid) = (dequeue_next_takes s v).1 t ts first in
      elim (Bool-cases (is_thread s.current_thread current)) [
        | inr absent ↦ inr (ground arith, ground arith)
        | inl there ↦ elim (Bool-cases (same_id current next)) [
          | inl itself ↦ inr (ground (arith, announced), ground (arith, announced))
          | inr apart ↦ elim (Bool-cases (same_id t next)) [
            | inl hit ↦ inl (
              ts,
              there,
              first ∙ ap (λ (u : ObjectId). u ∷ ts) ((same_id_iff t next).0 hit),
              apart,
            )
            | inr miss ↦ inr (ground (arith, announced), ground (arith, announced))
          ]
        ]
      ]
]

-- In a valid scheduler, a yield of the current thread to the first of the line, another thread, succeeds:
-- the first becomes current, and the one that yields goes to the very end of the line. A yield
-- to any other thread, or of one that is not current, is refused and changes nothing. The
-- scheduler stays valid.
pub commit_yield_rotates :
    (s : Scheduler) (current next : ObjectId)
    → IsValid s
    → IsValid (commit_yield s current next).1
      × ((rest : List ObjectId)
          → is_thread s.current_thread current ≡ true
          → ready s ≡ next ∷ rest
          → same_id current next ≡ false
          → ((commit_yield s current next).0 ≡ ok tt)
            × ((commit_yield s current next).1.current_thread ≡ some next)
            × (ready (commit_yield s current next).1 ≡ rest ++ current ∷ []))
      × (is_error (commit_yield s current next).0 ≡ true → (commit_yield s current next).1 ≡ s)
unfolding commit_yield
commit_yield_rotates s current next v = (
  (elim (yield_cases s current next 0 v) [
    | inl (rest, there, first, apart) ↦
        rw (yield_line s current next 0 rest v there first apart)
          (yield-IsValid s current next 0 rest v first)
    | inr (refused, kept) ↦ rw kept v
  ]),
  (λ rest there first apart.
      let (announced, took, line, valid) = (dequeue_next_takes s v).1 next rest first in
      let e = yield_line s current next 0 rest v there first apart in
      let back : ready (push_back (dequeue_next s).1 0 current) ≡ rest ++ current ∷ [] =
        ready-push_back (dequeue_next s).1 0 current (omega (arith, valid.levels))
        ∙ unfold ready_from in
          unfold ready_below in ap (λ (l : List ObjectId). l ++ current ∷ []) line in
      (
        ground (arith, e),
        ground (arith, e),
        ap (λ (r : Result (Unit {0}) SchedulerError × Scheduler). ready r.1) e ∙ back,
      )),
  (λ h. elim (yield_cases s current next 0 v) [
    | inl (rest, there, first, apart) ↦
        absurd (ground (arith, yield_line s current next 0 rest v there first apart))
    | inr (refused, kept) ↦ kept
  ]),
)
