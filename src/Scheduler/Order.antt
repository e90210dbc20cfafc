-- ===== src/Scheduler/Order.antt =====
-- crates/kernel-core/src/scheduler.rs: the operations on the line of ready threads.
use gaxera.Prelude.{
  ℕ, zero, suc, ◌<◌, ◌≡◌, ◌≢◌, ◌⊎◌, inl, inr, refl, sym, ◌∙◌, ap, subst, true, false, none, some,
  List, [], ◌∷◌, ◌++◌, length, take, arith,
}
use gaxera.Prelude.Masks.{test_bit, test_bit-zero, zero_of_bits, leading_zeros_cases}
use gaxera.Abi.Ids.{ObjectId}
use gaxera.Scheduler.{
  Scheduler, queue_at, is_empty, put_taken, highest_prio, dequeue_next, next_runnable,
}
use gaxera.Scheduler.Queues.{
  ready_of, ready_from, ready_below, ready_of-set, ready_of-queue, ready_from_empty,
}
use gaxera.Scheduler.Valid.{ready, IsValid, put_taken-IsValid}

-- A valid scheduler has no marked queue and no ready thread, or its highest marked queue holds the
-- first thread of the line.
pub record Highest (s : Scheduler) (t : ObjectId) (ts : List ObjectId) : Type 0 where
  pub set_bits : s.active_bitmap ≢ 0
  pub below : highest_prio s < 32
  pub queue : queue_at s.queues (highest_prio s) ≡ t ∷ ts
  pub first : ready s ≡ t ∷ (ts ++ ready_below (highest_prio s) s.queues)
  pub above : ready_from (suc (highest_prio s)) s.queues ≡ []

empty_of_is_empty : (q : List ObjectId) → is_empty q ≡ true → q ≡ []
empty_of_is_empty [] h = refl
empty_of_is_empty (t ∷ q) h = absurd (cc)

queue_empty :
    (s : Scheduler) (p : ℕ)
    → IsValid s
    → p < 32
    → test_bit p s.active_bitmap ≡ false
    → queue_at s.queues p ≡ []
queue_empty s p v h clear = empty_of_is_empty (queue_at s.queues p) (ground (arith, v.marked p h))

queue_head :
    (q : List ObjectId) → is_empty q ≡ false → (t : ObjectId) × (ts : List ObjectId) × (q ≡ t ∷ ts)
queue_head [] h = absurd (cc)
queue_head (t ∷ ts) h = (t, ts, refl)

pub ready_none : (s : Scheduler) → IsValid s → s.active_bitmap ≡ 0 → ready s ≡ []
unfolding ready_of ready_from
ready_none s v zero_bits = ready_from_empty 0 s.queues (λ q k l.
    queue_empty s q v (omega (arith, v.levels)) (ap (test_bit q) zero_bits ∙ test_bit-zero q))

ready_first :
    (s : Scheduler) (p : ℕ) (t : ObjectId) (ts : List ObjectId)
    → queue_at s.queues p ≡ t ∷ ts
    → ready_from (suc p) s.queues ≡ []
    → ready s ≡ t ∷ (ts ++ ready_below p s.queues)
ready_first s p t ts queue above =
    ready_of-queue p s.queues
    ∙ ap (λ (l : List ObjectId). l ++ (queue_at s.queues p ++ ready_below p s.queues)) above
    ∙ ap (λ (l : List ObjectId). l ++ ready_below p s.queues) queue

pub Highest-cases :
    (s : Scheduler)
    → IsValid s
    → ((s.active_bitmap ≡ 0) × (ready s ≡ []))
      ⊎ ((t : ObjectId) × (ts : List ObjectId) × Highest s t ts)
Highest-cases s v = elim (leading_zeros_cases 32 s.active_bitmap) [
  | inl clear ↦
      let none_set = zero_of_bits 32 s.active_bitmap v.word clear in
      inl (none_set, ready_none s v none_set)
  | inr (p, h, at, marked, above) ↦
      let e : highest_prio s ≡ p = omega (arith, at) in
      let (t, ts, queue) = queue_head (queue_at s.queues p) (ground (arith, v.marked p h)) in
      let none_above : ready_from (suc p) s.queues ≡ [] =
        ready_from_empty (suc p) s.queues (λ q k l.
          queue_empty s q v (omega (arith, v.levels))
            (above q (omega arith) (omega (arith, v.levels)))) in
      inr (
        t,
        ts,
        record {
          set_bits = λ z. cc (ap (test_bit p) z, test_bit-zero p, marked);
          below = omega arith;
          queue = rw e queue;
          first = rw e (ready_first s p t ts queue none_above);
          above = rw e none_above;
        },
      )
]

-- The first of the line is taken, the others stay in line.
dequeue-Highest :
    (s : Scheduler) (t : ObjectId) (ts : List ObjectId)
    → IsValid s
    → Highest s t ts
    → (dequeue_next s ≡ (some t, put_taken s (highest_prio s) ts))
      × (ready (put_taken s (highest_prio s) ts) ≡ ts ++ ready_below (highest_prio s) s.queues)
      × IsValid (put_taken s (highest_prio s) ts)
      × (next_runnable s ≡ some t)
unfolding dequeue_next next_runnable put_taken
dequeue-Highest s t ts v h = (
  ground (arith, h.set_bits, h.queue),
  ready_of-set (highest_prio s) s.queues ts (omega (arith, h.below, v.levels))
      ∙ ap (λ (l : List ObjectId). l ++ (ts ++ ready_below (highest_prio s) s.queues)) h.above,
  put_taken-IsValid s (highest_prio s) ts v h.below (omega (arith, ap length h.queue)),
  ground (arith, h.set_bits, h.queue),
)

-- A valid scheduler whose line is empty has nothing to dequeue and stays as it is. From any other
-- the first of the line is taken, as `next_runnable` announced it, the others stay in line in their order, and
-- the scheduler stays valid. The line holds the threads of a higher priority before those of a lower one, and
-- those of one priority in the order of their queue.
pub dequeue_next_takes :
    (s : Scheduler)
    → IsValid s
    → (ready s ≡ [] → (dequeue_next s ≡ (none, s)) × (next_runnable s ≡ none))
      × ((t : ObjectId) (ts : List ObjectId)
          → ready s ≡ t ∷ ts
          → (next_runnable s ≡ some t)
            × ((dequeue_next s).0 ≡ some t)
            × (ready (dequeue_next s).1 ≡ ts)
            × IsValid (dequeue_next s).1)
unfolding dequeue_next next_runnable
dequeue_next_takes s v = elim (Highest-cases s v) [
  | inl (zero_bits, empty) ↦
      ((λ h. (ground arith, ground arith)), (λ t ts h. absurd (cc (h, empty))))
  | inr (t, ts, h) ↦
      let (e, line, valid, announced) = dequeue-Highest s t ts v h in
      (
        (λ none_ready. absurd (cc (none_ready, h.first))),
        (λ u us first.
            let same : t ∷ (ts ++ ready_below (highest_prio s) s.queues) ≡ u ∷ us =
              sym h.first ∙ first in
            (cc, cc, rw e (line ∙ cc), rw e valid)),
      )
]

-- `n` times `dequeue_next`, as long as a thread is left.
pub dispatch : ℕ → Scheduler → List ObjectId × Scheduler
dispatch zero s = ([], s)
dispatch (suc n) s = elim (dequeue_next s).0 [
  | none ↦ ([], (dequeue_next s).1)
  | some t ↦ let (later, s') = dispatch n (dequeue_next s).1 in (t ∷ later, s')
]

dispatch-none : (n : ℕ) (s : Scheduler) → dequeue_next s ≡ (none, s) → dispatch (suc n) s ≡ ([], s)
unfolding dispatch
dispatch-none n s e = ground arith

dispatch-some :
    (n : ℕ) (s : Scheduler) (t : ObjectId)
    → (dequeue_next s).0 ≡ some t
    → dispatch (suc n) s
      ≡ (t ∷ (dispatch n (dequeue_next s).1).0, (dispatch n (dequeue_next s).1).1)
unfolding dispatch
dispatch-some n s t e = ground arith

pub line_cases :
    (l : List ObjectId) → (l ≡ []) ⊎ ((t : ObjectId) × (ts : List ObjectId) × (l ≡ t ∷ ts))
line_cases [] = inl refl
line_cases (t ∷ ts) = inr (t, ts, refl)

-- Every thread in the line of a valid scheduler is dispatched: dequeuing `n` times returns the
-- first `n` threads of the line in their order, all of them when there are no more, and leaves the others.
pub dispatch_serves :
    (n : ℕ) (s : Scheduler)
    → IsValid s
    → ((dispatch n s).0 ≡ take n (ready s))
      × ((dispatch n s).0 ++ ready (dispatch n s).1 ≡ ready s)
      × IsValid (dispatch n s).1
unfolding dispatch
dispatch_serves zero s v = (refl, refl, v)
dispatch_serves (suc n) s v = elim (line_cases (ready s)) [
  | inl empty ↦
      let e = ((dequeue_next_takes s v).0 empty).0 in
      let stop = dispatch-none n s e in
      (
        ap (λ (r : List ObjectId × Scheduler). r.0) stop ∙ sym (ap (take (suc n)) empty),
        ap (λ (r : List ObjectId × Scheduler). r.0 ++ ready r.1) stop,
        subst (λ (r : List ObjectId × Scheduler). IsValid r.1) (sym stop) v,
      )
  | inr (t, ts, first) ↦
      let (announced, took, line, valid) = (dequeue_next_takes s v).1 t ts first in
      let (served, whole, still) = dispatch_serves n (dequeue_next s).1 valid in
      let go = dispatch-some n s t took in
      (
        ap (λ (r : List ObjectId × Scheduler). r.0) go
            ∙ ap (◌∷◌ t) (served ∙ ap (take n) line)
            ∙ sym (ap (take (suc n)) first),
        ap (λ (r : List ObjectId × Scheduler). r.0 ++ ready r.1) go
            ∙ ap (◌∷◌ t) (whole ∙ line)
            ∙ sym first,
        subst (λ (r : List ObjectId × Scheduler). IsValid r.1) (sym go) still,
      )
]
