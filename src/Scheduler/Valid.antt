-- ===== src/Scheduler/Valid.antt =====
-- crates/kernel-core/src/scheduler.rs: the bitmap, the count and the capacity agree with the queues.
use gaxera.Prelude.{
  ℕ, zero, suc, ◌+◌, ◌-◌, ◌^◌, ◌≤◌, ◌<◌, ◌≡◌, inl, inr, refl, sym, ◌∙◌, ap, true, not, List, [],
  ◌++◌, length, length-append, length-set, set, replicate, ok, arith, Bool-cases,
}
use gaxera.Prelude.Bits.{bit_and-le_left}
use gaxera.Prelude.Masks.{
  test_bit, test_bit-bit_or, test_bit-without_bit, test_bit-zero, bit_or-pow_lt,
}
use gaxera.Abi.Ids.{ObjectId}
use gaxera.Scheduler.{Scheduler, try_new, queue_at, is_empty, put_marked, put_taken}
use gaxera.Scheduler.Queues.{
  ready_of, ready_from, ready_below, queue_at-set, ready_of-set, ready_of-queue,
}

-- The threads that wait for the processor, in the order in which they will get it.
abbrev pub ready : Scheduler → List ObjectId
ready s = ready_of s.queues

-- Bit `p` of the bitmap is set exactly when queue `p` has a thread.
pub record IsValid (s : Scheduler) : Type 0 where
  pub levels : length s.queues ≡ 32
  pub word : s.active_bitmap < 2 ^ 32
  pub marked : (p : ℕ) → p < 32 → test_bit p s.active_bitmap ≡ not (is_empty (queue_at s.queues p))
  pub counted : s.count ≡ length (ready s)
  pub within : s.count ≤ s.capacity

pub length-ready_of-set :
    (p : ℕ) (qs : List (List ObjectId)) (v : List ObjectId)
    → p < length qs
    → length (ready_of (set qs p v)) + length (queue_at qs p) ≡ length (ready_of qs) + length v
length-ready_of-set p qs v h =
    let written = ap length (ready_of-set p qs v h) in
    let was = ap length (ready_of-queue p qs) in
    omega (
      arith,
      written,
      was,
      length-append (ready_from (suc p) qs) (v ++ ready_below p qs),
      length-append v (ready_below p qs),
      length-append (ready_from (suc p) qs) (queue_at qs p ++ ready_below p qs),
      length-append (queue_at qs p) (ready_below p qs),
    )

pub put_marked-IsValid :
    (s : Scheduler) (p : ℕ) (v : List ObjectId)
    → IsValid s
    → p < 32
    → s.count < s.capacity
    → length v ≡ suc (length (queue_at s.queues p))
    → IsValid (put_marked s p v)
unfolding put_marked
put_marked-IsValid s p v i h room longer = record {
  levels = omega (arith, length-set s.queues p v, i.levels);
  word = bit_or-pow_lt 32 p s.active_bitmap h i.word;
  marked = λ q k. ground (
    arith,
    test_bit-bit_or p q s.active_bitmap,
    i.marked q k,
    queue_at-set s.queues p q v,
    i.levels,
    longer,
  );
  counted = omega (
    arith,
    i.counted,
    i.levels,
    length-ready_of-set p s.queues v (omega (arith, i.levels)),
    longer,
  );
  within = omega arith;
}

pub put_taken-IsValid :
    (s : Scheduler) (p : ℕ) (v : List ObjectId)
    → IsValid s
    → p < 32
    → length (queue_at s.queues p) ≡ suc (length v)
    → IsValid (put_taken s p v)
unfolding put_taken
put_taken-IsValid s p v i h shorter = record {
  levels = omega (arith, length-set s.queues p v, i.levels);
  word = ground (arith, i.word, bit_and-le_left 32 s.active_bitmap (2 ^ 32 - 1 - 2 ^ p) i.word);
  marked = λ q k. elim (Bool-cases (is_empty v)) [
    | inl none_left ↦ ground (
      arith,
      test_bit-without_bit 32 p q s.active_bitmap h i.word,
      i.marked q k,
      queue_at-set s.queues p q v,
      i.levels,
    )
    | inr some_left ↦
        ground (arith, i.marked q k, i.marked p h, queue_at-set s.queues p q v, i.levels, shorter)
  ];
  counted = omega (
    arith,
    i.counted,
    i.levels,
    length-ready_of-set p s.queues v (omega (arith, i.levels)),
    shorter,
  );
  within = omega (arith, i.within);
}

pub new_ready : (n : ℕ) → ready_of (replicate n []) ≡ []
unfolding ready_of
new_ready zero = refl
new_ready (suc n) = ground (arith, new_ready n)

queue_at-replicate : (n p : ℕ) → queue_at (replicate n []) p ≡ []
queue_at-replicate zero p = refl
queue_at-replicate (suc n) zero = refl
queue_at-replicate (suc n) (suc p) = queue_at-replicate n p

pub try_new-IsValid :
    (capacity : ℕ) (s : Scheduler) → try_new capacity true ≡ ok s → IsValid s × (ready s ≡ [])
unfolding try_new
try_new-IsValid capacity s h =
    let fields : (s.queues ≡ replicate 32 [])
        × (s.active_bitmap ≡ 0)
        × (s.count ≡ 0)
        × (s.capacity ≡ capacity) =
      ground arith in
    let line : ready s ≡ [] = ap ready_of fields.0 ∙ new_ready 32 in
    (
      record {
        levels = ap length fields.0;
        word = omega (arith, fields);
        marked = λ p k.
            ap (test_bit p) fields.1
            ∙ test_bit-zero p
            ∙ sym (
                ap (λ (q : List ObjectId). not (is_empty q))
                  (ap (λ (qs : List (List ObjectId)). queue_at qs p) fields.0
                    ∙ queue_at-replicate 32 p));
        counted = omega (arith, fields, ap length line);
        within = omega (arith, fields);
      },
      line,
    )
