-- ===== src/Scheduler/Steal.antt =====
-- crates/kernel-core/src/scheduler.rs: the thread that is taken from inside the line, and stealing work.
use mathlib.Core.List.{append_assoc}
use gaxera.Prelude.{
  ℕ, suc, ◌+◌, ◌<◌, ◌≡◌, ◌⊎◌, inl, inr, refl, sym, ◌∙◌, ap, subst, Bool, true, false, not, Option,
  none, some, List, [], ◌∷◌, ◌++◌, length, length-append, ◌==◌, if◌then◌else◌, arith, Bool-cases,
}
use gaxera.Prelude.Masks.{test_bit, bit_and-test_bit}
use gaxera.Abi.Ids.{ObjectId}
use gaxera.Scheduler.{
  Scheduler, queue_at, is_empty, put_taken, take_first, find_active, take_active, queue_contains,
  pop_stealable_work,
}
use gaxera.Scheduler.Queues.{
  ready_of, ready_from, ready_below, ready_of-set, ready_of-queue, take_first_cases,
}
use gaxera.Scheduler.Order.{ready_none}
use gaxera.Scheduler.Valid.{ready, IsValid, put_taken-IsValid}

pub queue_contains-append :
    (t : ObjectId) (xs ys : List ObjectId)
    → queue_contains t (xs ++ ys) ≡ (if queue_contains t xs then true else queue_contains t ys)
unfolding queue_contains
queue_contains-append t [] ys = refl
queue_contains-append t (x ∷ xs) ys = ground (arith, queue_contains-append t xs ys)

regroup : (a b c d : List ObjectId) → a ++ ((b ++ c) ++ d) ≡ (a ++ b) ++ (c ++ d)
regroup a b c d = simp append_assoc

nonempty :
    (before : List ObjectId) (t : ObjectId) (rest : List ObjectId)
    → is_empty (before ++ t ∷ rest) ≡ false
nonempty [] t rest = refl
nonempty (x ∷ before) t rest = refl

find_here :
    (test : ObjectId → Bool) (bitmap prio : ℕ) (q : List ObjectId) (qs : List (List ObjectId))
    (r : ObjectId × List ObjectId)
    → test_bit prio bitmap ≡ true
    → take_first test q ≡ some r
    → find_active test bitmap prio (q ∷ qs) ≡ some (prio, r.0, r.1)
unfolding find_active
find_here test bitmap prio q qs r marked taken = ground (arith, bit_and-test_bit prio bitmap)

find_later :
    (test : ObjectId → Bool) (bitmap prio : ℕ) (q : List ObjectId) (qs : List (List ObjectId))
    → take_first test q ≡ none
    → find_active test bitmap prio (q ∷ qs) ≡ find_active test bitmap (prio + 1) qs
unfolding find_active
find_later test bitmap prio q qs missing = ground arith

find_active_cases :
    (test : ObjectId → Bool) (bitmap prio : ℕ) (qs : List (List ObjectId))
    → ((i : ℕ) → i < length qs → test_bit (prio + i) bitmap ≡ not (is_empty (queue_at qs i)))
    → ((i : ℕ) × (before : List ObjectId) × (t : ObjectId) × (rest : List ObjectId) × (i
          < length qs)
        × (find_active test bitmap prio qs ≡ some (prio + i, t, before ++ rest))
        × (queue_at qs i ≡ before ++ t ∷ rest)
        × (test t ≡ true))
      ⊎ ((find_active test bitmap prio qs ≡ none)
          × ((t : ObjectId) → queue_contains t (ready_of qs) ≡ true → test t ≡ false))
unfolding ready_of
find_active_cases test bitmap prio [] marked =
    inr (unfold find_active in refl, λ t h. unfold queue_contains in absurd (cc h))
find_active_cases test bitmap prio (q ∷ qs) marked = elim (take_first_cases test q) [
  | inl (before, t, rest, taken, at, pass) ↦
      let full : is_empty q ≡ false = ap is_empty at ∙ nonempty before t rest in
      let e : prio + 0 ≡ prio = omega arith in
      let on : test_bit prio bitmap ≡ true = rw e at (marked 0 (omega arith)) ∙ ap not full in
      inl (
        0,
        before,
        t,
        rest,
        omega arith,
        rw e (find_here test bitmap prio q qs (t, before ++ rest) on taken),
        at,
        pass,
      )
  | inr (missing, fail) ↦
      let later = find_later test bitmap prio q qs missing in
      elim (find_active_cases test bitmap (prio + 1) qs (λ i h.
        let e : prio + 1 + i ≡ prio + suc i = omega arith in rw e (marked (suc i) (omega arith)))) [
          | inl (i, before, t, rest, h, found, at, pass) ↦
              let e : prio + suc i ≡ prio + 1 + i = omega arith in
              inl (suc i, before, t, rest, omega arith, rw e (later ∙ found), at, pass)
          | inr (none_found, none_pass) ↦ inr (
            later ∙ none_found,
            λ t h. elim (Bool-cases (queue_contains t (ready_of qs))) [
              | inl there ↦ none_pass t there
              | inr elsewhere ↦ fail t (ground (arith, queue_contains-append t (ready_of qs) q))
            ],
          )
        ]
]

-- The first thread that passes, from the lowest priority up, leaves the line and all others stay in
-- their order, or no thread of the line passes and nothing changes.
pub take_active_cases :
    (test : ObjectId → Bool) (s : Scheduler)
    → IsValid s
    → ((before : List ObjectId) × (t : ObjectId) × (rest : List ObjectId) × ((take_active test s).0
          ≡ some t)
        × (test t ≡ true)
        × (ready s ≡ before ++ t ∷ rest)
        × (ready (take_active test s).1 ≡ before ++ rest)
        × IsValid (take_active test s).1
        × ((take_active test s).1.current_thread ≡ s.current_thread))
      ⊎ ((take_active test s ≡ (none, s))
          × ((t : ObjectId) → queue_contains t (ready s) ≡ true → test t ≡ false))
unfolding take_active
take_active_cases test s v =
    elim (find_active_cases test s.active_bitmap 0 s.queues
      (λ i h. let e : 0 + i ≡ i = omega arith in rw e (v.marked i (omega (arith, v.levels))))) [
        | inl (i, before, t, rest, h, found, at, pass) ↦
            let e : 0 + i ≡ i = omega arith in
            let here = rw e at found in
            let s' = put_taken s i (before ++ rest) in
            let goes : take_active test s ≡ (some t, s') = ground arith in
            let valid : IsValid s' =
              put_taken-IsValid s i (before ++ rest) v (omega (arith, v.levels)) (
                omega (
                  arith,
                  ap length at,
                  length-append before (t ∷ rest),
                  length-append before rest,
                )) in
            let above = ready_from (suc i) s.queues in
            let below = ready_below i s.queues in
            let was : ready s ≡ (above ++ before) ++ t ∷ (rest ++ below) =
              ready_of-queue i s.queues
              ∙ ap (λ (l : List ObjectId). above ++ (l ++ below)) at
              ∙ regroup above before (t ∷ rest) below in
            let now : ready s' ≡ (above ++ before) ++ (rest ++ below) =
              (unfold put_taken in ready_of-set i s.queues (before ++ rest) h)
              ∙ regroup above before rest below in
            inl (
              above ++ before,
              t,
              rest ++ below,
              ap (λ (r : Option ObjectId × Scheduler). r.0) goes,
              pass,
              was,
              ap (λ (r : Option ObjectId × Scheduler). ready r.1) goes ∙ now,
              subst (λ (r : Option ObjectId × Scheduler). IsValid r.1) (sym goes) valid,
              ap (λ (r : Option ObjectId × Scheduler). r.1.current_thread) goes
                  ∙ (unfold put_taken in refl),
            )
        | inr (none_found, none_pass) ↦ inr (ground arith, none_pass)
      ]

-- The test of the bitmap in `pop_stealable_work` only saves the loop.
steal-take_active :
    (s : Scheduler) (checker : ObjectId → Bool)
    → IsValid s
    → pop_stealable_work s checker ≡ take_active checker s
unfolding pop_stealable_work
steal-take_active s checker v = elim (Bool-cases (s.active_bitmap == 0)) [
  | inr some_set ↦ ground arith
  | inl none_set ↦ elim (take_active_cases checker s v) [
    | inl (before, t, rest, taken, pass, was, now, valid, kept) ↦
        absurd (filled before t rest (sym was ∙ ready_none s v (ground arith)))
    | inr (e, none_pass) ↦ ground arith
  ]
]
  where
    filled :
        (before : List ObjectId) (t : ObjectId) (rest : List ObjectId) → before ++ t ∷ rest ≡ [] → ⊥
    filled [] t rest h = cc
    filled (x ∷ before) t rest h = cc

-- In a valid scheduler, work is stolen exactly when a thread of the line passes the checker: one that passes
-- leaves the line, all others stay in their order, and the scheduler stays valid. Otherwise
-- nothing changes.
pub pop_stealable_work_cases :
    (s : Scheduler) (checker : ObjectId → Bool)
    → IsValid s
    → ((before : List ObjectId) × (t : ObjectId) × (rest : List ObjectId) × ((pop_stealable_work s
            checker).0
          ≡ some t)
        × (checker t ≡ true)
        × (ready s ≡ before ++ t ∷ rest)
        × (ready (pop_stealable_work s checker).1 ≡ before ++ rest)
        × IsValid (pop_stealable_work s checker).1)
      ⊎ ((pop_stealable_work s checker ≡ (none, s))
          × ((t : ObjectId) → queue_contains t (ready s) ≡ true → checker t ≡ false))
pop_stealable_work_cases s checker v =
    rw (steal-take_active s checker v) (elim (take_active_cases checker s v) [
      | inl (before, t, rest, taken, pass, was, now, valid, kept) ↦
          inl (before, t, rest, taken, pass, was, now, valid)
      | inr same ↦ inr same
    ])
