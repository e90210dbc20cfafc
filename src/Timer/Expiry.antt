-- ===== src/Timer/Expiry.antt =====
-- crates/kernel-core/src/timer.rs: which timers fire, and the queue over all of its operations.
use gaxera.Prelude.{
  ◌≤◌, ◌≡◌, refl, sym, ap, subst, Bool, false, not, List, [], ◌∷◌, map, length, take, retain,
  length-retain-le, leb, Result, All, arith, Bool-cases, inl, inr,
}
use gaxera.Prelude.Slices.{drop}
use gaxera.Prelude.Sorted.{Pairwise, All-map, Pairwise-retain, retain_none, retain-All}
use gaxera.Abi.Ids.{ObjectId, same_id}
use gaxera.Timer.{
  TimerEntry, TimerQueue, TimerError, BinarySearch, Ticks, is_expired, insert, without_first,
  remove, expired_count, advance_to,
}
use gaxera.Timer.Order.{IsSearch, IsValid, insert_places}

split_expired :
    (now : Ticks) (xs : List TimerEntry)
    → Pairwise (λ a b. a.deadline ≤ b.deadline) xs
    → (take (expired_count now xs) xs ≡ retain (λ e. is_expired e.deadline now) xs)
      × (drop (expired_count now xs) xs ≡ retain (λ e. not (is_expired e.deadline now)) xs)
unfolding expired_count retain
split_expired now [] sorted = (refl, refl)
split_expired now (e ∷ es) sorted = elim (Bool-cases (is_expired e.deadline now)) [
  | inl due ↦
      let (first, others) = split_expired now es sorted.1 in rw due (ap (◌∷◌ e) first, others)
  | inr later ↦
      let late : (a : TimerEntry) → e.deadline ≤ a.deadline → is_expired a.deadline now ≡ false =
        λ a h. ground arith in
      rw later (
        sym (retain_none (λ a. is_expired a.deadline now) es (All-map late es sorted.0)),
        ap (◌∷◌ e) (
            sym (
              retain-All (λ a. not (is_expired a.deadline now)) es
                (All-map (λ a h. ap not (late a h)) es sorted.0))),
      )
]

-- Advancing a valid queue to a time fires exactly the timers whose deadline has been reached, in the
-- order of their deadlines, keeps exactly the others, and leaves the queue valid.
pub advance_to_fires :
    (q : TimerQueue) (now : Ticks)
    → IsValid q
    → ((advance_to q now).0
        ≡ map (λ (e : TimerEntry). e.timer_id) (retain (λ e. is_expired e.deadline now) q.entries))
      × ((advance_to q now).1.entries ≡ retain (λ e. not (is_expired e.deadline now)) q.entries)
      × IsValid (advance_to q now).1
unfolding advance_to
advance_to_fires q now v =
    let (due, later) = split_expired now q.entries v.sorted in
    let R : TimerEntry → TimerEntry → Type 0 = λ a b. a.deadline ≤ b.deadline in
    let test : TimerEntry → Bool = λ e. not (is_expired e.deadline now) in
    (
      ap (map (λ (e : TimerEntry). e.timer_id)) due,
      later,
      record {
        sorted = subst (Pairwise R) (sym later) (Pairwise-retain R test q.entries v.sorted);
        within = omega (arith, ap length later, length-retain-le test q.entries, v.within);
      },
    )

All-without_first :
    (P : TimerEntry → Type 0) (id : ObjectId) (es : List TimerEntry)
    → All P es
    → All P (without_first id es)
unfolding without_first
All-without_first P id [] a = tt
All-without_first P id (e ∷ es) a = elim (Bool-cases (same_id e.timer_id id)) [
  | inl hit ↦ rw hit a.1
  | inr miss ↦ rw miss (a.0, All-without_first P id es a.1)
]

remove-IsValid : (q : TimerQueue) (id : ObjectId) → IsValid q → IsValid (remove q id)
unfolding remove without_first
remove-IsValid q id v = record {
  sorted = ordered q.entries v.sorted;
  within = omega (arith, shorter q.entries, v.within);
}
  where
    ordered :
        (es : List TimerEntry)
        → Pairwise (λ a b. a.deadline ≤ b.deadline) es
        → Pairwise (λ a b. a.deadline ≤ b.deadline) (without_first id es)
    ordered [] a = tt
    ordered (e ∷ es) a = elim (Bool-cases (same_id e.timer_id id)) [
      | inl hit ↦ rw hit a.1
      | inr miss ↦
          rw miss (All-without_first (λ b. e.deadline ≤ b.deadline) id es a.0, ordered es a.1)
    ]

    shorter : (es : List TimerEntry) → length (without_first id es) ≤ length es
    shorter [] = omega arith
    shorter (e ∷ es) = ground (arith, shorter es)

pub data Event : Type 0 where
  inserts : TimerEntry → Event
  removes : ObjectId → Event
  advances : Ticks → Event

pub after_all : BinarySearch → TimerQueue → List Event → TimerQueue
after_all find q [] = q
after_all find q (inserts entry ∷ es) = after_all find (insert find q entry).1 es
after_all find q (removes id ∷ es) = after_all find (remove q id) es
after_all find q (advances now ∷ es) = after_all find (advance_to q now).1 es

-- Whatever is inserted into a valid queue and removed from it, and whenever timers fire: its entries stay
-- in the order of their deadlines and within its capacity.
pub after_all_sorted :
    (find : BinarySearch) (q : TimerQueue) (es : List Event)
    → IsSearch find
    → IsValid q
    → IsValid (after_all find q es)
unfolding after_all
after_all_sorted find q [] law v = v
after_all_sorted find q (inserts entry ∷ es) law v =
    after_all_sorted find (insert find q entry).1 es law
      (elim (Bool-cases (leb q.capacity (length q.entries))) [
        | inl full ↦
            subst (λ (r : Result (Unit {0}) TimerError × TimerQueue). IsValid r.1)
              (sym ((insert_places find q entry law v).0 (ground (arith, v.within)))) v
        | inr room ↦ ((insert_places find q entry law v).1 (ground arith)).1
      ])
after_all_sorted find q (removes id ∷ es) law v =
    after_all_sorted find (remove q id) es law (remove-IsValid q id v)
after_all_sorted find q (advances now ∷ es) law v =
    after_all_sorted find (advance_to q now).1 es law (advance_to_fires q now v).2
