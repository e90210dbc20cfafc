-- ===== src/Tests/Timing.antt =====
-- Examples for crates/kernel-core/src/timer.rs.
use Prim.Native.Nat.{Ordering}
use gaxera.Prelude.{
  ℕ, suc, ◌+◌, ◌≤◌, ◌<◌, ◌≡◌, refl, ap, not, List, [], ◌∷◌, ◌++◌, map, length, retain, Result, ok,
  err, All, arith, inl, inr, ◌⊎◌,
}
use gaxera.Prelude.Sorted.{Pairwise, All-map}
use gaxera.Timer.{
  TimerEntry, TimerQueue, TimerObject, BinarySearch, is_expired, insert, advance_to, queue_full,
  new_timer,
}
use gaxera.Timer.Order.{IsSearch, IsValid, rank, insert_places}
use gaxera.Timer.Expiry.{advance_to_fires}

-- A search from the left, with the laws of the standard library's.
abbrev scan : (TimerEntry → Ordering) → List TimerEntry → ℕ → Result ℕ ℕ
scan f [] i = err i
scan f (e ∷ es) i =
    let rest = scan f es (suc i) in
    elim (f e) [ Ordering.lt ↦ rest | Ordering.eq ↦ ok i | Ordering.gt ↦ err i ]

abbrev linear : BinarySearch
linear f xs = scan f xs 0

Ordering-cases : (o : Ordering) → (o ≡ Ordering.lt) ⊎ (o ≡ Ordering.eq) ⊎ (o ≡ Ordering.gt)
Ordering-cases Ordering.lt = inl refl
Ordering-cases Ordering.eq = inr (inl refl)
Ordering-cases Ordering.gt = inr (inr refl)

scan_found :
    (f : TimerEntry → Ordering) (xs : List TimerEntry) (n i : ℕ)
    → scan f xs n ≡ ok i
    → (before : List TimerEntry) × (e : TimerEntry) × (after : List TimerEntry) × (xs
        ≡ before ++ e ∷ after)
      × (n + length before ≡ i)
      × (f e ≡ Ordering.eq)
scan_found f [] n i h = absurd (cc)
scan_found f (e ∷ es) n i h = elim (Ordering-cases (f e)) [
  | inl low ↦
      let rest : scan f es (suc n) ≡ ok i = ground (arith) in
      let (before, x, after, at, here, same) = scan_found f es (suc n) i rest in
      (e ∷ before, x, after, ap (◌∷◌ e) at, omega (arith, here), same)
  | inr (inl same) ↦ ([], e, es, refl, ground arith, same)
  | inr (inr high) ↦ absurd (ground arith)
]

scan_absent :
    (f : TimerEntry → Ordering) (xs : List TimerEntry) (n i : ℕ)
    → Pairwise (λ a b. rank (f a) ≤ rank (f b)) xs
    → scan f xs n ≡ err i
    → (before : List TimerEntry) × (after : List TimerEntry) × (xs ≡ before ++ after)
      × (n + length before ≡ i)
      × All (λ e. f e ≡ Ordering.lt) before
      × All (λ e. f e ≡ Ordering.gt) after
scan_absent f [] n i ordered h = ([], [], refl, ground arith, tt, tt)
scan_absent f (e ∷ es) n i ordered h = elim (Ordering-cases (f e)) [
  | inl low ↦
      let rest : scan f es (suc n) ≡ err i = ground arith in
      let (before, after, at, here, less, greater) = scan_absent f es (suc n) i ordered.1 rest in
      (e ∷ before, after, ap (◌∷◌ e) at, omega (arith, here), (low, less), greater)
  | inr (inl same) ↦ absurd (ground arith)
  | inr (inr high) ↦
      ([], e ∷ es, refl, ground arith, tt, (high, All-map (λ a r. ground arith) es ordered.0))
]

linear-IsSearch : IsSearch linear
linear-IsSearch = record {
  found = λ f xs i ordered h.
      let (before, e, after, at, here, same) = scan_found f xs 0 i h in
      (before, e, after, at, omega (arith, here), same);
  absent = λ f xs i ordered h.
      let (before, after, at, here, less, greater) = scan_absent f xs 0 i ordered h in
      (before, after, at, omega (arith, here), less, greater);
}

abbrev early : TimerEntry
early = record { deadline = 100; timer_id = record { index = 1; generation = 1 } }

abbrev late : TimerEntry
late = record { deadline = 200; timer_id = record { index = 2; generation = 1 } }

abbrev between : TimerEntry
between = record { deadline = 150; timer_id = record { index = 3; generation = 1 } }

abbrev queue : TimerQueue
queue = record { entries = early ∷ late ∷ []; capacity = 3 }

queue-IsValid : IsValid queue
queue-IsValid = record { sorted = ((omega arith, tt), (tt, tt)); within = omega arith }

insert_places_example :
    (length queue.entries ≡ queue.capacity → insert linear queue between ≡ (err queue_full, queue))
    × (length queue.entries < queue.capacity
        → ((insert linear queue between).0 ≡ ok tt)
          × IsValid (insert linear queue between).1
          × ((before : List TimerEntry) × (after : List TimerEntry) × (queue.entries
                ≡ before ++ after)
              × ((insert linear queue between).1.entries ≡ before ++ between ∷ after)))
insert_places_example = insert_places linear queue between linear-IsSearch queue-IsValid

advance_to_fires_example :
    ((advance_to queue 120).0
      ≡ map
          (λ (e : TimerEntry). e.timer_id)
          (retain (λ e. is_expired e.deadline 120) queue.entries))
    × ((advance_to queue 120).1.entries
        ≡ retain (λ e. not (is_expired e.deadline 120)) queue.entries)
    × IsValid (advance_to queue 120).1
advance_to_fires_example = advance_to_fires queue 120 queue-IsValid

abbrev timer : TimerObject
timer = new_timer late.timer_id
