-- ===== src/Timer/Order.antt =====
-- crates/kernel-core/src/timer.rs: the order of the queue, and where an entry is put.
use Prim.Native.Nat.{compare, Ordering}
use gaxera.Prelude.{
  ℕ, ◌≤◌, ◌<◌, ◌≡◌, sym, ap, subst, ◌∙◌, List, [], ◌∷◌, ◌++◌, length, length-append, Result, ok,
  err, All, arith, Result-cases, inl, inr,
}
use gaxera.Prelude.Sorted.{
  insert_at, insert_at-append, Pairwise, Pairwise-append, Pairwise-of-append, Pairwise-map, All-map,
}
use gaxera.Timer.{TimerEntry, TimerQueue, TimerError, BinarySearch, position, insert, queue_full}

abbrev pub rank : Ordering → ℕ
rank Ordering.lt = 0
rank Ordering.eq = 1
rank Ordering.gt = 2

-- What the standard library documents of a search in a slice that is ordered for the comparator: it
-- returns the place of a match, or when there is none the one place where a match could be put.
pub record IsSearch (find : BinarySearch) : Type 0 where
  pub found :
      (f : TimerEntry → Ordering) (xs : List TimerEntry) (i : ℕ)
      → Pairwise (λ a b. rank (f a) ≤ rank (f b)) xs
      → find f xs ≡ ok i
      → (before : List TimerEntry) × (e : TimerEntry) × (after : List TimerEntry) × (xs
          ≡ before ++ e ∷ after)
        × (length before ≡ i)
        × (f e ≡ Ordering.eq)
  pub absent :
      (f : TimerEntry → Ordering) (xs : List TimerEntry) (i : ℕ)
      → Pairwise (λ a b. rank (f a) ≤ rank (f b)) xs
      → find f xs ≡ err i
      → (before : List TimerEntry) × (after : List TimerEntry) × (xs ≡ before ++ after)
        × (length before ≡ i)
        × All (λ e. f e ≡ Ordering.lt) before
        × All (λ e. f e ≡ Ordering.gt) after

pub record IsValid (q : TimerQueue) : Type 0 where
  pub sorted : Pairwise (λ a b. a.deadline ≤ b.deadline) q.entries
  pub within : length q.entries ≤ q.capacity

-- The place for an entry: no later deadline before it, no earlier one behind.
pub Place : TimerEntry → List TimerEntry → ℕ → Type 0
Place entry xs i =
    (before : List TimerEntry) × (after : List TimerEntry) × (xs ≡ before ++ after)
    × (length before ≡ i)
    × All (λ e. e.deadline ≤ entry.deadline) before
    × All (λ e. entry.deadline ≤ e.deadline) after

search-Place :
    (find : BinarySearch) (entry : TimerEntry) (xs : List TimerEntry)
    → IsSearch find
    → Pairwise (λ a b. a.deadline ≤ b.deadline) xs
    → Place entry xs (position (find (λ e. compare e.deadline entry.deadline) xs))
unfolding Place
search-Place find entry xs law sorted =
    let f : TimerEntry → Ordering = λ e. compare e.deadline entry.deadline in
    let ordered : Pairwise (λ a b. rank (f a) ≤ rank (f b)) xs =
      Pairwise-map (λ a b h. ground arith) xs sorted in
    elim (Result-cases (find f xs)) [
      | inl (i, hit) ↦
          let (before, e, after, at, here, same) = law.found f xs i ordered hit in
          let (low, high, across) =
            Pairwise-of-append (λ (a b : TimerEntry). a.deadline ≤ b.deadline) before (e ∷ after)
              (subst (Pairwise (λ (a b : TimerEntry). a.deadline ≤ b.deadline)) at sorted) in
          let level : e.deadline ≡ entry.deadline = ground arith in
          (
            before,
            e ∷ after,
            at,
            here ∙ sym (ap position hit),
            All-map (λ a h. omega (arith, h.0)) before across,
            (omega arith, All-map (λ a h. omega (arith, h)) after high.0),
          )
      | inr (i, miss) ↦
          let (before, after, at, here, less, greater) = law.absent f xs i ordered miss in
          (
            before,
            after,
            at,
            here ∙ sym (ap position miss),
            All-map (λ a h. ground arith) before less,
            All-map (λ a h. ground arith) after greater,
          )
    ]

-- An entry is refused when the queue is full, and nothing changes. Into a valid queue with room it is put
-- behind entries that are due no later and before entries that are due no earlier, no other entry
-- moves, and the queue stays valid.
pub insert_places :
    (find : BinarySearch) (q : TimerQueue) (entry : TimerEntry)
    → IsSearch find
    → IsValid q
    → (length q.entries ≡ q.capacity → insert find q entry ≡ (err queue_full, q))
      × (length q.entries < q.capacity
          → ((insert find q entry).0 ≡ ok tt)
            × IsValid (insert find q entry).1
            × ((before : List TimerEntry) × (after : List TimerEntry) × (q.entries
                  ≡ before ++ after)
                × ((insert find q entry).1.entries ≡ before ++ entry ∷ after)))
unfolding insert Place
insert_places find q entry law v = (
  (λ full. ground arith),
  (λ room.
      let (before, after, at, here, low, high) = search-Place find entry q.entries law v.sorted in
      let pos = position (find (λ e. compare e.deadline entry.deadline) q.entries) in
      let goes : insert find q entry
          ≡ (ok tt, record q { entries = insert_at q.entries pos entry }) =
        ground arith in
      let put : insert_at q.entries pos entry ≡ before ++ entry ∷ after =
        ap (λ (xs : List TimerEntry). insert_at xs pos entry) at
        ∙ ap (λ (i : ℕ). insert_at (before ++ after) i entry) (sym here)
        ∙ insert_at-append before after entry in
      let R : TimerEntry → TimerEntry → Type 0 = λ a b. a.deadline ≤ b.deadline in
      let (left, right, across) =
        Pairwise-of-append R before after (subst (Pairwise R) at v.sorted) in
      let sorted : Pairwise R (before ++ entry ∷ after) =
        Pairwise-append R before (entry ∷ after) left (high, right)
          (pair_up before after entry low across) in
      let valid : IsValid (record q { entries = insert_at q.entries pos entry }) = record {
        sorted = subst (Pairwise R) (sym put) sorted;
        within = omega (
          arith,
          ap length put,
          ap length at,
          length-append before after,
          length-append before (entry ∷ after),
        );
      } in
      (
        ground (arith, goes),
        subst (λ (r : Result (Unit {0}) TimerError × TimerQueue). IsValid r.1) (sym goes) valid,
        (
          before,
          after,
          at,
          ap (λ (r : Result (Unit {0}) TimerError × TimerQueue). r.1.entries) goes ∙ put,
        ),
      )),
)
  where
    pair_up :
        (before after : List TimerEntry) (entry : TimerEntry)
        → All (λ e. e.deadline ≤ entry.deadline) before
        → All (λ a. All (λ b. a.deadline ≤ b.deadline) after) before
        → All (λ a. All (λ b. a.deadline ≤ b.deadline) (entry ∷ after)) before
    pair_up [] after entry low across = tt
    pair_up (a ∷ before) after entry low across =
        ((low.0, across.0), pair_up before after entry low.1 across.1)
