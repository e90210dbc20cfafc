-- ===== src/EventLog/Replay.antt =====
-- crates/gaxfs_event_log/src/ring_buffer.rs: what a reader gets of the events pushed.
use mathlib.Core.List.{append_assoc, append-nil}
use gaxera.Prelude.{
  ℕ, zero, suc, ◌+◌, ◌-◌, ◌%◌, ◌≤◌, ◌<◌, ◌≡◌, refl, sym, ap, ◌∙◌, subst, Option, none, some, List,
  [], ◌∷◌, ◌++◌, length, get_elem?_of_lt, length-append, take, min, max, leb, u64_mod, arith, inl,
  inr, Bool-cases,
}
use gaxera.Prelude.Slices.{drop, drop_step, drop_all, take_enough, take_nil, length-drop}
use gaxera.EventLog.{
  EventRingBuffer, GaxFsEventRecord, new_ring, push, read_slots, read_from, oldest_available,
}
use gaxera.EventLog.History.{IsRing, push-IsRing}

-- The records as they are numbered, from a sequence number on.
unfoldable pub stamp : ℕ → List GaxFsEventRecord → List GaxFsEventRecord
stamp seq [] = []
stamp seq (r ∷ rs) = record r { sequence_id = seq } ∷ stamp (suc seq) rs

unfoldable pub push_all : EventRingBuffer → List GaxFsEventRecord → Option EventRingBuffer
push_all ring [] = some ring
push_all ring (r ∷ rs) = elim (push ring r) [ none ↦ none | some pushed ↦ push_all pushed.1 rs ]

push_all-some :
    (ring ring' : EventRingBuffer) (r : GaxFsEventRecord) (rs : List GaxFsEventRecord) {seq : ℕ}
    → push ring r ≡ some (seq, ring')
    → push_all ring (r ∷ rs) ≡ push_all ring' rs
unfolding push_all
push_all-some ring ring' r rs h = rw (h, push_all) refl

length-stamp : (seq : ℕ) (rs : List GaxFsEventRecord) → length (stamp seq rs) ≡ length rs
unfolding stamp
length-stamp seq [] = refl
length-stamp seq (r ∷ rs) = ap suc (length-stamp (suc seq) rs)

push_all-IsRing :
    (history rs : List GaxFsEventRecord) (ring : EventRingBuffer)
    → IsRing history ring
    → length history + length rs + 1 < u64_mod
    → (ring' : EventRingBuffer) × (push_all ring rs ≡ some ring')
      × (ring'.capacity ≡ ring.capacity)
      × IsRing (history ++ stamp (length history + 1) rs) ring'
unfolding push_all stamp
push_all-IsRing history [] ring v small = (
  ring,
  refl,
  refl,
  subst (λ (h : List GaxFsEventRecord). IsRing h ring) (sym (append-nil history)) v,
)
push_all-IsRing history (r ∷ rs) ring v small =
    let (next, pushed, kept, holds) = push-IsRing history ring r v (omega arith) in
    let stamped : GaxFsEventRecord = record r { sequence_id = ring.head } in
    let longer = length-append history (stamped ∷ []) in
    let (last, done, same, valid) =
      push_all-IsRing (history ++ stamped ∷ []) rs next holds (omega (arith, longer)) in
    let line : (history ++ stamped ∷ []) ++ stamp (length (history ++ stamped ∷ []) + 1) rs
        ≡ history
          ++ (record r { sequence_id = length history + 1 } ∷ stamp (suc (length history + 1)) rs) =
      append_assoc history (stamped ∷ []) (stamp (length (history ++ stamped ∷ []) + 1) rs)
      ∙ ap (λ (m : ℕ). history ++ (stamped ∷ stamp m rs)) (omega (arith, longer))
      ∙ ap
          (λ (m : ℕ).
            history ++ (record r { sequence_id = m } ∷ stamp (suc (length history + 1)) rs))
          v.numbered in
    (
      last,
      push_all-some ring next r rs pushed ∙ done,
      same ∙ kept,
      subst (λ (h : List GaxFsEventRecord). IsRing h last) line valid,
    )

read_slots-IsRing :
    (history : List GaxFsEventRecord) (ring : EventRingBuffer) (k n : ℕ)
    → IsRing history ring
    → k + n ≤ length history
    → length history ≤ k + ring.capacity
    → read_slots ring (k + 1) n ≡ some (take n (drop k history))
unfolding read_slots
read_slots-IsRing history ring k zero v h recent = refl
read_slots-IsRing history ring k (suc n) v h recent =
    let (r, there) = get_elem?_of_lt history k (omega arith) in
    let here = v.slots k r there recent in
    let rest = read_slots-IsRing history ring (k + 1) n v (omega arith) (omega arith) in
    let first = drop_step k history there in
    let slot : (k + 1 - 1) % ring.capacity ≡ k % ring.capacity =
      ap (λ (m : ℕ). m % ring.capacity) (omega arith) in
    ground (arith, here, rest, first, slot, v.positive)

take-min :
    (count : ℕ) (xs : List GaxFsEventRecord) → take (min count (length xs)) xs ≡ take count xs
take-min count xs = elim (Bool-cases (leb count (length xs))) [
  | inl few ↦ ap (λ (n : ℕ). take n xs) (ground arith)
  | inr many ↦
      ap (λ (n : ℕ). take n xs) (ground arith)
      ∙ take_enough (length xs) xs (omega arith)
      ∙ sym (take_enough count xs (ground arith))
]

read_from-IsRing :
    (history : List GaxFsEventRecord) (ring : EventRingBuffer) (from count : ℕ)
    → IsRing history ring
    → length history + 1 + count < u64_mod
    → read_from ring from count
      ≡ some (take count (drop (max (from - 1) (length history - ring.capacity)) history))
unfolding read_from
read_from-IsRing history ring from count v small =
    let k = max (from - 1) (length history - ring.capacity) in
    elim (Bool-cases (leb ring.head from)) [
      | inl past ↦
          let late : length history ≤ k = ground (arith, v.numbered) in
          let nothing : take count (drop k history) ≡ [] =
            ap (take count) (drop_all k history late) ∙ take_nil count in
          ground (arith, nothing)
      | inr there ↦
          let below : k ≤ length history = ground (arith, v.numbered) in
          let start : max from (oldest_available ring) ≡ k + 1 = ground (arith, v.numbered) in
          let many : min ((max from (oldest_available ring) + count) % u64_mod) ring.head
                - max from (oldest_available ring)
              ≡ min count (length (drop k history)) =
            omega (arith, start, v.numbered, length-drop k history) in
          let shown =
            read_slots-IsRing history ring k (min count (length (drop k history))) v
              (omega (arith, length-drop k history)) (omega arith) in
          let goes : read_from ring from count
              ≡ read_slots ring (max from (oldest_available ring)) (
                  min ((max from (oldest_available ring) + count) % u64_mod) ring.head
                  - max from (oldest_available ring)) =
            ground arith in
          goes
          ∙ ap (λ (n : ℕ). read_slots ring (max from (oldest_available ring)) n) many
          ∙ ap (λ (n : ℕ). read_slots ring n (min count (length (drop k history)))) start
          ∙ shown
          ∙ ap some (take-min count (drop k history))
    ]

-- Any events pushed into a new ring whose capacity is not 0 are taken without a panic, and are numbered
-- from 1. Reading from a sequence number then gives, in their order, the events of that number and the
-- following, as many as asked for, of those that are among the last `capacity` events. All numbers
-- are below 2^64.
pub read_from-push_all :
    (capacity : ℕ) (events : List GaxFsEventRecord) (from count : ℕ)
    → 0 < capacity
    → length events + 1 + count < u64_mod
    → (ring : EventRingBuffer) × (push_all (new_ring capacity) events ≡ some ring)
      × (ring.head ≡ length events + 1)
      × (read_from ring from count
          ≡ some (take count (drop (max (from - 1) (length events - capacity)) (stamp 1 events))))
read_from-push_all capacity events from count positive small =
    let fresh : IsRing [] (new_ring capacity) = record {
      positive = positive;
      numbered = refl;
      filled = omega arith;
      slots = λ k r h. absurd (cc);
    } in
    let (ring, pushed, kept, valid) =
      push_all-IsRing [] events (new_ring capacity) fresh (omega arith) in
    let many = length-stamp 1 events in
    (
      ring,
      pushed,
      omega (arith, valid.numbered, many),
      read_from-IsRing (stamp 1 events) ring from count valid (omega (arith, many))
          ∙ ap (λ (n : ℕ). some (take count (drop (max (from - 1) n) (stamp 1 events))))
              (omega (arith, many, kept)),
    )
