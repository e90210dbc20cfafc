-- ===== src/WaitSet/Delivery.antt =====
-- crates/kernel-core/src/waitset.rs: an event that is posted reaches the next wait.
use gaxera.Prelude.{
  ℕ, ◌<◌, ◌≡◌, ◌⊎◌, inl, inr, refl, false, Option, none, some, List, [], ◌∷◌, ◌++◌, length, bit_and,
  bit_or, ◌==◌, if◌then◌else◌, ok, arith, Option-cases, Bool-cases,
}
use gaxera.Abi.Ids.{ObjectId}
use gaxera.WaitSet.{
  Subscription, WaitSetEvent, WaitSet, max_waitset_events, find_subscription, coalesce, deliver,
  post_event, wait, events,
}
use gaxera.WaitSet.Valid.{IsValid, ready_le}

-- The signals that are ready for a cookie.
unfoldable pub pending : ℕ → List WaitSetEvent → Option ℕ
pending c [] = none
pending c (e ∷ es) = let rest = pending c es in if e.cookie == c then some e.signals else rest

abbrev pub merge : Option ℕ → ℕ → ℕ
merge none m = m
merge (some s) m = bit_or s m

pending-append :
    (c d m : ℕ) (es : List WaitSetEvent)
    → pending c (es ++ record { cookie = d; signals = m } ∷ [])
      ≡ elim (pending c es) [ some s ↦ some s | none ↦ if d == c then some m else none ]
unfolding pending
pending-append c d m [] = ground arith
pending-append c d m (e ∷ es) = ground (arith, pending-append c d m es)

coalesce-pending :
    (c d m : ℕ) (es : List WaitSetEvent)
    → ((s : ℕ) × (merged : List WaitSetEvent) × (pending d es ≡ some s)
        × (coalesce d m es ≡ some merged)
        × (pending c merged ≡ (if d == c then some (bit_or s m) else pending c es)))
      ⊎ ((pending d es ≡ none) × (coalesce d m es ≡ none))
unfolding coalesce pending
coalesce-pending c d m [] = inr (refl, refl)
coalesce-pending c d m (e ∷ es) = elim (Bool-cases (e.cookie == d)) [
  | inl hit ↦ inl (
    e.signals,
    record e { signals = bit_or e.signals m } ∷ es,
    ground arith,
    ground arith,
    ground arith,
  )
  | inr miss ↦ elim (coalesce-pending c d m es) [
    | inl (s, merged, old, found, now) ↦
        inl (s, e ∷ merged, ground arith, ground arith, ground arith)
    | inr (out, missing) ↦ inr (ground arith, ground arith)
  ]
]

pending-deliver :
    (c d m : ℕ) (es : List WaitSetEvent)
    → length es < max_waitset_events
    → pending c (deliver d m es) ≡ (if d == c then some (merge (pending d es) m) else pending c es)
unfolding deliver
pending-deliver c d m es room = elim (coalesce-pending c d m es) [
  | inl (s, merged, old, found, now) ↦ ground arith
  | inr (out, missing) ↦ elim (Bool-cases (d == c)) [
    | inl hit ↦ ground (arith, pending-append c d m es)
    | inr miss ↦ elim (Option-cases (pending c es)) [
      | inl none_ready ↦ ground (arith, pending-append c d m es)
      | inr (x, ready) ↦ ground (arith, pending-append c d m es)
    ]
  ]
]

wait_ready :
    (ws : WaitSet) (t : ObjectId) (c x : ℕ)
    → ws.is_closed ≡ false
    → pending c ws.ready_events ≡ some x
    → ((wait ws t).0 ≡ ok (events ws.ready_events)) × ((wait ws t).1.ready_events ≡ [])
unfolding wait pending
wait_ready ws t c x shut h = ground arith

-- In a valid and open wait set, posting signals of which some are subscribed for an object wakes the
-- thread that waits, if any. The signals that match are added to those that were ready for the cookie of the
-- subscription, so none are dropped, and what was ready for the other cookies stays. The wait after it, of any thread,
-- returns all that is ready and leaves nothing.
pub post_event_delivers :
    (ws : WaitSet) (o : ObjectId) (active : ℕ) (s : Subscription) (t : ObjectId)
    → IsValid ws
    → ws.is_closed ≡ false
    → find_subscription o ws.subscriptions ≡ some s
    → 0 < bit_and s.signals active
    → let ws' = (post_event ws o active).1 in
      ((post_event ws o active).0 ≡ ws.waiting_thread)
      × ((c : ℕ)
          → pending c ws'.ready_events ≡ (
              if s.cookie == c
              then some (merge (pending s.cookie ws.ready_events) (bit_and s.signals active))
              else pending c ws.ready_events))
      × ((wait ws' t).0 ≡ ok (events ws'.ready_events))
      × ((wait ws' t).1.ready_events ≡ [])
unfolding post_event
post_event_delivers ws o active s t v shut found some_match =
    let ws' = (post_event ws o active).1 in
    let room : length ws.ready_events < max_waitset_events =
      omega (arith, ready_le ws v, v.within) in
    let now : (c : ℕ)
        → pending c ws'.ready_events ≡ (
            if s.cookie == c
            then some (merge (pending s.cookie ws.ready_events) (bit_and s.signals active))
            else pending c ws.ready_events) =
      λ c.
        ground
          (arith, pending-deliver c s.cookie (bit_and s.signals active) ws.ready_events room) in
    let next =
      wait_ready ws' t s.cookie
        (merge (pending s.cookie ws.ready_events) (bit_and s.signals active)) (ground arith)
        (ground (arith, now s.cookie)) in
    (ground arith, now, next.0, next.1)
