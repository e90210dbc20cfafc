-- ===== src/WaitSet/Operations.antt =====
-- crates/kernel-core/src/waitset.rs: every operation keeps a wait set valid.
use gaxera.Prelude.{
  ℕ, ◌≤◌, ◌<◌, ◌≡◌, inl, inr, refl, true, false, Option, none, some, List, [], ◌∷◌, ◌++◌, length,
  length-append, bit_and, ◌==◌, if◌then◌else◌, arith, Option-cases,
}
use gaxera.Abi.Ids.{ObjectId}
use gaxera.WaitSet.{
  Subscription, WaitSetEvent, WaitSet, new, find_subscription, add_subscription, without,
  drop_cookie, remove_subscription, deliver, post_event, wait, close,
}
use gaxera.WaitSet.Cookies.{
  member, are_distinct, all_in, are_distinct-append_one, all_in-append_one, all_in_mono,
}
use gaxera.WaitSet.Valid.{
  event_cookies, cookies, are_apart, IsValid, ready_le, are_apart-append, member-cookies-append,
  member-find_subscription, event_cookies-append, coalesce_cases, are_apart-without, length-without,
  member-without,
}

member-drop_cookie :
    (d c : ℕ) (es : List WaitSetEvent)
    → member c (event_cookies (drop_cookie d es))
      ≡ (if d == c then false else member c (event_cookies es))
unfolding member event_cookies drop_cookie
member-drop_cookie d c [] = ground arith
member-drop_cookie d c (e ∷ es) = ground (arith, member-drop_cookie d c es)

are_distinct-drop_cookie :
    (d : ℕ) (es : List WaitSetEvent)
    → are_distinct (event_cookies es) ≡ true
    → are_distinct (event_cookies (drop_cookie d es)) ≡ true
unfolding are_distinct event_cookies drop_cookie
are_distinct-drop_cookie d [] h = refl
are_distinct-drop_cookie d (e ∷ es) h =
    ground (arith, are_distinct-drop_cookie d es, member-drop_cookie d e.cookie es)

all_in-drop_cookie :
    (d : ℕ) (es : List WaitSetEvent) (ys : List ℕ)
    → all_in (event_cookies es) ys ≡ true
    → all_in (event_cookies (drop_cookie d es)) ys ≡ true
unfolding all_in event_cookies drop_cookie
all_in-drop_cookie d [] ys h = refl
all_in-drop_cookie d (e ∷ es) ys h = ground (arith, all_in-drop_cookie d es ys)

new-IsValid : IsValid new
unfolding are_apart are_distinct event_cookies all_in
new-IsValid = record { within = omega arith; apart = refl; distinct = refl; subscribed = refl }

add_subscription-IsValid :
    (ws : WaitSet) (o : ObjectId) (c m : ℕ) → IsValid ws → IsValid (add_subscription ws o c m).1
unfolding add_subscription
add_subscription-IsValid ws o c m v =
    let s : Subscription = record { object = o; cookie = c; signals = m } in
    let kept =
      all_in_mono (event_cookies ws.ready_events) (cookies ws.subscriptions)
        (cookies (ws.subscriptions ++ s ∷ []))
        (λ d _ h. member-cookies-append d ws.subscriptions s h) v.subscribed in
    ground (
      arith,
      kept,
      v.within,
      v.apart,
      v.distinct,
      v.subscribed,
      are_apart-append ws.subscriptions s,
      length-append ws.subscriptions (s ∷ []),
    )

-- Without a subscription of the object nothing goes, and with one something does.
without_missing :
    (o : ObjectId) (ss : List Subscription) → find_subscription o ss ≡ none → without o ss ≡ ss
unfolding find_subscription without
without_missing o [] h = refl
without_missing o (s ∷ ss) h = ground (arith, without_missing o ss)

without_found :
    (o : ObjectId) (ss : List Subscription) (s : Subscription)
    → find_subscription o ss ≡ some s
    → length (without o ss) < length ss
unfolding find_subscription without
without_found o [] s h = absurd (cc)
without_found o (x ∷ ss) s h = ground (arith, without_found o ss s, length-without o ss)

removed-IsValid :
    (ws : WaitSet) (o : ObjectId) (s : Subscription)
    → IsValid ws
    → find_subscription o ws.subscriptions ≡ some s
    → IsValid (record ws {
      subscriptions = without o ws.subscriptions;
      ready_events = drop_cookie s.cookie ws.ready_events;
    })
removed-IsValid ws o s v found =
    let es = drop_cookie s.cookie ws.ready_events in
    record {
      within = omega (arith, length-without o ws.subscriptions, v.within);
      apart = are_apart-without o ws.subscriptions v.apart;
      distinct = are_distinct-drop_cookie s.cookie ws.ready_events v.distinct;
      subscribed =
          all_in_mono (event_cookies es) (cookies ws.subscriptions)
            (cookies (without o ws.subscriptions))
            (λ c m h.
              member-without o ws.subscriptions s c v.apart found
                (ground (arith, member-drop_cookie s.cookie c ws.ready_events)) h)
            (all_in-drop_cookie s.cookie ws.ready_events (cookies ws.subscriptions) v.subscribed);
    }

remove_subscription-IsValid :
    (ws : WaitSet) (o : ObjectId) → IsValid ws → IsValid (remove_subscription ws o).1
unfolding remove_subscription
remove_subscription-IsValid ws o v = elim (Option-cases (find_subscription o ws.subscriptions)) [
  | inl missing ↦
      ground
        (arith, v.within, v.apart, v.distinct, v.subscribed, without_missing o ws.subscriptions)
  | inr (s, found) ↦
      ground (arith, removed-IsValid ws o s v found, without_found o ws.subscriptions s found)
]

deliver-IsValid :
    (ws : WaitSet) (c m : ℕ) (t : Option ObjectId)
    → IsValid ws
    → member c (cookies ws.subscriptions) ≡ true
    → IsValid (record ws { ready_events = deliver c m ws.ready_events; waiting_thread = t })
unfolding deliver
deliver-IsValid ws c m t v h = elim (coalesce_cases c m ws.ready_events) [
  | inl (merged, found, same) ↦ ground (arith, v.within, v.apart, v.distinct, v.subscribed, same)
  | inr (missing, out) ↦
      let e : WaitSetEvent = record { cookie = c; signals = m } in
      ground (
        arith,
        v.within,
        v.apart,
        v.distinct,
        v.subscribed,
        event_cookies-append ws.ready_events e,
        are_distinct-append_one c (event_cookies ws.ready_events),
        all_in-append_one c (event_cookies ws.ready_events) (cookies ws.subscriptions),
      )
]

post_event-IsValid :
    (ws : WaitSet) (o : ObjectId) (active : ℕ) → IsValid ws → IsValid (post_event ws o active).1
unfolding post_event
post_event-IsValid ws o active v = elim (Option-cases (find_subscription o ws.subscriptions)) [
  | inl missing ↦ ground arith
  | inr (s, found) ↦ ground (
    arith,
    deliver-IsValid ws s.cookie (bit_and s.signals active) none v
        (member-find_subscription o ws.subscriptions s found),
  )
]

wait-IsValid : (ws : WaitSet) (thread : ObjectId) → IsValid ws → IsValid (wait ws thread).1
unfolding wait are_distinct event_cookies all_in
wait-IsValid ws thread v = ground (arith, v.within, v.apart, v.distinct, v.subscribed)

close-IsValid : (ws : WaitSet) → IsValid (close ws).1
unfolding close are_apart are_distinct event_cookies all_in
close-IsValid ws = record { within = omega arith; apart = refl; distinct = refl; subscribed = refl }

pub data Event : Type 0 where
  adds : ObjectId → ℕ → ℕ → Event
  removes : ObjectId → Event
  posts : ObjectId → ℕ → Event
  waits : ObjectId → Event
  closes : Event

pub after : WaitSet → Event → WaitSet
after ws (adds o c m) = (add_subscription ws o c m).1
after ws (removes o) = (remove_subscription ws o).1
after ws (posts o m) = (post_event ws o m).1
after ws (waits t) = (wait ws t).1
after ws closes = (close ws).1

pub after_all : WaitSet → List Event → WaitSet
after_all ws [] = ws
after_all ws (e ∷ es) = after_all (after ws e) es

after-IsValid : (ws : WaitSet) (e : Event) → IsValid ws → IsValid (after ws e)
unfolding after
after-IsValid ws (adds o c m) v = add_subscription-IsValid ws o c m v
after-IsValid ws (removes o) v = remove_subscription-IsValid ws o v
after-IsValid ws (posts o m) v = post_event-IsValid ws o m v
after-IsValid ws (waits t) v = wait-IsValid ws t v
after-IsValid ws closes v = close-IsValid ws

-- A wait set that is valid stays valid, whatever subscriptions are added and removed, events posted,
-- waits made and closings it goes through, and it never has more ready events than subscriptions, so
-- no more than 64. It is valid when it has at most 64 subscriptions, of different objects, and its
-- ready events have different cookies that are all cookies of its subscriptions.
pub after_all_keeps :
    (ws : WaitSet) (es : List Event)
    → IsValid ws
    → IsValid (after_all ws es)
      × (length (after_all ws es).ready_events ≤ length (after_all ws es).subscriptions)
      × (length (after_all ws es).ready_events ≤ 64)
unfolding after_all
after_all_keeps ws [] v = (v, ready_le ws v, omega (arith, ready_le ws v, v.within))
after_all_keeps ws (e ∷ es) v = after_all_keeps (after ws e) es (after-IsValid ws e v)
