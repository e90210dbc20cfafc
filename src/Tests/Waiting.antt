-- ===== src/Tests/Waiting.antt =====
-- Examples for crates/kernel-core/src/waitset.rs and notification.rs.
use gaxera.Prelude.{
  ℕ, ◌≤◌, ◌≡◌, ◌≢◌, true, List, ◌⊎◌, refl, false, some, none, [], ◌∷◌, length, bit_and, ◌==◌,
  if◌then◌else◌, ok, arith,
}
use gaxera.Abi.Ids.{ObjectId, same_id}
use gaxera.Notification.{Notification}
use gaxera.Notification
use gaxera.Notification.Sleepers.{fallen, sleepers_after, one_at_a_time, after_all-wakes}
use gaxera.Notification.Stranded.{is_among, waits_again, second_wait_strands}
use gaxera.Notification.Signals
use gaxera.WaitSet.{
  WaitSet, Subscription, WaitSetEvent, is_registered, find_subscription, post_event,
}
use gaxera.WaitSet
use gaxera.WaitSet.Cookies.{are_distinct, all_in, member}
use gaxera.WaitSet.Valid.{IsValid, are_apart, event_cookies, cookies}
use gaxera.WaitSet.Operations.{posts, removes, after_all, after_all_keeps}
use gaxera.WaitSet.Delivery.{pending, merge, post_event_delivers}

abbrev source : ObjectId
source = record { index = 5; generation = 1 }

abbrev thread : ObjectId
thread = record { index = 9; generation = 2 }

abbrev subscription : Subscription
subscription = record { object = source; cookie = 11; signals = 3 }

abbrev waiting : WaitSet
waiting = record {
  subscriptions = subscription ∷ [];
  ready_events = record { cookie = 11; signals = 1 } ∷ [];
  waiting_thread = some thread;
  is_closed = false;
}

waiting-IsValid : IsValid waiting
unfolding are_apart is_registered are_distinct event_cookies all_in member cookies
waiting-IsValid = record { within = omega arith; apart = refl; distinct = refl; subscribed = refl }

find_subscription-source : find_subscription source waiting.subscriptions ≡ some subscription
unfolding find_subscription same_id
find_subscription-source = refl

after_all_keeps_example :
    let ws = after_all waiting (posts source 2 ∷ removes source ∷ []) in
    IsValid ws × (length ws.ready_events ≤ length ws.subscriptions) × (length ws.ready_events ≤ 64)
after_all_keeps_example =
    after_all_keeps waiting (posts source 2 ∷ removes source ∷ []) waiting-IsValid

post_event_delivers_example :
    let ws' = (post_event waiting source 2).1 in
    ((post_event waiting source 2).0 ≡ some thread)
    × ((c : ℕ)
        → pending c ws'.ready_events ≡ (
            if 11 == c
            then some (merge (pending 11 waiting.ready_events) (bit_and 3 2))
            else pending c waiting.ready_events))
    × ((WaitSet.wait ws' thread).0 ≡ ok (WaitSet.Waited.events ws'.ready_events))
    × ((WaitSet.wait ws' thread).1.ready_events ≡ [])
post_event_delivers_example =
    post_event_delivers waiting source 2 subscription thread waiting-IsValid refl
      find_subscription-source (omega arith)

abbrev sleeper : Notification
sleeper = record { signals = 0; waiting_thread = none; capability_refs = 1; is_closed = false }

sleeper-IsValid : Signals.IsValid sleeper
sleeper-IsValid = ground arith

abbrev nights : List Signals.Event
nights =
    Signals.Event.waits thread
    ∷ Signals.Event.signals 4
    ∷ Signals.Event.waits source
    ∷ Signals.Event.waits source
    ∷ []

alone : one_at_a_time sleeper nights [] ≡ true
unfolding one_at_a_time
alone = refl

after_all-wakes_example :
    let n' = Signals.after_all sleeper nights in
    let ts = sleepers_after sleeper nights [] in
    Signals.IsValid n'
    × ((ts ≡ [])
        ⊎ ((t : ObjectId) × (ts ≡ t ∷ [])
            × (n'.signals ≡ 0)
            × (n'.is_closed ≡ false)
            × ((a : ℕ) → a ≢ 0 → (Notification.signal n' a).0 ≡ some t)
            × ((Notification.close n').0 ≡ some t)))
after_all-wakes_example = after_all-wakes sleeper nights sleeper-IsValid refl alone

abbrev asleep : Notification
asleep = record sleeper { waiting_thread = some thread }

abbrev later : List Signals.Event
later = Signals.Event.signals 4 ∷ Signals.Event.waits source ∷ Signals.Event.closes ∷ []

others_wait : waits_again thread later ≡ false
unfolding waits_again
others_wait = refl

second_wait_strands_example :
    let second = Notification.wait asleep source in
    (second.0 ≡ ok (Notification.Waited.blocked source))
    × (second.1 ≡ record asleep { waiting_thread = some source })
    × (is_among thread (sleepers_after second.1 later (fallen second.0 (thread ∷ []))) ≡ true)
unfolding same_id
second_wait_strands_example =
    second_wait_strands asleep thread source later refl refl refl refl others_wait
