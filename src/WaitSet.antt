-- ===== src/WaitSet.antt =====
-- crates/kernel-core/src/waitset.rs: `WaitSet`, a thread's wait for events of many objects. The
-- identity of the set, which no operation reads, is left out.
pub mod Cookies
pub mod Valid
pub mod Operations
pub mod Delivery
use gaxera.Prelude.{
  ℕ, Bool, true, false, not, Option, none, some, List, [], ◌∷◌, ◌++◌, length, retain, bit_and,
  bit_or, ltb, leb, ◌==◌, if◌then◌else◌, Result, ok, err,
}
use gaxera.Abi.Ids.{ObjectId, same_id}

abbrev pub max_waitset_subscriptions : ℕ
max_waitset_subscriptions = 64

abbrev pub max_waitset_events : ℕ
max_waitset_events = 128

pub record Subscription : Type 0 where
  pub object : ObjectId
  pub cookie : ℕ
  pub signals : ℕ

-- The field `_reserved` is always 0.
pub record WaitSetEvent : Type 0 where
  pub cookie : ℕ
  pub signals : ℕ

pub data WaitSetError : Type 0 where
  full not_found already_registered closed : WaitSetError

pub record WaitSet : Type 0 where
  pub subscriptions : List Subscription
  pub ready_events : List WaitSetEvent
  pub waiting_thread : Option ObjectId
  pub is_closed : Bool

abbrev pub new : WaitSet
new = record { subscriptions = []; ready_events = []; waiting_thread = none; is_closed = false }

-- `iter().any(|s| s.object == object)`
unfoldable pub is_registered : ObjectId → List Subscription → Bool
unfolding same_id
is_registered object [] = false
is_registered object (s ∷ ss) =
    let rest = is_registered object ss in if same_id s.object object then true else rest

-- `iter().find(|s| s.object == object)`
unfoldable pub find_subscription : ObjectId → List Subscription → Option Subscription
unfolding same_id
find_subscription object [] = none
find_subscription object (s ∷ ss) =
    let rest = find_subscription object ss in if same_id s.object object then some s else rest

unfoldable pub add_subscription :
    WaitSet → ObjectId → ℕ → ℕ → Result (Unit {0}) WaitSetError × WaitSet
unfolding is_registered
add_subscription ws object cookie signals =
    if ws.is_closed
    then (err closed, ws)
    else if leb max_waitset_subscriptions (length ws.subscriptions)
    then (err full, ws)
    else if is_registered object ws.subscriptions
    then (err already_registered, ws)
    else (
      ok tt,
      record ws {
        subscriptions =
            ws.subscriptions ++ record { object = object; cookie = cookie; signals = signals } ∷ [];
      },
    )

-- The subscriptions of other objects.
unfoldable pub without : ObjectId → List Subscription → List Subscription
unfolding same_id
without object [] = []
without object (s ∷ ss) =
    let rest = without object ss in if same_id s.object object then rest else s ∷ rest

-- The events of other cookies.
unfoldable pub drop_cookie : ℕ → List WaitSetEvent → List WaitSetEvent
drop_cookie cookie [] = []
drop_cookie cookie (e ∷ es) =
    let rest = drop_cookie cookie es in if e.cookie == cookie then rest else e ∷ rest

unfoldable pub remove_subscription : WaitSet → ObjectId → Result (Unit {0}) WaitSetError × WaitSet
unfolding find_subscription without drop_cookie
remove_subscription ws object =
    if ws.is_closed
    then (err closed, ws)
    else let kept = without object ws.subscriptions in
      if ltb (length kept) (length ws.subscriptions)
      then elim (find_subscription object ws.subscriptions) [
        | none ↦ (ok tt, record ws { subscriptions = kept })
        | some s ↦ (
          ok tt,
          record ws { subscriptions = kept; ready_events = drop_cookie s.cookie ws.ready_events },
        )
      ]
      else (err not_found, record ws { subscriptions = kept })

-- `find` and `|=` on the first event of the cookie, `none` when there is none.
unfoldable pub coalesce : ℕ → ℕ → List WaitSetEvent → Option (List WaitSetEvent)
coalesce cookie matched [] = none
coalesce cookie matched (e ∷ es) =
    let rest = coalesce cookie matched es in
    if e.cookie == cookie
    then some (record e { signals = bit_or e.signals matched } ∷ es)
    else elim rest [ none ↦ none | some more ↦ some (e ∷ more) ]

-- The ready events once the signals that matched have been added.
unfoldable pub deliver : ℕ → ℕ → List WaitSetEvent → List WaitSetEvent
unfolding coalesce
deliver cookie matched events = elim (coalesce cookie matched events) [
  | some merged ↦ merged
  | none ↦
      if ltb (length events) max_waitset_events
      then events ++ record { cookie = cookie; signals = matched } ∷ []
      else events
]

unfoldable pub post_event : WaitSet → ObjectId → ℕ → Option ObjectId × WaitSet
unfolding find_subscription deliver
post_event ws object active_signals =
    if ws.is_closed then (none, ws) else elim (find_subscription object ws.subscriptions) [
      | none ↦ (none, ws)
      | some s ↦
          let matched = bit_and s.signals active_signals in
          if matched == 0 then (none, ws) else (
            ws.waiting_thread,
            record ws {
              ready_events = deliver s.cookie matched ws.ready_events;
              waiting_thread = none;
            },
          )
    ]

-- The events that are ready, or the thread that waits.
pub data Waited : Type 0 where
  events : List WaitSetEvent → Waited
  blocked : ObjectId → Waited

unfoldable pub wait : WaitSet → ObjectId → Result Waited WaitSetError × WaitSet
wait ws thread = if ws.is_closed then (err closed, ws) else elim ws.ready_events [
  | [] ↦ (ok (blocked thread), record ws { waiting_thread = some thread })
  | e ∷ es ↦ (ok (events (e ∷ es)), record ws { ready_events = [] })
]

unfoldable pub close : WaitSet → Option ObjectId × WaitSet
close ws = (
  ws.waiting_thread,
  record { subscriptions = []; ready_events = []; waiting_thread = none; is_closed = true },
)
