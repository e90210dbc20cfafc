-- ===== src/Timer.antt =====
-- crates/kernel-core/src/time.rs and timer.rs: deadlines, `TimerObject`, and `TimerQueue` with its
-- entries in the order of their deadlines.
pub mod Fires
pub mod Order
pub mod Expiry
use Prim.Native.Nat.{compare, Ordering}
use gaxera.Prelude.{
  ℕ, suc, ◌+◌, ◌%◌, Bool, true, false, Option, none, some, List, [], ◌∷◌, map, length, take, ltb,
  leb, u64_mod, if◌then◌else◌, Result, ok, err,
}
use gaxera.Prelude.Slices.{drop}
use gaxera.Prelude.Sorted.{insert_at}
use gaxera.Abi.Ids.{ObjectId, same_id}

abbrev pub Ticks : Type 0
Ticks = ℕ

abbrev pub Deadline : Type 0
Deadline = Ticks

abbrev pub is_expired : Deadline → Ticks → Bool
is_expired deadline now = leb deadline now

-- The time returned and the ticks of the clock after it.
abbrev pub advance : Ticks → Ticks × Ticks
advance ticks = ((ticks + 1) % u64_mod, (ticks + 1) % u64_mod)

pub data TimerError : Type 0 where
  closed queue_full not_armed : TimerError

pub data TimerState : Type 0 where
  idle : TimerState
  armed : Deadline → ObjectId → TimerState

pub data TimerEffect : Type 0 where
  arms replaces : ObjectId → Deadline → TimerEffect
  cancels : ObjectId → TimerEffect
  no_effect : TimerEffect

pub record TimerObject : Type 0 where
  pub id : ObjectId
  pub state : TimerState
  pub is_closed : Bool

abbrev pub new_timer : ObjectId → TimerObject
new_timer id = record { id = id; state = idle; is_closed = false }

unfoldable pub arm : TimerObject → Deadline → ObjectId → Result TimerEffect TimerError × TimerObject
arm t deadline notification = if t.is_closed then (err closed, t) else (
  elim t.state [ idle ↦ ok (arms t.id deadline) | armed d n ↦ ok (replaces t.id deadline) ],
  record t { state = armed deadline notification },
)

unfoldable pub cancel : TimerObject → Result TimerEffect TimerError × TimerObject
cancel t = if t.is_closed then (err closed, t) else elim t.state [
  | idle ↦ (err not_armed, t)
  | armed d n ↦ (ok (cancels t.id), record t { state = idle })
]

unfoldable pub fire : TimerObject → Result ObjectId TimerError × TimerObject
fire t =
    if t.is_closed
    then (err closed, t)
    else elim t.state [ idle ↦ (err not_armed, t) | armed d n ↦ (ok n, record t { state = idle }) ]

-- Whether the timer is to leave the queue, `cancel_queue`.
unfoldable pub close : TimerObject → Bool × TimerObject
close t = elim t.state [
  | idle ↦ (false, record t { is_closed = true })
  | armed d n ↦ (true, record t { is_closed = true; state = idle })
]

pub record TimerEntry : Type 0 where
  pub deadline : Deadline
  pub timer_id : ObjectId

pub record TimerQueue : Type 0 where
  pub entries : List TimerEntry
  pub capacity : ℕ

-- The second argument says whether the allocator grants the reservation.
abbrev pub new_queue : ℕ → Bool → Result TimerQueue TimerError
new_queue capacity reserved =
    if reserved then ok (record { entries = []; capacity = capacity }) else err queue_full

-- `slice::binary_search_by` of the standard library.
abbrev pub BinarySearch : Type 0
BinarySearch = (TimerEntry → Ordering) → List TimerEntry → Result ℕ ℕ

-- `unwrap_or_else(|e| e)`
abbrev pub position : Result ℕ ℕ → ℕ
position (ok i) = i
position (err i) = i

unfoldable pub insert :
    BinarySearch → TimerQueue → TimerEntry → Result (Unit {0}) TimerError × TimerQueue
insert binary_search_by q entry =
    if leb q.capacity (length q.entries)
    then (err queue_full, q)
    else let pos = position (binary_search_by (λ e. compare e.deadline entry.deadline) q.entries) in
      (ok tt, record q { entries = insert_at q.entries pos entry })

-- `position` and `remove`: without the first entry of a timer.
unfoldable pub without_first : ObjectId → List TimerEntry → List TimerEntry
unfolding same_id
without_first id [] = []
without_first id (e ∷ es) =
    let rest = without_first id es in if same_id e.timer_id id then es else e ∷ rest

unfoldable pub remove : TimerQueue → ObjectId → TimerQueue
unfolding without_first
remove q id = record q { entries = without_first id q.entries }

-- `take_while(..).count()`
unfoldable pub expired_count : Ticks → List TimerEntry → ℕ
expired_count now [] = 0
expired_count now (e ∷ es) =
    let rest = expired_count now es in if is_expired e.deadline now then suc rest else 0

-- The timers handed to the callback, in their order.
unfoldable pub advance_to : TimerQueue → Ticks → List ObjectId × TimerQueue
unfolding expired_count
advance_to q now =
    let n = expired_count now q.entries in
    (
      map (λ (e : TimerEntry). e.timer_id) (take n q.entries),
      record q { entries = drop n q.entries },
    )
