-- ===== src/Ipc/Endpoint/Valid.antt =====
-- crates/kernel-core/src/ipc.rs: the endpoint's invariant over every operation.
use gaxera.Prelude.{
  ℕ, ◌≤◌, ◌<◌, ◌≡◌, ◌≢◌, Bool, true, false, not, List, [], ◌∷◌, length, length-append,
  length-retain-le, ok, arith, u64_mod,
}
use gaxera.Abi.Ids.{ObjectId, same_id}
use gaxera.Abi.Messages.{InlineMessage, ReplyToken}
use gaxera.Ipc.Endpoint.{
  Endpoint, EndpointState, idle, callers_pending, receiver_waiting, reply_outstanding, CallerEntry,
  panics, pending_state, others, max_endpoint_callers, cancel_caller, call, receive,
  take_received_call, reply, notify_thread_terminated, close,
}

-- Each state's queue is within its bound, and only a nonempty queue makes the endpoint pending.
abbrev IsBounded : EndpointState → Type 0
IsBounded idle = Unit {0}
IsBounded (callers_pending cs) = (0 < length cs) × (length cs ≤ max_endpoint_callers)
IsBounded (receiver_waiting r) = Unit {0}
IsBounded (reply_outstanding c t m cs) = length cs ≤ max_endpoint_callers

-- A closed endpoint is idle.
abbrev IsShut : Bool → EndpointState → Type 0
IsShut true s = s ≡ idle
IsShut false s = Unit {0}

pub record IsValid (ep : Endpoint) : Type 0 where
  pub bounded : IsBounded ep.state
  pub shut : IsShut ep.is_closed ep.state
  pub sequence : ep.reply_sequence < u64_mod

pub data Event : Type 0 where
  calls : ObjectId → InlineMessage → Event
  receives : ObjectId → Event
  takes : Event
  replies : ReplyToken → Event
  cancels : ObjectId → Event
  terminates : ObjectId → Event
  closes : Event

unfoldable pub after : Endpoint → Event → Endpoint
after ep (calls c m) = (call ep c m).1
after ep (receives r) = (receive ep r).1
after ep takes = (take_received_call ep).1
after ep (replies t) = (reply ep t).1
after ep (cancels c) = (cancel_caller ep c).1
after ep (terminates t) = (notify_thread_terminated ep t).1
after ep closes = (close ep).1

unfoldable pub after_all : Endpoint → List Event → Endpoint
after_all ep [] = ep
after_all ep (e ∷ es) = after_all (after ep e) es

pending_state-IsBounded :
    (cs : List CallerEntry) → length cs ≤ max_endpoint_callers → IsBounded (pending_state cs)
pending_state-IsBounded [] h = tt
pending_state-IsBounded (c ∷ cs) h = omega arith

length-others-le : (t : ObjectId) (cs : List CallerEntry) → length (others t cs) ≤ length cs
unfolding others
length-others-le t cs = length-retain-le (λ c. not (same_id c.caller t)) cs

after-IsValid :
    (st : EndpointState) (n : ℕ) (shut : Bool) (e : Event)
    → IsValid (record { state = st; reply_sequence = n; is_closed = shut })
    → IsValid (after (record { state = st; reply_sequence = n; is_closed = shut }) e)
unfolding after call receive take_received_call reply cancel_caller notify_thread_terminated close
after-IsValid (callers_pending cs) n shut (calls c m) v =
    ground (arith, length-append cs (record { caller = c; message = m } ∷ []))
after-IsValid (reply_outstanding a t h cs) n shut (calls c m) v =
    ground (arith, length-append cs (record { caller = c; message = m } ∷ []))
after-IsValid (callers_pending cs) n shut (cancels c) v =
    ground (arith, pending_state-IsBounded (others c cs), length-others-le c cs)
after-IsValid (reply_outstanding a t h cs) n shut (cancels c) v =
    ground (arith, length-others-le c cs)
after-IsValid (callers_pending cs) n shut (terminates c) v =
    ground (arith, pending_state-IsBounded (others c cs), length-others-le c cs)
after-IsValid (reply_outstanding a t h cs) n shut (terminates c) v =
    ground (arith, pending_state-IsBounded cs, length-others-le c cs)
after-IsValid (reply_outstanding a t h cs) n shut (replies r) v =
    ground (arith, pending_state-IsBounded cs)
after-IsValid (callers_pending []) n shut (receives r) v = absurd (omega (arith, v.bounded))
after-IsValid (callers_pending (c ∷ cs)) n true (receives r) v = absurd (cc (v.shut))
after-IsValid (callers_pending (c ∷ cs)) n false (receives r) v = ground arith
after-IsValid st n shut e v = ground arith

-- Whatever calls, receptions, replies, cancellations, deaths of threads and closings an endpoint goes through, accepted
-- or refused, it stays valid: a queue holds at most 32 callers, an endpoint is pending only with a
-- caller in its queue, and a closed endpoint is idle.
pub after_all-IsValid : (ep : Endpoint) (es : List Event) → IsValid ep → IsValid (after_all ep es)
unfolding after_all
after_all-IsValid ep [] v = v
after_all-IsValid ep (e ∷ es) v =
    after_all-IsValid (after ep e) es (after-IsValid ep.state ep.reply_sequence ep.is_closed e v)

-- A valid endpoint never removes a caller from an empty queue.
pub receive_no_panic : (ep : Endpoint) (r : ObjectId) → IsValid ep → (receive ep r).0 ≢ ok panics
unfolding receive
receive_no_panic ep r v = ground arith
