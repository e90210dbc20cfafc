-- ===== src/Tests/Endpoints.antt =====
-- Examples for crates/kernel-core/src/ipc.rs.
use gaxera.Prelude.{
  ◌≡◌, ◌≢◌, refl, ◌↔◌, true, false, some, none, List, [], ◌∷◌, ◌++◌, replicate, ok, arith, is_error,
}
use gaxera.Abi.Ids.{ObjectId}
use gaxera.Abi.Messages.{InlineMessage, ReplyToken}
use gaxera.Ipc.Endpoint.{Endpoint, reply_outstanding, wake, new, reply, call, receive}
use gaxera.Ipc.Endpoint.Order.{blocked, Traffic, takes, replies, turns, turns_order}
use gaxera.Ipc.Endpoint.Order
use gaxera.Ipc.Endpoint.Valid.{
  IsValid, Event, closes, after_all, after_all-IsValid, receive_no_panic,
}
use gaxera.Ipc.Endpoint.Valid
use gaxera.Ipc.Endpoint.Replies.{serving}
use gaxera.Ipc.Endpoint.Words.{IsWide}
use gaxera.Ipc.Endpoint.Tokens.{reply_once}

abbrev first_caller : ObjectId
first_caller = record { index = 3; generation = 1 }

abbrev second_caller : ObjectId
second_caller = record { index = 4; generation = 1 }

abbrev server : ObjectId
server = record { index = 7; generation = 2 }

abbrev message : InlineMessage
message = record { bytes = replicate 64 0; length = 2 }

abbrev token : ReplyToken
token = record { raw = 42 }

abbrev fresh : Endpoint
fresh = new server

first_caller-IsWide : IsWide first_caller
first_caller-IsWide = record { index = omega arith; generation = omega arith }

abbrev busy_endpoint : Endpoint
busy_endpoint = record {
  state = reply_outstanding first_caller token none [];
  reply_sequence = 1;
  is_closed = false;
}

abbrev traffic : List Traffic
traffic =
    Order.Traffic.calls second_caller message ∷ replies token ∷ Order.Traffic.receives server ∷ []

turns_order_example :
    let r = turns busy_endpoint traffic in blocked busy_endpoint ++ r.0 ≡ r.1 ++ blocked r.2
turns_order_example = turns_order busy_endpoint traffic

fresh-IsValid : IsValid fresh
unfolding new
fresh-IsValid = record { bounded = tt; shut = tt; sequence = omega arith }

abbrev events : List Event
events =
    Valid.Event.calls first_caller message
    ∷ Valid.Event.receives server
    ∷ Valid.Event.cancels first_caller
    ∷ closes
    ∷ []

after_all-IsValid_example : IsValid (after_all fresh events)
after_all-IsValid_example = after_all-IsValid fresh events fresh-IsValid

-- A server waits and a caller calls: `(1 << 32 | 3) ^ (1 << 32)` is the token.
abbrev past : List Event
past = Valid.Event.receives server ∷ Valid.Event.calls first_caller message ∷ []

abbrev issued : ReplyToken
issued = record { raw = 3 }

accepted : (reply (after_all fresh past) issued).0 ≡ ok (wake first_caller)
unfolding after_all new reply Valid.after call receive
accepted = refl

abbrev future : List Event
future = Valid.Event.receives server ∷ Valid.Event.calls first_caller message ∷ []

reply_once_example :
    let ep = after_all fresh past in
    let replied = reply ep issued in
    ((replied.0 ≡ ok (wake first_caller))
      ↔ ((ep.is_closed ≡ false) × (serving ep.state ≡ some (first_caller, issued))))
    × (is_error replied.0 ≡ true → replied.1 ≡ ep)
    × (is_error replied.0 ≡ false → (u : ReplyToken) → is_error (reply replied.1 u).0 ≡ true)
    × (replied.0 ≡ ok (wake first_caller)
        → (reply (after_all replied.1 future) issued).0 ≡ ok (wake first_caller)
        → (first_caller.index ≡ first_caller.index)
          × (first_caller.generation ≢ first_caller.generation))
reply_once_example =
    reply_once server past future issued first_caller first_caller first_caller-IsWide
      first_caller-IsWide (omega arith)

-- The next thread in the caller's slot, and a call of it with the next number: the spent token answers it.
abbrev successor : ObjectId
successor = record { index = 3; generation = 2 }

abbrev reused : List Event
reused = Valid.Event.receives server ∷ Valid.Event.calls successor message ∷ []

stale_token_answers :
    (reply (after_all (reply (after_all fresh past) issued).1 reused) issued).0
    ≡ ok (wake successor)
unfolding after_all new reply Valid.after call receive
stale_token_answers = refl
