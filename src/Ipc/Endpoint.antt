-- ===== src/Ipc/Endpoint.antt =====
-- crates/kernel-core/src/ipc.rs: `Endpoint`, the rendezvous of many callers with one receiver.
pub mod Valid
pub mod Order
pub mod Replies
pub mod Words
pub mod Tokens
use gaxera.Prelude.{
  ℕ, ◌+◌, ◌*◌, ◌%◌, ◌^◌, Bool, true, false, not, ◌&&◌, Option, none, some, List, [], ◌∷◌, ◌++◌, map,
  length, retain, bit_xor, ltb, leb, ◌==◌, u64_mod, if◌then◌else◌, Result, ok, err,
}
use gaxera.Abi.Ids.{ObjectId, same_id, raw}
use gaxera.Abi.Messages.{InlineMessage, ReplyToken, inline_message_bytes}

pub data EndpointError : Type 0 where
  busy closed invalid_reply_token : EndpointError

pub data FastPathRejectReason : Type 0 where
  invalid_handle rights_denied no_receiver_waiting multiple_waiters : FastPathRejectReason
  capability_transfer_requested payload_too_large fault_or_cancellation : FastPathRejectReason
  scheduler_declined : FastPathRejectReason

pub data FastPathDecision : Type 0 where
  eligible : ObjectId → FastPathDecision
  rejected : FastPathRejectReason → FastPathDecision

pub data IpcEffect : Type 0 where
  block : IpcEffect
  wake : ObjectId → IpcEffect

pub record ReceivedCall : Type 0 where
  pub caller : ObjectId
  pub message : InlineMessage
  pub reply_token : ReplyToken

abbrev pub max_endpoint_callers : ℕ
max_endpoint_callers = 32

pub record CallerEntry : Type 0 where
  pub caller : ObjectId
  pub message : InlineMessage

pub data EndpointState : Type 0 where
  idle : EndpointState
  callers_pending : List CallerEntry → EndpointState
  receiver_waiting : ObjectId → EndpointState
  reply_outstanding :
      ObjectId → ReplyToken → Option InlineMessage → List CallerEntry → EndpointState

pub record Endpoint : Type 0 where
  pub state : EndpointState
  pub reply_sequence : ℕ
  pub is_closed : Bool

unfoldable pub new : ObjectId → Endpoint
new id = record { state = idle; reply_sequence = 0; is_closed = false }

unfoldable pub evaluate_fastpath : Endpoint → Bool → ℕ → FastPathDecision
evaluate_fastpath ep has_cap_transfers payload_len =
    if ep.is_closed
    then rejected fault_or_cancellation
    else if has_cap_transfers
    then rejected capability_transfer_requested
    else if ltb inline_message_bytes payload_len
    then rejected payload_too_large
    else elim ep.state [
      | receiver_waiting receiver ↦ eligible receiver
      | idle ↦ rejected no_receiver_waiting
      | _ ↦ rejected fault_or_cancellation
    ]

unfoldable pub pending_caller_count : Endpoint → ℕ
pending_caller_count ep = elim ep.state [
  | callers_pending callers ↦ length callers
  | reply_outstanding caller token message pending ↦ length pending
  | _ ↦ 0
]

-- `Idle` if nobody is left, and else the callers.
abbrev pub pending_state : List CallerEntry → EndpointState
pending_state [] = idle
pending_state (c ∷ cs) = callers_pending (c ∷ cs)

unfoldable pub others : ObjectId → List CallerEntry → List CallerEntry
unfolding retain same_id
others thread cs = retain (λ c. not (same_id c.caller thread)) cs

unfoldable pub cancel_caller : Endpoint → ObjectId → Bool × Endpoint
unfolding others
cancel_caller ep caller = if ep.is_closed then (false, ep) else elim ep.state [
  | callers_pending callers ↦
      let kept = others caller callers in
      (ltb (length kept) (length callers), record ep { state = pending_state kept })
  | reply_outstanding active token message pending ↦
      let kept = others caller pending in
      (
        ltb (length kept) (length pending),
        record ep { state = reply_outstanding active token message kept },
      )
  | _ ↦ (false, ep)
]

-- The token and the raised sequence number. The shift drops the upper half of the number.
unfoldable pub make_reply_token : ℕ → ObjectId → ReplyToken × ℕ
unfolding raw
make_reply_token sequence caller =
    let next = (sequence + 1) % u64_mod in
    (record { raw = bit_xor (raw caller) (next * 2 ^ 32 % u64_mod) }, next)

unfoldable pub call :
    Endpoint → ObjectId → InlineMessage → Result IpcEffect EndpointError × Endpoint
unfolding make_reply_token
call ep caller message =
    let entry : CallerEntry = record { caller = caller; message = message } in
    if ep.is_closed then (err closed, ep) else elim ep.state [
      | idle ↦ (ok block, record ep { state = callers_pending (entry ∷ []) })
      | receiver_waiting receiver ↦
          let (token, sequence) = make_reply_token ep.reply_sequence caller in
          (
            ok (wake receiver),
            record ep {
              state = reply_outstanding caller token (some message) [];
              reply_sequence = sequence;
            },
          )
      | callers_pending callers ↦
          if leb max_endpoint_callers (length callers)
          then (err busy, ep)
          else (ok block, record ep { state = callers_pending (callers ++ entry ∷ []) })
      | reply_outstanding active token held pending ↦
          if leb max_endpoint_callers (length pending) then (err busy, ep) else (
            ok block,
            record ep { state = reply_outstanding active token held (pending ++ entry ∷ []) },
          )
    ]

-- What `receive` gives: a call at once, or an effect on the receiver.
pub data Received : Type 0 where
  delivered : ReceivedCall → Received
  effect : IpcEffect → Received
  -- `Vec::remove(0)` on an empty vector panics.
  panics : Received

unfoldable pub receive : Endpoint → ObjectId → Result Received EndpointError × Endpoint
unfolding make_reply_token
receive ep receiver = if ep.is_closed then (err closed, ep) else elim ep.state [
  | idle ↦ (ok (effect block), record ep { state = receiver_waiting receiver })
  | callers_pending callers ↦ elim callers [
    | [] ↦ (ok panics, ep)
    | next ∷ remaining ↦
        let (token, sequence) = make_reply_token ep.reply_sequence next.caller in
        (
          ok (
              delivered
                (record { caller = next.caller; message = next.message; reply_token = token })),
          record ep {
            state = reply_outstanding next.caller token none remaining;
            reply_sequence = sequence;
          },
        )
  ]
  | receiver_waiting _ ↦ (err busy, ep)
  | reply_outstanding _ _ _ _ ↦ (err busy, ep)
]

unfoldable pub take_received_call : Endpoint → Option ReceivedCall × Endpoint
take_received_call ep = elim ep.state [
  | reply_outstanding caller token message pending ↦ elim message [
    | none ↦ (none, ep)
    | some m ↦ (
      some (record { caller = caller; message = m; reply_token = token }),
      record ep { state = reply_outstanding caller token none pending },
    )
  ]
  | _ ↦ (none, ep)
]

-- The reply's message is not used.
unfoldable pub reply : Endpoint → ReplyToken → Result IpcEffect EndpointError × Endpoint
reply ep token = if ep.is_closed then (err closed, ep) else elim ep.state [
  | reply_outstanding caller active held pending ↦
      if token.raw == active.raw
      then (ok (wake caller), record ep { state = pending_state pending })
      else (err invalid_reply_token, ep)
  | _ ↦ (err invalid_reply_token, ep)
]

-- The woken threads are none on every branch.
unfoldable pub notify_thread_terminated : Endpoint → ObjectId → List ObjectId × Endpoint
unfolding others
notify_thread_terminated ep dead = elim ep.state [
  | idle ↦ ([], ep)
  | receiver_waiting receiver ↦
      if same_id receiver dead then ([], record ep { state = idle }) else ([], ep)
  | callers_pending callers ↦ ([], record ep { state = pending_state (others dead callers) })
  | reply_outstanding caller token held pending ↦
      if same_id caller dead
      then ([], record ep { state = pending_state pending })
      else ([], record ep { state = reply_outstanding caller token held (others dead pending) })
]

abbrev pub callers_of : List CallerEntry → List ObjectId
callers_of = map (λ c. c.caller)

unfoldable pub close : Endpoint → List ObjectId × Endpoint
close ep =
    let shut = record ep { state = idle; is_closed = true } in
    elim ep.state [
      | callers_pending callers ↦ (callers_of callers, shut)
      | receiver_waiting receiver ↦ (receiver ∷ [], shut)
      | reply_outstanding caller token held pending ↦ (caller ∷ callers_of pending, shut)
      | idle ↦ ([], shut)
    ]
