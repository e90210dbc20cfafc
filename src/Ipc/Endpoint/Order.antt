-- ===== src/Ipc/Endpoint/Order.antt =====
-- crates/kernel-core/src/ipc.rs: callers are answered in the order in which they called.
use mathlib.Core.List.{append_assoc, append-nil}
use gaxera.Prelude.{
  ℕ, ◌≡◌, refl, sym, ap, ◌∙◌, Bool, none, some, List, [], ◌∷◌, ◌++◌, Result, ok, err, arith,
}
use gaxera.Abi.Ids.{ObjectId}
use gaxera.Abi.Messages.{InlineMessage, ReplyToken}
use gaxera.Ipc.Endpoint.{
  Endpoint, EndpointState, idle, callers_pending, receiver_waiting, reply_outstanding, CallerEntry,
  IpcEffect, block, wake, pending_state, callers_of, call, receive, take_received_call, reply,
}

-- The threads whose call was accepted and not yet answered, in the order of their calls.
abbrev blocked_in : EndpointState → List ObjectId
blocked_in idle = []
blocked_in (callers_pending cs) = callers_of cs
blocked_in (receiver_waiting r) = []
blocked_in (reply_outstanding c t m cs) = c ∷ callers_of cs

abbrev pub blocked : Endpoint → List ObjectId
blocked ep = blocked_in ep.state

pub data Traffic : Type 0 where
  calls : ObjectId → InlineMessage → Traffic
  receives : ObjectId → Traffic
  takes : Traffic
  replies : ReplyToken → Traffic

abbrev accepted_call {ℓ} : {E : Type ℓ} → ObjectId → Result IpcEffect E → List ObjectId
accepted_call c (ok e) = c ∷ []
accepted_call c (err e) = []

abbrev woken {ℓ} : {E : Type ℓ} → Result IpcEffect E → List ObjectId
woken (ok (wake c)) = c ∷ []
woken (ok block) = []
woken (err e) = []

-- The caller accepted, the caller answered, and the endpoint afterwards.
pub turn : Endpoint → Traffic → List ObjectId × List ObjectId × Endpoint
turn ep (calls c m) = let (r, ep') = call ep c m in (accepted_call c r, [], ep')
turn ep (receives r) = ([], [], (receive ep r).1)
turn ep takes = ([], [], (take_received_call ep).1)
turn ep (replies t) = let (r, ep') = reply ep t in ([], woken r, ep')

pub turns : Endpoint → List Traffic → List ObjectId × List ObjectId × Endpoint
turns ep [] = ([], [], ep)
turns ep (t ∷ ts) =
    let (accepted, answered, ep') = turn ep t in
    let (accepted', answered', ep'') = turns ep' ts in
    (accepted ++ accepted', answered ++ answered', ep'')

callers_of-append :
    (cs : List CallerEntry) (c : CallerEntry)
    → callers_of (cs ++ c ∷ []) ≡ callers_of cs ++ c.caller ∷ []
callers_of-append [] c = refl
callers_of-append (x ∷ cs) c = ap (◌∷◌ x.caller) (callers_of-append cs c)

blocked-pending_state : (cs : List CallerEntry) → blocked_in (pending_state cs) ≡ callers_of cs
blocked-pending_state [] = refl
blocked-pending_state (c ∷ cs) = refl

turn_order :
    (st : EndpointState) (n : ℕ) (shut : Bool) (t : Traffic)
    → let r = turn (record { state = st; reply_sequence = n; is_closed = shut }) t in
      blocked_in st ++ r.0 ≡ r.1 ++ blocked r.2
unfolding turn call receive take_received_call reply
turn_order (callers_pending cs) n shut (calls c m) =
    ground
      (arith, callers_of-append cs (record { caller = c; message = m }), append-nil (callers_of cs))
turn_order (reply_outstanding a k h cs) n shut (calls c m) =
    ground
      (arith, callers_of-append cs (record { caller = c; message = m }), append-nil (callers_of cs))
turn_order (callers_pending []) n shut (receives r) = ground arith
turn_order (callers_pending (c ∷ cs)) n shut (receives r) =
    ground (arith, append-nil (callers_of cs))
turn_order (reply_outstanding a k h cs) n shut (replies t) =
    ground (arith, blocked-pending_state cs, append-nil (callers_of cs))
turn_order (reply_outstanding a k none cs) n shut takes = ground (arith, append-nil (callers_of cs))
turn_order (reply_outstanding a k (some m) cs) n shut takes =
    ground (arith, append-nil (callers_of cs))
turn_order st n shut t = ground (arith, append-nil (blocked_in st))

-- From any endpoint, through any calls, receptions and replies: the callers that wait at first followed by those
-- accepted on the way are, in this order, those answered on the way followed by those that still
-- wait. So no caller is lost or answered twice, and calls are answered first come, first served.
pub turns_order :
    (ep : Endpoint) (ts : List Traffic)
    → let r = turns ep ts in blocked ep ++ r.0 ≡ r.1 ++ blocked r.2
unfolding turns
turns_order ep [] = append-nil (blocked ep)
turns_order ep (t ∷ ts) =
    let r = turn ep t in
    let q = turns r.2 ts in
    sym (append_assoc (blocked ep) r.0 q.0)
    ∙ ap (λ (l : List ObjectId). l ++ q.0) (turn_order ep.state ep.reply_sequence ep.is_closed t)
    ∙ append_assoc r.1 (blocked r.2) q.0
    ∙ ap (λ (l : List ObjectId). r.1 ++ l) (turns_order r.2 ts)
    ∙ sym (append_assoc r.1 q.1 (blocked q.2))
