-- ===== src/Ipc/Endpoint/Tokens.antt =====
-- crates/kernel-core/src/ipc.rs: how long a reply token stays spent.
use gaxera.Prelude.{
  ℕ, ◌+◌, ◌%◌, ◌^◌, ◌≤◌, ◌<◌, ◌≡◌, ◌≢◌, ◌↔◌, ◌==◌, Bool, true, false, some, List, [], ◌∷◌, length,
  if◌then◌else◌, ok, is_error, arith, u64_mod, ap, ◌∙◌, sym, refl,
}
use gaxera.Abi.Ids.{ObjectId}
use gaxera.Abi.Messages.{ReplyToken}
use gaxera.Ipc.Endpoint.{
  Endpoint, EndpointState, callers_pending, receiver_waiting, reply_outstanding, CallerEntry,
  pending_state, others, make_reply_token, new, wake, reply, cancel_caller, call, receive,
  take_received_call, notify_thread_terminated, close,
}
use gaxera.Ipc.Endpoint.Replies.{serving, reply_serves}
use gaxera.Ipc.Endpoint.Valid.{
  Event, calls, receives, replies, cancels, terminates, after, after_all,
}
use gaxera.Ipc.Endpoint.Words.{word, make_reply_token-word, IsWide, word-agrees}

-- The token that is out carries the present number.
abbrev IsIssued : EndpointState → ℕ → Type 0
IsIssued (reply_outstanding c t m cs) n = t.raw ≡ word n c
IsIssued _ n = Unit {0}

-- A token is out only if one was issued since.
abbrev IsNewer : EndpointState → ℕ → Type 0
IsNewer (reply_outstanding c t m cs) j = 0 < j
IsNewer _ j = Unit {0}

-- The tokens that a step issues.
unfoldable issues : Endpoint → Event → ℕ
issues ep e = if (after ep e).reply_sequence == ep.reply_sequence then 0 else 1

-- After `j` tokens since the number was `s`.
record IsSince (s j : ℕ) (ep : Endpoint) : Type 0 where
  issued : IsIssued ep.state ep.reply_sequence
  newer : IsNewer ep.state j
  sequence : ep.reply_sequence ≡ (s + j) % u64_mod

abbrev at_state : EndpointState → ℕ → Bool → Endpoint
at_state st n shut = record { state = st; reply_sequence = n; is_closed = shut }

pending_state-IsIssued : (cs : List CallerEntry) (n : ℕ) → IsIssued (pending_state cs) n
pending_state-IsIssued [] n = tt
pending_state-IsIssued (c ∷ cs) n = tt

pending_state-IsNewer : (cs : List CallerEntry) (j : ℕ) → IsNewer (pending_state cs) j
pending_state-IsNewer [] j = tt
pending_state-IsNewer (c ∷ cs) j = tt

-- A token issued now: the count goes up by one.
issue-IsSince :
    (s j n : ℕ) (c : ObjectId)
    → n ≡ (s + j) % u64_mod
    → ((make_reply_token n c).0.raw ≡ word ((n + 1) % u64_mod) c)
      × ((n + 1) % u64_mod ≡ (s + (j + 1)) % u64_mod)
      × ((n + 1) % u64_mod ≢ n)
issue-IsSince s j n c h =
    (ap (λ (r : ReplyToken × ℕ). r.0.raw) (make_reply_token-word n c), omega arith, omega arith)

after-IsSince :
    (s j : ℕ) (st : EndpointState) (n : ℕ) (shut : Bool) (e : Event)
    → IsSince s j (at_state st n shut)
    → IsSince s (j + issues (at_state st n shut) e) (after (at_state st n shut) e)
unfolding issues after call receive take_received_call reply cancel_caller notify_thread_terminated
    close
after-IsSince s j (callers_pending (c ∷ cs)) n false (receives r) v =
    ground (arith, issue-IsSince s j n c.caller v.sequence)
after-IsSince s j (receiver_waiting r) n false (calls c m) v =
    ground (arith, issue-IsSince s j n c v.sequence)
after-IsSince s j (callers_pending cs) n shut (cancels c) v =
    ground
      (arith, pending_state-IsIssued (others c cs) n, pending_state-IsNewer (others c cs) (j + 0))
after-IsSince s j (callers_pending cs) n shut (terminates c) v =
    ground
      (arith, pending_state-IsIssued (others c cs) n, pending_state-IsNewer (others c cs) (j + 0))
after-IsSince s j (reply_outstanding a t h cs) n shut (terminates c) v =
    ground (arith, pending_state-IsIssued cs n, pending_state-IsNewer cs (j + 0))
after-IsSince s j (reply_outstanding a t h cs) n shut (replies r) v =
    ground (arith, pending_state-IsIssued cs n, pending_state-IsNewer cs (j + 0))
after-IsSince s j st n shut e v = ground arith

issues_le : (ep : Endpoint) (e : Event) → issues ep e ≤ 1
unfolding issues
issues_le ep e = ground arith

-- After any events, no more tokens than events.
after_all-IsSince :
    (s j : ℕ) (ep : Endpoint) (es : List Event)
    → IsSince s j ep
    → (k : ℕ) × (k ≤ j + length es) × IsSince s k (after_all ep es)
unfolding after_all
after_all-IsSince s j ep [] v = (j, omega arith, v)
after_all-IsSince s j ep (e ∷ es) v =
    let stepped = after-IsSince s j ep.state ep.reply_sequence ep.is_closed e v in
    let (k, bound, since) = after_all-IsSince s (j + issues ep e) (after ep e) es stepped in
    (k, omega (arith, issues_le ep e), since)

-- What is out of an endpoint is what it issued.
serving-word :
    (st : EndpointState) (n : ℕ) (c : ObjectId) (t : ReplyToken)
    → IsIssued st n
    → serving st ≡ some (c, t)
    → t.raw ≡ word n c
serving-word (reply_outstanding a k m cs) n c t v e = ground (arith, e)
serving-word st n c t v e = ground arith

serving-newer :
    (st : EndpointState) (j : ℕ) (c : ObjectId) (t : ReplyToken)
    → IsNewer st j
    → serving st ≡ some (c, t)
    → 0 < j
serving-newer (reply_outstanding a k m cs) j c t v e = v
serving-newer st j c t v e = ground arith

-- After an accepted reply no token is out.
reply-IsSince :
    (st : EndpointState) (n : ℕ) (shut : Bool) (t : ReplyToken)
    → n < u64_mod
    → is_error (reply (at_state st n shut) t).0 ≡ false
    → IsSince n 0 (reply (at_state st n shut) t).1
unfolding reply
reply-IsSince (reply_outstanding a k m cs) n shut t h e =
    ground (arith, pending_state-IsIssued cs n, pending_state-IsNewer cs 0)
reply-IsSince st n shut t h e = ground arith

-- The same word wakes a thread again only if that thread is another one in the same slot.
again :
    (n : ℕ) (ep : Endpoint) (es : List Event) (t : ReplyToken) (c d : ObjectId)
    → IsWide c
    → IsWide d
    → length es < 2 ^ 32
    → t.raw ≡ word n c
    → IsSince n 0 ep
    → (reply (after_all ep es) t).0 ≡ ok (wake d)
    → (d.index ≡ c.index) × (d.generation ≢ c.generation)
again n ep es t c d v w few at since woken =
    let (k, bound, last) = after_all-IsSince n 0 ep es since in
    let ep' = after_all ep es in
    let served = (((reply_serves ep' t).0 d).0 woken).1 in
    let at' = serving-word ep'.state ep'.reply_sequence d t last.issued served in
    let out = serving-newer ep'.state k d t last.newer served in
    let (index, number) = word-agrees n ep'.reply_sequence c d v w (sym at ∙ at') in
    (index, (λ g. omega (arith, number g, last.sequence)))

-- For an endpoint after any events since its creation, and threads whose index and generation are words of 32
-- bits: a reply wakes a thread exactly when the endpoint is open and serves that thread under that token; one
-- that is refused changes nothing; right after one that is accepted every token is refused; and through fewer
-- than 2^32 further events its token never wakes that thread again, nor any thread but one of another
-- generation in the same slot.
pub reply_once :
    (id : ObjectId) (past es : List Event) (t : ReplyToken) (c d : ObjectId)
    → IsWide c
    → IsWide d
    → length es < 2 ^ 32
    → let ep = after_all (new id) past in
      let replied = reply ep t in
      ((replied.0 ≡ ok (wake c)) ↔ ((ep.is_closed ≡ false) × (serving ep.state ≡ some (c, t))))
      × (is_error replied.0 ≡ true → replied.1 ≡ ep)
      × (is_error replied.0 ≡ false → (u : ReplyToken) → is_error (reply replied.1 u).0 ≡ true)
      × (replied.0 ≡ ok (wake c)
          → (reply (after_all replied.1 es) t).0 ≡ ok (wake d)
          → (d.index ≡ c.index) × (d.generation ≢ c.generation))
reply_once id past es t c d v w few =
    let ep = after_all (new id) past in
    let fresh : IsSince 0 0 (new id) =
      unfold new in record { issued = tt; newer = tt; sequence = refl } in
    let (k, bound, since) = after_all-IsSince 0 0 (new id) past fresh in
    let serves = reply_serves ep t in
    (
      serves.0 c,
      serves.1,
      serves.2,
      (λ first second.
          let served = ((serves.0 c).0 first).1 in
          let ok_first : is_error (reply ep t).0 ≡ false = ap is_error first in
          again ep.reply_sequence (reply ep t).1 es t c d v w few
            (serving-word ep.state ep.reply_sequence c t since.issued served)
            (reply-IsSince ep.state ep.reply_sequence ep.is_closed t (omega (arith, since.sequence))
              ok_first)
            second),
    )
