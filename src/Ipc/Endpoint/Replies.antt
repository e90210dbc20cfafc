-- ===== src/Ipc/Endpoint/Replies.antt =====
-- crates/kernel-core/src/ipc.rs: what a reply token opens.
use gaxera.Prelude.{
  ℕ, ◌≡◌, ◌↔◌, Bool, true, false, Option, none, some, [], ◌∷◌, ok, is_error, arith,
}
use gaxera.Abi.Ids.{ObjectId}
use gaxera.Abi.Messages.{ReplyToken}
use gaxera.Ipc.Endpoint.{Endpoint, EndpointState, idle, reply_outstanding, wake, reply}

-- The caller that is being served, and the token that answers it.
abbrev pub serving : EndpointState → Option (ObjectId × ReplyToken)
serving (reply_outstanding c t m cs) = some (c, t)
serving _ = none

abbrev at_state : EndpointState → ℕ → Bool → Endpoint
at_state st n shut = record { state = st; reply_sequence = n; is_closed = shut }

reply_exact :
    (st : EndpointState) (n : ℕ) (shut : Bool) (t : ReplyToken) (c : ObjectId)
    → ((reply (at_state st n shut) t).0 ≡ ok (wake c))
      ↔ ((shut ≡ false) × (serving st ≡ some (c, t)))
unfolding reply
reply_exact idle n shut t c = (ground arith, ground arith)
reply_exact st n shut t c = (ground arith, ground arith)

reply_kept :
    (st : EndpointState) (n : ℕ) (shut : Bool) (t : ReplyToken)
    → is_error (reply (at_state st n shut) t).0 ≡ true
    → (reply (at_state st n shut) t).1 ≡ at_state st n shut
unfolding reply
reply_kept idle n shut t h = ground arith
reply_kept st n shut t h = ground arith

reply_spent :
    (st : EndpointState) (n : ℕ) (shut : Bool) (t u : ReplyToken)
    → is_error (reply (at_state st n shut) t).0 ≡ false
    → is_error (reply (reply (at_state st n shut) t).1 u).0 ≡ true
unfolding reply
reply_spent (reply_outstanding c k m []) n shut t u h = ground arith
reply_spent (reply_outstanding c k m (x ∷ cs)) n shut t u h = ground arith
reply_spent st n shut t u h = ground arith

-- A reply wakes a thread exactly when the endpoint is open and serves that thread under that token. A reply that is
-- refused changes nothing, and right after one that is accepted every token is refused.
pub reply_serves :
    (ep : Endpoint) (t : ReplyToken)
    → ((c : ObjectId)
        → ((reply ep t).0 ≡ ok (wake c))
          ↔ ((ep.is_closed ≡ false) × (serving ep.state ≡ some (c, t))))
      × (is_error (reply ep t).0 ≡ true → (reply ep t).1 ≡ ep)
      × (is_error (reply ep t).0 ≡ false
          → (u : ReplyToken) → is_error (reply (reply ep t).1 u).0 ≡ true)
reply_serves ep t = (
  (λ c. reply_exact ep.state ep.reply_sequence ep.is_closed t c),
  (λ h. reply_kept ep.state ep.reply_sequence ep.is_closed t h),
  (λ h u. reply_spent ep.state ep.reply_sequence ep.is_closed t u h),
)
