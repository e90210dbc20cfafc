-- ===== src/Timer/Fires.antt =====
-- crates/kernel-core/src/timer.rs: the life of one timer.
use gaxera.Prelude.{◌≡◌, true, false, ok, err, List, [], ◌∷◌, arith}
use gaxera.Abi.Ids.{ObjectId}
use gaxera.Timer.{TimerObject, Deadline, idle, closed, not_armed, arm, cancel, fire, close}

pub data Event : Type 0 where
  arms : Deadline → ObjectId → Event
  cancels fires closes : Event

pub after : TimerObject → Event → TimerObject
after t (arms deadline notification) = (arm t deadline notification).1
after t cancels = (cancel t).1
after t fires = (fire t).1
after t closes = (close t).1

pub after_all : TimerObject → List Event → TimerObject
after_all t [] = t
after_all t (e ∷ es) = after_all (after t e) es

-- Closed with nothing armed.
pub IsSpent : TimerObject → Type 0
IsSpent t = (t.is_closed ≡ true) × (t.state ≡ idle)

after-IsSpent : (t : TimerObject) (e : Event) → IsSpent t → IsSpent (after t e)
unfolding after IsSpent arm cancel fire close
after-IsSpent t (arms deadline notification) h = ground arith
after-IsSpent t cancels h = ground arith
after-IsSpent t fires h = ground arith
after-IsSpent t closes h = ground arith

-- An open timer that has been armed fires once, for the notification of the last arming: until it is armed
-- again, a second firing or cancelling is refused. One that is cancelled instead does not fire. After
-- a close, whatever is done next, every arming, cancelling and firing is refused.
pub fire-arm :
    (t : TimerObject) (deadline : Deadline) (notification : ObjectId) (es : List Event)
    → t.is_closed ≡ false
    → let set = (arm t deadline notification).1 in
      let spent = after_all (close set).1 es in
      ((fire set).0 ≡ ok notification)
      × ((fire (fire set).1).0 ≡ err not_armed)
      × ((cancel (fire set).1).0 ≡ err not_armed)
      × ((fire (cancel set).1).0 ≡ err not_armed)
      × ((close set).0 ≡ true)
      × ((arm spent deadline notification).0 ≡ err closed)
      × ((cancel spent).0 ≡ err closed)
      × ((fire spent).0 ≡ err closed)
unfolding arm cancel fire close IsSpent after_all
fire-arm t deadline notification es h =
    let (shut, rest) = stays (close (arm t deadline notification).1).1 es (ground arith) in
    (
      ground arith,
      ground arith,
      ground arith,
      ground arith,
      ground arith,
      ground arith,
      ground arith,
      ground arith,
    )
  where
    stays : (u : TimerObject) (fs : List Event) → IsSpent u → IsSpent (after_all u fs)
    stays u [] v = v
    stays u (f ∷ fs) v = stays (after u f) fs (after-IsSpent u f v)
