-- ===== src/Interrupt/Delivery.antt =====
-- crates/kernel-core/src/interrupt.rs: when an interrupt reaches its notification.
use gaxera.Prelude.{
  ◌≡◌, Bool, true, false, not, ◌&&◌, none, some, List, [], ◌∷◌, is_some, ok, arith,
}
use gaxera.Abi.Ids.{ObjectId}
use gaxera.Interrupt.{
  InterruptObject, bind_notification, unbind_notification, mask, unmask, begin_delivery,
  acknowledge, close,
}

pub data Event : Type 0 where
  binds : ObjectId → Event
  unbinds masks unmasks delivers acknowledges closes : Event

pub after : InterruptObject → Event → InterruptObject
after i (binds notification) = (bind_notification i notification).1
after i unbinds = (unbind_notification i).1
after i masks = mask i
after i unmasks = unmask i
after i delivers = (begin_delivery i).1
after i acknowledges = (acknowledge i).1
after i closes = close i

pub after_all : InterruptObject → List Event → InterruptObject
after_all i [] = i
after_all i (e ∷ es) = after_all (after i e) es

-- The line is open only while it is bound and nothing is in flight.
pub record IsGuarded (i : InterruptObject) : Type 0 where
  pub in_flight_masked : i.in_flight ≡ true → (i.masked && is_some i.bound_notification) ≡ true
  pub open_bound : i.masked ≡ false → is_some i.bound_notification ≡ true
  pub shut : i.is_closed ≡ true → is_some i.bound_notification ≡ false

after-IsGuarded : (i : InterruptObject) (e : Event) → IsGuarded i → IsGuarded (after i e)
unfolding after bind_notification unbind_notification mask unmask begin_delivery acknowledge close
after-IsGuarded i (binds notification) v = ground (arith, v)
after-IsGuarded i unbinds v = ground (arith, v)
after-IsGuarded i masks v = ground (arith, v)
after-IsGuarded i unmasks v = ground (arith, v)
after-IsGuarded i delivers v = ground (arith, v)
after-IsGuarded i acknowledges v = ground (arith, v)
after-IsGuarded i closes v = ground (arith, v)

-- Whatever is done with an interrupt object: if it was guarded at first, its line is masked while an
-- interrupt is in flight, is open only while a notification is bound, and is not open once the object
-- is closed.
pub after_all-IsGuarded :
    (i : InterruptObject) (es : List Event) → IsGuarded i → IsGuarded (after_all i es)
unfolding after_all
after_all-IsGuarded i [] v = v
after_all-IsGuarded i (e ∷ es) v = after_all-IsGuarded (after i e) es (after-IsGuarded i e v)

abbrev settles : Event → Bool
settles acknowledges = true
settles unbinds = true
settles closes = true
settles _ = false

unfoldable pub none_settles : List Event → Bool
none_settles [] = true
none_settles (e ∷ es) = not (settles e) && none_settles es

abbrev pub InFlight : InterruptObject → Type 0
InFlight i =
    (i.is_closed ≡ false)
    × (i.in_flight ≡ true)
    × (i.masked ≡ true)
    × (is_some i.bound_notification ≡ true)

stays : (i : InterruptObject) (e : Event) → settles e ≡ false → InFlight i → InFlight (after i e)
unfolding after bind_notification unbind_notification mask unmask begin_delivery acknowledge close
stays i (binds notification) s h = ground arith
stays i unbinds s h = absurd (ground arith)
stays i masks s h = ground arith
stays i unmasks s h = ground arith
stays i delivers s h = ground arith
stays i acknowledges s h = absurd (ground arith)
stays i closes s h = absurd (ground arith)

stays_all :
    (i : InterruptObject) (es : List Event)
    → none_settles es ≡ true
    → InFlight i
    → InFlight (after_all i es)
unfolding after_all none_settles
stays_all i [] s h = h
stays_all i (e ∷ es) s h = stays_all (after i e) es (ground arith) (stays i e (ground arith) h)

-- Once an interrupt has been delivered to a notification, no other is delivered, whatever is done, until it
-- is acknowledged, or the notification is unbound or the object closed: also an unmask does not open the
-- line.
pub delivers_once :
    (i : InterruptObject) (notification : ObjectId) (es : List Event)
    → (begin_delivery i).0 ≡ ok (some notification)
    → none_settles es ≡ true
    → let later = after_all (begin_delivery i).1 es in
      (begin_delivery later ≡ (ok none, later)) × (later.masked ≡ true)
unfolding begin_delivery
delivers_once i notification es h s =
    let flight : InFlight (begin_delivery i).1 = ground arith in
    let (is_open, flying, shut, bound) = stays_all (begin_delivery i).1 es s flight in
    (ground (arith, is_open, flying, shut, bound), shut)
