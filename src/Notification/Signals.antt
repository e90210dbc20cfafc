-- ===== src/Notification/Signals.antt =====
-- crates/kernel-core/src/notification.rs: the invariant over every operation, and a wait that is answered.
use gaxera.Prelude.{
  ℕ, ◌-◌, ◌^◌, ◌≡◌, ◌≢◌, true, false, none, some, List, [], ◌∷◌, bit_or, ok, arith,
}
use Prim.Native.Nat.{bit_or-bitwise}
use gaxera.Prelude.Bits.{zero-bit_and}
use gaxera.Abi.Ids.{ObjectId}
use gaxera.Notification.{
  Notification, taken, blocked, signal, take_signals, wait, clear, close, inc_capability_ref,
  dec_capability_ref,
}

-- A thread waits only while no signal is there, and a closed notification has neither.
pub record IsValid (n : Notification) : Type 0 where
  pub asleep : n.waiting_thread ≢ none → n.signals ≡ 0
  pub quiet : n.is_closed ≡ true → (n.signals ≡ 0) × (n.waiting_thread ≡ none)

pub data Event : Type 0 where
  signals : ℕ → Event
  takes closes gets_ref drops_ref : Event
  waits : ObjectId → Event
  clears : ℕ → Event

unfoldable pub after : Notification → Event → Notification
after n (signals m) = (signal n m).1
after n takes = (take_signals n).1
after n closes = (close n).1
after n gets_ref = (inc_capability_ref n).1
after n drops_ref = (dec_capability_ref n).1
after n (waits t) = (wait n t).1
after n (clears m) = (clear n m).1

unfoldable pub after_all : Notification → List Event → Notification
after_all n [] = n
after_all n (e ∷ es) = after_all (after n e) es

after-IsValid : (n : Notification) (e : Event) → IsValid n → IsValid (after n e)
unfolding after signal take_signals close inc_capability_ref dec_capability_ref wait clear
after-IsValid n (clears m) v = ground (arith, zero-bit_and (2 ^ 32 - 1 - m))
after-IsValid n (waits t) v = ground arith
after-IsValid n e v = ground arith

pub after_all-IsValid : (n : Notification) (es : List Event) → IsValid n → IsValid (after_all n es)
unfolding after_all
after_all-IsValid n [] v = v
after_all-IsValid n (e ∷ es) v = after_all-IsValid (after n e) es (after-IsValid n e v)

-- Of an open notification without signals: a thread that waits is blocked; the next signal
-- with a bit set wakes exactly that thread; and its next wait takes exactly the bits of that signal
-- and of one more that came meanwhile, which are not all zero, and leaves none.
pub wait-signal :
    (n : Notification) (thread : ObjectId) (a b : ℕ)
    → n.is_closed ≡ false
    → n.signals ≡ 0
    → a ≢ 0
    → bit_or a b ≢ 0
    → let asleep = wait n thread in
      let woken = signal asleep.1 a in
      let again = signal woken.1 b in
      let done = wait again.1 thread in
      (asleep.0 ≡ ok (blocked thread))
      × (woken.0 ≡ some thread)
      × (again.0 ≡ none)
      × (done.0 ≡ ok (taken (bit_or a b)))
      × (done.1 ≡ record n { waiting_thread = none })
unfolding wait signal take_signals
wait-signal n thread a b shut none_there some_bit more =
    let same : bit_or 0 a ≡ a = bit_or-bitwise 0 a in
    (ground arith, ground arith, ground arith, ground arith, ground arith)
