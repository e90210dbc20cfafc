-- ===== src/Notification/Sleepers.antt =====
-- crates/kernel-core/src/notification.rs: which threads sleep, and who is woken.
use gaxera.Prelude.{
  ℕ, ◌≡◌, ◌≢◌, Bool, true, false, not, ◌&&◌, Option, none, some, List, [], ◌∷◌, bit_or, Result, ok,
  err, arith, retain, ◌⊎◌, inl, inr, sym, ◌∙◌, ap, refl,
}
use Prim.Native.Nat.{bit_or-bitwise}
use gaxera.Abi.Ids.{ObjectId, same_id, same_id_iff}
use gaxera.Notification.{
  NotificationError, Waited, Notification, taken, blocked, signal, take_signals, wait, clear, close,
  inc_capability_ref, dec_capability_ref,
}
use gaxera.Notification.Signals.{
  IsValid, Event, signals, closes, waits, after, after_all, after_all-IsValid,
}

-- The threads that sleep, read off the answers: one that is told to block is added, one that is
-- given out to be woken is taken off.
unfoldable pub roused : Option ObjectId → List ObjectId → List ObjectId
unfolding same_id retain
roused none ts = ts
roused (some t) ts = retain (λ u. not (same_id u t)) ts

unfoldable pub fallen : Result Waited NotificationError → List ObjectId → List ObjectId
fallen (ok (blocked t)) ts = t ∷ ts
fallen (ok (taken m)) ts = ts
fallen (err e) ts = ts

unfoldable pub sleepers : Notification → Event → List ObjectId → List ObjectId
unfolding roused fallen signal wait close
sleepers n (signals m) ts = roused (signal n m).0 ts
sleepers n closes ts = roused (close n).0 ts
sleepers n (waits t) ts = fallen (wait n t).0 ts
sleepers n e ts = ts

unfoldable pub sleepers_after : Notification → List Event → List ObjectId → List ObjectId
unfolding sleepers after
sleepers_after n [] ts = ts
sleepers_after n (e ∷ es) ts = sleepers_after (after n e) es (sleepers n e ts)

abbrev is_free : Event → List ObjectId → Bool
is_free (waits t) (u ∷ ts) = false
is_free e ts = true

-- Whether each wait comes when no thread sleeps.
unfoldable pub one_at_a_time : Notification → List Event → List ObjectId → Bool
unfolding sleepers after
one_at_a_time n [] ts = true
one_at_a_time n (e ∷ es) ts =
    let rest = one_at_a_time (after n e) es (sleepers n e ts) in is_free e ts && rest

abbrev recorded : Option ObjectId → List ObjectId
recorded none = []
recorded (some t) = t ∷ []

abbrev pub with_waiter : ℕ → ℕ → Bool → Option ObjectId → Notification
with_waiter m refs shut w = record {
  signals = m;
  waiting_thread = w;
  capability_refs = refs;
  is_closed = shut;
}

same_id_refl : (t : ObjectId) → same_id t t ≡ true
same_id_refl t = (same_id_iff t t).1 refl

sleepers-recorded :
    (m refs : ℕ) (shut : Bool) (w : Option ObjectId) (e : Event)
    → is_free e (recorded w) ≡ true
    → sleepers (with_waiter m refs shut w) e (recorded w)
      ≡ recorded (after (with_waiter m refs shut w) e).waiting_thread
unfolding sleepers roused fallen after signal take_signals close inc_capability_ref
    dec_capability_ref wait clear retain
sleepers-recorded m refs shut none e h = ground arith
sleepers-recorded m refs shut (some t) e h = ground (arith, same_id_refl t)

sleepers_after-recorded :
    (n : Notification) (es : List Event) (ts : List ObjectId)
    → ts ≡ recorded n.waiting_thread
    → one_at_a_time n es ts ≡ true
    → sleepers_after n es ts ≡ recorded (after_all n es).waiting_thread
unfolding sleepers_after one_at_a_time after_all
sleepers_after-recorded n [] ts e h = e
sleepers_after-recorded n (x ∷ es) ts e h =
    sleepers_after-recorded (after n x) es (sleepers n x ts)
      (ap (sleepers n x) e
        ∙ sleepers-recorded n.signals n.capability_refs n.is_closed n.waiting_thread x
            (ground arith))
      (ground arith)

-- Of a thread that is recorded as waiting: it sleeps with no signal there, and is woken.
wakes :
    (m refs : ℕ) (shut : Bool) (w : Option ObjectId)
    → IsValid (with_waiter m refs shut w)
    → (recorded w ≡ [])
      ⊎ ((t : ObjectId) × (recorded w ≡ t ∷ [])
          × (m ≡ 0)
          × (shut ≡ false)
          × ((a : ℕ) → a ≢ 0 → (signal (with_waiter m refs shut w) a).0 ≡ some t)
          × ((close (with_waiter m refs shut w)).0 ≡ some t))
unfolding signal close
wakes m refs shut none v = inl refl
wakes m refs shut (some t) v = inr (
  t,
  refl,
  v.asleep (ground arith),
  ground arith,
  (λ a some_bit. let same : bit_or 0 a ≡ a = bit_or-bitwise 0 a in ground (arith, v.asleep)),
  refl,
)

-- Starting with no thread asleep, and with no signal if closed, and through any signals, waits,
-- takes, clears, reference counts and closings of which each wait comes when no thread sleeps: the
-- notification stays valid, and either no thread sleeps at the end, or exactly one does, the
-- notification is open and holds no signal, any signal with a bit set wakes that thread, and so
-- does closing. A thread sleeps from the wait that tells it to block until a signal or a closing
-- gives it out.
pub after_all-wakes :
    (n : Notification) (es : List Event)
    → IsValid n
    → n.waiting_thread ≡ none
    → one_at_a_time n es [] ≡ true
    → let n' = after_all n es in
      let ts = sleepers_after n es [] in
      IsValid n'
      × ((ts ≡ [])
          ⊎ ((t : ObjectId) × (ts ≡ t ∷ [])
              × (n'.signals ≡ 0)
              × (n'.is_closed ≡ false)
              × ((a : ℕ) → a ≢ 0 → (signal n' a).0 ≡ some t)
              × ((close n').0 ≡ some t)))
after_all-wakes n es v nobody alone =
    let n' = after_all n es in
    let e : sleepers_after n es [] ≡ recorded n'.waiting_thread =
      sleepers_after-recorded n es [] (sym (ap recorded nobody)) alone in
    let valid = after_all-IsValid n es v in
    (
      valid,
      elim (wakes n'.signals n'.capability_refs n'.is_closed n'.waiting_thread valid) [
        | inl nothing ↦ inl (e ∙ nothing)
        | inr (t, at, none_there, unshut, woken, rung) ↦
            inr (t, e ∙ at, none_there, unshut, woken, rung)
      ],
    )
