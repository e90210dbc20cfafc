-- ===== src/Notification/Stranded.antt =====
-- crates/kernel-core/src/notification.rs: a second thread that waits while one sleeps.
use gaxera.Prelude.{
  ℕ, ◌≡◌, Bool, true, false, ◌||◌, if◌then◌else◌, Option, none, some, List, [], ◌∷◌, Result, ok,
  arith, retain, sym, ap, subst, refl,
}
use gaxera.Abi.Ids.{ObjectId, same_id, same_id_iff}
use gaxera.Notification.{
  NotificationError, Waited, Notification, blocked, signal, take_signals, wait, clear, close,
  inc_capability_ref, dec_capability_ref,
}
use gaxera.Notification.Signals.{Event, waits, after}
use gaxera.Notification.Sleepers.{with_waiter, roused, fallen, sleepers, sleepers_after}

abbrev is_waiter : Option ObjectId → ObjectId → Bool
is_waiter none t = false
is_waiter (some u) t = same_id u t

unfoldable pub is_among : ObjectId → List ObjectId → Bool
unfolding same_id
is_among t [] = false
is_among t (u ∷ us) = let rest = is_among t us in if same_id u t then true else rest

abbrev is_wait_of : ObjectId → Event → Bool
is_wait_of t (waits u) = same_id u t
is_wait_of t e = false

unfoldable pub waits_again : ObjectId → List Event → Bool
unfolding same_id
waits_again t [] = false
waits_again t (e ∷ es) = let rest = waits_again t es in is_wait_of t e || rest

is_among-roused :
    (t u : ObjectId) (us : List ObjectId)
    → same_id u t ≡ false
    → is_among t us ≡ true
    → is_among t (roused (some u) us) ≡ true
unfolding is_among roused retain
is_among-roused t u [] other h = absurd (ground arith)
is_among-roused t u (x ∷ us) other h =
    ground (arith, is_among-roused t u us, same_id_iff x t, same_id_iff x u, same_id_iff u t)

roused-none : (ts : List ObjectId) → roused none ts ≡ ts
unfolding roused
roused-none ts = refl

is_among-sleepers :
    (t : ObjectId) (m refs : ℕ) (shut : Bool) (w : Option ObjectId) (e : Event) (ts : List ObjectId)
    → is_waiter w t ≡ false
    → is_wait_of t e ≡ false
    → is_among t ts ≡ true
    → let n = with_waiter m refs shut w in
      (is_waiter (after n e).waiting_thread t ≡ false) × (is_among t (sleepers n e ts) ≡ true)
unfolding sleepers fallen after signal take_signals close inc_capability_ref dec_capability_ref wait
    clear is_among
is_among-sleepers t m refs shut none e ts other again h = ground (arith, roused-none ts)
is_among-sleepers t m refs shut (some u) e ts other again h =
    ground (arith, is_among-roused t u ts, roused-none ts)

strands :
    (t : ObjectId) (n : Notification) (es : List Event) (ts : List ObjectId)
    → is_waiter n.waiting_thread t ≡ false
    → waits_again t es ≡ false
    → is_among t ts ≡ true
    → is_among t (sleepers_after n es ts) ≡ true
unfolding waits_again sleepers_after
strands t n [] ts other again h = h
strands t n (e ∷ es) ts other again h =
    let one =
      is_among-sleepers t n.signals n.capability_refs n.is_closed n.waiting_thread e ts other
        (ground arith) h in
    strands t (after n e) es (sleepers n e ts) one.0 (ground arith) one.1

-- On an open notification without signals where a thread sleeps, another thread that waits is also told
-- to block, and takes the place of the first. Whatever signals, waits of others, takes, clears, reference counts and
-- closings follow, the first thread then never wakes.
pub second_wait_strands :
    (n : Notification) (t u : ObjectId) (es : List Event)
    → n.is_closed ≡ false
    → n.signals ≡ 0
    → n.waiting_thread ≡ some t
    → same_id u t ≡ false
    → waits_again t es ≡ false
    → let second = wait n u in
      (second.0 ≡ ok (blocked u))
      × (second.1 ≡ record n { waiting_thread = some u })
      × (is_among t (sleepers_after second.1 es (fallen second.0 (t ∷ []))) ≡ true)
unfolding wait
second_wait_strands n t u es unshut none_there asleep other again =
    let told : wait n u ≡ (ok (blocked u), record n { waiting_thread = some u }) = ground arith in
    (
      ap (λ (r : Result Waited NotificationError × Notification). r.0) told,
      ap (λ (r : Result Waited NotificationError × Notification). r.1) told,
      subst
          (λ (r : Result Waited NotificationError × Notification).
            is_among t (sleepers_after r.1 es (fallen r.0 (t ∷ []))) ≡ true)
          (sym told)
          (unfold fallen in
            unfold is_among in
            strands t (record n { waiting_thread = some u }) es (u ∷ t ∷ []) other again
              (ground (arith, same_id_iff t t))),
    )
