-- ===== src/WaitSet/Valid.antt =====
-- crates/kernel-core/src/waitset.rs: the invariant of a wait set over every operation.
use gaxera.Prelude.{
  ℕ, ◌≤◌, ◌≡◌, ◌≢◌, ◌⊎◌, inl, inr, refl, Bool, true, false, not, ◌&&◌, none, some, List, [], ◌∷◌,
  ◌++◌, length, bit_or, ◌==◌, if◌then◌else◌, arith, Bool-cases,
}
use gaxera.Abi.Ids.{ObjectId, same_id, same_id_iff}
use gaxera.WaitSet.{
  Subscription, WaitSetEvent, WaitSet, max_waitset_subscriptions, is_registered, find_subscription,
  without, coalesce,
}
use gaxera.WaitSet.Cookies.{member, are_distinct, all_in, distinct_le}

unfoldable pub event_cookies : List WaitSetEvent → List ℕ
event_cookies [] = []
event_cookies (e ∷ es) = e.cookie ∷ event_cookies es

unfoldable pub cookies : List Subscription → List ℕ
cookies [] = []
cookies (s ∷ ss) = s.cookie ∷ cookies ss

-- No object is subscribed twice.
unfoldable pub are_apart : List Subscription → Bool
unfolding is_registered
are_apart [] = true
are_apart (s ∷ ss) = not (is_registered s.object ss) && are_apart ss

-- At most one event for a cookie, and only for the cookies of subscriptions.
pub record IsValid (ws : WaitSet) : Type 0 where
  pub within : length ws.subscriptions ≤ max_waitset_subscriptions
  pub apart : are_apart ws.subscriptions ≡ true
  pub distinct : are_distinct (event_cookies ws.ready_events) ≡ true
  pub subscribed : all_in (event_cookies ws.ready_events) (cookies ws.subscriptions) ≡ true

length-event_cookies : (es : List WaitSetEvent) → length (event_cookies es) ≡ length es
unfolding event_cookies
length-event_cookies [] = refl
length-event_cookies (e ∷ es) = ground (arith, length-event_cookies es)

length-cookies : (ss : List Subscription) → length (cookies ss) ≡ length ss
unfolding cookies
length-cookies [] = refl
length-cookies (s ∷ ss) = ground (arith, length-cookies ss)

-- No more events are ready than there are subscriptions.
pub ready_le : (ws : WaitSet) → IsValid ws → length ws.ready_events ≤ length ws.subscriptions
ready_le ws v = omega (
  arith,
  distinct_le (event_cookies ws.ready_events) (cookies ws.subscriptions) v.distinct v.subscribed,
  length-event_cookies ws.ready_events,
  length-cookies ws.subscriptions,
)

is_registered-append :
    (o : ObjectId) (ss : List Subscription) (s : Subscription)
    → is_registered o (ss ++ s ∷ []) ≡ (if is_registered o ss then true else same_id s.object o)
unfolding is_registered
is_registered-append o [] s = ground arith
is_registered-append o (x ∷ ss) s = ground (arith, is_registered-append o ss s)

pub are_apart-append :
    (ss : List Subscription) (s : Subscription)
    → are_apart ss ≡ true
    → is_registered s.object ss ≡ false
    → are_apart (ss ++ s ∷ []) ≡ true
unfolding are_apart is_registered same_id
are_apart-append [] s a out = ground arith
are_apart-append (x ∷ ss) s a out =
    ground (arith, are_apart-append ss s, is_registered-append x.object ss s)

pub member-cookies-append :
    (c : ℕ) (ss : List Subscription) (s : Subscription)
    → member c (cookies ss) ≡ true
    → member c (cookies (ss ++ s ∷ [])) ≡ true
unfolding member cookies
member-cookies-append c [] s h = absurd (cc)
member-cookies-append c (x ∷ ss) s h = ground (arith, member-cookies-append c ss s)

-- What `find_subscription` finds is a subscription.
pub member-find_subscription :
    (o : ObjectId) (ss : List Subscription) (s : Subscription)
    → find_subscription o ss ≡ some s
    → member s.cookie (cookies ss) ≡ true
unfolding find_subscription member cookies
member-find_subscription o [] s h = absurd (cc)
member-find_subscription o (x ∷ ss) s h = ground (arith, member-find_subscription o ss s)

pub event_cookies-append :
    (es : List WaitSetEvent) (e : WaitSetEvent)
    → event_cookies (es ++ e ∷ []) ≡ event_cookies es ++ e.cookie ∷ []
unfolding event_cookies
event_cookies-append [] e = refl
event_cookies-append (x ∷ es) e = ground (arith, event_cookies-append es e)

-- An event that is merged was there, and the cookies stay; one that is not was not there.
pub coalesce_cases :
    (c m : ℕ) (es : List WaitSetEvent)
    → ((merged : List WaitSetEvent) × (coalesce c m es ≡ some merged)
        × (event_cookies merged ≡ event_cookies es))
      ⊎ ((coalesce c m es ≡ none) × (member c (event_cookies es) ≡ false))
unfolding coalesce event_cookies member
coalesce_cases c m [] = inr (refl, refl)
coalesce_cases c m (e ∷ es) = elim (Bool-cases (e.cookie == c)) [
  | inl hit ↦ inl (record e { signals = bit_or e.signals m } ∷ es, ground arith, refl)
  | inr miss ↦ elim (coalesce_cases c m es) [
    | inl (merged, found, same) ↦ inl (e ∷ merged, ground arith, ground arith)
    | inr (missing, out) ↦ inr (ground arith, ground arith)
  ]
]

is_registered-without :
    (o p : ObjectId) (ss : List Subscription)
    → is_registered p ss ≡ false
    → is_registered p (without o ss) ≡ false
unfolding is_registered without
is_registered-without o p [] h = refl
is_registered-without o p (s ∷ ss) h = ground (arith, is_registered-without o p ss)

pub are_apart-without :
    (o : ObjectId) (ss : List Subscription) → are_apart ss ≡ true → are_apart (without o ss) ≡ true
unfolding are_apart without
are_apart-without o [] h = refl
are_apart-without o (s ∷ ss) h =
    ground (arith, are_apart-without o ss, is_registered-without o s.object ss)

pub length-without : (o : ObjectId) (ss : List Subscription) → length (without o ss) ≤ length ss
unfolding without
length-without o [] = omega arith
length-without o (s ∷ ss) = ground (arith, length-without o ss)

without_absent :
    (o : ObjectId) (ss : List Subscription) → is_registered o ss ≡ false → without o ss ≡ ss
unfolding without is_registered
without_absent o [] h = refl
without_absent o (s ∷ ss) h = ground (arith, without_absent o ss)

-- The other cookies stay when the only subscription of an object goes.
pub member-without :
    (o : ObjectId) (ss : List Subscription) (s : Subscription) (c : ℕ)
    → are_apart ss ≡ true
    → find_subscription o ss ≡ some s
    → s.cookie ≢ c
    → member c (cookies ss) ≡ true
    → member c (cookies (without o ss)) ≡ true
unfolding are_apart find_subscription member cookies without
member-without o [] s c a f ne h = absurd (cc)
member-without o (x ∷ ss) s c a f ne h =
    ground (arith, member-without o ss s c, without_absent o ss, same_id_iff x.object o)
