-- ===== src/Scheduler/Queues.antt =====
-- crates/kernel-core/src/scheduler.rs: the queues seen as one line of threads, those of the highest
-- priority first.
use mathlib.Core.List.{append_assoc, append-nil}
use gaxera.Prelude.{
  ℕ, zero, suc, ◌≤◌, ◌<◌, ◌≡◌, ◌⊎◌, inl, inr, refl, sym, ◌∙◌, ap, Bool, true, false, none, some,
  List, [], ◌∷◌, ◌++◌, length, set, ◌==◌, if◌then◌else◌, arith, Bool-cases,
}
use gaxera.Abi.Ids.{ObjectId, same_id, same_id_iff}
use gaxera.Scheduler.{queue_at, take_first, queue_contains}

unfoldable pub ready_of : List (List ObjectId) → List ObjectId
ready_of [] = []
ready_of (q ∷ qs) = ready_of qs ++ q

-- The threads of priority `p` and above, and those below.
unfoldable pub ready_from : ℕ → List (List ObjectId) → List ObjectId
unfolding ready_of
ready_from zero qs = ready_of qs
ready_from (suc p) [] = []
ready_from (suc p) (q ∷ qs) = ready_from p qs

unfoldable pub ready_below : ℕ → List (List ObjectId) → List ObjectId
ready_below zero qs = []
ready_below (suc p) [] = []
ready_below (suc p) (q ∷ qs) = ready_below p qs ++ q

pub queue_at-set :
    (qs : List (List ObjectId)) (p q : ℕ) (v : List ObjectId)
    → p < length qs
    → queue_at (set qs p v) q ≡ (if p == q then v else queue_at qs q)
queue_at-set [] p q v h = absurd (omega arith)
queue_at-set (x ∷ qs) zero zero v h = ground arith
queue_at-set (x ∷ qs) zero (suc q) v h = ground arith
queue_at-set (x ∷ qs) (suc p) zero v h = ground arith
queue_at-set (x ∷ qs) (suc p) (suc q) v h = ground (arith, queue_at-set qs p q v (omega arith))

pub ready_from-suc :
    (p : ℕ) (qs : List (List ObjectId)) → ready_from p qs ≡ ready_from (suc p) qs ++ queue_at qs p
unfolding ready_from
ready_from-suc zero [] = refl
ready_from-suc zero (q ∷ qs) = refl
ready_from-suc (suc p) [] = refl
ready_from-suc (suc p) (q ∷ qs) = ready_from-suc p qs

pub ready_of-split :
    (p : ℕ) (qs : List (List ObjectId)) → ready_of qs ≡ ready_from p qs ++ ready_below p qs
unfolding ready_of ready_from ready_below
ready_of-split zero qs = sym (append-nil (ready_of qs))
ready_of-split (suc p) [] = refl
ready_of-split (suc p) (q ∷ qs) =
    ap (λ (l : List ObjectId). l ++ q) (ready_of-split p qs)
    ∙ append_assoc (ready_from p qs) (ready_below p qs) q

-- Writing one queue.
pub ready_of-set :
    (p : ℕ) (qs : List (List ObjectId)) (v : List ObjectId)
    → p < length qs
    → ready_of (set qs p v) ≡ ready_from (suc p) qs ++ (v ++ ready_below p qs)
unfolding ready_of ready_from ready_below
ready_of-set p [] v h = absurd (omega arith)
ready_of-set zero (q ∷ qs) v h = ap (λ (l : List ObjectId). ready_of qs ++ l) (sym (append-nil v))
ready_of-set (suc p) (q ∷ qs) v h =
    ap (λ (l : List ObjectId). l ++ q) (ready_of-set p qs v (omega arith))
    ∙ append_assoc (ready_from (suc p) qs) (v ++ ready_below p qs) q
    ∙ ap (λ (l : List ObjectId). ready_from (suc p) qs ++ l) (append_assoc v (ready_below p qs) q)

pub ready_of-queue :
    (p : ℕ) (qs : List (List ObjectId))
    → ready_of qs ≡ ready_from (suc p) qs ++ (queue_at qs p ++ ready_below p qs)
ready_of-queue p qs =
    ready_of-split p qs
    ∙ ap (λ (l : List ObjectId). l ++ ready_below p qs) (ready_from-suc p qs)
    ∙ append_assoc (ready_from (suc p) qs) (queue_at qs p) (ready_below p qs)

-- Nothing stands above a priority when every queue above is empty.
pub ready_from_empty :
    (p : ℕ) (qs : List (List ObjectId))
    → ((q : ℕ) → p ≤ q → q < length qs → queue_at qs q ≡ [])
    → ready_from p qs ≡ []
unfolding ready_from ready_of
ready_from_empty zero [] h = refl
ready_from_empty zero (q ∷ qs) h = ground (
  arith,
  ready_from_empty zero qs (λ r k l. h (suc r) (omega arith) (omega arith)),
  h 0 (omega arith) (omega arith),
)
ready_from_empty (suc p) [] h = refl
ready_from_empty (suc p) (q ∷ qs) h =
    ready_from_empty p qs (λ r k l. h (suc r) (omega arith) (omega arith))

-- The first thread that passes, between those before it, which fail, and those after it.
pub take_first_cases :
    (test : ObjectId → Bool) (q : List ObjectId)
    → ((before : List ObjectId) × (t : ObjectId) × (rest : List ObjectId) × (take_first test q
          ≡ some (t, before ++ rest))
        × (q ≡ before ++ t ∷ rest)
        × (test t ≡ true))
      ⊎ ((take_first test q ≡ none) × ((t : ObjectId) → queue_contains t q ≡ true → test t ≡ false))
unfolding take_first queue_contains
take_first_cases test [] = inr (refl, λ t h. absurd (cc))
take_first_cases test (x ∷ q) = elim (Bool-cases (test x)) [
  | inl hit ↦ inl ([], x, q, ground arith, refl, hit)
  | inr miss ↦ elim (take_first_cases test q) [
    | inl (before, t, rest, e, at, pass) ↦
        inl (x ∷ before, t, rest, ground arith, ground arith, pass)
    | inr (e, fail) ↦ inr (
      ground arith,
      λ t h. elim (Bool-cases (same_id x t)) [
        | inl same ↦ ground (arith, same_id_iff x t)
        | inr other ↦ fail t (ground arith)
      ],
    )
  ]
]
