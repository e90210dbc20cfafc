-- ===== src/WaitSet/Cookies.antt =====
-- Lists of cookies without repetition, for crates/kernel-core/src/waitset.rs.
use gaxera.Prelude.{
  ℕ, ◌+◌, ◌≤◌, ◌≡◌, ◌≢◌, refl, Bool, true, false, not, ◌&&◌, List, [], ◌∷◌, ◌++◌, length, ◌==◌,
  if◌then◌else◌, arith,
}

unfoldable pub member : ℕ → List ℕ → Bool
member c [] = false
member c (x ∷ xs) = let rest = member c xs in if x == c then true else rest

unfoldable pub are_distinct : List ℕ → Bool
unfolding member
are_distinct [] = true
are_distinct (x ∷ xs) = not (member x xs) && are_distinct xs

unfoldable pub all_in : List ℕ → List ℕ → Bool
unfolding member
all_in [] ys = true
all_in (x ∷ xs) ys = member x ys && all_in xs ys

unfoldable remove_one : ℕ → List ℕ → List ℕ
remove_one c [] = []
remove_one c (x ∷ xs) = let rest = remove_one c xs in if x == c then xs else x ∷ rest

length-remove_one :
    (c : ℕ) (xs : List ℕ) → member c xs ≡ true → length (remove_one c xs) + 1 ≡ length xs
unfolding member remove_one
length-remove_one c [] h = absurd (cc)
length-remove_one c (x ∷ xs) h = ground (arith, length-remove_one c xs)

member-remove_one :
    (c d : ℕ) (xs : List ℕ) → member d xs ≡ true → c ≢ d → member d (remove_one c xs) ≡ true
unfolding member remove_one
member-remove_one c d [] h ne = absurd (cc)
member-remove_one c d (x ∷ xs) h ne = ground (arith, member-remove_one c d xs)

all_in-remove_one :
    (c : ℕ) (xs ys : List ℕ)
    → all_in xs ys ≡ true
    → member c xs ≡ false
    → all_in xs (remove_one c ys) ≡ true
unfolding all_in member
all_in-remove_one c [] ys h out = refl
all_in-remove_one c (x ∷ xs) ys h out =
    ground (arith, all_in-remove_one c xs ys, member-remove_one c x ys)

-- Distinct cookies from a list are no more than its length.
pub distinct_le :
    (xs ys : List ℕ) → are_distinct xs ≡ true → all_in xs ys ≡ true → length xs ≤ length ys
unfolding are_distinct all_in
distinct_le [] ys d h = omega arith
distinct_le (x ∷ xs) ys d h =
    ground
      (arith, distinct_le xs (remove_one x ys), all_in-remove_one x xs ys, length-remove_one x ys)

pub member-append_one :
    (c d : ℕ) (xs : List ℕ) → member d (xs ++ c ∷ []) ≡ (if c == d then true else member d xs)
unfolding member
member-append_one c d [] = ground arith
member-append_one c d (x ∷ xs) = ground (arith, member-append_one c d xs)

pub are_distinct-append_one :
    (c : ℕ) (xs : List ℕ)
    → are_distinct xs ≡ true
    → member c xs ≡ false
    → are_distinct (xs ++ c ∷ []) ≡ true
unfolding are_distinct member
are_distinct-append_one c [] d out = ground arith
are_distinct-append_one c (x ∷ xs) d out =
    ground (arith, are_distinct-append_one c xs, member-append_one c x xs)

pub all_in-append_one :
    (c : ℕ) (xs ys : List ℕ)
    → all_in xs ys ≡ true
    → member c ys ≡ true
    → all_in (xs ++ c ∷ []) ys ≡ true
unfolding all_in
all_in-append_one c [] ys h m = ground arith
all_in-append_one c (x ∷ xs) ys h m = ground (arith, all_in-append_one c xs ys)

-- What is in a list is also in one that keeps its members.
pub all_in_mono :
    (xs ys zs : List ℕ)
    → ((c : ℕ) → member c xs ≡ true → member c ys ≡ true → member c zs ≡ true)
    → all_in xs ys ≡ true
    → all_in xs zs ≡ true
unfolding all_in member
all_in_mono [] ys zs keeps h = refl
all_in_mono (x ∷ xs) ys zs keeps h =
    let here : member x zs ≡ true = keeps x (ground arith) (ground arith) in
    ground (arith, all_in_mono xs ys zs (λ c m k. keeps c (ground arith) k))
