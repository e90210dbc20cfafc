-- ===== src/Prelude/Slices.antt =====
-- Parts of lists, and `Vec::remove`.
use mathlib.Core.Path.{◌≡◌, refl, ap}
use mathlib.Core.List.{List, [], ◌∷◌, ◌++◌}
use mathlib.Core.Option.{some}
use Prim.Native.Nat.{ℕ, zero, suc, ◌+◌, ◌-◌, ◌≤◌, ◌<◌}
use native.Mathlib.Omega.{arith}
use gaxera.Prelude.Lists.{length, get_elem?, take}

module _ {ℓ} {A : Type ℓ} where
  abbrev pub drop : ℕ → List A → List A
  drop zero xs = xs
  drop (suc n) [] = []
  drop (suc n) (x ∷ xs) = drop n xs

  -- An index past the end panics; no caller has one.
  abbrev pub remove_at : List A → ℕ → List A
  remove_at [] i = []
  remove_at (x ∷ xs) zero = xs
  remove_at (x ∷ xs) (suc i) = x ∷ remove_at xs i

  pub remove_at-append : (xs ys : List A) (x : A) → remove_at (xs ++ x ∷ ys) (length xs) ≡ xs ++ ys
  remove_at-append [] ys x = refl
  remove_at-append (y ∷ xs) ys x = ap (◌∷◌ y) (remove_at-append xs ys x)

  pub get_elem?-append_at : (xs ys : List A) (x : A) → get_elem? (xs ++ x ∷ ys) (length xs) ≡ some x
  get_elem?-append_at [] ys x = refl
  get_elem?-append_at (y ∷ xs) ys x = get_elem?-append_at xs ys x

  pub length-take-drop :
      (i n : ℕ) (xs : List A) → i + n ≤ length xs → length (take n (drop i xs)) ≡ n
  length-take-drop zero zero xs h = refl
  length-take-drop zero (suc n) [] h = absurd (omega (arith, h))
  length-take-drop zero (suc n) (x ∷ xs) h = omega (arith, length-take-drop zero n xs (omega arith))
  length-take-drop (suc i) n [] h = absurd (omega (arith, h))
  length-take-drop (suc i) n (x ∷ xs) h = length-take-drop i n xs (omega arith)

  pub get_elem?-take-drop :
      (i n k : ℕ) (xs : List A) → k < n → get_elem? (take n (drop i xs)) k ≡ get_elem? xs (i + k)
  get_elem?-take-drop zero (suc n) k [] h = ground arith
  get_elem?-take-drop zero (suc n) zero (x ∷ xs) h = ground arith
  get_elem?-take-drop zero (suc n) (suc k) (x ∷ xs) h =
      ground (arith, get_elem?-take-drop zero n k xs (omega arith))
  get_elem?-take-drop zero zero k xs h = absurd (omega (arith, h))
  get_elem?-take-drop (suc i) zero k xs h = absurd (omega (arith, h))
  get_elem?-take-drop (suc i) (suc n) k [] h = ground arith
  get_elem?-take-drop (suc i) (suc n) k (x ∷ xs) h =
      ground (arith, get_elem?-take-drop i (suc n) k xs h)

  pub drop_step :
      (i : ℕ) (xs : List A) {x : A} → get_elem? xs i ≡ some x → drop i xs ≡ x ∷ drop (suc i) xs
  drop_step i [] h = absurd (cc)
  drop_step zero (y ∷ xs) h = cc
  drop_step (suc i) (y ∷ xs) h = drop_step i xs h

  pub take_enough : (n : ℕ) (xs : List A) → length xs ≤ n → take n xs ≡ xs
  take_enough zero [] h = refl
  take_enough zero (x ∷ xs) h = absurd (omega (arith, h))
  take_enough (suc n) [] h = refl
  take_enough (suc n) (x ∷ xs) h = ap (◌∷◌ x) (take_enough n xs (omega arith))

  pub length-drop : (i : ℕ) (xs : List A) → length (drop i xs) ≡ length xs - i
  length-drop zero xs = omega arith
  length-drop (suc i) [] = omega arith
  length-drop (suc i) (x ∷ xs) = omega (arith, length-drop i xs)

  pub drop_all : (i : ℕ) (xs : List A) → length xs ≤ i → drop i xs ≡ []
  drop_all zero [] h = refl
  drop_all zero (x ∷ xs) h = absurd (omega (arith, h))
  drop_all (suc i) [] h = refl
  drop_all (suc i) (x ∷ xs) h = drop_all i xs (omega arith)

  pub take_nil : (n : ℕ) → take {A = A} n [] ≡ []
  take_nil zero = refl
  take_nil (suc n) = refl
