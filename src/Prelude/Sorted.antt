-- ===== src/Prelude/Sorted.antt =====
-- Lists whose elements are related to all later ones, and `Vec::insert`.
use mathlib.Core.Logic.{inl, inr}
use mathlib.Core.Path.{◌≡◌, refl, ap}
use mathlib.Core.List.{List, [], ◌∷◌, ◌++◌}
use Prim.Native.Nat.{ℕ, zero, suc}
use mathlib.Core.Bool.{Bool, true, false}
use gaxera.Prelude.Tests.{Bool-cases}
use gaxera.Prelude.Lists.{length, All, retain}

module _ {ℓ} {A : Type ℓ} where
  -- An index past the end panics; no caller has one.
  abbrev pub insert_at : List A → ℕ → A → List A
  insert_at xs zero v = v ∷ xs
  insert_at [] (suc i) v = v ∷ []
  insert_at (x ∷ xs) (suc i) v = x ∷ insert_at xs i v

  pub insert_at-append :
      (xs ys : List A) (v : A) → insert_at (xs ++ ys) (length xs) v ≡ xs ++ v ∷ ys
  insert_at-append [] ys v = refl
  insert_at-append (x ∷ xs) ys v = ap (◌∷◌ x) (insert_at-append xs ys v)

  abbrev pub Pairwise {κ} : (A → A → Type κ) → List A → Type κ
  Pairwise R [] = Unit
  Pairwise R (x ∷ xs) = All (R x) xs × Pairwise R xs

  module _ {κ} (P : A → Type κ) where
    pub All-append : (xs ys : List A) → All P xs → All P ys → All P (xs ++ ys)
    All-append [] ys a b = b
    All-append (x ∷ xs) ys a b = (a.0, All-append xs ys a.1 b)

    pub All-of-append : (xs ys : List A) → All P (xs ++ ys) → All P xs × All P ys
    All-of-append [] ys a = (tt, a)
    All-of-append (x ∷ xs) ys a = let (b, c) = All-of-append xs ys a.1 in ((a.0, b), c)

  pub All-map {κ ι} :
      {P : A → Type κ} {Q : A → Type ι}
      → ((x : A) → P x → Q x)
      → (xs : List A) → All P xs
      → All Q xs
  All-map f [] a = tt
  All-map f (x ∷ xs) a = (f x a.0, All-map f xs a.1)

  module _ {κ} (R : A → A → Type κ) where
    pub Pairwise-append :
        (xs ys : List A)
        → Pairwise R xs
        → Pairwise R ys
        → All (λ x. All (R x) ys) xs
        → Pairwise R (xs ++ ys)
    Pairwise-append [] ys a b c = b
    Pairwise-append (x ∷ xs) ys a b c =
        (All-append (R x) xs ys a.0 c.0, Pairwise-append xs ys a.1 b c.1)

    pub Pairwise-of-append :
        (xs ys : List A)
        → Pairwise R (xs ++ ys)
        → Pairwise R xs × Pairwise R ys × All (λ x. All (R x) ys) xs
    Pairwise-of-append [] ys a = (tt, a, tt)
    Pairwise-of-append (x ∷ xs) ys a =
        let (b, c, d) = Pairwise-of-append xs ys a.1 in
        let (e, f) = All-of-append (R x) xs ys a.0 in ((e, b), c, (f, d))

  pub Pairwise-map {κ ι} :
      {R : A → A → Type κ} {S : A → A → Type ι}
      → ((x y : A) → R x y → S x y)
      → (xs : List A) → Pairwise R xs
      → Pairwise S xs
  Pairwise-map f [] a = tt
  Pairwise-map f (x ∷ xs) a = (All-map (f x) xs a.0, Pairwise-map f xs a.1)

  pub All-retain {κ} :
      (P : A → Type κ) (p : A → Bool) (xs : List A) → All P xs → All P (retain p xs)
  unfolding retain
  All-retain P p [] a = tt
  All-retain P p (x ∷ xs) a = elim (Bool-cases (p x)) [
    | inl keep ↦ rw keep (a.0, All-retain P p xs a.1)
    | inr drop_it ↦ rw drop_it (All-retain P p xs a.1)
  ]

  pub Pairwise-retain {κ} :
      (R : A → A → Type κ) (p : A → Bool) (xs : List A) → Pairwise R xs → Pairwise R (retain p xs)
  unfolding retain
  Pairwise-retain R p [] a = tt
  Pairwise-retain R p (x ∷ xs) a = elim (Bool-cases (p x)) [
    | inl keep ↦ rw keep (All-retain (R x) p xs a.0, Pairwise-retain R p xs a.1)
    | inr drop_it ↦ rw drop_it (Pairwise-retain R p xs a.1)
  ]

  pub retain_none : (p : A → Bool) (xs : List A) → All (λ x. p x ≡ false) xs → retain p xs ≡ []
  unfolding retain
  retain_none p [] a = refl
  retain_none p (x ∷ xs) a = rw a.0 (retain_none p xs a.1)

  pub retain-All : (p : A → Bool) (xs : List A) → All (λ x. p x ≡ true) xs → retain p xs ≡ xs
  unfolding retain
  retain-All p [] a = refl
  retain-All p (x ∷ xs) a = rw a.0 (ap (◌∷◌ x) (retain-All p xs a.1))
