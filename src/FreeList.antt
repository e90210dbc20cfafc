-- ===== src/FreeList.antt =====
-- Slot tables with an intrusive free list, as `ObjectArena`, `CapabilitySpace` and
-- `CapabilitySystem` of crates/kernel-core keep them. `link s` is `none` for a slot in use and
-- `some next` for a free one, whose successor in the list is `next`.
use gaxera.Prelude.{
  ℕ, zero, suc, ◌+◌, ◌≤◌, ◌<◌, ◌≡◌, ◌≢◌, refl, subst, ◌∙◌, ap, List, [], ◌∷◌, ◌++◌, Option, none,
  some, length, get_elem?, set, length-append, length-set, get_elem?-set_self, get_elem?-set_ne,
  lt_of_get_elem?, get_elem?-append_left, arith,
}

abbrev pub NotIn : ℕ → List ℕ → Type 0
NotIn i [] = Unit {0}
NotIn i (j ∷ js) = (i ≢ j) × NotIn i js

abbrev pub Distinct : List ℕ → Type 0
Distinct [] = Unit {0}
Distinct (i ∷ is) = NotIn i is × Distinct is

module _ {ℓ} {S : Type ℓ} (link : S → Option (Option ℕ)) where
  -- The free list that starts at `head` visits these slots and ends.
  abbrev pub Chain : List S → Option ℕ → List ℕ → Type ℓ
  Chain slots head [] = (head ≡ none) × Unit {ℓ}
  Chain slots head (i ∷ is) =
      (head ≡ some i)
      × ((s : S) × (next : Option ℕ) × (get_elem? slots i ≡ some s)
          × (link s ≡ some next)
          × Chain slots next is)

  abbrev pub in_use_weight : Option (Option ℕ) → ℕ
  in_use_weight none = 1
  in_use_weight (some next) = 0

  -- The number of slots in use.
  unfoldable pub in_use : List S → ℕ
  in_use [] = 0
  in_use (s ∷ ss) = in_use_weight (link s) + in_use ss

  -- The free list is finite, visits no slot twice and misses no free slot.
  pub record IsLinked (slots : List S) (head : Option ℕ) : Type ℓ where
    pub free : List ℕ
    pub chain : Chain slots head free
    pub distinct : Distinct free
    pub counted : in_use slots + length free ≡ length slots

  pub in_use-set :
      (slots : List S) (i : ℕ) (s s' : S)
      → get_elem? slots i ≡ some s
      → in_use (set slots i s') + in_use_weight (link s) ≡ in_use slots + in_use_weight (link s')
  unfolding in_use
  in_use-set [] i s s' h = cc
  in_use-set (x ∷ xs) zero s s' h = ground arith
  in_use-set (x ∷ xs) (suc i) s s' h = omega (arith, in_use-set xs i s s' h)

  pub in_use-append : (xs ys : List S) → in_use (xs ++ ys) ≡ in_use xs + in_use ys
  unfolding in_use
  in_use-append [] ys = omega arith
  in_use-append (x ∷ xs) ys = omega (arith, in_use-append xs ys)

  pub in_use-append_used :
      (xs : List S) (s : S) → link s ≡ none → in_use (xs ++ s ∷ []) ≡ in_use xs + 1
  unfolding in_use
  in_use-append_used xs s h = omega (arith, in_use-append xs (s ∷ []), ap in_use_weight h)

  Chain-set :
      (slots : List S) (head : Option ℕ) (free : List ℕ) (i : ℕ) (s' : S)
      → NotIn i free
      → Chain slots head free
      → Chain (set slots i s') head free
  Chain-set slots head [] i s' out c = c
  Chain-set slots head (j ∷ js) i s' out (here, (s, next, at, linked, rest)) = (
    here,
    (
      s,
      next,
      get_elem?-set_ne slots i j s' out.0 ∙ at,
      linked,
      Chain-set slots next js i s' out.1 rest,
    ),
  )

  Chain-append :
      (slots : List S) (head : Option ℕ) (free : List ℕ) (s' : S)
      → Chain slots head free
      → Chain (slots ++ s' ∷ []) head free
  Chain-append slots head [] s' c = c
  Chain-append slots head (j ∷ js) s' (here, (s, next, at, linked, rest)) = (
    here,
    (
      s,
      next,
      get_elem?-append_left slots (s' ∷ []) j (lt_of_get_elem? slots j at) ∙ at,
      linked,
      Chain-append slots next js s' rest,
    ),
  )

  -- A slot in use is not in the free list.
  Chain-NotIn :
      (slots : List S) (head : Option ℕ) (free : List ℕ) (i : ℕ) (s : S)
      → get_elem? slots i ≡ some s
      → link s ≡ none
      → Chain slots head free
      → NotIn i free
  Chain-NotIn slots head [] i s at used c = tt
  Chain-NotIn slots head (j ∷ js) i s at used (here, (t, next, there, linked, rest)) =
      (clash, Chain-NotIn slots next js i s at used rest)
    where
      clash : i ≢ j
      clash e = cc

  Chain-head :
      (slots : List S) (i : ℕ) (free : List ℕ)
      → Chain slots (some i) free
      → (s : S) × (next : Option ℕ) × (rest : List ℕ) × (get_elem? slots i ≡ some s)
        × (link s ≡ some next)
        × (free ≡ i ∷ rest)
        × Chain slots next rest
  Chain-head slots i [] (here, _) = absurd (cc)
  Chain-head slots i (j ∷ js) (here, (s, next, at, linked, rest)) =
      let e : i ≡ j = cc in (s, next, js, rw e at, linked, rw e, rest)

  -- The head of the free list is a free slot.
  pub IsLinked-head :
      (slots : List S) (i : ℕ)
      → IsLinked slots (some i)
      → (s : S) × (next : Option ℕ) × (get_elem? slots i ≡ some s) × (link s ≡ some next)
  IsLinked-head slots i v =
      let (s, next, rest, at, linked, e, c) = Chain-head slots i v.free v.chain in
      (s, next, at, linked)

  -- Taking the head into use.
  pub IsLinked-pop :
      (slots : List S) (i : ℕ) (s s' : S) (next : Option ℕ)
      → get_elem? slots i ≡ some s
      → link s ≡ some next
      → link s' ≡ none
      → IsLinked slots (some i)
      → IsLinked (set slots i s') next
  IsLinked-pop slots i s s' next at linked used v =
      let (t, after, rest, there, linked', e, c) = Chain-head slots i v.free v.chain in
      let same : s ≡ t = cc in
      let next_same : after ≡ next = cc in
      let distinct : Distinct (i ∷ rest) = subst Distinct e v.distinct in
      record {
        free = rest;
        chain =
            Chain-set slots next rest i s' distinct.0 (subst (λ n. Chain slots n rest) next_same c);
        distinct = distinct.1;
        counted = omega (
          arith,
          in_use-set slots i s s' at,
          length-set slots i s',
          v.counted,
          ap length e,
          ap in_use_weight linked,
          ap in_use_weight used,
        );
      }

  -- Freeing a slot puts it at the head.
  pub IsLinked-push :
      (slots : List S) (head : Option ℕ) (i : ℕ) (s s' : S)
      → get_elem? slots i ≡ some s
      → link s ≡ none
      → link s' ≡ some head
      → IsLinked slots head
      → IsLinked (set slots i s') (some i)
  IsLinked-push slots head i s s' at used freed v = record {
    free = i ∷ v.free;
    chain = (
      refl,
      (
        s',
        head,
        get_elem?-set_self slots i s' (lt_of_get_elem? slots i at),
        freed,
        Chain-set slots head v.free i s' (Chain-NotIn slots head v.free i s at used v.chain)
            v.chain,
      ),
    );
    distinct = (Chain-NotIn slots head v.free i s at used v.chain, v.distinct);
    counted = omega (
      arith,
      in_use-set slots i s s' at,
      length-set slots i s',
      v.counted,
      ap in_use_weight used,
      ap in_use_weight freed,
    );
  }

  -- A change to a slot in use that stays in use.
  pub IsLinked-keep :
      (slots : List S) (head : Option ℕ) (i : ℕ) (s s' : S)
      → get_elem? slots i ≡ some s
      → link s ≡ none
      → link s' ≡ none
      → IsLinked slots head
      → IsLinked (set slots i s') head
  IsLinked-keep slots head i s s' at used still v = record {
    free = v.free;
    chain =
        Chain-set slots head v.free i s' (Chain-NotIn slots head v.free i s at used v.chain)
          v.chain;
    distinct = v.distinct;
    counted = omega (
      arith,
      in_use-set slots i s s' at,
      length-set slots i s',
      v.counted,
      ap in_use_weight used,
      ap in_use_weight still,
    );
  }

  -- A new slot at the end, in use.
  pub IsLinked-append :
      (slots : List S) (head : Option ℕ) (s' : S)
      → link s' ≡ none
      → IsLinked slots head
      → IsLinked (slots ++ s' ∷ []) head
  unfolding in_use
  IsLinked-append slots head s' used v = record {
    free = v.free;
    chain = Chain-append slots head v.free s' v.chain;
    distinct = v.distinct;
    counted = omega (
      arith,
      in_use-append slots (s' ∷ []),
      length-append slots (s' ∷ []),
      v.counted,
      ap in_use_weight used,
    );
  }

  Chain-none : (slots : List S) (free : List ℕ) → Chain slots none free → length free ≡ 0
  Chain-none slots [] c = refl
  Chain-none slots (j ∷ js) (here, _) = absurd (cc)

  -- With an empty free list every slot is in use.
  pub IsLinked-full : (slots : List S) → IsLinked slots none → in_use slots ≡ length slots
  IsLinked-full slots v = omega (arith, Chain-none slots v.free v.chain, v.counted)

  -- With a slot in the free list not every slot is in use.
  pub IsLinked-some :
      (slots : List S) (i : ℕ) → IsLinked slots (some i) → in_use slots < length slots
  IsLinked-some slots i v =
      let (s, next, rest, at, linked, e, c) = Chain-head slots i v.free v.chain in
      omega (arith, ap length e, v.counted)

  pub in_use-le-length : (slots : List S) → in_use slots ≤ length slots
  unfolding in_use
  in_use-le-length [] = omega arith
  in_use-le-length (s ∷ ss) = ground (arith, in_use-le-length ss)
