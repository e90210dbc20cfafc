-- ===== src/Object/Valid.antt =====
-- crates/kernel-core/src/object.rs: the arena's invariant, and what creating and destroying an
-- object do to it and to the map that the arena stands for.
use gaxera.Prelude.{
  ℕ, ◌+◌, ◌<◌, ◌≤◌, ◌≡◌, ◌≢◌, ◌⊎◌, refl, subst, ap, Option, none, some, [], ◌∷◌, ◌++◌, length, set,
  length-set, length-append, All, All-set, All-append_one, All-get, total-set, total-append_one,
  u32_mod, if◌then◌else◌, ok, arith,
}
use gaxera.Abi.Kinds.{ObjectType}
use gaxera.Abi.Ids.{ObjectId, ResourceDomainId, same_id}
use gaxera.FreeList.{
  IsLinked, IsLinked-head, IsLinked-pop, IsLinked-append, in_use, in_use-append_used, in_use-set,
  in_use_weight,
}
use gaxera.Object.{ObjectSlot, free, live, ObjectArena, take_slot}
use gaxera.Object.Lookup.{
  entry, owned, owner_weight, entry-beyond, entry_free, entry-set_live, entry-append,
}

abbrev pub link : ObjectSlot → Option (Option ℕ)
link s = elim s.state [ free next ↦ some next | live _ _ ↦ none ]

abbrev pub HasGeneration : ObjectSlot → Type 0
HasGeneration s = (0 < s.generation) × (s.generation < u32_mod)

pub record IsValid (a : ObjectArena) : Type 0 where
  pub linked : IsLinked link a.slots a.free_head
  pub within : length a.slots ≤ a.capacity
  pub word : a.capacity < u32_mod
  pub generations : All HasGeneration a.slots

-- A free slot heads the free list, or the arena can still grow.
abbrev pub HasRoom : ObjectArena → Type 0
HasRoom a = (a.free_head ≢ none) ⊎ (length a.slots < a.capacity)

-- What taking a slot gives: an identity that was not in the map, and the map with it.
pub record Taken (a : ObjectArena) (d : ResourceDomainId) (t : ObjectType) (id : ObjectId)
    (a' : ObjectArena) : Type 0 where
  pub result : take_slot a d t ≡ (ok id, a')
  pub valid : IsValid a'
  pub same_capacity : a'.capacity ≡ a.capacity
  pub more : in_use link a'.slots ≡ in_use link a.slots + 1
  pub owned_more : (x : ResourceDomainId) → owned x a' ≡ owned x a + (if same_id d x then 1 else 0)
  pub fresh : entry a id ≡ none
  pub adds :
      (other : ObjectId)
      → entry a' other ≡ (if same_id id other then some (t, d) else entry a other)

pub take_free :
    (a : ObjectArena) (d : ResourceDomainId) (t : ObjectType) (i : ℕ)
    → IsValid a
    → a.free_head ≡ some i
    → (id : ObjectId) × (a' : ObjectArena) × Taken a d t id a'
unfolding take_slot
take_free a d t i v e =
    let (s, next, at, linked) =
      IsLinked-head link a.slots i (subst (IsLinked link a.slots) e v.linked) in
    let is_free : s.state ≡ free next = ground arith in
    let taken : ObjectSlot = record s { state = live t d } in
    (
      record { index = i; generation = s.generation },
      record a { slots = set a.slots i taken; free_head = next },
      record {
        result = ground arith;
        valid = record {
          linked =
              IsLinked-pop link a.slots i s taken next at linked refl
                (subst (IsLinked link a.slots) e v.linked);
          within = omega (arith, length-set a.slots i taken, v.within);
          word = v.word;
          generations =
              All-set HasGeneration a.slots i taken
                (All-get HasGeneration a.slots i at v.generations) v.generations;
        };
        same_capacity = refl;
        more = omega (arith, in_use-set link a.slots i s taken at, ap (in_use_weight link) linked);
        owned_more = λ x. ground (arith, total-set (owner_weight x) a.slots i taken at);
        fresh = entry_free a i s.generation s next at is_free;
        adds = λ other. entry-set_live a i s next next t d other at is_free;
      },
    )

pub take_new :
    (a : ObjectArena) (d : ResourceDomainId) (t : ObjectType)
    → IsValid a
    → a.free_head ≡ none
    → length a.slots < a.capacity
    → (id : ObjectId) × (a' : ObjectArena) × Taken a d t id a'
unfolding take_slot
take_new a d t v e room =
    let new_slot : ObjectSlot = record { generation = 1; state = live t d } in
    (
      record { index = length a.slots; generation = 1 },
      record a { slots = a.slots ++ new_slot ∷ [] },
      record {
        result = ground arith;
        valid = record {
          linked = IsLinked-append link a.slots a.free_head new_slot refl v.linked;
          within = omega (arith, length-append a.slots (new_slot ∷ []));
          word = v.word;
          generations = All-append_one HasGeneration a.slots new_slot (omega arith) v.generations;
        };
        same_capacity = refl;
        more = in_use-append_used link a.slots new_slot refl;
        owned_more = λ x. total-append_one (owner_weight x) a.slots new_slot;
        fresh = entry-beyond a 1;
        adds = λ other. entry-append a t d other;
      },
    )
