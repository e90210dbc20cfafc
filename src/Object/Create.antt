-- ===== src/Object/Create.antt =====
-- crates/kernel-core/src/object.rs: `create_internal_impl` and the creation methods, on every branch.
use gaxera.Prelude.{
  ◌+◌, ◌<◌, ◌≤◌, ◌≡◌, ◌≢◌, ◌⊎◌, inl, inr, subst, true, false, none, some, length, ◌==◌,
  if◌then◌else◌, ok, err, is_error, is_none, ◌&&◌, arith, Option-cases, Bool-cases,
}
use gaxera.Abi.Kinds.{ObjectType}
use gaxera.Abi.Kinds
use gaxera.Abi.Ids.{ObjectId, ResourceDomainId, same_id, same_id_iff}
use native.Mathlib.Decide.{dec_lt}
use gaxera.FreeList.{IsLinked, IsLinked-full, IsLinked-some, in_use-le-length, in_use}
use gaxera.Resource.{ResourceDomain, charge_object, object_limit}
use gaxera.Object.{
  ObjectArena, ObjectError, arena_full, resource, create_internal_impl, create, create_of_kind,
  Factory, allows, factory_domain_mismatch, factory_denied,
}
use gaxera.Object.Lookup.{entry}
use gaxera.Object.Valid.{link, IsValid, Taken, take_free, take_new}

take_slot-Taken :
    (a : ObjectArena) (d : ResourceDomainId) (t : ObjectType)
    → IsValid a
    → in_use link a.slots < a.capacity
    → (id : ObjectId) × (a' : ObjectArena) × Taken a d t id a'
take_slot-Taken a d t v room = elim (Option-cases a.free_head) [
  | inl e ↦
      take_new a d t v e
        (omega (arith, IsLinked-full link a.slots (subst (IsLinked link a.slots) e v.linked)))
  | inr (i, e) ↦ take_free a d t i v e
]

-- An arena that reports itself full is full.
full_arena :
    (a : ObjectArena)
    → IsValid a
    → (is_none a.free_head && length a.slots == a.capacity) ≡ true
    → in_use link a.slots ≡ a.capacity
full_arena a v h =
    let e : a.free_head ≡ none = ground arith in
    let l : length a.slots ≡ a.capacity = ground arith in
    omega (arith, IsLinked-full link a.slots (subst (IsLinked link a.slots) e v.linked))

not_full_arena :
    (a : ObjectArena)
    → IsValid a
    → in_use link a.slots < a.capacity
    → (is_none a.free_head && length a.slots == a.capacity) ≡ false
not_full_arena a v room = elim (Bool-cases (is_none a.free_head && length a.slots == a.capacity)) [
  | inl full ↦ absurd (omega (arith, full_arena a v full))
  | inr e ↦ e
]

room_of_not_full :
    (a : ObjectArena)
    → IsValid a
    → (is_none a.free_head && length a.slots == a.capacity) ≡ false
    → in_use link a.slots < a.capacity
room_of_not_full a v h = elim (Option-cases a.free_head) [
  | inl e ↦
      let l : length a.slots ≢ a.capacity = ground arith in
      omega (arith, in_use-le-length link a.slots, v.within)
  | inr (i, e) ↦
      omega
        (arith, IsLinked-some link a.slots i (subst (IsLinked link a.slots) e v.linked), v.within)
]

abbrev pub charged_object : ResourceDomain → ResourceDomain
charged_object d = record d { usage = record (d.usage) { objects = d.usage.objects + 1 } }

-- The two outcomes of an internal creation.
pub create_internal_cases :
    (a : ObjectArena) (d : ResourceDomain) (t : ObjectType)
    → IsValid a
    → ((id : ObjectId) × (a' : ObjectArena) × (create_internal_impl a d t
          ≡ (ok id, charged_object d, a'))
        × Taken a d.id t id a')
      ⊎ ((e : ObjectError) × (create_internal_impl a d t ≡ (err e, d, a))
          × ((in_use link a.slots ≡ a.capacity) ⊎ (d.limits.objects ≤ d.usage.objects)))
unfolding create_internal_impl charge_object
create_internal_cases a d t v =
    elim (Bool-cases (is_none a.free_head && length a.slots == a.capacity)) [
      | inl full ↦ inr (arena_full, ground arith, inl (full_arena a v full))
      | inr roomy ↦ elim (dec_lt d.usage.objects d.limits.objects) [
        | yes fits ↦
            let (id, a', taken) = take_slot-Taken a d.id t v (room_of_not_full a v roomy) in
            inl (id, a', ground (arith, taken.result), taken)
        | no spent ↦ inr (resource object_limit, ground arith, inr (omega arith))
      ]
    ]

-- In a valid arena that is not at its capacity, a domain below its object limit creates an object of
-- any kind: the domain is charged one object, the new identity was not in the arena, the arena
-- stays valid, and it holds the new object under that identity, owned by the domain, and every
-- other identity as before.
pub create_internal_adds :
    (a : ObjectArena) (d : ResourceDomain) (t : ObjectType)
    → IsValid a
    → in_use link a.slots < a.capacity
    → d.usage.objects < d.limits.objects
    → (id : ObjectId) × (a' : ObjectArena) × (create_internal_impl a d t
        ≡ (ok id, record d { usage = record (d.usage) { objects = d.usage.objects + 1 } }, a'))
      × IsValid a'
      × (entry a id ≡ none)
      × ((other : ObjectId)
          → entry a' other ≡ (if same_id id other then some (t, d.id) else entry a other))
unfolding create_internal_impl charge_object
create_internal_adds a d t v room fits =
    let (id, a', taken) = take_slot-Taken a d.id t v room in
    (
      id,
      a',
      ground (arith, not_full_arena a v room, taken.result),
      taken.valid,
      taken.fresh,
      taken.adds,
    )

-- In a valid arena a creation that is refused leaves the domain and the arena as they were, and was
-- refused because the arena is at its capacity or the domain at its object limit.
pub create_internal_refused :
    (a : ObjectArena) (d : ResourceDomain) (t : ObjectType)
    → IsValid a
    → is_error (create_internal_impl a d t).0 ≡ true
    → ((create_internal_impl a d t).1 ≡ d)
      × ((create_internal_impl a d t).2 ≡ a)
      × ((in_use link a.slots ≡ a.capacity) ⊎ (d.limits.objects ≤ d.usage.objects))
create_internal_refused a d t v h = elim (create_internal_cases a d t v) [
  | inl (id, a', made, _) ↦ absurd (ground arith)
  | inr (e, refused, why) ↦ (ground arith, ground arith, why)
]

-- `create_mapping`, `create_waitset` and the rest pass the two tests of `create` and go straight to
-- the internal creation at their kind; `create` itself never gets past a factory of another
-- domain or one that does not allow the kind.
pub create_of_kind_lem :
    (a : ObjectArena) (d : ResourceDomain) (f : Factory) (t : ObjectType)
    → (create_of_kind t a d ≡ create_internal_impl a d t)
      × (f.domain ≢ d.id → create a d f t ≡ (err factory_domain_mismatch, d, a))
      × (f.domain ≡ d.id → allows f t ≡ false → create a d f t ≡ (err factory_denied, d, a))
      × (f.domain ≡ d.id → allows f t ≡ true → create a d f t ≡ create_internal_impl a d t)
unfolding create_of_kind create
create_of_kind_lem a d f t = (
  ground (arith, same_id_iff d.id d.id, Kinds.contains-of t t, Kinds.same_type_iff t t),
  (λ h. ground (arith, same_id_iff f.domain d.id)),
  (λ h k. ground (arith, same_id_iff f.domain d.id)),
  (λ h k. ground (arith, same_id_iff f.domain d.id)),
)
