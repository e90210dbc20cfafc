-- ===== src/Object.antt =====
-- crates/kernel-core/src/object.rs: the object arena, generational slots with an intrusive free
-- list. `try_reserve_exact` has no result in the model: the vector is reserved or `try_new` fails.
pub mod Lookup
pub mod Valid
pub mod Create
pub mod Destroy
pub mod Accounting
use gaxera.Prelude.{
  ℕ, ◌-◌, ◌%◌, Bool, true, false, not, ◌&&◌, Option, none, some, List, [], ◌∷◌, ◌++◌, length,
  get_elem?, set, ltb, ◌==◌, u32_mod, if◌then◌else◌, is_none, is_some, Result, ok, err,
}
use gaxera.Abi.Kinds.{ObjectType}
use gaxera.Abi.Kinds
use gaxera.Abi.Ids.{ObjectId, ResourceDomainId, same_id, next_generation}
use gaxera.Resource.{ResourceDomain, ResourceError, charge_object, release_object}

pub record Factory : Type 0 where
  pub domain : ResourceDomainId
  pub allowed_types : Kinds.ObjectTypeSet

unfoldable pub factory_new : ResourceDomain → Kinds.ObjectTypeSet → Factory
factory_new d allowed = record { domain = d.id; allowed_types = allowed }

unfoldable pub allows : Factory → ObjectType → Bool
allows f t = Kinds.contains f.allowed_types t

pub data ArenaInitError : Type 0 where
  capacity_too_large allocation_failed : ArenaInitError

pub data ObjectError : Type 0 where
  arena_full factory_domain_mismatch factory_denied object_not_found owner_domain_mismatch :
      ObjectError
  resource : ResourceError → ObjectError

pub data SlotState : Type 0 where
  free : Option ℕ → SlotState
  live : ObjectType → ResourceDomainId → SlotState

pub record ObjectSlot : Type 0 where
  pub generation : ℕ
  pub state : SlotState

pub record ObjectArena : Type 0 where
  pub slots : List ObjectSlot
  pub capacity : ℕ
  pub free_head : Option ℕ

-- The second argument says whether the allocator grants the reservation.
unfoldable pub try_new : ℕ → Bool → Result ObjectArena ArenaInitError
try_new capacity reserved =
    if ltb (u32_mod - 1) capacity
    then err capacity_too_large
    else if reserved
    then ok (record { slots = []; capacity = capacity; free_head = none })
    else err allocation_failed

-- The slot part of `create_internal_impl`: the head of the free list, or a new slot at the end.
unfoldable pub take_slot :
    ObjectArena → ResourceDomainId → ObjectType → Result ObjectId ObjectError × ObjectArena
take_slot a owner t = elim a.free_head [
  | some index ↦ elim (get_elem? a.slots index) [
    | none ↦ (err object_not_found, a)
    | some slot ↦ elim slot.state [
      | live _ _ ↦ (err object_not_found, a)
      | free next ↦ (
        ok (record { index = index; generation = slot.generation }),
        record a {
          slots = set a.slots index (record slot { state = live t owner });
          free_head = next;
        },
      )
    ]
  ]
  | none ↦ (
    ok (record { index = length a.slots % u32_mod; generation = 1 }),
    record a { slots = a.slots ++ record { generation = 1; state = live t owner } ∷ [] },
  )
]

-- The result, the domain and the arena. A charge is taken back when no slot is found.
unfoldable pub create_internal_impl :
    ObjectArena
    → ResourceDomain
    → ObjectType
    → Result ObjectId ObjectError × ResourceDomain × ObjectArena
unfolding take_slot
create_internal_impl a d t =
    if is_none a.free_head && length a.slots == a.capacity
    then (err arena_full, d, a)
    else let (charged, d') = charge_object d in
      elim charged [
        | err e ↦ (err (resource e), d', a)
        | ok _ ↦
            let (taken, a') = take_slot a d'.id t in
            elim taken [ err e ↦ (err e, (release_object d').1, a') | ok id ↦ (ok id, d', a') ]
      ]

unfoldable pub create :
    ObjectArena
    → ResourceDomain
    → Factory
    → ObjectType
    → Result ObjectId ObjectError × ResourceDomain × ObjectArena
unfolding create_internal_impl allows
create a d factory t =
    if not (same_id factory.domain d.id)
    then (err factory_domain_mismatch, d, a)
    else if not (allows factory t)
    then (err factory_denied, d, a)
    else create_internal_impl a d t

abbrev Creation : Type 0
Creation = ObjectArena → ResourceDomain → Result ObjectId ObjectError × ResourceDomain × ObjectArena

-- `create_mapping` and its eight companions, at their kind.
unfoldable pub create_of_kind : ObjectType → Creation
unfolding create factory_new
create_of_kind t a d = create a d (factory_new d (Kinds.of t)) t

unfoldable pub create_root_factory : Creation
unfolding create factory_new
create_root_factory a d = create a d (factory_new d Kinds.all) Kinds.ObjectType.factory

-- The owner of a slot that is live under this generation.
unfoldable pub owner_of : ObjectSlot → ℕ → Option ResourceDomainId
owner_of slot generation = elim slot.state [
  | free _ ↦ none
  | live _ owner ↦ if slot.generation == generation then some owner else none
]

-- The result, the domain and the arena.
unfoldable pub destroy :
    ObjectArena
    → ResourceDomain
    → ObjectId
    → Result (Unit {0}) ObjectError × ResourceDomain × ObjectArena
unfolding owner_of
destroy a d object = elim (get_elem? a.slots object.index) [
  | none ↦ (err object_not_found, d, a)
  | some slot ↦ elim (owner_of slot object.generation) [
    | none ↦ (err object_not_found, d, a)
    | some owner ↦
        if not (same_id owner d.id)
        then (err owner_domain_mismatch, d, a)
        else let (released, d') = release_object d in
          elim released [
            | err e ↦ (err (resource e), d', a)
            | ok _ ↦
                let freed : ObjectSlot = record {
                  generation = next_generation slot.generation;
                  state = free a.free_head;
                } in
                (
                  ok tt,
                  d',
                  record a {
                    slots = set a.slots object.index freed;
                    free_head = some object.index;
                  },
                )
          ]
  ]
]

unfoldable pub type_of : ObjectSlot → ℕ → Option ObjectType
type_of slot generation = elim slot.state [
  | free _ ↦ none
  | live t _ ↦ if slot.generation == generation then some t else none
]

unfoldable pub object_type : ObjectArena → ObjectId → Option ObjectType
unfolding type_of
object_type a object = elim (get_elem? a.slots object.index) [
  | none ↦ none
  | some slot ↦ type_of slot object.generation
]

unfoldable pub is_live : ObjectArena → ObjectId → Bool
unfolding object_type
is_live a object = is_some (object_type a object)

unfoldable pub owner : ObjectArena → ObjectId → Option ResourceDomainId
unfolding owner_of
owner a object = elim (get_elem? a.slots object.index) [
  | none ↦ none
  | some slot ↦ owner_of slot object.generation
]
