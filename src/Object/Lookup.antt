-- ===== src/Object/Lookup.antt =====
-- crates/kernel-core/src/object.rs: what an arena holds, seen as a partial map from identities to
-- kinds and owners, and how taking and freeing a slot change that map.
use gaxera.Prelude.{
  ℕ, ◌≡◌, Option, none, some, [], ◌∷◌, ◌++◌, length, get_elem?, set, get_elem?-set,
  get_elem?-append_one, get_elem?-length, total, ◌==◌, if◌then◌else◌, arith,
}
use gaxera.Abi.Kinds.{ObjectType}
use gaxera.Abi.Ids.{ObjectId, ResourceDomainId, same_id}
use gaxera.Object.{ObjectSlot, free, live, ObjectArena, object_type, owner}

-- The kind and the owner that a slot has under a generation.
unfoldable pub holding : ObjectSlot → ℕ → Option (ObjectType × ResourceDomainId)
holding slot generation = elim slot.state [
  | free _ ↦ none
  | live t d ↦ if slot.generation == generation then some (t, d) else none
]

unfoldable pub at_slot : Option ObjectSlot → ℕ → Option (ObjectType × ResourceDomainId)
at_slot none generation = none
at_slot (some slot) generation = holding slot generation

-- The abstract view: an arena is a partial map.
unfoldable pub entry : ObjectArena → ObjectId → Option (ObjectType × ResourceDomainId)
entry a id = at_slot (get_elem? a.slots id.index) id.generation

abbrev kind_part : Option (ObjectType × ResourceDomainId) → Option ObjectType
kind_part none = none
kind_part (some e) = some e.0

abbrev owner_part : Option (ObjectType × ResourceDomainId) → Option ResourceDomainId
owner_part none = none
owner_part (some e) = some e.1

pub object_type-entry :
    (a : ObjectArena) (id : ObjectId) → object_type a id ≡ kind_part (entry a id)
unfolding object_type entry at_slot holding
object_type-entry a id = ground arith

pub owner-entry : (a : ObjectArena) (id : ObjectId) → owner a id ≡ owner_part (entry a id)
unfolding owner entry at_slot holding
owner-entry a id = ground arith

pub entry-beyond :
    (a : ObjectArena) (g : ℕ) → entry a (record { index = length a.slots; generation = g }) ≡ none
unfolding entry at_slot
entry-beyond a g = ground (arith, get_elem?-length a.slots)

pub entry_free :
    (a : ObjectArena) (i g : ℕ) (s : ObjectSlot) (next : Option ℕ)
    → get_elem? a.slots i ≡ some s
    → s.state ≡ free next
    → entry a (record { index = i; generation = g }) ≡ none
unfolding entry at_slot holding
entry_free a i g s next at e = ground arith

-- Writing a live slot over a free one adds one entry.
pub entry-set_live :
    (a : ObjectArena) (i : ℕ) (s : ObjectSlot) (next head : Option ℕ) (t : ObjectType)
    (d : ResourceDomainId) (other : ObjectId)
    → get_elem? a.slots i ≡ some s
    → s.state ≡ free next
    → entry
        (record a { slots = set a.slots i (record s { state = live t d }); free_head = head })
        other
      ≡ (if same_id (record { index = i; generation = s.generation }) other
          then some (t, d)
          else entry a other)
unfolding entry at_slot holding same_id
entry-set_live a i s next head t d other at e =
    ground (arith, get_elem?-set a.slots i other.index (record s { state = live t d }) at)

pub entry-append :
    (a : ObjectArena) (t : ObjectType) (d : ResourceDomainId) (other : ObjectId)
    → entry (record a { slots = a.slots ++ record { generation = 1; state = live t d } ∷ [] }) other
      ≡ (if same_id (record { index = length a.slots; generation = 1 }) other
          then some (t, d)
          else entry a other)
unfolding entry at_slot holding same_id
entry-append a t d other = ground (
  arith,
  get_elem?-append_one a.slots (record { generation = 1; state = live t d }) other.index,
  get_elem?-length a.slots,
)

-- Freeing a live slot removes its entry. The slot's new generation differs from the old one, but
-- no identity is found in a free slot in any case.
pub entry-set_free :
    (a : ObjectArena) (i : ℕ) (s : ObjectSlot) (g : ℕ) (head next : Option ℕ)
    (e : ObjectType × ResourceDomainId) (other : ObjectId)
    → get_elem? a.slots i ≡ some s
    → s.state ≡ live e.0 e.1
    → entry
        (record a {
          slots = set a.slots i (record { generation = g; state = free next });
          free_head = head;
        })
        other
      ≡ (if same_id (record { index = i; generation = s.generation }) other
          then none
          else entry a other)
unfolding entry at_slot holding same_id
entry-set_free a i s g head next e other at st =
    ground
      (arith, get_elem?-set a.slots i other.index (record { generation = g; state = free next }) at)

-- 1 for a live slot of this owner.
abbrev pub owner_weight : ResourceDomainId → ObjectSlot → ℕ
owner_weight x s = elim s.state [ free _ ↦ 0 | live _ d ↦ if same_id d x then 1 else 0 ]

-- The number of live objects that a domain owns.
abbrev pub owned : ResourceDomainId → ObjectArena → ℕ
owned x a = total (owner_weight x) a.slots
