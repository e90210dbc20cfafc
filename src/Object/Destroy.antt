-- ===== src/Object/Destroy.antt =====
-- crates/kernel-core/src/object.rs: `destroy` on every branch, and what becomes of the identity.
use gaxera.Prelude.{
  ◌-◌, ◌<◌, ◌≡◌, ◌≢◌, ◌⊎◌, inl, inr, refl, true, none, some, get_elem?, set, length-set, All-set,
  All-get, if◌then◌else◌, ok, is_error, arith, Option-cases, lt_of_get_elem?, get_elem?-set_self,
}
use gaxera.Abi.Kinds.{ObjectType}
use gaxera.Abi.Ids.{
  ObjectId, ResourceDomainId, same_id, same_id_iff, next_generation, next_generation_lem,
}
use gaxera.FreeList.{IsLinked-push}
use gaxera.Resource.{ResourceDomain, release_object, charge_object}
use gaxera.Object.{ObjectSlot, free, live, ObjectArena, create_internal_impl, destroy, object_type}
use gaxera.Object.Lookup.{entry, at_slot, holding, entry-set_free}
use gaxera.Object.Valid.{link, HasGeneration, IsValid}

-- The slot behind an identity that the arena holds.
pub slot_of_entry :
    (a : ObjectArena) (id : ObjectId) (t : ObjectType) (d : ResourceDomainId)
    → entry a id ≡ some (t, d)
    → (s : ObjectSlot) × (get_elem? a.slots id.index ≡ some s)
      × (s.state ≡ live t d)
      × (s.generation ≡ id.generation)
unfolding entry at_slot holding
slot_of_entry a id t d h = elim (Option-cases (get_elem? a.slots id.index)) [
  | inl e ↦ absurd (ground arith)
  | inr (s, at) ↦ (s, at, ground arith, ground arith)
]

abbrev pub freed_slot : ObjectArena → ObjectSlot → ObjectSlot
freed_slot a s = record { generation = next_generation s.generation; state = free a.free_head }

abbrev pub after_destroy : ObjectArena → ObjectId → ObjectSlot → ObjectArena
after_destroy a id s = record a {
  slots = set a.slots id.index (freed_slot a s);
  free_head = some id.index;
}

after_destroy-IsValid :
    (a : ObjectArena) (id : ObjectId) (s : ObjectSlot) (t : ObjectType) (d : ResourceDomainId)
    → IsValid a
    → get_elem? a.slots id.index ≡ some s
    → s.state ≡ live t d
    → IsValid (after_destroy a id s)
after_destroy-IsValid a id s t d v at e = record {
  linked =
      IsLinked-push link a.slots a.free_head id.index s (freed_slot a s) at (ground arith) refl
        v.linked;
  within = omega (arith, length-set a.slots id.index (freed_slot a s), v.within);
  word = v.word;
  generations =
      let g = All-get HasGeneration a.slots id.index at v.generations in
      let n = next_generation_lem s.generation g.0 g.1 in
      All-set HasGeneration a.slots id.index (freed_slot a s) (n.1, n.2) v.generations;
}

-- In a valid arena, a domain that owns an object and has an object charged destroys it: the domain is refunded one
-- object, the arena stays valid, the identity is no longer held, and every other identity is held as
-- before.
pub destroy_removes :
    (a : ObjectArena) (d : ResourceDomain) (id : ObjectId) (t : ObjectType)
    → IsValid a
    → entry a id ≡ some (t, d.id)
    → 0 < d.usage.objects
    → (a' : ObjectArena) × (destroy a d id
        ≡ (ok tt, record d { usage = record (d.usage) { objects = d.usage.objects - 1 } }, a'))
      × IsValid a'
      × ((other : ObjectId) → entry a' other ≡ (if same_id id other then none else entry a other))
unfolding destroy release_object
destroy_removes a d id t v h charged =
    let (s, at, e, g) = slot_of_entry a id t d.id h in
    (
      after_destroy a id s,
      ground (arith, same_id_iff d.id d.id),
      after_destroy-IsValid a id s t d.id v at e,
      λ other. ground (
        arith,
        entry-set_free a id.index s (next_generation s.generation) (some id.index) a.free_head
            (t, d.id) other at e,
      ),
    )

-- A destruction that is refused changes neither the domain nor the arena, and was refused because the
-- domain does not own a live object of that identity, or has no object charged.
pub destroy_refused :
    (a : ObjectArena) (d : ResourceDomain) (id : ObjectId)
    → is_error (destroy a d id).0 ≡ true
    → ((destroy a d id).1 ≡ d)
      × ((destroy a d id).2 ≡ a)
      × (((t : ObjectType) → entry a id ≢ some (t, d.id)) ⊎ (d.usage.objects ≡ 0))
unfolding destroy release_object entry at_slot holding
destroy_refused a d id h = ground (arith, same_id_iff d.id d.id)

destroy_inversion :
    (a b : ObjectArena) (d e : ResourceDomain) (id : ObjectId)
    → destroy a d id ≡ (ok tt, e, b)
    → (s : ObjectSlot) × (get_elem? a.slots id.index ≡ some s)
      × (s.generation ≡ id.generation)
      × (b ≡ after_destroy a id s)
unfolding destroy release_object
destroy_inversion a b d e id h = elim (Option-cases (get_elem? a.slots id.index)) [
  | inl e ↦ absurd (ground arith)
  | inr (s, at) ↦ (s, at, ground arith, ground arith)
]

create_on_freed :
    (a : ObjectArena) (f : ResourceDomain) (id : ObjectId) (s : ObjectSlot) (t : ObjectType)
    → get_elem? a.slots id.index ≡ some s
    → f.usage.objects < f.limits.objects
    → ((create_internal_impl (after_destroy a id s) f t).0
        ≡ ok (record { index = id.index; generation = next_generation s.generation }))
      × ((create_internal_impl (after_destroy a id s) f t).2 ≡ record a {
        slots =
            set
              (set a.slots id.index (freed_slot a s))
              id.index
              (record (freed_slot a s) { state = live t f.id });
        free_head = a.free_head;
      })
unfolding create_internal_impl charge_object
create_on_freed a f id s t at fits = ground (
  arith,
  get_elem?-set_self a.slots id.index (freed_slot a s) (lt_of_get_elem? a.slots id.index at),
)

object_type_stale :
    (a : ObjectArena) (id : ObjectId) (s : ObjectSlot)
    → get_elem? a.slots id.index ≡ some s
    → s.generation ≢ id.generation
    → object_type a id ≡ none
unfolding object_type
object_type_stale a id s at stale = ground arith

-- The identity of a destroyed object does not come back with its slot: after a successful
-- destruction in a valid arena, any domain below its object limit that creates an object next gets
-- the same slot under the next generation, which differs from the destroyed one, and the destroyed
-- identity still has no type.
pub create-destroy :
    (a b : ObjectArena) (d e f : ResourceDomain) (id : ObjectId) (t : ObjectType)
    → IsValid a
    → destroy a d id ≡ (ok tt, e, b)
    → f.usage.objects < f.limits.objects
    → ((create_internal_impl b f t).0
        ≡ ok (record id { generation = next_generation id.generation }))
      × (next_generation id.generation ≢ id.generation)
      × (object_type (create_internal_impl b f t).2 id ≡ none)
create-destroy a b d e f id t v destroyed fits =
    let (s, at, g, after) = destroy_inversion a b d e id destroyed in
    let (result, arena) = create_on_freed a f id s t at fits in
    let old = All-get HasGeneration a.slots id.index at v.generations in
    let differs = (next_generation_lem s.generation old.0 old.1).0 in
    let taken : ObjectSlot = record (freed_slot a s) { state = live t f.id } in
    let freed_at =
      get_elem?-set_self a.slots id.index (freed_slot a s) (lt_of_get_elem? a.slots id.index at) in
    let again =
      get_elem?-set_self (set a.slots id.index (freed_slot a s)) id.index taken
        (lt_of_get_elem? _ id.index freed_at) in
    let stale : next_generation s.generation ≢ id.generation = ground arith in
    (
      ground (arith, result),
      ground arith,
      rw (after, arena) (object_type_stale _ id taken again stale),
    )
