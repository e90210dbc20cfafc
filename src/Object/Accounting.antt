-- ===== src/Object/Accounting.antt =====
-- crates/kernel-core/src/object.rs and resource.rs: the objects that a domain is charged for are those
-- that it owns in the arena.
use gaxera.Prelude.{◌<◌, ◌≡◌, ◌≢◌, inl, inr, refl, none, some, total-set, ok, arith}
use gaxera.Abi.Kinds.{ObjectType}
use gaxera.Abi.Ids.{ObjectId, ResourceDomainId, same_id_iff}
use gaxera.Resource.{ResourceDomain, release_object}
use gaxera.Object.{free, ObjectArena, create_internal_impl, destroy}
use gaxera.Object.Lookup.{entry, owned, owner_weight}
use gaxera.Object.Valid.{IsValid}
use gaxera.Object.Create.{create_internal_cases}
use gaxera.Object.Destroy.{slot_of_entry, freed_slot}

-- A domain is charged for as many objects as it owns.
abbrev pub IsAccounted : ObjectArena → ResourceDomain → Type 0
IsAccounted a d = owned d.id a ≡ d.usage.objects

-- Creating an object in a valid arena, successfully or not, keeps a domain accounted and leaves the
-- count of every other domain as it was.
pub create-IsAccounted :
    (a : ObjectArena) (d : ResourceDomain) (t : ObjectType)
    → IsValid a
    → IsAccounted a d
    → IsAccounted (create_internal_impl a d t).2 (create_internal_impl a d t).1
      × ((x : ResourceDomainId) → d.id ≢ x → owned x (create_internal_impl a d t).2 ≡ owned x a)
create-IsAccounted a d t v acc = elim (create_internal_cases a d t v) [
  | inl (id, a', made, taken) ↦ rw made (
    (ground (arith, taken.owned_more d.id, same_id_iff d.id d.id)),
    (λ x ne. ground (arith, taken.owned_more x, same_id_iff d.id x)),
  )
  | inr (e, refused, why) ↦ rw refused (acc, (λ x ne. refl))
]

-- An accounted domain that owns an object has it charged.
charged_of_entry :
    (a : ObjectArena) (d : ResourceDomain) (id : ObjectId) (t : ObjectType)
    → IsAccounted a d
    → entry a id ≡ some (t, d.id)
    → 0 < d.usage.objects
charged_of_entry a d id t acc h =
    let (s, at, e, g) = slot_of_entry a id t d.id h in
    ground (
      arith,
      total-set (owner_weight d.id) a.slots id.index (record s { state = free none }) at,
      same_id_iff d.id d.id,
    )

-- In a valid arena, an accounted domain can always destroy an object that it owns: the release never
-- underflows, the domain stays accounted, and the count of every other domain is as it was.
pub destroy-IsAccounted :
    (a : ObjectArena) (d : ResourceDomain) (id : ObjectId) (t : ObjectType)
    → IsValid a
    → IsAccounted a d
    → entry a id ≡ some (t, d.id)
    → ((destroy a d id).0 ≡ ok tt)
      × IsAccounted (destroy a d id).2 (destroy a d id).1
      × ((x : ResourceDomainId) → d.id ≢ x → owned x (destroy a d id).2 ≡ owned x a)
unfolding destroy release_object
destroy-IsAccounted a d id t v acc h =
    let (s, at, e, g) = slot_of_entry a id t d.id h in
    let charged = charged_of_entry a d id t acc h in
    (
      ground (arith, same_id_iff d.id d.id),
      ground (
        arith,
        same_id_iff d.id d.id,
        total-set (owner_weight d.id) a.slots id.index (freed_slot a s) at,
      ),
      (λ x ne. ground (
        arith,
        same_id_iff d.id d.id,
        same_id_iff d.id x,
        total-set (owner_weight x) a.slots id.index (freed_slot a s) at,
      )),
    )
