-- ===== src/Tests/Objects.antt =====
-- Examples for crates/kernel-core/src/object.rs.
use gaxera.Prelude.{
  ◌+◌, ◌-◌, ◌<◌, ◌≡◌, ◌≢◌, refl, true, false, some, none, [], ◌∷◌, total, if◌then◌else◌, ok, arith,
  is_error,
}
use gaxera.Abi.Kinds.{ObjectType, notification, endpoint, thread}
use gaxera.Abi.Kinds
use gaxera.Abi.Ids.{ObjectId, ResourceDomainId, same_id, next_generation}
use gaxera.FreeList.{in_use}
use gaxera.Resource.{ResourceDomain, charge_object, release_object}
use gaxera.Object.{
  free, live, ObjectArena, Factory, create_internal_impl, destroy, object_type, owner_of,
}
use gaxera.Object.Lookup.{entry, owned, at_slot, holding}
use gaxera.Object.Valid.{link, IsValid}
use gaxera.Object.Create.{create_internal_adds}
use gaxera.Object.Destroy.{destroy_removes, create-destroy}
use gaxera.Object.Accounting.{IsAccounted, create-IsAccounted, destroy-IsAccounted}

abbrev domain : ResourceDomain
domain = record {
  id = record { index = 0; generation = 1 };
  parent = none;
  limits = record { objects = 2; capabilities = 8; memory_bytes = 4096 };
  usage = record { objects = 1; capabilities = 2; memory_bytes = 1024 };
  process_refs = 1;
  child_domain_refs = 0;
  reservation_active = false;
}

-- The domain that has used up its objects.
abbrev full_domain : ResourceDomain
full_domain = record domain {
  usage = record { objects = 2; capabilities = 2; memory_bytes = 1024 };
}

abbrev held : ObjectId
held = record { index = 1; generation = 4 }

-- A free slot before a live one.
abbrev arena : ObjectArena
arena = record {
  slots =
      record { generation = 2; state = free none }
      ∷ record { generation = 4; state = live notification domain.id }
      ∷ [];
  capacity = 3;
  free_head = some 0;
}

arena-IsValid : IsValid arena
unfolding in_use
arena-IsValid = record {
  linked = record {
    free = 0 ∷ [];
    chain = (refl, (record { generation = 2; state = free none }, none, refl, refl, (refl, tt)));
    distinct = (tt, tt);
    counted = refl;
  };
  within = omega arith;
  word = omega arith;
  generations = ((omega arith, omega arith), ((omega arith, omega arith), tt));
}

arena_room : in_use link arena.slots < arena.capacity
unfolding in_use
arena_room = omega arith

held-entry : entry arena held ≡ some (notification, domain.id)
unfolding entry at_slot holding
held-entry = refl

domain-IsAccounted : IsAccounted arena domain
unfolding total same_id
domain-IsAccounted = refl

destroyed :
    destroy arena domain held
    ≡ (ok tt, (destroy arena domain held).1, (destroy arena domain held).2)
unfolding destroy same_id release_object
destroyed = refl

abbrev missing : ObjectId
missing = record { index = 1; generation = 3 }

create_internal_adds_example :
    (id : ObjectId) × (a' : ObjectArena) × (create_internal_impl arena domain endpoint
      ≡ (ok id, record domain { usage = record (domain.usage) { objects = 1 + 1 } }, a'))
    × IsValid a'
    × (entry arena id ≡ none)
    × ((other : ObjectId)
        → entry a' other
          ≡ (if same_id id other then some (endpoint, domain.id) else entry arena other))
create_internal_adds_example =
    create_internal_adds arena domain endpoint arena-IsValid arena_room (omega arith)

refused : is_error (create_internal_impl arena full_domain endpoint).0 ≡ true
unfolding create_internal_impl charge_object
refused = refl

destroy_removes_example :
    (a' : ObjectArena) × (destroy arena domain held
      ≡ (ok tt, record domain { usage = record (domain.usage) { objects = 1 - 1 } }, a'))
    × IsValid a'
    × ((other : ObjectId)
        → entry a' other ≡ (if same_id held other then none else entry arena other))
destroy_removes_example =
    destroy_removes arena domain held notification arena-IsValid held-entry (omega arith)

missed : is_error (destroy arena domain missing).0 ≡ true
unfolding destroy owner_of
missed = refl

create-destroy_example :
    ((create_internal_impl (destroy arena domain held).2 domain thread).0
      ≡ ok (record held { generation = next_generation 4 }))
    × (next_generation 4 ≢ 4)
    × (object_type (create_internal_impl (destroy arena domain held).2 domain thread).2 held ≡ none)
create-destroy_example =
    create-destroy arena (destroy arena domain held).2 domain (destroy arena domain held).1 domain
      held thread arena-IsValid destroyed (omega arith)

create-IsAccounted_example :
    IsAccounted
      (create_internal_impl arena domain endpoint).2
      (create_internal_impl arena domain endpoint).1
    × ((x : ResourceDomainId)
        → domain.id ≢ x
        → owned x (create_internal_impl arena domain endpoint).2 ≡ owned x arena)
create-IsAccounted_example =
    create-IsAccounted arena domain endpoint arena-IsValid domain-IsAccounted

destroy-IsAccounted_example :
    ((destroy arena domain held).0 ≡ ok tt)
    × IsAccounted (destroy arena domain held).2 (destroy arena domain held).1
    × ((x : ResourceDomainId)
        → domain.id ≢ x
        → owned x (destroy arena domain held).2 ≡ owned x arena)
destroy-IsAccounted_example =
    destroy-IsAccounted arena domain held notification arena-IsValid domain-IsAccounted held-entry

abbrev factory : Factory
factory = record { domain = domain.id; allowed_types = Kinds.all }
