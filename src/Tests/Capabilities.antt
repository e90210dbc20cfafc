-- ===== src/Tests/Capabilities.antt =====
-- Examples for crates/kernel-core/src/capability.rs: a root capability, one derived from it and one
-- that is apart, all held in one space.
use gaxera.Prelude.{
  ℕ, ◌+◌, ◌≤◌, ◌<◌, ◌≡◌, ◌≢◌, ◌↔◌, refl, true, false, some, none, [], ◌∷◌, length, Result, ok, err,
  arith, is_error,
}
use gaxera.Abi.Handles.{Handle, from_parts, slot, generation, is_valid}
use gaxera.Abi.Kinds.{notification}
use gaxera.Abi.Authority.{Rights, contains, is_subset_of}
use gaxera.Abi.Ids.{ObjectId, next_generation}
use gaxera.FreeList.{in_use}
use gaxera.Resource.{ResourceDomain}
use gaxera.Object.{SlotState, ObjectArena, object_type, type_of}
use gaxera.Capability.Types.{
  CapabilityError, CapabilityNodeId, CapabilityInfo, LiveNode, live, CapabilitySystem, live_at,
}
use gaxera.Capability.Space.{CapabilitySpace, insert, remove, slot_for, node_for}
use gaxera.Capability.Slots.{slot_link, resolve, same_handle}
use gaxera.Capability.Slots
use gaxera.Capability.Holding.{insert-remove}
use gaxera.Capability.Nodes.{live_count}
use gaxera.Capability.Nodes
use gaxera.Capability.Tree.{release_loop, release_node}
use gaxera.Capability.Ops.{
  check_object, validate_node, lookup, is_descendant_of, derive, revoke, PreparedTransfer,
  commit_transfer,
}
use gaxera.Capability.Lineage.{Lineage, top, below, validate_node_iff}
use gaxera.Capability.Revocation.{Under, itself, derived}
use gaxera.Capability.Cascade.{
  lookup-revoke, validate_node-revoke_elsewhere, commit_transfer-revoke,
}
use gaxera.Capability.Ancestry.{steps, is_descendant_of_iff}
use gaxera.Capability.Derivation.{derive_grants}
use gaxera.Capability.Release.{release_node_total}

abbrev domain : ResourceDomain
domain = record {
  id = record { index = 0; generation = 1 };
  parent = none;
  limits = record { objects = 2; capabilities = 8; memory_bytes = 4096 };
  usage = record { objects = 1; capabilities = 3; memory_bytes = 1024 };
  process_refs = 1;
  child_domain_refs = 0;
  reservation_active = false;
}

abbrev object : ObjectId
object = record { index = 0; generation = 4 }

abbrev objects : ObjectArena
objects = record {
  slots = record { generation = 4; state = SlotState.live notification domain.id } ∷ [];
  capacity = 3;
  free_head = none;
}

abbrev full : Rights
full = record { bits = 71 }

abbrev reading : Rights
reading = record { bits = 1 }

abbrev info : CapabilityInfo
info = record { object = object; object_type = notification; rights = full }

abbrev read_info : CapabilityInfo
read_info = record info { rights = reading }

abbrev root : CapabilityNodeId
root = record { index = 0; generation = 1 }

abbrev leaf : CapabilityNodeId
leaf = record { index = 1; generation = 1 }

abbrev apart : CapabilityNodeId
apart = record { index = 2; generation = 1 }

abbrev live_root : LiveNode
live_root = record {
  info = info;
  parent = none;
  first_child = some leaf;
  next_sibling = none;
  revoked = false;
  references = 2;
}

abbrev live_leaf : LiveNode
live_leaf = record {
  info = read_info;
  parent = some root;
  first_child = none;
  next_sibling = none;
  revoked = false;
  references = 1;
}

abbrev live_apart : LiveNode
live_apart = record live_leaf { parent = none }

abbrev table : CapabilitySystem
table = record {
  nodes =
      record { generation = 1; state = live live_root }
      ∷ record { generation = 1; state = live live_leaf }
      ∷ record { generation = 1; state = live live_apart }
      ∷ [];
  capacity = 4;
  free_head = none;
}

abbrev space : CapabilitySpace
space = record {
  domain = domain.id;
  slots =
      record { generation = 1; node = some root; next_free = none }
      ∷ record { generation = 1; node = some leaf; next_free = none }
      ∷ [];
  capacity = 4;
  free_head = none;
}

abbrev root_handle : Handle
root_handle = record { raw = 0x1_0000_0000 }

abbrev leaf_handle : Handle
leaf_handle = record { raw = 0x1_0000_0001 }

abbrev prepared : PreparedTransfer
prepared = record { source_handle = leaf_handle; requested_rights = reading }

table-IsValid : Nodes.IsValid table
unfolding in_use
table-IsValid = record {
  linked = record { free = []; chain = (refl, tt); distinct = tt; counted = refl };
  within = omega arith;
  word = omega arith;
  generations =
      ((omega arith, omega arith), ((omega arith, omega arith), ((omega arith, omega arith), tt)));
}

space-IsValid : Slots.IsValid space
unfolding in_use
space-IsValid = record {
  linked = record { free = []; chain = (refl, tt); distinct = tt; counted = refl };
  within = omega arith;
  word = omega arith;
  generations = ((omega arith, omega arith), ((omega arith, omega arith), tt));
}

table_room : live_count table < table.capacity
unfolding in_use
table_room = omega arith

space_room : in_use slot_link space.slots < space.capacity
unfolding in_use
space_room = omega arith

root_at : live_at table root ≡ some live_root
unfolding live_at
root_at = refl

leaf_at : live_at table leaf ≡ some live_leaf
unfolding live_at
leaf_at = refl

root_found : node_for space root_handle ≡ ok root
unfolding node_for slot_for slot generation is_valid
root_found = refl

leaf_found : node_for space leaf_handle ≡ ok leaf
unfolding node_for slot_for slot generation is_valid
leaf_found = refl

resolve-leaf : resolve space leaf_handle ≡ some leaf
unfolding resolve node_for slot_for slot generation is_valid
resolve-leaf = refl

root_valid : validate_node table objects root ≡ ok info
unfolding validate_node check_object object_type type_of
root_valid = refl

revoked_root : (revoke table space root_handle objects).0 ≡ ok info
unfolding revoke contains node_for slot_for slot generation is_valid validate_node check_object
    object_type type_of
revoked_root = refl

leaf-Under : Under table root leaf
leaf-Under = derived live_leaf root leaf_at refl itself

leaf-Lineage : Lineage table leaf 2
leaf-Lineage = below live_leaf root leaf_at refl refl (top live_root root_at refl refl)

reading_subset : is_subset_of reading full ≡ true
unfolding is_subset_of
reading_subset = refl

abbrev after_revoke : CapabilitySystem
after_revoke = (revoke table space root_handle objects).1

lookup-revoke_example :
    is_error (lookup after_revoke space leaf_handle notification reading objects) ≡ true
lookup-revoke_example =
    lookup-revoke table space space root_handle leaf_handle objects objects info root leaf
      notification reading revoked_root root_found leaf_found leaf-Under

commit_transfer-revoke_example :
    (e : CapabilityError) × (commit_transfer after_revoke space prepared space domain objects
      ≡ (err e, after_revoke, space, domain))
commit_transfer-revoke_example =
    commit_transfer-revoke table space space space domain root_handle prepared objects objects info
      root leaf revoked_root root_found leaf_found leaf-Under

apart_free : ¬ Under table root apart
unfolding live_at
apart_free (derived l p at child up) = ground arith

validate_node-revoke_elsewhere_example :
    validate_node after_revoke objects apart ≡ validate_node table objects apart
validate_node-revoke_elsewhere_example =
    validate_node-revoke_elsewhere table space root_handle objects objects info root apart
      revoked_root root_found apart_free

validate_node_iff_example : (validate_node table objects leaf ≡ ok read_info) ↔ (
    (n : ℕ) × (l : LiveNode) × Lineage table leaf n
    × (n ≤ 4)
    × (live_at table leaf ≡ some l)
    × (read_info ≡ l.info)
    × (object_type objects object ≡ some notification))
validate_node_iff_example = validate_node_iff table objects leaf read_info

is_descendant_of_iff_example :
    (is_descendant_of table leaf root ≡ true) ↔ ((u : Under table root leaf) × (steps u ≤ 4))
is_descendant_of_iff_example = is_descendant_of_iff table leaf root

release_node_total_example :
    (outcome : Result (Unit {0}) CapabilityError × CapabilitySystem) × (release_loop
        (length table.nodes + 1)
        table
        leaf
      ≡ some outcome)
    × (release_node table leaf ≡ outcome)
release_node_total_example = release_node_total table leaf

removed_leaf : remove space leaf_handle ≡ (ok leaf, (remove space leaf_handle).1)
unfolding remove slot_for slot generation is_valid
removed_leaf = refl

insert-remove_example :
    ((insert (remove space leaf_handle).1 apart).0
      ≡ ok (from_parts (slot leaf_handle) (next_generation (generation leaf_handle))))
    × (next_generation (generation leaf_handle) ≢ generation leaf_handle)
    × (resolve (insert (remove space leaf_handle).1 apart).1 leaf_handle ≡ none)
insert-remove_example =
    insert-remove space (remove space leaf_handle).1 leaf_handle leaf apart space-IsValid
      removed_leaf

abbrev derivation :
    Result Handle CapabilityError × CapabilitySystem × CapabilitySpace × ResourceDomain
derivation = derive table space root_handle space domain reading objects

abbrev granted : Handle
granted = record { raw = 0x1_0000_0002 }

derive_grants_example :
    (h : Handle) × (s' : CapabilitySystem) × (target' : CapabilitySpace) × (id : CapabilityNodeId)
    × (derivation ≡ (
      ok h,
      s',
      target',
      record domain { usage = record (domain.usage) { capabilities = 3 + 1 } },
    ))
    × Nodes.IsValid s'
    × Slots.IsValid target'
    × (resolve target' h ≡ some id)
    × (validate_node s' objects id ≡ ok read_info)
    × ((x : CapabilityNodeId) (v : CapabilityInfo)
        → validate_node table objects x ≡ ok v
        → validate_node s' objects x ≡ ok v)
    × ((other : Handle) → same_handle h other ≡ false → resolve target' other ≡ resolve space other)
derive_grants_example =
    derive_grants table space space root_handle domain reading objects root info live_root
      table-IsValid table_room space-IsValid space_room refl (omega arith) root_found root_valid
      reading_subset root_at (omega arith)
