-- ===== src/Capability/Ops/Validate.antt =====
-- crates/kernel-core/src/capability.rs: `CapabilitySystem::validate_node`.
use gaxera.Prelude.{
  ℕ, zero, suc, Bool, false, not, Option, none, some, Result, ok, err, ◌>>=◌, ◌>>◌, reject_if,
  ok_or,
}
use gaxera.Abi.Kinds.{ObjectType, same_type}
use gaxera.Object.{ObjectArena, object_type}
use gaxera.Capability.Types.{
  CapabilityError, stale_handle, revoked, object_destroyed, accounting_invariant, CapabilityNodeId,
  CapabilityInfo, LiveNode, CapabilitySystem, node, live_state,
}

-- `objects.object_type(object) == Some(kind)`
abbrev pub is_kind : Option ObjectType → ObjectType → Bool
is_kind none kind = false
is_kind (some t) kind = same_type t kind

-- One round of the loop of `validate_node`: the node is there, live and not revoked.
unfoldable pub check_node : CapabilitySystem → CapabilityNodeId → Result LiveNode CapabilityError
unfolding node
check_node s id = do
  n ← node s id
  l ← ok_or (live_state n.state) stale_handle
  reject_if l.revoked revoked
  ok l

abbrev pub first_leaf : Option CapabilityInfo → CapabilityInfo → CapabilityInfo
first_leaf none info = info
first_leaf (some leaf) info = leaf

unfoldable pub check_object : ObjectArena → CapabilityInfo → Result CapabilityInfo CapabilityError
unfolding object_type same_type
check_object objects leaf = do
  reject_if (not (is_kind (object_type objects leaf.object) leaf.object_type)) object_destroyed
  ok leaf

-- The loop of `validate_node`; the number is what is left of the capacity for `depth`.
unfoldable pub validate_loop :
    CapabilitySystem
    → ObjectArena
    → ℕ
    → CapabilityNodeId
    → Option CapabilityInfo
    → Result CapabilityInfo CapabilityError
unfolding check_node check_object
validate_loop s objects zero id leaf = elim (check_node s id) [
  | err e ↦ err e
  | ok l ↦ err accounting_invariant
]
validate_loop s objects (suc left) id leaf = elim (check_node s id) [
  | err e ↦ err e
  | ok l ↦ elim l.parent [
    | some parent ↦ validate_loop s objects left parent (some (first_leaf leaf l.info))
    | none ↦ check_object objects (first_leaf leaf l.info)
  ]
]

unfoldable pub validate_node :
    CapabilitySystem → ObjectArena → CapabilityNodeId → Result CapabilityInfo CapabilityError
unfolding validate_loop
validate_node s objects id = validate_loop s objects s.capacity id none
