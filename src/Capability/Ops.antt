-- ===== src/Capability/Ops.antt =====
-- crates/kernel-core/src/capability.rs: the operations of `CapabilitySystem` on capability spaces.
-- Shared borrows are arguments; what is mutably borrowed is returned, also on the error paths.
mod Validate
unfoldable pub use Validate.*
use gaxera.Prelude.{
  ℕ, zero, suc, ◌+◌, Bool, true, false, not, ◌&&◌, Option, none, some, length, ◌==◌, if◌then◌else◌,
  is_none, Result, ok, err, ◌>>=◌, ◌>>◌, reject_if, ok_or,
}
use gaxera.Abi.Handles.{Handle}
use gaxera.Abi.Kinds.{ObjectType, same_type}
use gaxera.Abi.Authority.{Rights, manage, contains, is_subset_of}
use gaxera.Abi.Ids.{ObjectId, same_id}
use gaxera.Resource.{ResourceDomain, charge_capability, release_capability}
use gaxera.Object.{ObjectArena, object_type}
use gaxera.Capability.Types.{
  CapabilityError, domain_mismatch, space_full, node_capacity, stale_handle, revoked,
  object_destroyed, type_mismatch, rights_denied, rights_escalation, resource, accounting_invariant,
  CapabilityNodeId, CapabilityInfo, LiveNode, free, live, CapabilitySystem, node, live_state,
  live_at, modify,
}
use gaxera.Capability.Space.{CapabilitySpace, has_capacity, insert, remove, node_for}
use gaxera.Capability.Tree.{allocate_node, release_node, first_child_of}

-- The result, the system, the target space and its domain.
abbrev pub Insertion : Type 0
Insertion = Result Handle CapabilityError × CapabilitySystem × CapabilitySpace × ResourceDomain

unfoldable pub insert_new :
    CapabilitySystem
    → CapabilitySpace
    → ResourceDomain
    → CapabilityInfo
    → Option CapabilityNodeId
    → Insertion
unfolding has_capacity allocate_node insert release_node
insert_new s target domain info parent =
    if not (same_id target.domain domain.id)
    then (err domain_mismatch, s, target, domain)
    else if not (has_capacity target)
    then (err space_full, s, target, domain)
    else if is_none s.free_head && length s.nodes == s.capacity
    then (err node_capacity, s, target, domain)
    else let (charged, domain') = charge_capability domain in
      elim charged [
        | err e ↦ (err (resource e), s, target, domain')
        | ok _ ↦
            let (allocated, s') = allocate_node s info parent in
            elim allocated [
              | err e ↦ (err e, s', target, (release_capability domain').1)
              | ok id ↦
                  let (inserted, target') = insert target id in
                  elim inserted [
                    | ok h ↦ (ok h, s', target', domain')
                    | err e ↦
                        (err e, (release_node s' id).1, target', (release_capability domain').1)
                  ]
            ]
      ]

unfoldable pub insert_root :
    CapabilitySystem
    → CapabilitySpace
    → ResourceDomain
    → ObjectId
    → ObjectType
    → Rights
    → ObjectArena
    → Insertion
unfolding insert_new
insert_root s target domain object kind rights objects =
    if not (same_id target.domain domain.id)
    then (err domain_mismatch, s, target, domain)
    else if not (is_kind (object_type objects object) kind)
    then (err object_destroyed, s, target, domain)
    else insert_new s target domain
        (record { object = object; object_type = kind; rights = rights }) none

unfoldable pub insert_descendant :
    CapabilitySystem
    → CapabilityNodeId
    → CapabilitySpace
    → ResourceDomain
    → ObjectId
    → ObjectType
    → Rights
    → ObjectArena
    → Insertion
unfolding insert_new validate_node
insert_descendant s parent target domain object kind requested objects =
    if not (same_id target.domain domain.id)
    then (err domain_mismatch, s, target, domain)
    else if not (is_kind (object_type objects object) kind)
    then (err object_destroyed, s, target, domain)
    else elim (validate_node s objects parent) [
      | err e ↦ (err e, s, target, domain)
      | ok parent_info ↦
          if not (is_subset_of requested parent_info.rights)
          then (err rights_escalation, s, target, domain)
          else insert_new s target domain
              (record { object = object; object_type = kind; rights = requested }) (some parent)
    ]

unfoldable pub inspect :
    CapabilitySystem
    → CapabilitySpace
    → Handle
    → ObjectArena
    → Result CapabilityInfo CapabilityError
unfolding node_for validate_node
inspect s space h objects = do id ← node_for space h; validate_node s objects id

unfoldable pub lookup_info :
    CapabilitySystem
    → CapabilitySpace
    → Handle
    → ObjectType
    → Rights
    → ObjectArena
    → Result CapabilityInfo CapabilityError
unfolding node_for validate_node
lookup_info s space h kind required objects = do
  id ← node_for space h
  info ← validate_node s objects id
  reject_if (not (same_type info.object_type kind)) type_mismatch
  reject_if (not (contains info.rights required)) rights_denied
  ok info

unfoldable pub lookup :
    CapabilitySystem
    → CapabilitySpace
    → Handle
    → ObjectType
    → Rights
    → ObjectArena
    → Result ObjectId CapabilityError
unfolding node_for validate_node
lookup s space h kind required objects = do
  id ← node_for space h
  info ← validate_node s objects id
  reject_if (not (same_type info.object_type kind)) type_mismatch
  reject_if (not (contains info.rights required)) rights_denied
  ok info.object

-- The `while` loop of `is_descendant_of`; the number is what is left of the capacity for `depth`.
unfoldable pub descends : ℕ → CapabilitySystem → CapabilityNodeId → CapabilityNodeId → Bool
unfolding live_at
descends zero s current ancestor = false
descends (suc left) s current ancestor = elim (live_at s current) [
  | none ↦ false
  | some l ↦ elim l.parent [
    | none ↦ false
    | some p ↦ let rest = descends left s p ancestor in if same_id p ancestor then true else rest
  ]
]

unfoldable pub is_descendant_of : CapabilitySystem → CapabilityNodeId → CapabilityNodeId → Bool
unfolding descends
is_descendant_of s id ancestor =
    if same_id id ancestor then true else descends s.capacity s id ancestor

unfoldable pub derive :
    CapabilitySystem
    → CapabilitySpace
    → Handle
    → CapabilitySpace
    → ResourceDomain
    → Rights
    → ObjectArena
    → Insertion
unfolding node_for validate_node insert_new
derive s source h target domain requested objects = elim (node_for source h) [
  | err e ↦ (err e, s, target, domain)
  | ok parent ↦ elim (validate_node s objects parent) [
    | err e ↦ (err e, s, target, domain)
    | ok info ↦
        if not (is_subset_of requested info.rights)
        then (err rights_escalation, s, target, domain)
        else insert_new s target domain (record info { rights = requested }) (some parent)
  ]
]

unfoldable pub revoke :
    CapabilitySystem
    → CapabilitySpace
    → Handle
    → ObjectArena
    → Result CapabilityInfo CapabilityError × CapabilitySystem
unfolding node_for validate_node live_at modify
revoke s space h objects = elim (node_for space h) [
  | err e ↦ (err e, s)
  | ok id ↦ elim (validate_node s objects id) [
    | err e ↦ (err e, s)
    | ok info ↦
        if not (contains info.rights manage) then (err rights_denied, s) else elim (node s id) [
          | err e ↦ (err e, s)
          | ok n ↦ elim n.state [
            | free next ↦ (err stale_handle, s)
            | live l ↦ (ok info, modify s id (λ r. record r { revoked = true }))
          ]
        ]
  ]
]

-- The sibling loop and the recursion of `find_unrevoked_descendant`, from a first child.
unfoldable pub find_unrevoked :
    ℕ → CapabilitySystem → Option CapabilityNodeId → Option CapabilityNodeId
unfolding live_at
find_unrevoked zero s curr = none
find_unrevoked (suc fuel) s curr = elim curr [
  | none ↦ none
  | some child ↦ elim (live_at s child) [
    | none ↦ none
    | some l ↦ elim l.revoked [
      | false ↦ some child
      | true ↦ elim (find_unrevoked fuel s l.first_child) [
        | some d ↦ some d
        | none ↦ find_unrevoked fuel s l.next_sibling
      ]
    ]
  ]
]

-- Every path down and along a tree of nodes is no longer than the table.
unfoldable pub revoke_one_descendant :
    CapabilitySystem → CapabilityNodeId → Option CapabilityInfo × CapabilitySystem
unfolding find_unrevoked live_at modify
revoke_one_descendant s root =
    elim (find_unrevoked (length s.nodes + 1) s (first_child_of (live_at s root))) [
      | none ↦ (none, s)
      | some d ↦ elim (live_at s d) [
        | none ↦ (none, s)
        | some l ↦ (some l.info, modify s d (λ r. record r { revoked = true }))
      ]
    ]

-- The result, the system, the space and the domain.
unfoldable pub delete :
    CapabilitySystem
    → CapabilitySpace
    → ResourceDomain
    → Handle
    → Result (Unit {0}) CapabilityError × CapabilitySystem × CapabilitySpace × ResourceDomain
unfolding remove release_node
delete s space domain h =
    if not (same_id space.domain domain.id)
    then (err domain_mismatch, s, space, domain)
    else let (removed, space') = remove space h in
      elim removed [
        | err e ↦ (err e, s, space', domain)
        | ok id ↦
            let (released, domain') = release_capability domain in
            elim released [
              | err e ↦ (err (resource e), s, space', domain')
              | ok _ ↦ let (done, s') = release_node s id in (done, s', space', domain')
            ]
      ]

pub record PreparedTransfer : Type 0 where
  pub source_handle : Handle
  pub requested_rights : Rights

unfoldable pub prepare_transfer :
    CapabilitySystem
    → CapabilitySpace
    → Handle
    → Rights
    → ObjectArena
    → Result PreparedTransfer CapabilityError
unfolding node_for validate_node
prepare_transfer s source h requested objects = do
  id ← node_for source h
  info ← validate_node s objects id
  reject_if (not (is_subset_of requested info.rights)) rights_escalation
  ok (record { source_handle = h; requested_rights = requested })

unfoldable pub commit_transfer :
    CapabilitySystem
    → CapabilitySpace
    → PreparedTransfer
    → CapabilitySpace
    → ResourceDomain
    → ObjectArena
    → Insertion
unfolding derive
commit_transfer s source prepared target domain objects =
    derive s source prepared.source_handle target domain prepared.requested_rights objects
