-- ===== src/Capability/Tree.antt =====
-- crates/kernel-core/src/capability.rs: the node table of `CapabilitySystem`: references, the child
-- lists, and how nodes are allocated and released.
use gaxera.Prelude.{
  ℕ, zero, suc, ◌+◌, ◌-◌, ◌%◌, Bool, false, not, Option, none, some, [], ◌∷◌, ◌++◌, length,
  get_elem?, set, ltb, ◌==◌, u32_mod, checked_add, if◌then◌else◌, Result, ok, err,
}
use gaxera.Abi.Ids.{same_id, next_generation}
use gaxera.Capability.Types.{
  CapabilityError, node_capacity, stale_handle, accounting_invariant, CapabilityNodeId,
  CapabilityInfo, LiveNode, free, live, CapabilitySystem, node, live_at, modify,
}
use gaxera.Capability.Space.{CapabilityInitError, capacity_too_large, allocation_failed}

unfoldable pub system_try_new : ℕ → Bool → Result CapabilitySystem CapabilityInitError
system_try_new capacity reserved =
    if ltb (u32_mod - 1) capacity
    then err capacity_too_large
    else if reserved
    then ok (record { nodes = []; capacity = capacity; free_head = none })
    else err allocation_failed

unfoldable pub add_reference :
    CapabilitySystem → CapabilityNodeId → Result (Unit {0}) CapabilityError × CapabilitySystem
unfolding node
add_reference s id = elim (node s id) [
  | err e ↦ (err e, s)
  | ok n ↦ elim n.state [
    | free next ↦ (err stale_handle, s)
    | live l ↦ elim (checked_add u32_mod l.references 1) [
      | none ↦ (err accounting_invariant, s)
      | some references ↦
          let counted = record n { state = live (record l { references = references }) } in
          (ok tt, record s { nodes = set s.nodes id.index counted })
    ]
  ]
]

abbrev pub first_child_of : Option LiveNode → Option CapabilityNodeId
first_child_of none = none
first_child_of (some l) = l.first_child

abbrev pub next_sibling_of : Option LiveNode → Option CapabilityNodeId
next_sibling_of none = none
next_sibling_of (some l) = l.next_sibling

unfoldable pub link_child :
    CapabilitySystem → CapabilityNodeId → CapabilityNodeId → CapabilitySystem
unfolding live_at modify
link_child s parent_id child_id =
    let parent_first = first_child_of (live_at s parent_id) in
    let linked = modify s child_id (λ c. record c { next_sibling = parent_first }) in
    modify linked parent_id (λ p. record p { first_child = some child_id })

abbrev pub is_node : Option CapabilityNodeId → CapabilityNodeId → Bool
is_node none id = false
is_node (some n) id = same_id n id

-- The `while` loop of `unlink_child`, from the sibling `curr`.
unfoldable pub unlink_after :
    ℕ → CapabilitySystem → CapabilityNodeId → CapabilityNodeId → CapabilitySystem
unfolding node live_at modify
unlink_after zero s curr child_id = s
unlink_after (suc fuel) s curr child_id = elim (node s curr) [
  | err e ↦ s
  | ok n ↦ elim (next_sibling_of (live_at s curr)) [
    | none ↦ s
    | some nxt ↦
        let rest = unlink_after fuel s nxt child_id in
        let child_next = next_sibling_of (live_at s child_id) in
        if same_id nxt child_id
        then modify s curr (λ n. record n { next_sibling = child_next })
        else rest
  ]
]

-- A child list without a cycle has at most as many nodes as the table.
unfoldable pub unlink_child :
    CapabilitySystem → CapabilityNodeId → CapabilityNodeId → CapabilitySystem
unfolding unlink_after
unlink_child s parent_id child_id =
    let first = first_child_of (live_at s parent_id) in
    if is_node first child_id
    then (let next = next_sibling_of (live_at s child_id) in
        modify s parent_id (λ p. record p { first_child = next }))
    else elim first [ none ↦ s | some curr ↦ unlink_after (length s.nodes) s curr child_id ]

-- A new node, before it is linked to its parent.
abbrev pub new_node : CapabilityInfo → Option CapabilityNodeId → LiveNode
new_node info parent = record {
  info = info;
  parent = parent;
  first_child = none;
  next_sibling = none;
  revoked = false;
  references = 1;
}

abbrev pub link_parent :
    CapabilitySystem → Option CapabilityNodeId → CapabilityNodeId → CapabilitySystem
link_parent s none id = s
link_parent s (some parent_id) id = link_child s parent_id id

-- `allocate_node` once the parent's reference has been taken.
unfoldable pub place_node :
    CapabilitySystem
    → CapabilityInfo
    → Option CapabilityNodeId
    → Result CapabilityNodeId CapabilityError × CapabilitySystem
unfolding link_child
place_node s info parent = elim s.free_head [
  | some index ↦ elim (get_elem? s.nodes index) [
    | none ↦ (err accounting_invariant, s)
    | some n ↦ elim n.state [
      | live _ ↦ (err accounting_invariant, s)
      | free next ↦
          let new_id : CapabilityNodeId = record { index = index; generation = n.generation } in
          let placed = record s {
            nodes = set s.nodes index (record n { state = live (new_node info parent) });
            free_head = next;
          } in
          (ok new_id, link_parent placed parent new_id)
    ]
  ]
  | none ↦
      if length s.nodes == s.capacity
      then (err node_capacity, s)
      else (let new_id : CapabilityNodeId = record {
        index = length s.nodes % u32_mod;
        generation = 1;
      } in
          let placed = record s {
            nodes = s.nodes ++ record { generation = 1; state = live (new_node info parent) } ∷ [];
          } in
          (ok new_id, link_parent placed parent new_id))
]

unfoldable pub allocate_node :
    CapabilitySystem
    → CapabilityInfo
    → Option CapabilityNodeId
    → Result CapabilityNodeId CapabilityError × CapabilitySystem
unfolding add_reference place_node
allocate_node s info none = place_node s info none
allocate_node s info (some parent) =
    let (counted, s') = add_reference s parent in
    elim counted [ err e ↦ (err e, s') | ok _ ↦ place_node s' info (some parent) ]

abbrev pub unlink_parent :
    CapabilitySystem → Option CapabilityNodeId → CapabilityNodeId → CapabilitySystem
unlink_parent s none id = s
unlink_parent s (some parent_id) id = unlink_child s parent_id id

-- The `loop` of `release_node`: a node whose last reference goes is freed, and its parent loses one.
unfoldable pub release_loop :
    ℕ
    → CapabilitySystem
    → CapabilityNodeId
    → Option (Result (Unit {0}) CapabilityError × CapabilitySystem)
unfolding node unlink_child
release_loop zero s id = none
release_loop (suc fuel) s id = elim (node s id) [
  | err e ↦ some (err e, s)
  | ok n ↦ elim n.state [
    | free next ↦ some (err stale_handle, s)
    | live l ↦
        if l.references == 0
        then some (err accounting_invariant, s)
        else (let counted = record s {
          nodes =
              set s.nodes id.index
                (record n { state = live (record l { references = l.references - 1 }) });
        } in
            if not (l.references - 1 == 0)
            then some (ok tt, counted)
            else (let unlinked = unlink_parent counted l.parent id in
                elim (node unlinked id) [
                  | err e ↦ some (err e, unlinked)
                  | ok m ↦
                      let freed = record unlinked {
                        nodes = set unlinked.nodes id.index (record {
                          generation = next_generation m.generation;
                          state = free s.free_head;
                        });
                        free_head = some id.index;
                      } in
                      elim l.parent [
                        | none ↦ some (ok tt, freed)
                        | some parent ↦ release_loop fuel freed parent
                      ]
                ]))
  ]
]

-- Each round but the last frees a node, so the rounds are at most one more than the nodes, and the
-- last case is never taken.
unfoldable pub release_node :
    CapabilitySystem → CapabilityNodeId → Result (Unit {0}) CapabilityError × CapabilitySystem
unfolding release_loop
release_node s id = elim (release_loop (length s.nodes + 1) s id) [
  | some outcome ↦ outcome
  | none ↦ (err accounting_invariant, s)
]
