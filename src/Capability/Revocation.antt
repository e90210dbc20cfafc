-- ===== src/Capability/Revocation.antt =====
-- crates/kernel-core/src/capability.rs: revoking a node cuts off everything derived from it.
use gaxera.Prelude.{
  ℕ, zero, suc, ◌≡◌, inl, inr, ◌∙◌, true, Option, none, some, get_elem?, get_elem?-set,
  if◌then◌else◌, is_error, Result, ok, err, arith, Bool-cases, Option-cases, Result-cases,
}
use gaxera.Abi.Handles.{Handle}
use gaxera.Abi.Authority.{manage, contains}
use gaxera.Abi.Ids.{same_id}
use gaxera.Object.{ObjectArena}
use gaxera.Capability.Types.{
  CapabilityError, CapabilityNodeId, CapabilityInfo, LiveNode, CapabilitySystem, live_at, modify,
  live, live_state, stale_handle, revoked,
}
use gaxera.Capability.Space.{CapabilitySpace, node_for}
use gaxera.Capability.Ops.{check_node, validate_loop, revoke, first_leaf}

abbrev pub changed : (LiveNode → LiveNode) → Option LiveNode → Option LiveNode
changed f none = none
changed f (some l) = some (f l)

-- A write changes the node that it names and no other.
pub live_at-modify :
    (s : CapabilitySystem) (id other : CapabilityNodeId) (f : LiveNode → LiveNode)
    → live_at (modify s id f) other
      ≡ (if same_id id other then changed f (live_at s other) else live_at s other)
unfolding live_at modify same_id
live_at-modify s id other f = elim (Option-cases (get_elem? s.nodes id.index)) [
  | inl e ↦ ground arith
  | inr (n, e) ↦ elim (Option-cases (live_state n.state)) [
    | inl dead ↦ ground arith
    | inr (l, alive) ↦
        ground
          (arith, get_elem?-set s.nodes id.index other.index (record n { state = live (f l) }) e)
  ]
]

-- A node is, or was derived in some steps from, the node `r`.
pub data Under (s : CapabilitySystem) (r : CapabilityNodeId) : CapabilityNodeId → Type 0 where
  itself : Under s r r
  derived :
      {id : CapabilityNodeId} (l : LiveNode) (p : CapabilityNodeId)
      → live_at s id ≡ some l
      → l.parent ≡ some p
      → Under s r p
      → Under s r id

abbrev check_of : Option LiveNode → Result LiveNode CapabilityError
check_of none = err stale_handle
check_of (some l) = if l.revoked then err revoked else ok l

-- A round of validation sees no more of the table than the live node.
pub check_node-live_at :
    (s : CapabilitySystem) (id : CapabilityNodeId) → check_node s id ≡ check_of (live_at s id)
unfolding check_node live_at
check_node-live_at s id = ground arith

check_revoked :
    (s : CapabilitySystem) (id : CapabilityNodeId) (l : LiveNode)
    → live_at s id ≡ some l
    → l.revoked ≡ true
    → is_error (check_node s id) ≡ true
unfolding check_node live_at
check_revoked s id l at dead = ground arith

check_live :
    (s : CapabilitySystem) (id : CapabilityNodeId) (l k : LiveNode)
    → live_at s id ≡ some l
    → check_node s id ≡ ok k
    → k ≡ l
unfolding check_node live_at
check_live s id l k at h = ground arith

-- Below a revoked node validation fails, whatever the starting depth.
pub validate_loop_cut :
    (s : CapabilitySystem) (objects : ObjectArena) (left : ℕ) (r id : CapabilityNodeId)
    (leaf : Option CapabilityInfo) (l : LiveNode)
    → live_at s r ≡ some l
    → l.revoked ≡ true
    → Under s r id
    → is_error (validate_loop s objects left id leaf) ≡ true
unfolding validate_loop
validate_loop_cut s objects zero r id leaf l at dead u = ground arith
validate_loop_cut s objects (suc left) r id leaf l at dead itself =
    ground (arith, check_revoked s id l at dead)
validate_loop_cut s objects (suc left) r id leaf l at dead (derived k p here child up) =
    elim (Result-cases (check_node s id)) [
      | inl (m, e) ↦ ground (
        arith,
        check_live s id k m here e,
        validate_loop_cut s objects left r p (some (first_leaf leaf k.info)) l at dead up,
      )
      | inr (e, q) ↦ ground arith
    ]

-- Marking a node revoked leaves all derivations as they were.
pub Under-modify :
    (s : CapabilitySystem) (r id x : CapabilityNodeId) (f : LiveNode → LiveNode)
    → ((l : LiveNode) → (f l).parent ≡ l.parent)
    → Under s r id
    → Under (modify s x f) r id
Under-modify s r id x f keeps itself = itself
Under-modify s r id x f keeps (derived l p at child up) = elim (Bool-cases (same_id x id)) [
  | inl hit ↦
      derived (f l) p (ground (arith, live_at-modify s x id f)) (keeps l ∙ child)
        (Under-modify s r p x f keeps up)
  | inr miss ↦
      derived l p (ground (arith, live_at-modify s x id f)) child (Under-modify s r p x f keeps up)
]

pub revoke_inversion :
    (s : CapabilitySystem) (space : CapabilitySpace) (h : Handle) (objects : ObjectArena)
    (info : CapabilityInfo)
    → (revoke s space h objects).0 ≡ ok info
    → (r : CapabilityNodeId) × (l : LiveNode) × (node_for space h ≡ ok r)
      × (live_at s r ≡ some l)
      × (contains info.rights manage ≡ true)
      × ((revoke s space h objects).1 ≡ modify s r (λ n. record n { revoked = true }))
unfolding revoke live_at
revoke_inversion s space h objects info e = elim (Result-cases (node_for space h)) [
  | inl (r, found) ↦ elim (Option-cases (live_at s r)) [
    | inl dead ↦ absurd (ground arith)
    | inr (l, at) ↦ (r, l, found, at, ground arith, ground arith)
  ]
  | inr (q, missing) ↦ absurd (ground arith)
]
