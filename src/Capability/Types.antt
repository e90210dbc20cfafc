-- ===== src/Capability/Types.antt =====
-- crates/kernel-core/src/capability.rs: the errors, nodes and the node table.
use gaxera.Prelude.{
  ℕ, Bool, Option, none, some, List, get_elem?, set, ◌==◌, if◌then◌else◌, Result, ok, err,
}
use gaxera.Abi.Kinds.{ObjectType}
use gaxera.Abi.Authority.{Rights}
use gaxera.Abi.Ids.{ObjectId}
use gaxera.Resource.{ResourceError}

pub data CapabilityError : Type 0 where
  domain_mismatch space_full node_capacity invalid_handle stale_handle revoked : CapabilityError
  object_destroyed type_mismatch rights_denied rights_escalation : CapabilityError
  resource : ResourceError → CapabilityError
  accounting_invariant : CapabilityError

-- An index and a generation, like an `ObjectId`.
abbrev pub CapabilityNodeId : Type 0
CapabilityNodeId = ObjectId

pub record CapabilityInfo : Type 0 where
  pub object : ObjectId
  pub object_type : ObjectType
  pub rights : Rights

-- The fields of `NodeState::Live`.
pub record LiveNode : Type 0 where
  pub info : CapabilityInfo
  pub parent : Option CapabilityNodeId
  pub first_child : Option CapabilityNodeId
  pub next_sibling : Option CapabilityNodeId
  pub revoked : Bool
  pub references : ℕ

pub data NodeState : Type 0 where
  free : Option ℕ → NodeState
  live : LiveNode → NodeState

pub record CapabilityNode : Type 0 where
  pub generation : ℕ
  pub state : NodeState

pub record CapabilitySystem : Type 0 where
  pub nodes : List CapabilityNode
  pub capacity : ℕ
  pub free_head : Option ℕ

unfoldable pub node : CapabilitySystem → CapabilityNodeId → Result CapabilityNode CapabilityError
node s id = elim (get_elem? s.nodes id.index) [
  | none ↦ err stale_handle
  | some n ↦ if n.generation == id.generation then ok n else err stale_handle
]

abbrev pub live_state : NodeState → Option LiveNode
live_state (free next) = none
live_state (live l) = some l

-- `if let Ok(n) = self.node(id)` and `if let NodeState::Live { .. } = n.state`.
unfoldable pub live_at : CapabilitySystem → CapabilityNodeId → Option LiveNode
unfolding node
live_at s id = elim (node s id) [ err e ↦ none | ok n ↦ live_state n.state ]

-- A write to the fields of a live node through `node_mut`.
unfoldable pub modify :
    CapabilitySystem → CapabilityNodeId → (LiveNode → LiveNode) → CapabilitySystem
unfolding node
modify s id f = elim (node s id) [
  | err e ↦ s
  | ok n ↦ elim n.state [
    | free next ↦ s
    | live l ↦ record s { nodes = set s.nodes id.index (record n { state = live (f l) }) }
  ]
]
