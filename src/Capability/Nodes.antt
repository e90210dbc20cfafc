-- ===== src/Capability/Nodes.antt =====
-- crates/kernel-core/src/capability.rs: the invariant of the node table, and the authority that a
-- node carries, which child lists and reference counts leave alone.
use gaxera.Prelude.{
  ℕ, ◌≤◌, ◌<◌, ◌≡◌, ◌⊎◌, inl, inr, refl, ap, Bool, Option, none, some, length, length-set,
  get_elem?, set, All, All-set, All-get, u32_mod, arith, Bool-cases, Option-cases, ◌==◌,
}
use gaxera.FreeList.{IsLinked, IsLinked-keep, in_use, in_use-set, in_use_weight}
use gaxera.Capability.Types.{
  CapabilityNodeId, CapabilityInfo, LiveNode, free, live, CapabilityNode, CapabilitySystem,
  live_state, live_at, modify,
}
use gaxera.Capability.Revocation.{live_at-modify}

abbrev pub node_link : CapabilityNode → Option (Option ℕ)
node_link n = elim n.state [ free next ↦ some next | live l ↦ none ]

abbrev pub HasGeneration : CapabilityNode → Type 0
HasGeneration n = (0 < n.generation) × (n.generation < u32_mod)

pub record IsValid (s : CapabilitySystem) : Type 0 where
  pub linked : IsLinked node_link s.nodes s.free_head
  pub within : length s.nodes ≤ s.capacity
  pub word : s.capacity < u32_mod
  pub generations : All HasGeneration s.nodes

-- The number of live nodes.
abbrev pub live_count : CapabilitySystem → ℕ
live_count s = in_use node_link s.nodes

-- What validation reads of a node.
abbrev pub Authority : Type 0
Authority = CapabilityInfo × Option CapabilityNodeId × Bool

abbrev pub carried : Option LiveNode → Option Authority
carried none = none
carried (some l) = some (l.info, l.parent, l.revoked)

abbrev pub authority : CapabilitySystem → CapabilityNodeId → Option Authority
authority s id = carried (live_at s id)

abbrev pub KeepsAuthority : (LiveNode → LiveNode) → Type 0
KeepsAuthority f = (l : LiveNode) → carried (some (f l)) ≡ carried (some l)

pub authority-modify :
    (s : CapabilitySystem) (id other : CapabilityNodeId) (f : LiveNode → LiveNode)
    → KeepsAuthority f
    → authority (modify s id f) other ≡ authority s other
authority-modify s id other f keeps = elim (Option-cases (live_at s other)) [
  | inl e ↦ ground (arith, live_at-modify s id other f)
  | inr (l, e) ↦ ground (arith, live_at-modify s id other f, keeps l)
]

pub modify_cases :
    (s : CapabilitySystem) (id : CapabilityNodeId) (f : LiveNode → LiveNode)
    → (modify s id f ≡ s)
      ⊎ ((n : CapabilityNode) × (l : LiveNode) × (get_elem? s.nodes id.index ≡ some n)
          × (n.state ≡ live l)
          × (n.generation ≡ id.generation)
          × (modify s id f
              ≡ record s { nodes = set s.nodes id.index (record n { state = live (f l) }) }))
unfolding modify
modify_cases s id f = elim (Option-cases (get_elem? s.nodes id.index)) [
  | inl e ↦ inl (ground arith)
  | inr (n, e) ↦ elim (Option-cases (live_state n.state)) [
    | inl dead ↦ inl (ground arith)
    | inr (l, alive) ↦ elim (Bool-cases (n.generation == id.generation)) [
      | inl hit ↦ inr (n, l, e, ground arith, ground arith, ground arith)
      | inr miss ↦ inl (ground arith)
    ]
  ]
]

pub modify-IsValid :
    (s : CapabilitySystem) (id : CapabilityNodeId) (f : LiveNode → LiveNode)
    → IsValid s
    → IsValid (modify s id f)
      × (live_count (modify s id f) ≡ live_count s)
      × ((modify s id f).capacity ≡ s.capacity)
      × (length (modify s id f).nodes ≡ length s.nodes)
      × ((modify s id f).free_head ≡ s.free_head)
modify-IsValid s id f v = elim (modify_cases s id f) [
  | inl same ↦ rw same (v, refl, refl, refl, refl)
  | inr (n, l, e, alive, g, same) ↦
      let changed_node = record n { state = live (f l) } in
      let used : node_link n ≡ none = ground arith in
      let size = length-set s.nodes id.index changed_node in
      rw same (
        record {
          linked =
              IsLinked-keep node_link s.nodes s.free_head id.index n changed_node e used refl
                v.linked;
          within = omega (arith, size, v.within);
          word = v.word;
          generations =
              All-set HasGeneration s.nodes id.index changed_node
                (All-get HasGeneration s.nodes id.index e v.generations) v.generations;
        },
        omega (
          arith,
          in_use-set node_link s.nodes id.index n changed_node e,
          ap (in_use_weight node_link) used,
        ),
        refl,
        size,
        refl,
      )
]
