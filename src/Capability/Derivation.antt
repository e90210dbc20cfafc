-- ===== src/Capability/Derivation.antt =====
-- crates/kernel-core/src/capability.rs: `derive` grants what was asked for and nothing more.
use gaxera.Prelude.{
  suc, ◌+◌, ◌<◌, ◌≡◌, inl, inr, refl, subst, ◌∙◌, ap, sym, Bool, true, false, ◌&&◌, Option, some,
  length, u32_mod, is_none, ok, err, arith, Bool-cases, Option-cases, ◌==◌,
}
use gaxera.Abi.Handles.{Handle}
use gaxera.Abi.Authority.{Rights, is_subset_of}
use gaxera.Abi.Ids.{same_id, same_id_iff}
use gaxera.FreeList.{IsLinked, IsLinked-full, in_use}
use gaxera.Resource.{ResourceDomain, charge_capability}
use gaxera.Object.{ObjectArena}
use gaxera.Capability.Types.{
  rights_escalation, CapabilityNodeId, CapabilityInfo, LiveNode, CapabilitySystem, live_at,
}
use gaxera.Capability.Space.{CapabilitySpace, has_capacity, node_for}
use gaxera.Capability.Slots
use gaxera.Capability.Slots.{slot_link, resolve, ok_part, Inserted, insert-Inserted, same_handle}
use gaxera.Capability.Nodes
use gaxera.Capability.Nodes.{node_link, live_count, authority, carried}
use gaxera.Capability.Allocation.{Allocated, allocate_node-Allocated}
use gaxera.Capability.Depth.{Lineage-mono, Lineage-le-live_count}
use gaxera.Capability.Lineage.{below, validate_node_iff}
use gaxera.Capability.Ops.{validate_node, insert_new, derive}

-- A space below its capacity has a free slot or can grow.
has_capacity_of_room :
    (c : CapabilitySpace)
    → Slots.IsValid c
    → in_use slot_link c.slots < c.capacity
    → has_capacity c ≡ true
unfolding has_capacity
has_capacity_of_room c v room = elim (Option-cases c.free_head) [
  | inl e ↦
      ground
        (arith, IsLinked-full slot_link c.slots (subst (IsLinked slot_link c.slots) e v.linked))
  | inr (i, e) ↦ ground arith
]

table_not_full :
    (s : CapabilitySystem)
    → Nodes.IsValid s
    → live_count s < s.capacity
    → (is_none s.free_head && length s.nodes == s.capacity) ≡ false
table_not_full s v room = elim (Option-cases s.free_head) [
  | inl e ↦
      ground
        (arith, IsLinked-full node_link s.nodes (subst (IsLinked node_link s.nodes) e v.linked))
  | inr (i, e) ↦ ground arith
]

-- A new authority is not among those that were there.
kept_by_allocation :
    (s s' : CapabilitySystem) (info : CapabilityInfo) (parent : Option CapabilityNodeId)
    (id x : CapabilityNodeId) (l : LiveNode)
    → Allocated s info parent id s'
    → live_at s x ≡ some l
    → authority s' x ≡ authority s x
kept_by_allocation s s' info parent id x l a at = elim (Bool-cases (same_id id x)) [
  | inl hit ↦ absurd (ground (arith, a.fresh, same_id_iff id x))
  | inr miss ↦ ground (arith, a.adds x)
]

live_of_authority :
    (s : CapabilitySystem) (x : CapabilityNodeId) {i : CapabilityInfo} {p : Option CapabilityNodeId}
    {r : Bool}
    → authority s x ≡ some (i, p, r)
    → (k : LiveNode) × ((live_at s x ≡ some k) × (k.info ≡ i) × (k.parent ≡ p) × (k.revoked ≡ r))
live_of_authority s x h = elim (Option-cases (live_at s x)) [
  | inl e ↦ absurd (ground arith)
  | inr (k, e) ↦ (k, (e, ground arith, ground arith, ground arith))
]

-- What validated before an allocation validates after it.
validate_kept :
    (s s' : CapabilitySystem) (objects : ObjectArena) (info v : CapabilityInfo)
    (parent : Option CapabilityNodeId) (id x : CapabilityNodeId)
    → Allocated s info parent id s'
    → validate_node s objects x ≡ ok v
    → validate_node s' objects x ≡ ok v
validate_kept s s' objects info v parent id x a h =
    let (n, l, line, fits, at, same, object) = (validate_node_iff s objects x v).0 h in
    let (k, there) =
      live_of_authority s' x (kept_by_allocation s s' info parent id x l a at ∙ ap carried at) in
    (validate_node_iff s' objects x v).1 (
      n,
      k,
      Lineage-mono s s' x n (λ y m. kept_by_allocation s s' info parent id y m a) line,
      omega (arith, a.same_capacity),
      there.0,
      ground arith,
      object,
    )

-- A node derived from a valid one validates with its own information.
validate_new :
    (s s' : CapabilitySystem) (objects : ObjectArena) (info new : CapabilityInfo)
    (parent id : CapabilityNodeId)
    → Allocated s new (some parent) id s'
    → live_count s < s.capacity
    → validate_node s objects parent ≡ ok info
    → new.object ≡ info.object
    → new.object_type ≡ info.object_type
    → validate_node s' objects id ≡ ok new
validate_new s s' objects info new parent id a room h same_object same_kind =
    let (n, l, line, fits, at, same, object) = (validate_node_iff s objects parent info).0 h in
    let (k, there) = live_of_authority s' id (ground (arith, a.adds id, same_id_iff id id)) in
    (validate_node_iff s' objects id new).1 (
      suc n,
      k,
      below k parent there.0 there.3 there.2 (
          Lineage-mono s s' parent n (λ y m. kept_by_allocation s s' new (some parent) id y m a)
            line),
      omega (arith, a.same_capacity, Lineage-le-live_count n s parent line),
      there.0,
      sym there.1,
      ground arith,
    )

-- Given a valid table and a valid target space with room, a domain of the target below its
-- capability limit, a source handle whose node validates with some information, can take one more reference
-- and has all the requested rights: the derivation returns a handle of the target that resolves
-- to a node which validates for the same object with exactly the requested rights. The table and the
-- target stay valid, the domain is charged one capability, and every node and every handle of another slot or
-- generation that was good before is still good for the same.
pub derive_grants :
    (s : CapabilitySystem) (source target : CapabilitySpace) (h : Handle) (domain : ResourceDomain)
    (requested : Rights) (objects : ObjectArena) (parent : CapabilityNodeId) (info : CapabilityInfo)
    (l : LiveNode)
    → Nodes.IsValid s
    → live_count s < s.capacity
    → Slots.IsValid target
    → in_use slot_link target.slots < target.capacity
    → target.domain ≡ domain.id
    → domain.usage.capabilities < domain.limits.capabilities
    → node_for source h ≡ ok parent
    → validate_node s objects parent ≡ ok info
    → is_subset_of requested info.rights ≡ true
    → live_at s parent ≡ some l
    → l.references + 1 < u32_mod
    → (granted : Handle) × (s' : CapabilitySystem) × (target' : CapabilitySpace)
      × (id : CapabilityNodeId) × (derive s source h target domain requested objects ≡ (
        ok granted,
        s',
        target',
        record domain {
          usage = record (domain.usage) { capabilities = domain.usage.capabilities + 1 };
        },
      ))
      × Nodes.IsValid s'
      × Slots.IsValid target'
      × (resolve target' granted ≡ some id)
      × (validate_node s' objects id ≡ ok (record info { rights = requested }))
      × ((x : CapabilityNodeId) (v : CapabilityInfo)
          → validate_node s objects x ≡ ok v
          → validate_node s' objects x ≡ ok v)
      × ((other : Handle)
          → same_handle granted other ≡ false
          → resolve target' other ≡ resolve target other)
unfolding derive insert_new charge_capability
derive_grants s source target h domain requested objects parent info l v room tv troom same_domain
      quota found valid narrowed at few =
    let new = record info { rights = requested } in
    let (id, s', made, a) = allocate_node-Allocated s new parent l v room at few in
    let (granted, target', i) = insert-Inserted target id tv troom in
    (
      granted,
      s',
      target',
      id,
      ground (
        arith,
        made,
        i.result,
        has_capacity_of_room target tv troom,
        table_not_full s v room,
        same_id_iff target.domain domain.id,
      ),
      a.valid,
      i.valid,
      ground (arith, i.adds granted),
      validate_new s s' objects info new parent id a room valid refl refl,
      (λ x w. validate_kept s s' objects new w (some parent) id x a),
      (λ other apart. ground (arith, i.adds other)),
    )

-- Asking for a right that the source does not have is refused, and changes nothing.
pub derive_escalation :
    (s : CapabilitySystem) (source target : CapabilitySpace) (h : Handle) (domain : ResourceDomain)
    (requested : Rights) (objects : ObjectArena) (parent : CapabilityNodeId) (info : CapabilityInfo)
    → node_for source h ≡ ok parent
    → validate_node s objects parent ≡ ok info
    → is_subset_of requested info.rights ≡ false
    → derive s source h target domain requested objects ≡ (err rights_escalation, s, target, domain)
unfolding derive
derive_escalation s source target h domain requested objects parent info found valid wide =
    ground arith
