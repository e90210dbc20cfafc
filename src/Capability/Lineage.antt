-- ===== src/Capability/Lineage.antt =====
-- crates/kernel-core/src/capability.rs: what `validate_node` accepts, against an independent
-- description of a node's line of ancestors.
use gaxera.Prelude.{
  ℕ, zero, suc, ◌≤◌, ◌≡◌, ◌↔◌, ◌⊎◌, inl, inr, refl, false, Option, none, some, ok, err, arith,
  Option-cases, Result-cases,
}
use gaxera.Abi.Kinds.{same_type_iff}
use gaxera.Object.{ObjectArena, object_type}
use gaxera.Capability.Types.{
  CapabilityError, CapabilityNodeId, CapabilityInfo, LiveNode, CapabilitySystem, live_at,
}
use gaxera.Capability.Ops.{check_node, first_leaf, check_object, validate_loop, validate_node}

-- `n` live, unrevoked nodes lead from a node to one without a parent.
pub data Lineage (s : CapabilitySystem) : CapabilityNodeId → ℕ → Type 0 where
  top :
      {id : CapabilityNodeId} (l : LiveNode)
      → live_at s id ≡ some l
      → l.revoked ≡ false
      → l.parent ≡ none
      → Lineage s id 1
  below :
      {id : CapabilityNodeId} {n : ℕ} (l : LiveNode) (p : CapabilityNodeId)
      → live_at s id ≡ some l
      → l.revoked ≡ false
      → l.parent ≡ some p
      → Lineage s p n
      → Lineage s id (suc n)

-- What a successful validation reports.
pub record Validated (s : CapabilitySystem) (objects : ObjectArena) (left : ℕ)
    (id : CapabilityNodeId) (leaf : Option CapabilityInfo) (info : CapabilityInfo) : Type 0 where
  pub depth : ℕ
  pub lineage : Lineage s id depth
  pub within : depth ≤ left
  pub node : LiveNode
  pub at : live_at s id ≡ some node
  pub reported : info ≡ first_leaf leaf node.info
  pub object : object_type objects info.object ≡ some info.object_type

check_node_cases :
    (s : CapabilitySystem) (id : CapabilityNodeId)
    → ((l : LiveNode) × (check_node s id ≡ ok l) × (live_at s id ≡ some l) × (l.revoked ≡ false))
      ⊎ ((e : CapabilityError) × (check_node s id ≡ err e))
unfolding check_node live_at
check_node_cases s id = elim (Result-cases (check_node s id)) [
  | inl (l, e) ↦ inl (l, e, ground arith, ground arith)
  | inr (e, q) ↦ inr (e, q)
]

check_node_ok :
    (s : CapabilitySystem) (id : CapabilityNodeId) (l : LiveNode)
    → live_at s id ≡ some l
    → l.revoked ≡ false
    → check_node s id ≡ ok l
unfolding check_node live_at
check_node_ok s id l h k = ground arith

check_object_ok :
    (objects : ObjectArena) (leaf info : CapabilityInfo)
    → (check_object objects leaf ≡ ok info)
      ↔ ((info ≡ leaf) × (object_type objects leaf.object ≡ some leaf.object_type))
unfolding check_object
check_object_ok objects leaf info = (
  (λ h. elim (Option-cases (object_type objects leaf.object)) [
    | inl e ↦ absurd (ground arith)
    | inr (t, e) ↦ (
      ground (arith, same_type_iff t leaf.object_type),
      ground (arith, same_type_iff t leaf.object_type),
    )
  ]),
  (λ h. ground (arith, same_type_iff leaf.object_type leaf.object_type)),
)

validate_loop_sound :
    (s : CapabilitySystem) (objects : ObjectArena) (left : ℕ) (id : CapabilityNodeId)
    (leaf : Option CapabilityInfo) (info : CapabilityInfo)
    → validate_loop s objects left id leaf ≡ ok info
    → Validated s objects left id leaf info
unfolding validate_loop
validate_loop_sound s objects zero id leaf info h = elim (check_node_cases s id) [
  | inl (l, e, _, _) ↦ absurd (ground arith)
  | inr (e, q) ↦ absurd (ground arith)
]
validate_loop_sound s objects (suc left) id leaf info h = elim (check_node_cases s id) [
  | inl (l, e, at, clear) ↦ elim (Option-cases l.parent) [
    | inl orphan ↦
        let (same, object) =
          (check_object_ok objects (first_leaf leaf l.info) info).0 (ground arith) in
        record {
          depth = 1;
          lineage = top l at clear orphan;
          within = omega arith;
          node = l;
          at = at;
          reported = same;
          object = rw same object;
        }
    | inr (p, child) ↦
        let up =
          validate_loop_sound s objects left p (some (first_leaf leaf l.info)) info
            (ground arith) in
        record {
          depth = suc up.depth;
          lineage = below l p at clear child up.lineage;
          within = omega (arith, up.within);
          node = l;
          at = at;
          reported = up.reported;
          object = up.object;
        }
  ]
  | inr (e, q) ↦ absurd (ground arith)
]

Lineage-head :
    (s : CapabilitySystem) (id : CapabilityNodeId) (n : ℕ)
    → Lineage s id n
    → (l : LiveNode) × (live_at s id ≡ some l)
Lineage-head s id n (top l at clear orphan) = (l, at)
Lineage-head s id n (below l p at clear child up) = (l, at)

validate_loop_complete :
    (s : CapabilitySystem) (objects : ObjectArena) (left : ℕ) (id : CapabilityNodeId) (n : ℕ)
    (leaf : Option CapabilityInfo) (l : LiveNode)
    → Lineage s id n
    → n ≤ left
    → live_at s id ≡ some l
    → object_type objects (first_leaf leaf l.info).object
      ≡ some (first_leaf leaf l.info).object_type
    → validate_loop s objects left id leaf ≡ ok (first_leaf leaf l.info)
unfolding validate_loop
validate_loop_complete s objects zero id n leaf l (top k at clear orphan) fits here object =
    absurd (omega arith)
validate_loop_complete s objects zero id n leaf l (below k p at clear child up) fits here object =
    absurd (omega arith)
validate_loop_complete s objects (suc left) id n leaf l (top k at clear orphan) fits here object =
    ground (
      arith,
      check_node_ok s id k at clear,
      (check_object_ok objects (first_leaf leaf l.info) (first_leaf leaf l.info)).1 (refl, object),
    )
validate_loop_complete s objects (suc left) id n leaf l (below {n = m} k p at clear child up) fits
      here object =
    let (q, found) = Lineage-head s p m up in
    let same : l ≡ k = cc in
    ground (
      arith,
      check_node_ok s id k at clear,
      validate_loop_complete s objects left p m (some (first_leaf leaf l.info)) q up (omega arith)
          found object,
    )

-- A node validates with some information exactly when live, unrevoked nodes, no more than the capacity of the
-- table, lead from it to one without a parent, the information is its own, and the object
-- that it names is live and of its kind.
pub validate_node_iff :
    (s : CapabilitySystem) (objects : ObjectArena) (id : CapabilityNodeId) (info : CapabilityInfo)
    → (validate_node s objects id ≡ ok info) ↔ (
        (n : ℕ) × (l : LiveNode) × Lineage s id n
        × (n ≤ s.capacity)
        × (live_at s id ≡ some l)
        × (info ≡ l.info)
        × (object_type objects info.object ≡ some info.object_type))
unfolding validate_node
validate_node_iff s objects id info = (
  (λ h.
      let v = validate_loop_sound s objects s.capacity id none info h in
      (v.depth, v.node, v.lineage, v.within, v.at, v.reported, v.object)),
  (λ r.
      let (n, l, lineage, fits, at, same, object) = r in
      rw same (
        validate_loop_complete s objects s.capacity id n none l lineage fits at
          (rw same at object))),
)
