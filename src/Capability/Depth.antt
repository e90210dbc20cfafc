-- ===== src/Capability/Depth.antt =====
-- crates/kernel-core/src/capability.rs: the depth bound of `validate_node` never refuses a node: a
-- line of ancestors has no more nodes than the table has live ones.
use gaxera.Prelude.{
  ℕ, zero, suc, ◌+◌, ◌≤◌, ◌<◌, ◌≡◌, ◌≢◌, ◌⊎◌, inl, inr, refl, subst, ◌∙◌, ap, sym, none, some,
  get_elem?, set, get_elem?-set, arith, Option-cases,
}
use gaxera.Abi.Ids.{same_id}
use gaxera.FreeList.{in_use-set, in_use_weight}
use gaxera.Capability.Types.{
  CapabilityNodeId, LiveNode, free, live, CapabilityNode, CapabilitySystem, live_at,
}
use gaxera.Capability.Lineage.{Lineage, top, below}
use gaxera.Capability.Nodes.{node_link, live_count, authority}

-- A line of ancestors lasts as long as the authority of its nodes does.
pub Lineage-mono :
    (s s' : CapabilitySystem) (id : CapabilityNodeId) (n : ℕ)
    → ((x : CapabilityNodeId) (l : LiveNode)
        → live_at s x ≡ some l
        → authority s' x ≡ authority s x)
    → Lineage s id n
    → Lineage s' id n
Lineage-mono s s' id n keeps (top l at clear orphan) = elim (Option-cases (live_at s' id)) [
  | inl e ↦ absurd (ground (arith, keeps id l at))
  | inr (k, e) ↦ top k e (ground (arith, keeps id l at)) (ground (arith, keeps id l at))
]
Lineage-mono s s' id n keeps (below {n = m} l p at clear child up) =
    elim (Option-cases (live_at s' id)) [
      | inl e ↦ absurd (ground (arith, keeps id l at))
      | inr (k, e) ↦
          below k p e (ground (arith, keeps id l at)) (ground (arith, keeps id l at))
            (Lineage-mono s s' p m keeps up)
    ]

Lineage-unique :
    (s : CapabilitySystem) (id : CapabilityNodeId) (n m : ℕ)
    → Lineage s id n
    → Lineage s id m
    → n ≡ m
Lineage-unique s id n m (top l at clear orphan) (top k at' clear' orphan') = refl
Lineage-unique s id n m (top l at clear orphan) (below k p at' clear' child up) = absurd (cc)
Lineage-unique s id n m (below k p at' clear' child up) (top l at clear orphan) = absurd (cc)
Lineage-unique s id n m (below {n = a} l p at clear child up)
      (below {n = b} k q at' clear' child' up') =
    let same : p ≡ q = ground arith in
    ap suc (Lineage-unique s p a b up (subst (λ x. Lineage s x b) (sym same) up'))

-- The table without the node `id`.
abbrev without : CapabilitySystem → CapabilityNodeId → CapabilityNode → CapabilitySystem
without s id n = record s { nodes = set s.nodes id.index (record n { state = free none }) }

live_at-without :
    (s : CapabilitySystem) (id other : CapabilityNodeId) (n : CapabilityNode)
    → get_elem? s.nodes id.index ≡ some n
    → n.generation ≡ id.generation
    → id ≢ other
    → live_at (without s id n) other ≡ live_at s other
unfolding live_at same_id
live_at-without s id other n at g ne =
    ground (arith, get_elem?-set s.nodes id.index other.index (record n { state = free none }) at)

-- The ancestors of a node are a line without it.
Lineage-without :
    (s : CapabilitySystem) (id x : CapabilityNodeId) (n m : ℕ) (c : CapabilityNode)
    → get_elem? s.nodes id.index ≡ some c
    → c.generation ≡ id.generation
    → Lineage s id n
    → m < n
    → Lineage s x m
    → Lineage (without s id c) x m
Lineage-without s id x n m c at g whole short (top l here clear orphan) =
    let ne : id ≢ x = λ e. absurd (
      omega (
        arith,
        Lineage-unique s id n m whole
            (subst (λ y. Lineage s y m) (sym e) (top l here clear orphan)),
      )) in
    top l (live_at-without s id x c at g ne ∙ here) clear orphan
Lineage-without s id x n m c at g whole short (below {n = k} l p here clear child up) =
    let ne : id ≢ x = λ e. absurd (
      omega (
        arith,
        Lineage-unique s id n m whole
            (subst (λ y. Lineage s y m) (sym e) (below l p here clear child up)),
      )) in
    below l p (live_at-without s id x c at g ne ∙ here) clear child
      (Lineage-without s id p n k c at g whole (omega arith) up)

live_slot :
    (s : CapabilitySystem) (id : CapabilityNodeId) (l : LiveNode)
    → live_at s id ≡ some l
    → (n : CapabilityNode) × (get_elem? s.nodes id.index ≡ some n)
      × (n.generation ≡ id.generation)
      × (n.state ≡ live l)
unfolding live_at
live_slot s id l h = elim (Option-cases (get_elem? s.nodes id.index)) [
  | inl e ↦ absurd (ground arith)
  | inr (n, e) ↦ (n, e, ground arith, ground arith)
]

live_count-without :
    (s : CapabilitySystem) (id : CapabilityNodeId) (l : LiveNode) (n : CapabilityNode)
    → get_elem? s.nodes id.index ≡ some n
    → n.state ≡ live l
    → live_count (without s id n) + 1 ≡ live_count s
live_count-without s id l n at alive =
    let used : node_link n ≡ none = ground arith in
    omega (
      arith,
      in_use-set node_link s.nodes id.index n (record n { state = free none }) at,
      ap (in_use_weight node_link) used,
    )

Lineage-up :
    (s : CapabilitySystem) (id : CapabilityNodeId) (n : ℕ)
    → Lineage s id n
    → (l : LiveNode) × (live_at s id ≡ some l)
      × ((n ≡ 1) ⊎ ((m : ℕ) × (p : CapabilityNodeId) × (n ≡ suc m) × Lineage s p m))
Lineage-up s id n (top l at clear orphan) = (l, at, inl refl)
Lineage-up s id n (below {n = m} l p at clear child up) = (l, at, inr (m, p, refl, up))

-- In any table, a line of live, unrevoked nodes from a node to one without a parent is no longer
-- than the number of live nodes.
pub Lineage-le-live_count :
    (n : ℕ) (s : CapabilitySystem) (id : CapabilityNodeId) → Lineage s id n → n ≤ live_count s
Lineage-le-live_count zero s id line = omega arith
Lineage-le-live_count (suc m) s id line =
    let (l, at, up) = Lineage-up s id (suc m) line in
    let (c, slot, g, alive) = live_slot s id l at in
    let count = live_count-without s id l c slot alive in
    elim up [
      | inl one ↦ omega arith
      | inr (k, p, e, rest) ↦
          let same : k ≡ m = omega arith in
          let shorter : Lineage s p m = subst (Lineage s p) same rest in
          omega (
            arith,
            Lineage-le-live_count m (without s id c) p
                (Lineage-without s id p (suc m) m c slot g line (omega arith) shorter),
          )
    ]
