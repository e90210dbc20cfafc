-- ===== src/Capability/Allocation.antt =====
-- crates/kernel-core/src/capability.rs: `allocate_node` adds one authority to the table and changes
-- no other.
use gaxera.Prelude.{
  ℕ, ◌+◌, ◌%◌, ◌<◌, ◌≡◌, inl, inr, refl, subst, ◌∙◌, ap, sym, false, Option, none, some, [], ◌∷◌,
  ◌++◌, length, length-set, length-append, get_elem?, set, get_elem?-set, get_elem?-append_one,
  get_elem?-length, All-set, All-append_one, All-get, if◌then◌else◌, u32_mod, ok, arith,
  Option-cases,
}
use gaxera.Abi.Ids.{same_id}
use gaxera.FreeList.{IsLinked, IsLinked-head, IsLinked-pop, IsLinked-append, IsLinked-full}
use gaxera.Capability.Types.{
  CapabilityNodeId, CapabilityInfo, LiveNode, free, live, CapabilityNode, CapabilitySystem, live_at,
  modify,
}
use gaxera.Capability.Nodes.{
  node_link, HasGeneration, IsValid, live_count, carried, authority, authority-modify,
  modify-IsValid,
}
use gaxera.Capability.Tree.{
  first_child_of, add_reference, link_child, link_parent, new_node, place_node, allocate_node,
}

-- What an allocation gives.
pub record Allocated (s : CapabilitySystem) (info : CapabilityInfo)
    (parent : Option CapabilityNodeId) (id : CapabilityNodeId) (s' : CapabilitySystem)
    : Type 0 where
  pub valid : IsValid s'
  pub same_capacity : s'.capacity ≡ s.capacity
  pub fresh : authority s id ≡ none
  pub adds :
      (other : CapabilityNodeId)
      → authority s' other
        ≡ (if same_id id other then some (info, parent, false) else authority s other)

live_at_free :
    (s : CapabilitySystem) (i g : ℕ) (n : CapabilityNode) (next : Option ℕ)
    → get_elem? s.nodes i ≡ some n
    → n.state ≡ free next
    → live_at s (record { index = i; generation = g }) ≡ none
unfolding live_at
live_at_free s i g n next at e = ground arith

live_at-beyond :
    (s : CapabilitySystem) (g : ℕ)
    → live_at s (record { index = length s.nodes; generation = g }) ≡ none
unfolding live_at
live_at-beyond s g = ground (arith, get_elem?-length s.nodes)

authority-set_live :
    (s : CapabilitySystem) (i : ℕ) (n : CapabilityNode) (next head : Option ℕ) (l : LiveNode)
    (other : CapabilityNodeId)
    → get_elem? s.nodes i ≡ some n
    → n.state ≡ free next
    → authority
        (record s { nodes = set s.nodes i (record n { state = live l }); free_head = head })
        other
      ≡ (if same_id (record { index = i; generation = n.generation }) other
          then carried (some l)
          else authority s other)
unfolding live_at same_id
authority-set_live s i n next head l other at e =
    ground (arith, get_elem?-set s.nodes i other.index (record n { state = live l }) at)

authority-append :
    (s : CapabilitySystem) (l : LiveNode) (other : CapabilityNodeId)
    → authority
        (record s { nodes = s.nodes ++ record { generation = 1; state = live l } ∷ [] })
        other
      ≡ (if same_id (record { index = length s.nodes; generation = 1 }) other
          then carried (some l)
          else authority s other)
unfolding live_at same_id
authority-append s l other = ground (
  arith,
  get_elem?-append_one s.nodes (record { generation = 1; state = live l }) other.index,
  get_elem?-length s.nodes,
)

link_parent-Allocated :
    (s placed : CapabilitySystem) (info : CapabilityInfo) (parent : Option CapabilityNodeId)
    (id : CapabilityNodeId)
    → Allocated s info parent id placed
    → Allocated s info parent id (link_parent placed parent id)
unfolding link_child
link_parent-Allocated s placed info none id a = a
link_parent-Allocated s placed info (some p) id a =
    let first = first_child_of (live_at placed p) in
    let sibling = (λ (c : LiveNode). record c { next_sibling = first }) in
    let head = (λ (q : LiveNode). record q { first_child = some id }) in
    let one = modify-IsValid placed id sibling a.valid in
    let two = modify-IsValid (modify placed id sibling) p head one.0 in
    record {
      valid = two.0;
      same_capacity = two.2 ∙ one.2 ∙ a.same_capacity;
      fresh = a.fresh;
      adds = λ other.
          authority-modify (modify placed id sibling) p other head (λ l. refl)
          ∙ authority-modify placed id other sibling (λ l. refl)
          ∙ a.adds other;
    }

place_free :
    (s : CapabilitySystem) (info : CapabilityInfo) (parent : Option CapabilityNodeId) (i : ℕ)
    → IsValid s
    → s.free_head ≡ some i
    → (id : CapabilityNodeId) × (s' : CapabilitySystem) × (place_node s info parent ≡ (ok id, s'))
      × Allocated s info parent id s'
unfolding place_node
place_free s info parent i v e =
    let (n, next, at, linked) =
      IsLinked-head node_link s.nodes i (subst (IsLinked node_link s.nodes) e v.linked) in
    let is_free : n.state ≡ free next = ground arith in
    let taken : CapabilityNode = record n { state = live (new_node info parent) } in
    let id : CapabilityNodeId = record { index = i; generation = n.generation } in
    let placed : CapabilitySystem = record s { nodes = set s.nodes i taken; free_head = next } in
    (
      id,
      link_parent placed parent id,
      ground arith,
      link_parent-Allocated s placed info parent id (record {
        valid = record {
          linked =
              IsLinked-pop node_link s.nodes i n taken next at linked refl
                (subst (IsLinked node_link s.nodes) e v.linked);
          within = omega (arith, length-set s.nodes i taken, v.within);
          word = v.word;
          generations =
              All-set HasGeneration s.nodes i taken
                (All-get HasGeneration s.nodes i at v.generations) v.generations;
        };
        same_capacity = refl;
        fresh = ap carried (live_at_free s i n.generation n next at is_free);
        adds = λ other. authority-set_live s i n next next (new_node info parent) other at is_free;
      }),
    )

place_new :
    (s : CapabilitySystem) (info : CapabilityInfo) (parent : Option CapabilityNodeId)
    → IsValid s
    → s.free_head ≡ none
    → length s.nodes < s.capacity
    → (id : CapabilityNodeId) × (s' : CapabilitySystem) × (place_node s info parent ≡ (ok id, s'))
      × Allocated s info parent id s'
unfolding place_node
place_new s info parent v e room =
    let added : CapabilityNode = record { generation = 1; state = live (new_node info parent) } in
    let id : CapabilityNodeId = record { index = length s.nodes; generation = 1 } in
    let placed : CapabilitySystem = record s { nodes = s.nodes ++ added ∷ [] } in
    let low : length s.nodes % u32_mod ≡ length s.nodes = omega (arith, v.word) in
    (
      id,
      link_parent placed parent id,
      ground (arith, low),
      link_parent-Allocated s placed info parent id (record {
        valid = record {
          linked = IsLinked-append node_link s.nodes s.free_head added refl v.linked;
          within = omega (arith, length-append s.nodes (added ∷ []));
          word = v.word;
          generations = All-append_one HasGeneration s.nodes added (omega arith) v.generations;
        };
        same_capacity = refl;
        fresh = ap carried (live_at-beyond s 1);
        adds = λ other. authority-append s (new_node info parent) other;
      }),
    )

place_node-Allocated :
    (s : CapabilitySystem) (info : CapabilityInfo) (parent : Option CapabilityNodeId)
    → IsValid s
    → live_count s < s.capacity
    → (id : CapabilityNodeId) × (s' : CapabilitySystem) × (place_node s info parent ≡ (ok id, s'))
      × Allocated s info parent id s'
place_node-Allocated s info parent v room = elim (Option-cases s.free_head) [
  | inr (i, e) ↦ place_free s info parent i v e
  | inl e ↦ place_new s info parent v e (
      omega
        (arith, IsLinked-full node_link s.nodes (subst (IsLinked node_link s.nodes) e v.linked)))
]

add_reference-modify :
    (s : CapabilitySystem) (p : CapabilityNodeId) (l : LiveNode)
    → live_at s p ≡ some l
    → l.references + 1 < u32_mod
    → add_reference s p ≡ (ok tt, modify s p (λ q. record q { references = q.references + 1 }))
unfolding add_reference live_at modify
add_reference-modify s p l at few = ground arith

-- In a valid table with room, under a parent node that is live and can take one more reference,
-- the allocation succeeds: the table stays valid, the new node was not there and now carries the
-- information under that parent, unrevoked, and every other node carries what it carried.
pub allocate_node-Allocated :
    (s : CapabilitySystem) (info : CapabilityInfo) (p : CapabilityNodeId) (l : LiveNode)
    → IsValid s
    → live_count s < s.capacity
    → live_at s p ≡ some l
    → l.references + 1 < u32_mod
    → (id : CapabilityNodeId) × (s' : CapabilitySystem) × (allocate_node s info (some p)
        ≡ (ok id, s'))
      × Allocated s info (some p) id s'
unfolding allocate_node
allocate_node-Allocated s info p l v room at few =
    let count = (λ (q : LiveNode). record q { references = q.references + 1 }) in
    let (valid, live_same, cap_same, _, _) = modify-IsValid s p count v in
    let (id, s', made, a) =
      place_node-Allocated (modify s p count) info (some p) valid (omega arith) in
    (
      id,
      s',
      ground (arith, add_reference-modify s p l at few, made),
      record {
        valid = a.valid;
        same_capacity = a.same_capacity ∙ cap_same;
        fresh = sym (authority-modify s p id count (λ q. refl)) ∙ a.fresh;
        adds = λ other. ground (arith, a.adds other, authority-modify s p other count (λ q. refl));
      },
    )
