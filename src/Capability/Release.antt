-- ===== src/Capability/Release.antt =====
-- crates/kernel-core/src/capability.rs: the loop of `release_node` ends within its fuel.
use gaxera.Prelude.{
  ℕ, zero, suc, ◌+◌, ◌-◌, ◌<◌, ◌≡◌, ◌≢◌, inl, inr, refl, ◌∙◌, ap, sym, Option, none, some, List, [],
  ◌∷◌, map, length, get_elem?, set, Result, ok, arith, Bool-cases, Option-cases, Result-cases,
}
use gaxera.Abi.Ids.{same_id, next_generation}
use gaxera.FreeList.{in_use, in_use-set, in_use-le-length, in_use_weight}
use gaxera.Capability.Types.{
  CapabilityError, CapabilityNodeId, LiveNode, free, live, CapabilityNode, CapabilitySystem, node,
  live_state, live_at, modify,
}
use gaxera.Capability.Tree.{
  unlink_after, unlink_child, unlink_parent, release_loop, release_node, first_child_of,
  next_sibling_of,
}
use gaxera.Capability.Nodes.{node_link, live_count, modify_cases}

-- Which slots are live, and the free list through the others.
abbrev links : CapabilitySystem → List (Option (Option ℕ))
links s = map node_link s.nodes

map-set_same {ℓ κ} :
    {A : Type ℓ} {B : Type κ} (f : A → B) (xs : List A) (i : ℕ) {u : A} (v : A)
    → get_elem? xs i ≡ some u
    → f v ≡ f u
    → map f (set xs i v) ≡ map f xs
map-set_same f [] i v at same = cc
map-set_same f (x ∷ xs) zero v at same = ground arith
map-set_same f (x ∷ xs) (suc i) v at same = ap (◌∷◌ (f x)) (map-set_same f xs i v at same)

links-modify :
    (s : CapabilitySystem) (id : CapabilityNodeId) (f : LiveNode → LiveNode)
    → links (modify s id f) ≡ links s
links-modify s id f = elim (modify_cases s id f) [
  | inl same ↦ rw same
  | inr (n, l, at, alive, g, same) ↦
      rw same (
        map-set_same node_link s.nodes id.index (record n { state = live (f l) }) at (ground arith))
]

links-unlink_after :
    (fuel : ℕ) (s : CapabilitySystem) (curr child : CapabilityNodeId)
    → links (unlink_after fuel s curr child) ≡ links s
unfolding unlink_after
links-unlink_after zero s curr child = refl
links-unlink_after (suc fuel) s curr child = elim (Result-cases (node s curr)) [
  | inr (e, q) ↦ rw (q, unlink_after)
  | inl (n, q) ↦ elim (Option-cases (next_sibling_of (live_at s curr))) [
    | inl last ↦ rw (q, last, unlink_after) refl
    | inr (nxt, more) ↦ elim (Bool-cases (same_id nxt child)) [
      | inl hit ↦ rw (q, more, hit, unlink_after) (links-modify s curr _)
      | inr miss ↦ rw (q, more, miss, unlink_after) (links-unlink_after fuel s nxt child)
    ]
  ]
]

links-unlink_child :
    (s : CapabilitySystem) (parent child : CapabilityNodeId)
    → links (unlink_child s parent child) ≡ links s
unfolding unlink_child
links-unlink_child s parent child = elim (Option-cases (first_child_of (live_at s parent))) [
  | inl alone ↦ rw (alone, unlink_child) refl
  | inr (first, e) ↦ elim (Bool-cases (same_id first child)) [
    | inl hit ↦ rw (e, hit, unlink_child) (links-modify s parent _)
    | inr miss ↦ rw (e, miss, unlink_child) (links-unlink_after (length s.nodes) s first child)
  ]
]

links-unlink_parent :
    (s : CapabilitySystem) (parent : Option CapabilityNodeId) (child : CapabilityNodeId)
    → links (unlink_parent s parent child) ≡ links s
links-unlink_parent s none child = refl
links-unlink_parent s (some p) child = links-unlink_child s p child

count_links : List (Option (Option ℕ)) → ℕ
count_links [] = 0
count_links (none ∷ ls) = suc (count_links ls)
count_links (some n ∷ ls) = count_links ls

live_count-links : (ns : List CapabilityNode) → in_use node_link ns ≡ count_links (map node_link ns)
unfolding in_use count_links
live_count-links [] = refl
live_count-links (n ∷ ns) = ground (arith, live_count-links ns)

get_elem?-map {ℓ κ} :
    {A : Type ℓ} {B : Type κ} (f : A → B) (xs : List A) (i : ℕ) {u : A}
    → get_elem? xs i ≡ some u
    → get_elem? (map f xs) i ≡ some (f u)
get_elem?-map f [] i at = cc
get_elem?-map f (x ∷ xs) zero at = ground arith
get_elem?-map f (x ∷ xs) (suc i) at = get_elem?-map f xs i at

-- A table with the same links has the same slots in use.
link_kept :
    (s t : CapabilitySystem) (i : ℕ) (n m : CapabilityNode)
    → links t ≡ links s
    → get_elem? s.nodes i ≡ some n
    → get_elem? t.nodes i ≡ some m
    → node_link m ≡ node_link n
link_kept s t i n m same at there = cc (
  get_elem?-map node_link s.nodes i at,
  get_elem?-map node_link t.nodes i there,
  ap (λ (ls : List (Option (Option ℕ))). get_elem? ls i) same,
)

live_count_kept : (s t : CapabilitySystem) → links t ≡ links s → live_count t ≡ live_count s
live_count_kept s t same =
    live_count-links t.nodes ∙ ap count_links same ∙ sym (live_count-links s.nodes)

node_slot :
    (s : CapabilitySystem) (id : CapabilityNodeId) (n : CapabilityNode)
    → node s id ≡ ok n
    → get_elem? s.nodes id.index ≡ some n
unfolding node
node_slot s id n e = ground arith

abbrev counted : CapabilitySystem → CapabilityNodeId → CapabilityNode → LiveNode → CapabilitySystem
counted s id n l = record s {
  nodes =
      set s.nodes id.index (record n { state = live (record l { references = l.references - 1 }) });
}

abbrev freed : CapabilitySystem → Option ℕ → CapabilityNodeId → CapabilityNode → CapabilitySystem
freed t head id m = record t {
  nodes =
      set t.nodes id.index
        (record { generation = next_generation m.generation; state = free head });
  free_head = some id.index;
}

-- A round that frees a node leaves one live node less.
freed_less :
    (s : CapabilitySystem) (id : CapabilityNodeId) (n m : CapabilityNode) (l : LiveNode)
    → node s id ≡ ok n
    → n.state ≡ live l
    → node (unlink_parent (counted s id n l) l.parent id) id ≡ ok m
    → live_count (freed (unlink_parent (counted s id n l) l.parent id) s.free_head id m)
      < live_count s
freed_less s id n m l e alive again =
    let at = node_slot s id n e in
    let t = unlink_parent (counted s id n l) l.parent id in
    let there = node_slot t id m again in
    let used : node_link n ≡ none = ground arith in
    let first : links (counted s id n l) ≡ links s =
      map-set_same node_link s.nodes id.index
        (record n { state = live (record l { references = l.references - 1 }) }) at (sym used) in
    let same : links t ≡ links s = links-unlink_parent (counted s id n l) l.parent id ∙ first in
    let still : node_link m ≡ none = link_kept s t id.index n m same at there ∙ used in
    omega (
      arith,
      live_count_kept s t same,
      in_use-set node_link t.nodes id.index m
          (record { generation = next_generation m.generation; state = free s.free_head }) there,
      ap (in_use_weight node_link) still,
    )

round :
    (fuel : ℕ) (s : CapabilitySystem) (id : CapabilityNodeId) (n : CapabilityNode) (l : LiveNode)
    → node s id ≡ ok n
    → n.state ≡ live l
    → live_count s < suc fuel
    → ((t : CapabilitySystem) (p : CapabilityNodeId)
        → live_count t < fuel
        → release_loop fuel t p ≢ none)
    → release_loop (suc fuel) s id ≢ none
unfolding release_loop
round fuel s id n l q alive enough next =
    elim (Result-cases (node (unlink_parent (counted s id n l) l.parent id) id)) [
      | inr (e, missing) ↦ ground arith
      | inl (m, again) ↦ elim (Option-cases l.parent) [
        | inl orphan ↦ ground arith
        | inr (p, child) ↦ ground (
          arith,
          freed_less s id n m l q alive again,
          next (freed (unlink_parent (counted s id n l) l.parent id) s.free_head id m) p,
        )
      ]
    ]

-- From any table and any node, the loop of `release_node` ends in fewer rounds than one more than the live nodes.
release_loop_total :
    (fuel : ℕ) (s : CapabilitySystem) (id : CapabilityNodeId)
    → live_count s < fuel
    → release_loop fuel s id ≢ none
unfolding release_loop
release_loop_total zero s id enough = absurd (omega arith)
release_loop_total (suc fuel) s id enough = elim (Result-cases (node s id)) [
  | inr (e, q) ↦ rw (q, release_loop) (λ h. cc)
  | inl (n, q) ↦ elim (Option-cases (live_state n.state)) [
    | inl dead ↦ ground arith
    | inr (l, alive) ↦
        round fuel s id n l q (ground arith) enough (λ t p. release_loop_total fuel t p)
  ]
]

-- The loop of `release_node` comes to an end when the unlinking inside each round does: with one
-- round more than the table has nodes it returns an outcome from any table and any node, and that
-- is what `release_node` returns.
pub release_node_total :
    (s : CapabilitySystem) (id : CapabilityNodeId)
    → (outcome : Result (Unit {0}) CapabilityError × CapabilitySystem) × (release_loop
          (length s.nodes + 1)
          s
          id
        ≡ some outcome)
      × (release_node s id ≡ outcome)
unfolding release_node
release_node_total s id = elim (Option-cases (release_loop (length s.nodes + 1) s id)) [
  | inl e ↦ absurd (
      release_loop_total (length s.nodes + 1) s id
        (omega (arith, in_use-le-length node_link s.nodes)) e)
  | inr (outcome, e) ↦ (outcome, e, rw (e, release_node) refl)
]
