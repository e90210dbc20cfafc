-- ===== src/Capability/Holding.antt =====
-- crates/kernel-core/src/capability.rs: taking a capability into a space and out of it again.
use gaxera.Prelude.{
  ℕ, ◌<◌, ◌≡◌, ◌≢◌, inl, inr, refl, true, none, some, length-set, get_elem?, set, get_elem?-set,
  get_elem?-set_self, lt_of_get_elem?, All-set, All-get, if◌then◌else◌, is_error, ok, arith,
  Option-cases,
}
use gaxera.Abi.Handles.{Handle, from_parts, slot, generation}
use gaxera.Abi.Ids.{next_generation, next_generation_lem}
use gaxera.FreeList.{IsLinked-push, in_use}
use gaxera.Capability.Types.{CapabilityNodeId}
use gaxera.Capability.Space.{CapabilitySpace, CapabilitySlot, insert, remove, node_for}
use gaxera.Capability.Slots.{
  slot_link, HasGeneration, IsValid, resolve, resolve-entry_of, same_handle, insert-Inserted,
}

-- A valid space below its capacity takes a node: the space stays valid, the handle did not resolve
-- before and now resolves to the node, and every handle of another slot or generation resolves as
-- before.
pub insert_adds :
    (c : CapabilitySpace) (n : CapabilityNodeId)
    → IsValid c
    → in_use slot_link c.slots < c.capacity
    → (h : Handle) × (c' : CapabilitySpace) × (insert c n ≡ (ok h, c'))
      × IsValid c'
      × (resolve c h ≡ none)
      × ((other : Handle)
          → resolve c' other ≡ (if same_handle h other then some n else resolve c other))
insert_adds c n v room =
    let (h, c', i) = insert-Inserted c n v room in (h, c', i.result, i.valid, i.fresh, i.adds)

abbrev freed_slot : CapabilitySpace → CapabilitySlot → CapabilitySlot
freed_slot c s = record {
  generation = next_generation s.generation;
  node = none;
  next_free = c.free_head;
}

abbrev after_remove : CapabilitySpace → ℕ → CapabilitySlot → CapabilitySpace
after_remove c i s = record c { slots = set c.slots i (freed_slot c s); free_head = some i }

slot_of_handle :
    (c : CapabilitySpace) (h : Handle) (n : CapabilityNodeId)
    → resolve c h ≡ some n
    → (s : CapabilitySlot) × (get_elem? c.slots (slot h) ≡ some s)
      × (s.node ≡ some n)
      × (s.generation ≡ generation h)
      × (remove c h ≡ (ok n, after_remove c (slot h) s))
unfolding resolve node_for remove
slot_of_handle c h n e = elim (Option-cases (get_elem? c.slots (slot h))) [
  | inl missing ↦ absurd (ground arith)
  | inr (s, at) ↦ (s, at, ground arith, ground arith, ground arith)
]

after_remove-IsValid :
    (c : CapabilitySpace) (i : ℕ) (s : CapabilitySlot) (n : CapabilityNodeId)
    → IsValid c
    → get_elem? c.slots i ≡ some s
    → s.node ≡ some n
    → IsValid (after_remove c i s)
after_remove-IsValid c i s n v at e =
    let g = All-get HasGeneration c.slots i at v.generations in
    let k = next_generation_lem s.generation g.0 g.1 in
    record {
      linked =
          IsLinked-push slot_link c.slots c.free_head i s (freed_slot c s) at (ground arith) refl
            v.linked;
      within = omega (arith, length-set c.slots i (freed_slot c s), v.within);
      word = v.word;
      generations = All-set HasGeneration c.slots i (freed_slot c s) (k.1, k.2) v.generations;
    }

remove_missing :
    (c : CapabilitySpace) (h : Handle)
    → resolve c h ≡ none
    → (is_error (remove c h).0 ≡ true) × ((remove c h).1 ≡ c)
unfolding resolve node_for remove
remove_missing c h e = ground arith

-- In a valid space, removing a handle that resolves to a node returns that node: the space stays
-- valid, no handle of that slot and generation resolves any more, and every other handle resolves as
-- before. Removing a handle that does not resolve is refused and changes nothing.
pub remove_cases :
    (c : CapabilitySpace) (h : Handle)
    → IsValid c
    → ((n : CapabilityNodeId)
        → resolve c h ≡ some n
        → (c' : CapabilitySpace) × (remove c h ≡ (ok n, c'))
          × IsValid c'
          × ((other : Handle)
              → resolve c' other ≡ (if same_handle h other then none else resolve c other)))
      × (resolve c h ≡ none → (is_error (remove c h).0 ≡ true) × ((remove c h).1 ≡ c))
remove_cases c h v = (
  (λ n e.
      let (s, at, held, g, gone) = slot_of_handle c h n e in
      let v' = after_remove-IsValid c (slot h) s n v at held in
      (
        after_remove c (slot h) s,
        gone,
        v',
        λ other. ground (
          arith,
          resolve-entry_of c other v,
          resolve-entry_of (after_remove c (slot h) s) other v',
          get_elem?-set c.slots (slot h) (slot other) (freed_slot c s) at,
        ),
      )),
  (λ e. remove_missing c h e),
)

resolve_stale :
    (c : CapabilitySpace) (h : Handle) (s : CapabilitySlot)
    → get_elem? c.slots (slot h) ≡ some s
    → s.generation ≢ generation h
    → resolve c h ≡ none
unfolding resolve node_for
resolve_stale c h s at stale = ground arith

remove_inversion :
    (c d : CapabilitySpace) (h : Handle) (n : CapabilityNodeId)
    → remove c h ≡ (ok n, d)
    → (s : CapabilitySlot) × (get_elem? c.slots (slot h) ≡ some s)
      × (s.generation ≡ generation h)
      × (d ≡ after_remove c (slot h) s)
unfolding remove
remove_inversion c d h n e = elim (Option-cases (get_elem? c.slots (slot h))) [
  | inl missing ↦ absurd (ground arith)
  | inr (s, at) ↦ (s, at, ground arith, ground arith)
]

abbrev refilled : CapabilitySpace → CapabilitySlot → CapabilityNodeId → CapabilitySlot
refilled c s m = record (freed_slot c s) { node = some m; next_free = none }

insert_on_freed :
    (c : CapabilitySpace) (i : ℕ) (s : CapabilitySlot) (m : CapabilityNodeId)
    → get_elem? c.slots i ≡ some s
    → insert (after_remove c i s) m ≡ (
      ok (from_parts i (next_generation s.generation)),
      record c {
        slots = set (set c.slots i (freed_slot c s)) i (refilled c s m);
        free_head = c.free_head;
      },
    )
unfolding insert
insert_on_freed c i s m at =
    ground (arith, get_elem?-set_self c.slots i (freed_slot c s) (lt_of_get_elem? c.slots i at))

-- In a valid space a removed handle does not come back to life with its slot: the next insertion
-- returns a handle of the same slot under the next generation, another one, and the removed handle
-- still does not resolve.
pub insert-remove :
    (c d : CapabilitySpace) (h : Handle) (n m : CapabilityNodeId)
    → IsValid c
    → remove c h ≡ (ok n, d)
    → ((insert d m).0 ≡ ok (from_parts (slot h) (next_generation (generation h))))
      × (next_generation (generation h) ≢ generation h)
      × (resolve (insert d m).1 h ≡ none)
insert-remove c d h n m v removed =
    let (s, at, g, after) = remove_inversion c d h n removed in
    let again = insert_on_freed c (slot h) s m at in
    let old = All-get HasGeneration c.slots (slot h) at v.generations in
    let differs = (next_generation_lem s.generation old.0 old.1).0 in
    let freed_at =
      get_elem?-set_self c.slots (slot h) (freed_slot c s) (lt_of_get_elem? c.slots (slot h) at) in
    let taken_at =
      get_elem?-set_self (set c.slots (slot h) (freed_slot c s)) (slot h) (refilled c s m)
        (lt_of_get_elem? _ (slot h) freed_at) in
    let stale : next_generation s.generation ≢ generation h = ground arith in
    (
      ground (arith, again),
      ground arith,
      rw (after, again) (resolve_stale _ h (refilled c s m) taken_at stale),
    )
