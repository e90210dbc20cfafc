-- ===== src/Capability/Slots.antt =====
-- crates/kernel-core/src/capability.rs: a capability space as a partial map from handles to nodes,
-- and how `insert` and `remove` change it.
use gaxera.Prelude.{
  ℕ, ◌^◌, ◌≤◌, ◌<◌, ◌≡◌, inl, inr, refl, subst, Bool, ◌&&◌, Option, none, some, [], ◌∷◌, ◌++◌,
  length, length-set, length-append, get_elem?, set, get_elem?-set, get_elem?-append_one,
  get_elem?-length, lt_of_get_elem?, All, All-set, All-append_one, All-get, if◌then◌else◌, u32_mod,
  Result, ok, err, arith, Option-cases, ◌==◌,
}
use gaxera.Abi.Handles.{
  Handle, from_parts, slot, generation, is_valid, slot-from_parts, generation-from_parts,
}
use gaxera.FreeList.{IsLinked, IsLinked-head, IsLinked-pop, IsLinked-append, IsLinked-full, in_use}
use gaxera.Capability.Types.{CapabilityNodeId}
use gaxera.Capability.Space.{CapabilitySpace, CapabilitySlot, insert, node_for}

abbrev pub slot_link : CapabilitySlot → Option (Option ℕ)
slot_link s = elim s.node [ none ↦ some s.next_free | some n ↦ none ]

abbrev pub HasGeneration : CapabilitySlot → Type 0
HasGeneration s = (0 < s.generation) × (s.generation < 2 ^ 32)

pub record IsValid (c : CapabilitySpace) : Type 0 where
  pub linked : IsLinked slot_link c.slots c.free_head
  pub within : length c.slots ≤ c.capacity
  pub word : c.capacity < u32_mod
  pub generations : All HasGeneration c.slots

abbrev pub ok_part {ℓ ι} : {A : Type ℓ} {E : Type ι} → Result A E → Option A
ok_part (ok a) = some a
ok_part (err e) = none

-- The abstract view of a space: the node that a handle stands for, if any.
unfoldable pub resolve : CapabilitySpace → Handle → Option CapabilityNodeId
resolve c h = ok_part (node_for c h)

abbrev pub entry_of : Option CapabilitySlot → ℕ → Option CapabilityNodeId
entry_of none g = none
entry_of (some s) g = if s.generation == g then s.node else none

-- In a valid space the slot and the generation decide.
pub resolve-entry_of :
    (c : CapabilitySpace) (h : Handle)
    → IsValid c
    → resolve c h ≡ entry_of (get_elem? c.slots (slot h)) (generation h)
unfolding resolve node_for is_valid slot generation
resolve-entry_of c h v = elim (Option-cases (get_elem? c.slots (slot h))) [
  | inl e ↦ ground arith
  | inr (s, e) ↦ ground (arith, All-get HasGeneration c.slots (slot h) e v.generations)
]

-- Two handles name the same slot under the same generation.
abbrev pub same_handle : Handle → Handle → Bool
same_handle a b = slot a == slot b && generation a == generation b

-- What an insertion gives.
pub record Inserted (c : CapabilitySpace) (n : CapabilityNodeId) (h : Handle) (c' : CapabilitySpace)
    : Type 0 where
  pub result : insert c n ≡ (ok h, c')
  pub valid : IsValid c'
  pub same_domain : c'.domain ≡ c.domain
  pub fresh : resolve c h ≡ none
  pub adds :
      (other : Handle)
      → resolve c' other ≡ (if same_handle h other then some n else resolve c other)

insert_free :
    (c : CapabilitySpace) (n : CapabilityNodeId) (i : ℕ)
    → IsValid c
    → c.free_head ≡ some i
    → (h : Handle) × (c' : CapabilitySpace) × Inserted c n h c'
unfolding insert
insert_free c n i v e =
    let (s, next, at, linked) =
      IsLinked-head slot_link c.slots i (subst (IsLinked slot_link c.slots) e v.linked) in
    let is_free : (s.node ≡ none) × (s.next_free ≡ next) = ground arith in
    let taken : CapabilitySlot = record s { node = some n; next_free = none } in
    let g = All-get HasGeneration c.slots i at v.generations in
    let low : i < 2 ^ 32 = omega (arith, lt_of_get_elem? c.slots i at, v.within, v.word) in
    let c' : CapabilitySpace = record c { slots = set c.slots i taken; free_head = s.next_free } in
    let h = from_parts i s.generation in
    let hs = slot-from_parts i s.generation low in
    let hg = generation-from_parts i s.generation low g.1 in
    let v' : IsValid c' = record {
      linked =
          IsLinked-pop slot_link c.slots i s taken s.next_free at (ground arith) refl
            (subst (IsLinked slot_link c.slots) e v.linked);
      within = omega (arith, length-set c.slots i taken, v.within);
      word = v.word;
      generations = All-set HasGeneration c.slots i taken g v.generations;
    } in
    (
      h,
      c',
      record {
        result = ground arith;
        valid = v';
        same_domain = refl;
        fresh = ground (arith, resolve-entry_of c h v, hs, hg);
        adds = λ other. ground (
          arith,
          resolve-entry_of c other v,
          resolve-entry_of c' other v',
          hs,
          hg,
          get_elem?-set c.slots i (slot other) taken at,
        );
      },
    )

insert_new_slot :
    (c : CapabilitySpace) (n : CapabilityNodeId)
    → IsValid c
    → c.free_head ≡ none
    → length c.slots < c.capacity
    → (h : Handle) × (c' : CapabilitySpace) × Inserted c n h c'
unfolding insert
insert_new_slot c n v e room =
    let added : CapabilitySlot = record { generation = 1; node = some n; next_free = none } in
    let low : length c.slots < 2 ^ 32 = omega (arith, v.word) in
    let c' : CapabilitySpace = record c { slots = c.slots ++ added ∷ [] } in
    let h = from_parts (length c.slots) 1 in
    let hs = slot-from_parts (length c.slots) 1 low in
    let hg = generation-from_parts (length c.slots) 1 low (omega arith) in
    let v' : IsValid c' = record {
      linked = IsLinked-append slot_link c.slots c.free_head added refl v.linked;
      within = omega (arith, length-append c.slots (added ∷ []));
      word = v.word;
      generations = All-append_one HasGeneration c.slots added (omega arith) v.generations;
    } in
    (
      h,
      c',
      record {
        result = ground arith;
        valid = v';
        same_domain = refl;
        fresh = ground (arith, resolve-entry_of c h v, hs, get_elem?-length c.slots);
        adds = λ other. ground (
          arith,
          resolve-entry_of c other v,
          resolve-entry_of c' other v',
          hs,
          hg,
          get_elem?-append_one c.slots added (slot other),
          get_elem?-length c.slots,
        );
      },
    )

pub insert-Inserted :
    (c : CapabilitySpace) (n : CapabilityNodeId)
    → IsValid c
    → in_use slot_link c.slots < c.capacity
    → (h : Handle) × (c' : CapabilitySpace) × Inserted c n h c'
insert-Inserted c n v room = elim (Option-cases c.free_head) [
  | inr (i, e) ↦ insert_free c n i v e
  | inl e ↦ insert_new_slot c n v e (
      omega
        (arith, IsLinked-full slot_link c.slots (subst (IsLinked slot_link c.slots) e v.linked)))
]
