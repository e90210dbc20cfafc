-- ===== src/Capability/Ancestry.antt =====
-- crates/kernel-core/src/capability.rs: `is_descendant_of` against the derivation relation.
use gaxera.Prelude.{
  ℕ, zero, suc, ◌≤◌, ◌≡◌, ◌↔◌, inl, inr, subst, true, if◌then◌else◌, arith, Bool-cases,
  Option-cases,
}
use gaxera.Abi.Ids.{same_id, same_id_iff}
use gaxera.Capability.Types.{CapabilityNodeId, CapabilitySystem, live_at}
use gaxera.Capability.Ops.{descends, is_descendant_of}
use gaxera.Capability.Revocation.{Under, itself, derived}

-- The number of derivations between a node and one that it is under.
pub steps : {s : CapabilitySystem} {r id : CapabilityNodeId} → Under s r id → ℕ
steps itself = 0
steps (derived l p at child up) = suc (steps up)

Under-same_id :
    (s : CapabilitySystem) (id ancestor : CapabilityNodeId)
    → same_id id ancestor ≡ true
    → (u : Under s ancestor id) × (steps u ≤ 0)
unfolding steps
Under-same_id s id ancestor h =
    subst (λ y. (u : Under s y id) × (steps u ≤ 0)) ((same_id_iff id ancestor).0 h)
      (itself, omega arith)

descends_sound :
    (left : ℕ) (s : CapabilitySystem) (id ancestor : CapabilityNodeId)
    → descends left s id ancestor ≡ true
    → (u : Under s ancestor id) × (steps u ≤ left)
unfolding descends steps
descends_sound zero s id ancestor h = absurd (cc)
descends_sound (suc left) s id ancestor h = elim (Option-cases (live_at s id)) [
  | inl e ↦ absurd (ground arith)
  | inr (l, at) ↦ elim (Option-cases l.parent) [
    | inl e ↦ absurd (ground arith)
    | inr (p, child) ↦ elim (Bool-cases (same_id p ancestor)) [
      | inl hit ↦
          let (u, none_taken) = Under-same_id s p ancestor hit in
          (derived l p at child u, omega arith)
      | inr miss ↦
          let (u, few) = descends_sound left s p ancestor (ground arith) in
          (derived l p at child u, omega arith)
    ]
  ]
]

descends_complete :
    (s : CapabilitySystem) (ancestor : CapabilityNodeId) (left : ℕ) (id : CapabilityNodeId)
    (u : Under s ancestor id)
    → steps u ≤ left
    → (if same_id id ancestor then true else descends left s id ancestor) ≡ true
unfolding descends steps
descends_complete s ancestor left id itself h = ground (arith, same_id_iff id id)
descends_complete s ancestor zero id (derived l p at child up) h = absurd (omega arith)
descends_complete s ancestor (suc left) id (derived l p at child up) h =
    ground (arith, descends_complete s ancestor left p up (omega arith))

-- `is_descendant_of` decides ancestry up to the capacity of the table: it says yes exactly when the
-- node is the other or was derived from it in no more steps than the table has room for nodes.
pub is_descendant_of_iff :
    (s : CapabilitySystem) (id ancestor : CapabilityNodeId)
    → (is_descendant_of s id ancestor ≡ true) ↔ ((u : Under s ancestor id) × (steps u ≤ s.capacity))
unfolding is_descendant_of steps
is_descendant_of_iff s id ancestor = (
  (λ h. elim (Bool-cases (same_id id ancestor)) [
    | inl hit ↦ let (u, none_taken) = Under-same_id s id ancestor hit in (u, omega arith)
    | inr miss ↦ descends_sound s.capacity s id ancestor (ground arith)
  ]),
  (λ r. descends_complete s ancestor s.capacity id r.0 r.1),
)
