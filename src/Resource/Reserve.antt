-- ===== src/Resource/Reserve.antt =====
-- crates/kernel-core/src/resource.rs: a child domain's reservation and its refund.
use gaxera.Prelude.{◌+◌, ◌-◌, ◌≤◌, ◌<◌, ◌≡◌, true, false, some, u32_mod, ok, err, arith, is_error}
use gaxera.Abi.Ids.{ResourceDomainId, same_id_iff}
use gaxera.Resource.{
  Amounts, nothing, ResourceDomain, accounting_underflow, still_referenced, reserve, new_child,
  refund, refund_to_parent,
}
use gaxera.Resource.Quota.{IsBounded}

-- The amounts fit under the limits beside what is in use.
abbrev pub Fits : ResourceDomain → Amounts → Type 0
Fits d a =
    (d.usage.objects + a.objects ≤ d.limits.objects)
    × (d.usage.capabilities + a.capabilities ≤ d.limits.capabilities)
    × (d.usage.memory_bytes + a.memory_bytes ≤ d.limits.memory_bytes)

abbrev pub plus : Amounts → Amounts → Amounts
plus a b = record {
  objects = a.objects + b.objects;
  capabilities = a.capabilities + b.capabilities;
  memory_bytes = a.memory_bytes + b.memory_bytes;
}

pub reserve_iff :
    (d : ResourceDomain) (a : Amounts)
    → IsBounded d
    → (Fits d a → reserve d a ≡ ok (plus d.usage a))
      × ((next : Amounts) → reserve d a ≡ ok next → Fits d a)
unfolding reserve
reserve_iff d a v = ((λ h. ground arith), (λ next h. ground arith))

-- In a bounded parent whose count of children can still grow, a reservation whose amounts fit makes
-- a child with these limits and no usage, and a reservation that does not fit is refused and leaves
-- the parent as it was.
pub new_child_cases :
    (id : ResourceDomainId) (d : ResourceDomain) (a : Amounts)
    → IsBounded d
    → d.child_domain_refs + 1 < u32_mod
    → (Fits d a
        → new_child id d a ≡ (
          ok (record {
            id = id;
            parent = some d.id;
            limits = a;
            usage = nothing;
            process_refs = 0;
            child_domain_refs = 0;
            reservation_active = true;
          }),
          record d { usage = plus d.usage a; child_domain_refs = d.child_domain_refs + 1 },
        ))
      × (¬ Fits d a → (is_error (new_child id d a).0 ≡ true) × ((new_child id d a).1 ≡ d))
unfolding new_child reserve
new_child_cases id d a v room = ((λ h. ground arith), (λ h. ground arith))

-- Of a bounded parent: once a child has been reserved, refunding it at once succeeds and restores
-- the parent exactly, and refunding that child again is refused and changes nothing.
pub refund-new_child :
    (id : ResourceDomainId) (d : ResourceDomain) (a : Amounts) (child : ResourceDomain)
    → IsBounded d
    → (new_child id d a).0 ≡ ok child
    → let spent = record child { reservation_active = false } in
      (refund_to_parent child (new_child id d a).1 ≡ (ok tt, spent, d))
      × ((parent : ResourceDomain)
          → refund_to_parent spent parent ≡ (err still_referenced, spent, parent))
unfolding new_child refund_to_parent reserve
refund-new_child id d a child v h = (ground (arith, same_id_iff d.id d.id), λ parent. ground arith)

-- A refund that the parent cannot cover is refused only after the amounts before the failing one
-- were taken: when the objects are covered and the capabilities are not, the objects are gone.
pub refund_underflow :
    (d : ResourceDomain) (a : Amounts)
    → a.objects ≤ d.usage.objects
    → d.usage.capabilities < a.capabilities
    → refund d a ≡ (
      err accounting_underflow,
      record d { usage = record (d.usage) { objects = d.usage.objects - a.objects } },
    )
unfolding refund
refund_underflow d a h k = ground arith
