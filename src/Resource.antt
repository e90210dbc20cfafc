-- ===== src/Resource.antt =====
-- crates/kernel-core/src/resource.rs: the quota accounts of a resource domain. A method that
-- changes the domain returns its result and the domain after it, also on its error paths.
pub mod Quota
pub mod Reserve
use gaxera.Prelude.{
  ℕ, ◌+◌, ◌-◌, ◌%◌, Bool, true, false, not, ◌&&◌, ◌||◌, Option, none, some, ltb, leb, ◌==◌, u32_mod,
  u64_mod, checked_add, checked_sub, if◌then◌else◌, Result, ok, err, ◌>>=◌, ◌>>◌, reject_if, ok_or,
}
use gaxera.Abi.Ids.{ResourceDomainId, same_id}

-- `ResourceLimits` and `ResourceUsage` have the same fields.
pub record Amounts : Type 0 where
  pub objects : ℕ
  pub capabilities : ℕ
  pub memory_bytes : ℕ

abbrev pub nothing : Amounts
nothing = record { objects = 0; capabilities = 0; memory_bytes = 0 }

pub data ResourceError : Type 0 where
  object_limit capability_limit memory_limit accounting_underflow still_referenced : ResourceError

pub record ResourceDomain : Type 0 where
  pub id : ResourceDomainId
  pub parent : Option ResourceDomainId
  pub limits : Amounts
  pub usage : Amounts
  pub process_refs : ℕ
  pub child_domain_refs : ℕ
  pub reservation_active : Bool

abbrev pub Done : Type 0
Done = Result (Unit {0}) ResourceError

unfoldable pub new : ResourceDomainId → Amounts → ResourceDomain
new id limits = record {
  id = id;
  parent = none;
  limits = limits;
  usage = nothing;
  process_refs = 0;
  child_domain_refs = 0;
  reservation_active = false;
}

-- The three sums and the three comparisons of `new_child`, in their order.
unfoldable pub reserve : ResourceDomain → Amounts → Result Amounts ResourceError
reserve parent child = do
  next_objects ← ok_or (checked_add u32_mod parent.usage.objects child.objects) object_limit
  next_capabilities ←
      ok_or (checked_add u32_mod parent.usage.capabilities child.capabilities) capability_limit
  next_memory ←
      ok_or (checked_add u64_mod parent.usage.memory_bytes child.memory_bytes) memory_limit
  reject_if (ltb parent.limits.objects next_objects) object_limit
  reject_if (ltb parent.limits.capabilities next_capabilities) capability_limit
  reject_if (ltb parent.limits.memory_bytes next_memory) memory_limit
  ok (record {
    objects = next_objects;
    capabilities = next_capabilities;
    memory_bytes = next_memory;
  })

-- The count of child domains is raised after the usage is written.
unfoldable pub new_child :
    ResourceDomainId
    → ResourceDomain
    → Amounts
    → Result ResourceDomain ResourceError × ResourceDomain
unfolding reserve
new_child id parent child_limits = elim (reserve parent child_limits) [
  | err e ↦ (err e, parent)
  | ok next ↦
      let charged = record parent { usage = next } in
      let child : ResourceDomain = record {
        id = id;
        parent = some parent.id;
        limits = child_limits;
        usage = nothing;
        process_refs = 0;
        child_domain_refs = 0;
        reservation_active = true;
      } in
      elim (checked_add u32_mod parent.child_domain_refs 1) [
        | none ↦ (err object_limit, charged)
        | some refs ↦ (ok child, record charged { child_domain_refs = refs })
      ]
]

unfoldable pub is_eligible_for_destruction : ResourceDomain → Bool
is_eligible_for_destruction d =
    d.process_refs == 0
    && d.usage.objects == 0
    && d.usage.capabilities == 0
    && d.usage.memory_bytes == 0
    && d.child_domain_refs == 0

abbrev pub is_parent : Option ResourceDomainId → ResourceDomainId → Bool
is_parent none id = false
is_parent (some p) id = same_id p id

-- The four subtractions of `refund_to_parent`. Those before a failing one stay written.
unfoldable pub refund : ResourceDomain → Amounts → Done × ResourceDomain
refund parent given = elim (checked_sub parent.usage.objects given.objects) [
  | none ↦ (err accounting_underflow, parent)
  | some objects ↦
      let first = record parent { usage = record (parent.usage) { objects = objects } } in
      elim (checked_sub first.usage.capabilities given.capabilities) [
        | none ↦ (err accounting_underflow, first)
        | some capabilities ↦
            let second = record first {
              usage = record (first.usage) { capabilities = capabilities };
            } in
            elim (checked_sub second.usage.memory_bytes given.memory_bytes) [
              | none ↦ (err accounting_underflow, second)
              | some memory ↦
                  let third = record second {
                    usage = record (second.usage) { memory_bytes = memory };
                  } in
                  elim (checked_sub third.child_domain_refs 1) [
                    | none ↦ (err accounting_underflow, third)
                    | some refs ↦ (ok tt, record third { child_domain_refs = refs })
                  ]
            ]
      ]
]

-- The result, the child and the parent.
unfoldable pub refund_to_parent :
    ResourceDomain → ResourceDomain → Done × ResourceDomain × ResourceDomain
unfolding is_eligible_for_destruction refund same_id
refund_to_parent self parent =
    if not (is_parent self.parent parent.id)
    then (err still_referenced, self, parent)
    else if not self.reservation_active || not (is_eligible_for_destruction self)
    then (err still_referenced, self, parent)
    else let (result, refunded) = refund parent self.limits in
      elim result [
        | err e ↦ (err e, self, refunded)
        | ok _ ↦ (ok tt, record self { reservation_active = false }, refunded)
      ]

-- The unchecked `+= 1` of a `u32` wraps in a release build.
unfoldable pub add_process_ref : ResourceDomain → ResourceDomain
add_process_ref d = record d { process_refs = (d.process_refs + 1) % u32_mod }

unfoldable pub release_process_ref : ResourceDomain → Done × ResourceDomain
release_process_ref d =
    if d.process_refs == 0
    then (err accounting_underflow, d)
    else (ok tt, record d { process_refs = d.process_refs - 1 })

unfoldable pub charge_object : ResourceDomain → Done × ResourceDomain
charge_object d =
    if leb d.limits.objects d.usage.objects
    then (err object_limit, d)
    else (ok tt, record d { usage = record (d.usage) { objects = d.usage.objects + 1 } })

unfoldable pub release_object : ResourceDomain → Done × ResourceDomain
release_object d =
    if d.usage.objects == 0
    then (err accounting_underflow, d)
    else (ok tt, record d { usage = record (d.usage) { objects = d.usage.objects - 1 } })

unfoldable pub charge_capability : ResourceDomain → Done × ResourceDomain
charge_capability d =
    if leb d.limits.capabilities d.usage.capabilities
    then (err capability_limit, d)
    else (ok tt, record d { usage = record (d.usage) { capabilities = d.usage.capabilities + 1 } })

unfoldable pub release_capability : ResourceDomain → Done × ResourceDomain
release_capability d =
    if d.usage.capabilities == 0
    then (err accounting_underflow, d)
    else (ok tt, record d { usage = record (d.usage) { capabilities = d.usage.capabilities - 1 } })

unfoldable pub charge_memory : ℕ → ResourceDomain → Done × ResourceDomain
charge_memory bytes d = elim (checked_add u64_mod d.usage.memory_bytes bytes) [
  | none ↦ (err memory_limit, d)
  | some new_usage ↦
      if ltb d.limits.memory_bytes new_usage
      then (err memory_limit, d)
      else (ok tt, record d { usage = record (d.usage) { memory_bytes = new_usage } })
]

unfoldable pub rollback_memory : ℕ → ResourceDomain → Done × ResourceDomain
rollback_memory bytes d = elim (checked_sub d.usage.memory_bytes bytes) [
  | none ↦ (err accounting_underflow, d)
  | some new_usage ↦ (ok tt, record d { usage = record (d.usage) { memory_bytes = new_usage } })
]

unfoldable pub release_memory : ℕ → ResourceDomain → Done × ResourceDomain
unfolding rollback_memory
release_memory bytes d = rollback_memory bytes d
