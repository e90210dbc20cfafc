-- ===== src/Resource/Quota.antt =====
-- crates/kernel-core/src/resource.rs: no sequence of charges, releases and child reservations
-- takes a domain past its limits.
use gaxera.Prelude.{
  ℕ, ◌+◌, ◌≤◌, ◌<◌, ◌≡◌, ◌↔◌, refl, List, [], ◌∷◌, u32_mod, u64_mod, ok, err, arith,
}
use gaxera.Abi.Ids.{ResourceDomainId}
use gaxera.Resource.{
  Amounts, ResourceDomain, memory_limit, new_child, refund, add_process_ref, release_process_ref,
  charge_object, release_object, charge_capability, release_capability, charge_memory,
  rollback_memory, release_memory,
}

-- Usage is within the limits, and the limits are values of their types.
pub record IsBounded (d : ResourceDomain) : Type 0 where
  pub objects : d.usage.objects ≤ d.limits.objects
  pub capabilities : d.usage.capabilities ≤ d.limits.capabilities
  pub memory : d.usage.memory_bytes ≤ d.limits.memory_bytes
  pub objects_word : d.limits.objects < u32_mod
  pub capabilities_word : d.limits.capabilities < u32_mod
  pub memory_word : d.limits.memory_bytes < u64_mod
  pub refs_word : d.child_domain_refs < u32_mod
  pub process_word : d.process_refs < u32_mod

-- The calls that change one domain: a child is reserved from it, or gives back its amounts.
pub data Request : Type 0 where
  charges_object releases_object charges_capability releases_capability : Request
  charges_memory rolls_back_memory releases_memory : ℕ → Request
  adds_process releases_process : Request
  reserves_child : ResourceDomainId → Amounts → Request
  takes_refund : Amounts → Request

pub serve : ResourceDomain → Request → ResourceDomain
serve d charges_object = (charge_object d).1
serve d releases_object = (release_object d).1
serve d charges_capability = (charge_capability d).1
serve d releases_capability = (release_capability d).1
serve d (charges_memory n) = (charge_memory n d).1
serve d (rolls_back_memory n) = (rollback_memory n d).1
serve d (releases_memory n) = (release_memory n d).1
serve d adds_process = add_process_ref d
serve d releases_process = (release_process_ref d).1
serve d (reserves_child id limits) = (new_child id d limits).1
serve d (takes_refund given) = (refund d given).1

pub serve_all : ResourceDomain → List Request → ResourceDomain
serve_all d [] = d
serve_all d (r ∷ rs) = serve_all (serve d r) rs

new_child-IsBounded :
    (id : ResourceDomainId) (d : ResourceDomain) (limits : Amounts)
    → IsBounded d
    → IsBounded (new_child id d limits).1
unfolding new_child
new_child-IsBounded id d limits v = ground arith

refund-IsBounded :
    (d : ResourceDomain) (given : Amounts) → IsBounded d → IsBounded (refund d given).1
unfolding refund
refund-IsBounded d given v = ground arith

serve-IsBounded : (d : ResourceDomain) (r : Request) → IsBounded d → IsBounded (serve d r)
unfolding serve charge_object release_object charge_capability release_capability charge_memory
    rollback_memory release_memory add_process_ref release_process_ref
serve-IsBounded d charges_object v = ground arith
serve-IsBounded d (reserves_child id limits) v = new_child-IsBounded id d limits v
serve-IsBounded d (takes_refund given) v = refund-IsBounded d given v
serve-IsBounded d _ v = ground arith

serve-limits : (d : ResourceDomain) (r : Request) → (serve d r).limits ≡ d.limits
unfolding serve charge_object release_object charge_capability release_capability charge_memory
    rollback_memory release_memory add_process_ref release_process_ref new_child refund
serve-limits d charges_object = ground arith
serve-limits d _ = ground arith

-- Of a domain whose usage is within its limits, and whose limits and counts fit their machine
-- words: whatever requests it serves, refused ones included, its usage of objects, capabilities and
-- memory stays within its limits, and its limits stay the same.
pub serve_all-IsBounded :
    (d : ResourceDomain) (rs : List Request)
    → IsBounded d
    → IsBounded (serve_all d rs) × ((serve_all d rs).limits ≡ d.limits)
unfolding serve_all
serve_all-IsBounded d [] v = (v, refl)
serve_all-IsBounded d (r ∷ rs) v =
    let (bounded, same) = serve_all-IsBounded (serve d r) rs (serve-IsBounded d r v) in
    (bounded, ground (arith, serve-limits d r))

-- A memory charge to a bounded domain succeeds exactly when the bytes fit under the limit; then
-- the usage grows by them and rolling them back restores the domain. When it is refused the error is
-- `MemoryLimit` and the domain is as before.
pub charge_memory_fits :
    (d : ResourceDomain) (bytes : ℕ)
    → IsBounded d
    → (((charge_memory bytes d).0 ≡ ok tt) ↔ (d.usage.memory_bytes + bytes ≤ d.limits.memory_bytes))
      × ((d.usage.memory_bytes + bytes ≤ d.limits.memory_bytes)
          → ((charge_memory bytes d).1.usage.memory_bytes ≡ d.usage.memory_bytes + bytes)
            × (rollback_memory bytes (charge_memory bytes d).1 ≡ (ok tt, d)))
      × ((d.limits.memory_bytes < d.usage.memory_bytes + bytes)
          → charge_memory bytes d ≡ (err memory_limit, d))
unfolding charge_memory rollback_memory
charge_memory_fits d bytes v =
    ((ground arith, ground arith), (λ h. (ground arith, ground arith)), (λ h. ground arith))
