-- ===== src/Tests/Domains.antt =====
-- Examples for crates/kernel-core/src/resource.rs and crates/gaxera-abi/src/lib.rs.
use gaxera.Prelude.{List, ℕ, ◌≡◌, refl, true, false, some, none, [], ◌∷◌, ok, err, arith}
use gaxera.Abi.Authority.{Rights, contains, is_subset_of}
use gaxera.Abi.Ids.{ResourceDomainId}
use gaxera.Resource.{
  Amounts, nothing, ResourceDomain, object_limit, still_referenced, new_child, refund_to_parent,
  reserve,
}
use gaxera.Resource.Quota.{
  IsBounded, charges_object, charges_memory, serve_all, serve_all-IsBounded,
}
use gaxera.Resource.Reserve.{Fits, plus, refund-new_child}

abbrev domain : ResourceDomain
domain = record {
  id = record { index = 0; generation = 1 };
  parent = none;
  limits = record { objects = 8; capabilities = 8; memory_bytes = 4096 };
  usage = record { objects = 3; capabilities = 2; memory_bytes = 1024 };
  process_refs = 1;
  child_domain_refs = 1;
  reservation_active = false;
}

abbrev crowded : ResourceDomain
crowded = record domain { child_domain_refs = 0xFFFF_FFFF }

abbrev share : Amounts
share = record { objects = 2; capabilities = 2; memory_bytes = 2048 }

abbrev excess : Amounts
excess = record { objects = 1; capabilities = 5; memory_bytes = 0 }

abbrev child_id : ResourceDomainId
child_id = record { index = 1; generation = 1 }

abbrev child : ResourceDomain
child = record {
  id = child_id;
  parent = some domain.id;
  limits = share;
  usage = nothing;
  process_refs = 0;
  child_domain_refs = 0;
  reservation_active = true;
}

domain-IsBounded : IsBounded domain
domain-IsBounded = ground arith

share-Fits : Fits domain share
share-Fits = ground arith

reserved : (new_child child_id domain share).0 ≡ ok child
unfolding new_child reserve
reserved = refl

serve_all-IsBounded_example :
    let after = serve_all domain (charges_object ∷ charges_memory 5000 ∷ []) in
    IsBounded after × (after.limits ≡ domain.limits)
serve_all-IsBounded_example =
    serve_all-IsBounded domain (charges_object ∷ charges_memory 5000 ∷ []) domain-IsBounded

refund-new_child_example :
    let spent = record child { reservation_active = false } in
    (refund_to_parent child (new_child child_id domain share).1 ≡ (ok tt, spent, domain))
    × ((parent : ResourceDomain)
        → refund_to_parent spent parent ≡ (err still_referenced, spent, parent))
refund-new_child_example = refund-new_child child_id domain share child domain-IsBounded reserved

-- A parent with the most children: the refused reservation stays charged.
refused_stays_charged :
    new_child child_id crowded share
    ≡ (err object_limit, record crowded { usage = plus crowded.usage share })
unfolding new_child
refused_stays_charged = refl

abbrev narrow : Rights
narrow = record { bits = 3 }

abbrev wide : Rights
wide = record { bits = 7 }

abbrev wanted : Rights
wanted = record { bits = 1 }

narrow-subset : is_subset_of narrow wide ≡ true
unfolding is_subset_of
narrow-subset = refl

narrow-contains : contains narrow wanted ≡ true
unfolding contains
narrow-contains = refl

abbrev five : ℕ
five = 5

abbrev nine : ℕ
nine = 9

abbrev bytes : List ℕ
bytes = 7 ∷ 255 ∷ []
