-- ===== src/Ipc/Transfer.antt =====
-- crates/kernel-core/src/ipc.rs: `PreparedMessageTransfers`, the capabilities that go with a message.
use gaxera.Prelude.{
  ℕ, ◌+◌, Option, none, some, List, [], ◌∷◌, ◌++◌, length, set, take, replicate, ltb, if◌then◌else◌,
  Result, ok, err,
}
use gaxera.Abi.Handles.{Handle}
use gaxera.Abi.Messages.{TransferDescriptor, max_capability_transfers}
use gaxera.Resource.{ResourceDomain}
use gaxera.Object.{ObjectArena}
use gaxera.Capability.Types.{CapabilityError, space_full, CapabilitySystem}
use gaxera.Capability.Space.{CapabilitySpace}
use gaxera.Capability.Ops.{PreparedTransfer, prepare_transfer, commit_transfer, delete}

-- An array of as many entries as a message may carry, and the number of those in use.
pub record PreparedMessageTransfers : Type 0 where
  pub transfers : List (Option PreparedTransfer)
  pub count : ℕ

-- The loop of `prepare` from index `i`.
unfoldable pub prepare_from :
    List TransferDescriptor
    → ℕ
    → PreparedMessageTransfers
    → CapabilitySpace
    → CapabilitySystem
    → ObjectArena
    → Result PreparedMessageTransfers CapabilityError
unfolding prepare_transfer
prepare_from [] i done source s objects = ok done
prepare_from (d ∷ ds) i done source s objects =
    elim (prepare_transfer s source d.handle d.narrowed_rights objects) [
      | err e ↦ err e
      | ok prepared ↦
          let more : PreparedMessageTransfers = record {
            transfers = set done.transfers i (some prepared);
            count = done.count + 1;
          } in
          prepare_from ds (i + 1) more source s objects
    ]

unfoldable pub prepare :
    List TransferDescriptor
    → CapabilitySpace
    → CapabilitySystem
    → ObjectArena
    → Result PreparedMessageTransfers CapabilityError
unfolding prepare_from
prepare descriptors source s objects =
    if ltb max_capability_transfers (length descriptors)
    then err space_full
    else prepare_from descriptors 0
        (record { transfers = replicate max_capability_transfers none; count = 0 }) source s objects

-- The table, the target space and its domain, which a commit changes.
pub record Receiving : Type 0 where
  pub system : CapabilitySystem
  pub target : CapabilitySpace
  pub domain : ResourceDomain

-- The handles are deleted again, and what that returns is ignored.
unfoldable pub roll_back : List Handle → Receiving → Receiving
unfolding delete
roll_back [] r = r
roll_back (h ∷ hs) r =
    let (_, system, target, domain) = delete r.system r.target r.domain h in
    roll_back hs (record { system = system; target = target; domain = domain })

-- The loop of `commit` over the entries in use.
unfoldable pub commit_from :
    List (Option PreparedTransfer)
    → List Handle
    → Receiving
    → CapabilitySpace
    → ObjectArena
    → Result (List Handle) CapabilityError × Receiving
unfolding commit_transfer roll_back
commit_from [] committed r source objects = (ok committed, r)
commit_from (none ∷ ts) committed r source objects = commit_from ts committed r source objects
commit_from (some prepared ∷ ts) committed r source objects =
    let (result, system, target, domain) =
      commit_transfer r.system source prepared r.target r.domain objects in
    let after : Receiving = record { system = system; target = target; domain = domain } in
    elim result [
      | ok h ↦ commit_from ts (committed ++ h ∷ []) after source objects
      | err e ↦ (err e, roll_back committed after)
    ]

unfoldable pub commit :
    PreparedMessageTransfers
    → Receiving
    → CapabilitySpace
    → ObjectArena
    → Result (List Handle) CapabilityError × Receiving
unfolding commit_from
commit p r source objects = commit_from (take p.count p.transfers) [] r source objects
