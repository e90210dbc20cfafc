-- ===== src/Capability/Cascade.antt =====
-- crates/kernel-core/src/capability.rs: `revoke` seen from the holders of capabilities.
use gaxera.Prelude.{
  ℕ, zero, suc, ◌≡◌, ◌≢◌, inl, inr, refl, subst, true, Option, none, some, is_error, ok, err, arith,
  Option-cases, Result-cases,
}
use gaxera.Abi.Handles.{Handle}
use gaxera.Abi.Kinds.{ObjectType}
use gaxera.Abi.Authority.{Rights}
use gaxera.Abi.Ids.{same_id_iff}
use gaxera.Resource.{ResourceDomain}
use gaxera.Object.{ObjectArena}
use gaxera.Capability.Types.{
  CapabilityError, CapabilityNodeId, CapabilityInfo, LiveNode, CapabilitySystem, live_at, modify,
}
use gaxera.Capability.Space.{CapabilitySpace, node_for}
use gaxera.Capability.Ops.{
  check_node, first_leaf, validate_loop, validate_node, lookup, derive, revoke, PreparedTransfer,
  commit_transfer,
}
use gaxera.Capability.Revocation.{
  Under, itself, derived, live_at-modify, validate_loop_cut, check_node-live_at, Under-modify,
  revoke_inversion,
}

capacity-modify :
    (s : CapabilitySystem) (x : CapabilityNodeId) (f : LiveNode → LiveNode)
    → (modify s x f).capacity ≡ s.capacity
unfolding modify
capacity-modify s x f = ground arith

-- The node of the revoked handle, after the revocation, cuts off a node under it.
validate_after_revoke :
    (s : CapabilitySystem) (space : CapabilitySpace) (h : Handle) (objects later : ObjectArena)
    (info : CapabilityInfo) (r id : CapabilityNodeId)
    → (revoke s space h objects).0 ≡ ok info
    → node_for space h ≡ ok r
    → Under s r id
    → is_error (validate_node (revoke s space h objects).1 later id) ≡ true
unfolding validate_node
validate_after_revoke s space h objects later info r id e found u =
    let (x, l, at_x, here, _, after) = revoke_inversion s space h objects info e in
    let same : x ≡ r = cc in
    let mark = (λ (n : LiveNode). record n { revoked = true }) in
    let gone : live_at (modify s x mark) r ≡ some (mark l) =
      ground (arith, live_at-modify s x r mark, same_id_iff x r) in
    rw after (
      validate_loop_cut (modify s x mark) later (modify s x mark).capacity r id none (mark l) gone
        refl (Under-modify s r id x mark (λ n. refl) u))

-- After a handle has been revoked no handle of any space resolves to an object any more if its node
-- is that of the handle or was derived from it, whatever rights are asked for and whatever
-- happened to the objects.
pub lookup-revoke :
    (s : CapabilitySystem) (space holder : CapabilitySpace) (h held : Handle)
    (objects later : ObjectArena) (info : CapabilityInfo) (r id : CapabilityNodeId)
    (kind : ObjectType) (required : Rights)
    → (revoke s space h objects).0 ≡ ok info
    → node_for space h ≡ ok r
    → node_for holder held ≡ ok id
    → Under s r id
    → is_error (lookup (revoke s space h objects).1 holder held kind required later) ≡ true
unfolding lookup
lookup-revoke s space holder h held objects later info r id kind required e found holds u =
    ground (arith, validate_after_revoke s space h objects later info r id e found u)

-- After a revocation, a prepared transfer whose source handle leads to the revoked node, or to one
-- that was derived from it, is refused when it is committed, and neither the node table, the target space nor its domain changes.
pub commit_transfer-revoke :
    (s : CapabilitySystem) (space source target : CapabilitySpace) (domain : ResourceDomain)
    (h : Handle) (prepared : PreparedTransfer) (objects later : ObjectArena) (info : CapabilityInfo)
    (r id : CapabilityNodeId)
    → (revoke s space h objects).0 ≡ ok info
    → node_for space h ≡ ok r
    → node_for source prepared.source_handle ≡ ok id
    → Under s r id
    → let s' = (revoke s space h objects).1 in
      (e : CapabilityError) × (commit_transfer s' source prepared target domain later
        ≡ (err e, s', target, domain))
unfolding commit_transfer derive
commit_transfer-revoke s space source target domain h prepared objects later info r id e found holds
      u =
    elim (Result-cases (validate_node (revoke s space h objects).1 later id)) [
      | inl (leaf, fine) ↦
          absurd (ground (arith, validate_after_revoke s space h objects later info r id e found u))
      | inr (why, refused) ↦ (why, ground arith)
    ]

check_node-modify_ne :
    (s : CapabilitySystem) (x id : CapabilityNodeId) (f : LiveNode → LiveNode)
    → x ≢ id
    → check_node (modify s x f) id ≡ check_node s id
check_node-modify_ne s x id f ne = ground (
  arith,
  check_node-live_at s id,
  check_node-live_at (modify s x f) id,
  live_at-modify s x id f,
  same_id_iff x id,
)

check_node-live :
    (s : CapabilitySystem) (id : CapabilityNodeId) (l : LiveNode)
    → check_node s id ≡ ok l
    → live_at s id ≡ some l
check_node-live s id l h = ground (arith, check_node-live_at s id)

validate_loop_elsewhere :
    (s : CapabilitySystem) (objects : ObjectArena) (left : ℕ) (x id : CapabilityNodeId)
    (f : LiveNode → LiveNode) (leaf : Option CapabilityInfo)
    → ¬ Under s x id
    → validate_loop (modify s x f) objects left id leaf ≡ validate_loop s objects left id leaf
unfolding validate_loop
validate_loop_elsewhere s objects zero x id f leaf out =
    let ne : x ≢ id = λ e. out (subst (Under s x) e itself) in
    ground (arith, check_node-modify_ne s x id f ne)
validate_loop_elsewhere s objects (suc left) x id f leaf out =
    let ne : x ≢ id = λ e. out (subst (Under s x) e itself) in
    let same = check_node-modify_ne s x id f ne in
    elim (Result-cases (check_node s id)) [
      | inr (e, q) ↦ ground (arith, same)
      | inl (l, q) ↦ elim (Option-cases l.parent) [
        | inl orphan ↦ ground (arith, same)
        | inr (p, child) ↦ ground (
          arith,
          same,
          validate_loop_elsewhere s objects left x p f (some (first_leaf leaf l.info))
              (λ u. out (derived l p (check_node-live s id l q) child u)),
        )
      ]
    ]

-- A revocation touches no other authority: a node that is neither the revoked one nor derived from it
-- validates after it as before, against any objects.
pub validate_node-revoke_elsewhere :
    (s : CapabilitySystem) (space : CapabilitySpace) (h : Handle) (objects later : ObjectArena)
    (info : CapabilityInfo) (r id : CapabilityNodeId)
    → (revoke s space h objects).0 ≡ ok info
    → node_for space h ≡ ok r
    → ¬ Under s r id
    → validate_node (revoke s space h objects).1 later id ≡ validate_node s later id
unfolding validate_node
validate_node-revoke_elsewhere s space h objects later info r id e found out =
    let (x, l, at_x, here, _, after) = revoke_inversion s space h objects info e in
    let same : x ≡ r = cc in
    let apart : ¬ Under s x id = λ u. out (subst (λ y. Under s y id) same u) in
    ground (
      arith,
      after,
      capacity-modify s x (λ n. record n { revoked = true }),
      validate_loop_elsewhere s later s.capacity x id (λ n. record n { revoked = true }) none apart,
    )
