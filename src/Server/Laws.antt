-- ===== src/Server/Laws.antt =====
-- Sessions: what holds of an allocation after any requests of its client and any timeouts.
use p2p_cluster.Common.{
  ℕ, ◌≡◌, refl, ap, subst, ◌∙◌, Bool, true, false, Bool-cases, ◌↔◌, if◌then◌else◌, Option, none,
  some, List, inl, inr, arith,
}
use p2p_cluster.Ioaddr.{IoaAddr, addr_eq}
use p2p_cluster.Ioaddr.Equality.{addr_eq_lem}
use p2p_cluster.Allocation.{Allocation, init_allocation, allocation_get_permission}
use p2p_cluster.Allocation.Invariant.{owned, IsAllocation, host_sym, host_trans, one_per_peer}
use p2p_cluster.Allocation.Deletion.{Erased, erased, turn_channel_delete_lem}
use p2p_cluster.Allocation.Cleaning.{Revoked, revoked, turn_permission_clean_lem}
use p2p_cluster.Allocation.Permissions.{both_ways}
use p2p_cluster.Allocation.Laws.{allocation_get_permission_lem}
use p2p_cluster.Server.{
  TurnServer, Session, Attr, no_request, bind_attrs, handle_turn_channel_bind,
  handle_turn_create_permission, client_ss_channel_timeout_handler, client_ss_perm_timeout_handler,
}
use p2p_cluster.Server.Binding.{BindOutcome, refused, failed, confirmed, bind_request_lem}
use p2p_cluster.Server.Permitting.{
  PermissionOutcome, denied, allowed, granted, permission_request_lem,
}

-- How handle_turn_channel_bind ends: without an answer where the allocation is not valid
pub data BindAnswer (ss : Session) (chnum : ℕ) (peer_addr : IoaAddr)
    : Option (ℕ × Allocation) → Type 0 where
  ignored : ss.is_valid ≡ false → BindAnswer ss chnum peer_addr none
  answered :
      {o : ℕ × Allocation}
      → BindOutcome ss.server ss.alloc chnum peer_addr o
      → BindAnswer ss chnum peer_addr (some o)

bind_answer :
    (ss : Session) {chnum : ℕ} {peer_addr : IoaAddr} (tcp valid : Bool)
    → ss.is_valid ≡ valid
    → {o : ℕ × Allocation} → BindOutcome ss.server ss.alloc chnum peer_addr o
    → BindAnswer ss chnum peer_addr
        (if tcp then some (403, ss.alloc) else if valid then some o else none)
bind_answer ss true valid e o = answered (refused (omega arith) (omega arith))
bind_answer ss false true e o = answered o
bind_answer ss false false e o = ignored e

-- On a well-formed allocation, `handle_turn_channel_bind` ends in one of four ways, whatever the
-- attributes of the request are. It does nothing, and then the session's allocation is not valid. It
-- refuses, with a code other than 0 and 500, and the allocation is as it is. It answers without an
-- error, and then the allocation is well-formed, one channel is found by the number of the request
-- and by its peer, and the other channels are as before but for expiration times. Or it answers 500,
-- only in a session whose server is NULL, and the channel is bound all the same.
pub handle_turn_channel_bind_lem :
    (server : TurnServer) (ss : Session) (attrs : List Attr)
    → IsAllocation ss.alloc
    → BindAnswer ss
        (bind_attrs ss attrs no_request).chnum
        (bind_attrs ss attrs no_request).peer_addr
        (handle_turn_channel_bind server ss attrs)
unfolding handle_turn_channel_bind
handle_turn_channel_bind_lem server ss attrs valid =
    bind_answer ss ss.is_tcp_relay ss.is_valid refl (bind_request_lem server ss attrs valid)

-- How handle_turn_create_permission ends
pub data PermissionAnswer (server : TurnServer) (ss : Session) (attrs : List Attr)
    : Option (ℕ × Allocation) → Type 0 where
  ignored : ss.is_valid ≡ false → PermissionAnswer server ss attrs none
  answered :
      {o : ℕ × Allocation}
      → PermissionOutcome server ss attrs o
      → PermissionAnswer server ss attrs (some o)

permission_answer :
    {server : TurnServer} {ss : Session} {attrs : List Attr} (valid : Bool)
    → ss.is_valid ≡ valid
    → {o : ℕ × Allocation} → PermissionOutcome server ss attrs o
    → PermissionAnswer server ss attrs (if valid then some o else none)
permission_answer true e o = answered o
permission_answer false e o = ignored e

-- On a well-formed allocation, `handle_turn_create_permission` ends in one of three ways. It does
-- nothing, and then the session's allocation is not valid. It refuses, with an error code, and the
-- allocation is as it is. Or it goes through the addresses, and ends without an error, or with 500
-- in a session whose server is NULL; then every address in the request is a peer that
-- `good_peer_addr` lets through, and each of IPv4 or IPv6 has its permission, every permission of
-- before is still found, the channels are the same, and the allocation is well-formed.
pub handle_turn_create_permission_lem :
    (server : TurnServer) (ss : Session) (attrs : List Attr)
    → IsAllocation ss.alloc
    → PermissionAnswer server ss attrs (handle_turn_create_permission server ss attrs)
unfolding handle_turn_create_permission
handle_turn_create_permission_lem server ss attrs valid =
    permission_answer ss.is_valid refl (permission_request_lem server ss attrs valid)

-- The allocations that a session can have: after init_allocation, any channel bind and create
-- permission requests, with any settings of the server, timeouts of channels in use, and timeouts of
-- permissions. A channel's timer is stopped when the channel is cleared.
pub data Reached : Allocation → Type 0 where
  started : Reached init_allocation
  channel_bind :
      {a' : Allocation} {err : ℕ} (server : TurnServer) (ss : Session) (attrs : List Attr)
      → Reached ss.alloc
      → handle_turn_channel_bind server ss attrs ≡ some (err, a')
      → Reached a'
  create_permission :
      {a' : Allocation} {err : ℕ} (server : TurnServer) (ss : Session) (attrs : List Attr)
      → Reached ss.alloc
      → handle_turn_create_permission server ss attrs ≡ some (err, a')
      → Reached a'
  channel_timeout :
      (a : Allocation) (r : ℕ)
      → Reached a
      → (a.chns.cell r).allocated ≡ true
      → Reached (client_ss_channel_timeout_handler a r)
  perm_timeout : (a : Allocation) (q : ℕ) → Reached a → Reached (client_ss_perm_timeout_handler a q)

init-IsAllocation : IsAllocation init_allocation
init-IsAllocation = record {
  perms_home = λ q y. both_ways y refl;
  chns_home = λ r y. both_ways y refl;
  one_per_host = λ q q' y y' e. both_ways y refl;
  one_per_number = λ r r' y y' e. both_ways y refl;
  locals = λ q y. both_ways y refl;
  owners = λ r y. both_ways y refl;
  backs = λ q y port value e. both_ways y refl;
  perm_owners = λ q y. both_ways y refl;
}

bound_valid :
    {ss : Session} {chnum : ℕ} {peer_addr : IoaAddr} {o : ℕ × Allocation}
    → IsAllocation ss.alloc
    → BindAnswer ss chnum peer_addr (some o)
    → IsAllocation o.1
bound_valid valid (answered (refused z f)) = valid
bound_valid valid (answered (failed e c)) = c.valid
bound_valid valid (answered (confirmed c)) = c.valid

permitted_valid :
    {server : TurnServer} {ss : Session} {attrs : List Attr} {o : ℕ × Allocation}
    → IsAllocation ss.alloc
    → PermissionAnswer server ss attrs (some o)
    → IsAllocation o.1
permitted_valid valid (answered (denied z)) = valid
permitted_valid valid (answered (allowed good (granted end e all))) = e.valid

erased_valid : {a a' : Allocation} {r : ℕ} → Erased a r a' → IsAllocation a'
erased_valid (erased valid free others) = valid

revoked_valid : {a a' : Allocation} {q : ℕ} → Revoked a q a' → IsAllocation a'
revoked_valid (revoked valid free own others perms) = valid

perm_timeout-IsAllocation :
    (a : Allocation) (q : ℕ) → IsAllocation a → IsAllocation (client_ss_perm_timeout_handler a q)
unfolding client_ss_perm_timeout_handler
perm_timeout-IsAllocation a q valid = elim (Bool-cases (a.addr_to_perm.cell q).allocated) [
  | inl e ↦ rw e (revoked_valid (turn_permission_clean_lem a q valid e))
  | inr e ↦ rw e valid
]

-- Every allocation that a session can have is well-formed.
pub Reached-IsAllocation : {a : Allocation} → Reached a → IsAllocation a
unfolding client_ss_channel_timeout_handler
Reached-IsAllocation started = init-IsAllocation
Reached-IsAllocation (channel_bind server ss attrs h e) =
    let valid = Reached-IsAllocation h in
    bound_valid valid
      (subst (BindAnswer ss _ _) e (handle_turn_channel_bind_lem server ss attrs valid))
Reached-IsAllocation (create_permission server ss attrs h e) =
    let valid = Reached-IsAllocation h in
    permitted_valid valid (
      subst (PermissionAnswer server ss attrs) e
        (handle_turn_create_permission_lem server ss attrs valid))
Reached-IsAllocation (channel_timeout a r h used) =
    erased_valid (turn_channel_delete_lem a r (Reached-IsAllocation h) used)
Reached-IsAllocation (perm_timeout a q h) = perm_timeout-IsAllocation a q (Reached-IsAllocation h)

-- After any channel bind and create permission requests and any timeouts, the numbers of the
-- channels in use and their peers are one to one: two channels in use have the same number just
-- where they have the same peer, host and port.
pub channels_one_to_one :
    {a : Allocation}
    → Reached a
    → (r r' : ℕ) → (a.chns.cell r).allocated ≡ true
    → (a.chns.cell r').allocated ≡ true
    → ((a.chns.cell r).chnum ≡ (a.chns.cell r').chnum)
      ↔ (addr_eq (a.chns.cell r).peer_addr (a.chns.cell r').peer_addr ≡ true)
channels_one_to_one {a} h r r' y y' = (
  λ e. same_peer (valid.one_per_number r r' y y' e),
  λ e. ap (λ i. (a.chns.cell i).chnum) (one_per_peer valid r r' y y' e),
)
  where
    valid : IsAllocation a
    valid = Reached-IsAllocation h

    same_peer : r ≡ r' → addr_eq (a.chns.cell r).peer_addr (a.chns.cell r').peer_addr ≡ true
    same_peer z = elim (valid.owners r' y') [
      | owned {q} o perm host found port num ↦
          let known = host_trans _ _ _ (host_sym _ _ host) host in
          ap (λ i. addr_eq (a.chns.cell i).peer_addr (a.chns.cell r').peer_addr) z
          ∙ (addr_eq_lem _ _).1 (known, refl)
    ]

-- After any channel bind and create permission requests and any timeouts, the host of the peer of
-- each channel in use has a permission.
pub channels_permitted :
    {a : Allocation}
    → Reached a
    → (r : ℕ) → (a.chns.cell r).allocated ≡ true
    → (q : ℕ) × (allocation_get_permission a (a.chns.cell r).peer_addr ≡ some q)
channels_permitted {a} h r used =
    let valid = Reached-IsAllocation h in
    elim (valid.owners r used) [
      | owned {q} o perm host found port num ↦
          (q, (allocation_get_permission_lem a (a.chns.cell r).peer_addr q valid).1 (perm, host))
    ]
