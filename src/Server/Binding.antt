-- ===== src/Server/Binding.antt =====
-- What a channel bind request does to a well-formed allocation.
use p2p_cluster.Common.{
  ℕ, ◌≡◌, ◌≢◌, refl, sym, ap, subst, ◌∙◌, true, false, Bool-cases, Option-cases, ltb, leb, ◌==◌,
  ◌&&◌, ◌||◌, not, Option, none, some, List, [], ◌∷◌, inl, inr, arith,
}
use p2p_cluster.Ioaddr.{
  IoaAddr, af_inet, af_inet6, addr_any, addr_eq, addr_eq_no_port, addr_get_port,
}
use p2p_cluster.Ioaddr.Equality.{v4, v6, addr_eq_no_port-SameHost, addr_eq_lem}
use p2p_cluster.Ioaddr.SameAddr.{addr_eq_comm}
use p2p_cluster.Stun.Types.{stun_valid_channel}
use p2p_cluster.Allocation.{Allocation, allocation_get_ch_info, allocation_get_ch_info_by_peer_addr}
use p2p_cluster.Allocation.Invariant.{owned, IsAllocation, host_join, get_port-congruent}
use p2p_cluster.Allocation.Channels.{Bound, bound}
use p2p_cluster.Allocation.Laws.{
  allocation_get_ch_info_lem, allocation_get_ch_info_by_peer_addr_lem,
  allocation_get_new_ch_info_lem,
}
use p2p_cluster.Server.{
  TurnServer, Session, Attr, skipped, channel_number, xor_peer_address, other, BindRequest,
  no_request, get_relay_socket, good_peer_addr, bind_attr, bind_attrs, with_lifetime, owner_error,
  known_error, bind_owned, bind_new, bind_number, bind_request, max_number_of_unknown_attrs,
}
use p2p_cluster.Server.Lifetimes.{
  SameChannel, SameAllocation, same_refl, same-IsAllocation, Prolonged, prolonged, not_prolonged,
  channel_lifetime-Prolonged,
}

-- A well-formed allocation in which the channel has the number and the peer and is found by both;
-- the other channels are as before, but for expiration times.
pub record IsConfirmed (a : Allocation) (chnum : ℕ) (peer_addr : IoaAddr) (r : ℕ) (a' : Allocation)
    : Type 0 where
  pub valid : IsAllocation a'
  pub by_number : allocation_get_ch_info a' chnum ≡ some r
  pub by_peer : allocation_get_ch_info_by_peer_addr a' peer_addr ≡ some r
  pub others : (i : ℕ) → i ≢ r → SameChannel (a'.chns.cell i) (a.chns.cell i)

-- How a request ends: refused, which leaves the allocation as it is, or with the channel bound. If
-- the session has no server, lifetimes are not updated, and the code is 500 with the channel bound.
pub data BindOutcome (server : Option TurnServer) (a : Allocation) (chnum : ℕ) (peer_addr : IoaAddr)
    : ℕ × Allocation → Type 0 where
  refused : {err : ℕ} → err ≢ 0 → err ≢ 500 → BindOutcome server a chnum peer_addr (err, a)
  failed :
      {r : ℕ} {a' : Allocation}
      → server ≡ none
      → IsConfirmed a chnum peer_addr r a'
      → BindOutcome server a chnum peer_addr (500, a')
  confirmed :
      {r : ℕ} {a' : Allocation}
      → IsConfirmed a chnum peer_addr r a'
      → BindOutcome server a chnum peer_addr (0, a')

known_family : (addr : IoaAddr) → addr_any addr ≡ false → addr_eq_no_port addr addr ≡ true
unfolding addr_any
known_family addr h = elim (Bool-cases (addr.family == af_inet)) [
  | inl e ↦
      (addr_eq_no_port-SameHost addr addr).1
        (let z : addr.family ≡ af_inet = ground arith in v4 z z (λ i lt. refl))
  | inr ne ↦
      (addr_eq_no_port-SameHost addr addr).1
        (let z : addr.family ≡ af_inet6 = ground arith in v6 z z (λ i lt. refl))
]

module _ (server : TurnServer) (chnum : ℕ) (peer_addr : IoaAddr) where
  -- What changes expiration times only leaves the channel the one with the number and the peer.
  still :
      {a a1 a' : Allocation} (r : ℕ)
      → IsAllocation a1
      → (a1.chns.cell r).allocated ≡ true
      → (a1.chns.cell r).chnum ≡ chnum
      → addr_eq (a1.chns.cell r).peer_addr peer_addr ≡ true
      → ((i : ℕ) → i ≢ r → a1.chns.cell i ≡ a.chns.cell i)
      → SameAllocation a' a1
      → IsConfirmed a chnum peer_addr r a'
  still {a} {a1} {a'} r valid used number peer others same =
      let c = same.chns r in
      let valid' = same-IsAllocation same valid in
      record {
        valid = valid';
        by_number =
            (allocation_get_ch_info_lem a' chnum r valid').1 (c.used ∙ used, c.chnum ∙ number);
        by_peer =
            (allocation_get_ch_info_by_peer_addr_lem a' peer_addr r valid').1
              (c.used ∙ used, ap (λ x. addr_eq x peer_addr) c.peer_addr ∙ peer);
        others = λ i ne. subst (SameChannel (a'.chns.cell i)) (others i ne) (same.chns i);
      }

  -- The channel of a valid allocation is prolonged, and is still the one with the number and the peer.
  prolong :
      {sv : Option TurnServer} {a a1 : Allocation} (r : ℕ)
      → IsAllocation a1
      → (a1.chns.cell r).allocated ≡ true
      → (a1.chns.cell r).chnum ≡ chnum
      → addr_eq (a1.chns.cell r).peer_addr peer_addr ≡ true
      → ((i : ℕ) → i ≢ r → a1.chns.cell i ≡ a.chns.cell i)
      → {o : Option Allocation} → Prolonged sv a1 o
      → BindOutcome sv a chnum peer_addr (with_lifetime a1 o)
  unfolding with_lifetime
  prolong r valid used number peer others (prolonged same) =
      confirmed (still r valid used number peer others same)
  prolong r valid used number peer others (not_prolonged e) =
      failed e (still r valid used number peer others same_refl)

  -- The checks of a channel that has the number pass where its peer is the peer of the request.
  no_error :
      (a : Allocation) (r : ℕ) {q : ℕ}
      → addr_eq peer_addr (a.chns.cell r).peer_addr ≡ true
      → (a.chns.cell r).owner ≡ some q
      → addr_eq_no_port (a.addr_to_perm.cell q).addr (a.chns.cell r).peer_addr ≡ true
      → (a.chns.cell r).port ≡ addr_get_port (a.chns.cell r).peer_addr
      → known_error a peer_addr r ≡ 0
  unfolding known_error owner_error
  no_error a r {q} peer owner host port =
      let h = host_join _ _ _ ((addr_eq_lem _ _).0 peer).0 host in
      let p : (a.chns.cell r).port ≡ addr_get_port peer_addr =
        port ∙ sym (get_port-congruent _ _ peer) in
      let t : ((a.chns.cell r).port == addr_get_port peer_addr) ≡ true = ground arith in
      rw (peer, owner, h, t) refl

  other_peer :
      (a : Allocation) (r : ℕ)
      → addr_eq peer_addr (a.chns.cell r).peer_addr ≡ false
      → known_error a peer_addr r ≡ 400
  unfolding known_error
  other_peer a r n = rw n refl

  bind_known :
      (ss : Session) (r : ℕ)
      → IsAllocation ss.alloc
      → allocation_get_ch_info ss.alloc chnum ≡ some r
      → BindOutcome ss.server ss.alloc chnum peer_addr
          (bind_number server ss chnum peer_addr (some r))
  unfolding bind_number
  bind_known ss r valid found =
      let a = ss.alloc in
      let hit = (allocation_get_ch_info_lem a chnum r valid).0 found in
      elim (valid.owners r hit.0) [
        | owned {q} o perm host held port num ↦
            elim (Bool-cases (addr_eq peer_addr (a.chns.cell r).peer_addr)) [
              | inl y ↦ rw (no_error a r y o host port) (
                  prolong r valid hit.0 hit.1 (addr_eq_comm (a.chns.cell r).peer_addr peer_addr ∙ y)
                    (λ i ne. refl)
                    (channel_lifetime-Prolonged ss.server a r o (valid.perm_owners q perm)))
              | inr n ↦ rw (other_peer a r n) (refused (omega arith) (omega arith))
            ]
      ]

  finish_new :
      {sv : Option TurnServer} {a : Allocation} {made : ℕ × Allocation}
      → addr_eq peer_addr peer_addr ≡ true
      → Bound a.chns chnum peer_addr made.0 made.1
      → BindOutcome sv a chnum peer_addr
          (bind_owned sv made.1 made.0 (made.1.chns.cell made.0).owner)
  unfolding bind_owned
  finish_new {sv} {a} {made} self (bound valid free used number peer others) =
      elim (valid.owners made.0 used) [
        | owned {q} o perm host held port num ↦ rw o (
            prolong made.0 valid used number (ap (λ x. addr_eq x peer_addr) peer ∙ self) others
              (channel_lifetime-Prolonged sv made.1 made.0 o (valid.perm_owners q perm)))
      ]

  bind_unknown :
      (ss : Session)
      → IsAllocation ss.alloc
      → allocation_get_ch_info ss.alloc chnum ≡ none
      → addr_eq_no_port peer_addr peer_addr ≡ true
      → addr_get_port peer_addr ≢ 0
      → stun_valid_channel chnum ≡ true
      → BindOutcome ss.server ss.alloc chnum peer_addr (bind_number server ss chnum peer_addr none)
  unfolding bind_number bind_new
  bind_unknown ss valid fresh known port number =
      elim (Option-cases (allocation_get_ch_info_by_peer_addr ss.alloc peer_addr)) [
        | inr (r, e) ↦ rw e (refused (omega arith) (omega arith))
        | inl free ↦ elim (Bool-cases (good_peer_addr server ss.realm_name peer_addr)) [
          | inr bad ↦ rw (free, bad) (refused (omega arith) (omega arith))
          | inl good ↦
              rw (free, good)
                (finish_new ((addr_eq_lem _ _).1 (known, refl)) (
                  allocation_get_new_ch_info_lem ss.alloc chnum peer_addr valid known port number
                    fresh free))
        ]
      ]

-- What holds of the variables of the loop: an address that was accepted has a port.
pub record IsRead (r : BindRequest) : Type 0 where
  pub port : r.err_code ≡ 0 → r.addr_found ≡ true → addr_get_port r.peer_addr ≢ 0
  pub error : r.err_code ≢ 500

bind_attr-IsRead :
    (ss : Session) (x : Attr) (r : BindRequest) → IsRead r → IsRead (bind_attr ss x r)
unfolding bind_attr
bind_attr-IsRead ss skipped r h = h
bind_attr-IsRead ss (channel_number n) r h = elim (Bool-cases (r.chnum == 0)) [
  | inr e ↦ rw e (record { port = λ z f. absurd (omega (arith, z)); error = omega arith })
  | inl e ↦ elim (Bool-cases (n == 0)) [
    | inl z ↦ rw (e, z) (record { port = λ z f. absurd (omega (arith, z)); error = omega arith })
    | inr z ↦ rw (e, z) (record { port = h.port; error = h.error })
  ]
]
bind_attr-IsRead ss (xor_peer_address addr) r h = elim (Bool-cases (addr_get_port addr == 0)) [
  | inl e ↦ rw e (record { port = λ z f. absurd (omega (arith, z)); error = omega arith })
  | inr e ↦ elim (Bool-cases (get_relay_socket ss addr.family)) [
    | inl s ↦ rw (e, s) (record { port = λ z f. ground arith; error = h.error })
    | inr s ↦ rw (e, s) (record { port = λ z f. ground arith; error = omega arith })
  ]
]
bind_attr-IsRead ss (other attr_type) r h = elim (Bool-cases (leb attr_type 0x7FFF)) [
  | inl e ↦ rw e (record { port = h.port; error = h.error })
  | inr e ↦ rw e h
]

bind_attrs-IsRead :
    (ss : Session) (xs : List Attr) (r : BindRequest) → IsRead r → IsRead (bind_attrs ss xs r)
unfolding bind_attrs
bind_attrs-IsRead ss [] r h = h
bind_attrs-IsRead ss (x ∷ xs) r h =
    elim (Bool-cases (r.err_code == 0 && ltb r.ua_num max_number_of_unknown_attrs)) [
      | inl e ↦ rw e (bind_attrs-IsRead ss xs (bind_attr ss x r) (bind_attr-IsRead ss x r h))
      | inr e ↦ rw e h
    ]

bind_request-Outcome :
    (server : TurnServer) (ss : Session) (r : BindRequest)
    → IsAllocation ss.alloc
    → IsRead r
    → BindOutcome ss.server ss.alloc r.chnum r.peer_addr (bind_request server ss r)
unfolding bind_request
bind_request-Outcome server ss r valid h = elim (Bool-cases (ltb 0 r.ua_num)) [
  | inl e ↦ rw e (refused (omega arith) (omega arith))
  | inr u ↦ elim (Bool-cases (r.err_code == 0)) [
    | inr e ↦ rw (u, e) (refused (ground arith) h.error)
    | inl z ↦ elim (Bool-cases (r.chnum == 0 || addr_any r.peer_addr || not r.addr_found)) [
      | inl e ↦ rw (u, z, e) (refused (omega arith) (omega arith))
      | inr k ↦ elim (Bool-cases (stun_valid_channel r.chnum)) [
        | inr e ↦ rw (u, z, k, e) (refused (omega arith) (omega arith))
        | inl v ↦
            rw (u, z, k, v)
              (elim (Option-cases (allocation_get_ch_info ss.alloc r.chnum)) [
                | inr (c, e) ↦ rw e (bind_known server r.chnum r.peer_addr ss c valid e)
                | inl e ↦ rw e (
                    bind_unknown server r.chnum r.peer_addr ss valid e
                      (known_family r.peer_addr (ground arith))
                      (h.port (ground arith) (ground arith)) v)
              ])
      ]
    ]
  ]
]

-- On a well-formed allocation, with an empty request read from any attributes, the end of the
-- handler either refuses the request, with a code other than 0 and 500, and leaves the allocation
-- as it is, or binds: the allocation is well-formed, and the channel is found by the number and by
-- the peer of the request, and the other channels are as before but for expiration times. The code
-- is 0 where it binds, or 500 in a session without a server.
pub bind_request_lem :
    (server : TurnServer) (ss : Session) (attrs : List Attr)
    → IsAllocation ss.alloc
    → BindOutcome ss.server ss.alloc
        (bind_attrs ss attrs no_request).chnum
        (bind_attrs ss attrs no_request).peer_addr
        (bind_request server ss (bind_attrs ss attrs no_request))
bind_request_lem server ss attrs valid =
    bind_request-Outcome server ss (bind_attrs ss attrs no_request) valid (
      bind_attrs-IsRead ss attrs no_request
        (record { port = λ z f. absurd (let g : ⊥ = cc in g); error = omega arith }))
