-- ===== src/Allocation/Laws.antt =====
-- Channels by number and by peer, over the life of an allocation.
use p2p_cluster.Common.{
  ℕ, zero, suc, ◌≡◌, ◌≢◌, refl, sym, ap, subst, ◌∙◌, true, Bool-cases, Option-cases, Option, none,
  some, ◌↔◌, inl, inr, arith,
}
use mathlib.Core.Path.{ap₂}
use p2p_cluster.Ioaddr.{IoaAddr, addr_eq, addr_eq_no_port, addr_get_port}
use p2p_cluster.Ioaddr.Equality.{addr_eq_lem}
use p2p_cluster.LocalMap.{lm_map_get}
use p2p_cluster.Stun.Types.{stun_valid_channel}
use p2p_cluster.Allocation.{
  ChInfo, Allocation, SlotTable, get_from_turn_permission_hashtable, ch_map_get, ch_map_get_new,
  allocation_get_ch_info, valid_channel, get_turn_channel, channel_of,
  allocation_get_ch_info_by_peer_addr, allocation_get_new_ch_info, or_add,
  allocation_get_permission, bind_to,
}
use p2p_cluster.Allocation.Invariant.{
  owned, back, IsAllocation, host_join, host_trans, host_sym, hashtable_none, hashtable_some,
  ch_map_none, ch_map_some, get_port-congruent,
}
use p2p_cluster.Allocation.Permissions.{
  Permitted, permitted, allocation_add_permission_lem, both_ways,
}
use p2p_cluster.Allocation.Channels.{Bound, bind_to-Bound}

-- In a well-formed allocation, `allocation_get_ch_info` returns a channel just where that channel
-- is in use and has the number.
pub allocation_get_ch_info_lem :
    (a : Allocation) (chnum r : ℕ)
    → IsAllocation a
    → (allocation_get_ch_info a chnum ≡ some r)
      ↔ (((a.chns.cell r).allocated ≡ true) × ((a.chns.cell r).chnum ≡ chnum))
unfolding allocation_get_ch_info
allocation_get_ch_info_lem a chnum r valid = (ch_map_some valid chnum, λ h. there h.0 h.1)
  where
    there :
        (a.chns.cell r).allocated ≡ true
        → (a.chns.cell r).chnum ≡ chnum
        → ch_map_get a.chns chnum ≡ some r
    there y e = elim (Option-cases (ch_map_get a.chns chnum)) [
      | inl n ↦ absurd (ch_map_none valid chnum n r y e)
      | inr (s, f) ↦
          let hit = ch_map_some valid chnum f in
          f ∙ ap some (valid.one_per_number s r hit.0 y (hit.1 ∙ sym e))
    ]

-- In a well-formed allocation, `allocation_get_permission` returns a permission just where that
-- permission is in use and is for the host of the address.
pub allocation_get_permission_lem :
    (a : Allocation) (addr : IoaAddr) (q : ℕ)
    → IsAllocation a
    → (allocation_get_permission a addr ≡ some q) ↔ (
        ((a.addr_to_perm.cell q).allocated ≡ true)
        × (addr_eq_no_port (a.addr_to_perm.cell q).addr addr ≡ true))
unfolding allocation_get_permission
allocation_get_permission_lem a addr q valid = (hashtable_some valid addr, λ h. there h.0 h.1)
  where
    there :
        (a.addr_to_perm.cell q).allocated ≡ true
        → addr_eq_no_port (a.addr_to_perm.cell q).addr addr ≡ true
        → get_from_turn_permission_hashtable a.addr_to_perm addr ≡ some q
    there y e = elim (Option-cases (get_from_turn_permission_hashtable a.addr_to_perm addr)) [
      | inl n ↦ both_ways e (hashtable_none valid addr n q y)
      | inr (p, f) ↦
          let hit = hashtable_some valid addr f in
          f ∙ ap some (valid.one_per_host p q hit.0 y (host_join _ _ _ hit.1 e))
    ]

port-of :
    (a b : IoaAddr)
    → addr_eq_no_port a b ≡ true
    → addr_get_port a ≡ addr_get_port b
    → a.port ≡ b.port
unfolding addr_eq_no_port addr_get_port
port-of a b h e = ground arith

valid_channel-some :
    (chns : SlotTable ChInfo) (found : Option ℕ) {r : ℕ}
    → valid_channel chns found ≡ some r
    → found ≡ some (suc r)
unfolding valid_channel
valid_channel-some chns none e = absurd (let f : ⊥ = cc in f)
valid_channel-some chns (some zero) e = absurd (let f : ⊥ = cc in f)
valid_channel-some chns (some (suc s)) {r} e =
    elim (Bool-cases (stun_valid_channel (chns.cell s).chnum)) [
      | inl y ↦
          let g : some s ≡ some r = sym (rw y refl) ∙ e in
          let z : s ≡ r = cc in ap (λ i. some (suc i)) z
      | inr n ↦ absurd (let g : none ≡ some r = sym (rw n refl) ∙ e in let f : ⊥ = cc in f)
    ]

channel-valid :
    (chns : SlotTable ChInfo) {found : Option ℕ} {r : ℕ}
    → found ≡ some (suc r)
    → stun_valid_channel (chns.cell r).chnum ≡ true
    → valid_channel chns found ≡ some r
unfolding valid_channel
channel-valid chns e y = rw e (rw y refl)

module _ {a : Allocation} (valid : IsAllocation a) (peer_addr : IoaAddr) where
  -- A channel of a permission has the host of the permission.
  bound_to :
      (s q : ℕ)
      → (a.chns.cell s).allocated ≡ true
      → (a.chns.cell s).owner ≡ some q
      → addr_eq_no_port (a.addr_to_perm.cell q).addr peer_addr ≡ true
      → (a.chns.cell s).port ≡ addr_get_port peer_addr
      → addr_eq (a.chns.cell s).peer_addr peer_addr ≡ true
  bound_to s q u o h p = elim (valid.owners s u) [
    | owned {q = q'} o' perm host found port num ↦
        let z : q' ≡ q = let g : some q' ≡ some q = sym o' ∙ o in cc in
        let same =
          host_trans _ _ _
            (host_sym _ _ (
              ap (λ i. addr_eq_no_port (a.addr_to_perm.cell i).addr (a.chns.cell s).peer_addr)
                (sym z)
              ∙ host))
            h in
        (addr_eq_lem _ _).1 (same, port-of _ _ same (sym port ∙ p))
  ]

  by_peer_sound :
      {r : ℕ} (q : Option ℕ)
      → get_from_turn_permission_hashtable a.addr_to_perm peer_addr ≡ q
      → channel_of a peer_addr q ≡ some r
      → ((a.chns.cell r).allocated ≡ true) × (addr_eq (a.chns.cell r).peer_addr peer_addr ≡ true)
  unfolding channel_of get_turn_channel
  by_peer_sound none f e = absurd (let g : ⊥ = cc in g)
  by_peer_sound {r} (some q) f e =
      let perm = hashtable_some valid peer_addr f in
      let found = valid_channel-some a.chns _ e in
      elim (valid.backs q perm.0 (addr_get_port peer_addr) (suc r) found) [
        | back {r = s} v u o p ↦
            (let z : s ≡ r = omega (arith, v) in
              subst
                (λ i.
                  ((a.chns.cell i).allocated ≡ true)
                  × (addr_eq (a.chns.cell i).peer_addr peer_addr ≡ true))
                z (u, bound_to s q u o perm.1 p))
      ]

  by_peer_complete :
      {r : ℕ}
      → (a.chns.cell r).allocated ≡ true
      → addr_eq (a.chns.cell r).peer_addr peer_addr ≡ true
      → allocation_get_ch_info_by_peer_addr a peer_addr ≡ some r
  unfolding channel_of get_turn_channel allocation_get_ch_info_by_peer_addr
  by_peer_complete {r} u e = elim (valid.owners r u) [
    | owned {q} o perm host found port num ↦
        (let h = host_trans _ _ _ host ((addr_eq_lem _ _).0 e).0 in
          elim (Option-cases (get_from_turn_permission_hashtable a.addr_to_perm peer_addr)) [
            | inl n ↦ both_ways h (hashtable_none valid peer_addr n q perm)
            | inr (q', f) ↦
                let perm' = hashtable_some valid peer_addr f in
                let z = valid.one_per_host q' q perm'.0 perm (host_join _ _ _ perm'.1 h) in
                let ports : addr_get_port peer_addr ≡ (a.chns.cell r).port =
                  sym (port ∙ get_port-congruent _ _ e) in
                rw f (
                  channel-valid a.chns
                    (ap₂ (λ i n. lm_map_get (a.addr_to_perm.cell i).chns n) z ports ∙ found) num)
          ])
  ]

-- In a well-formed allocation, `allocation_get_ch_info_by_peer_addr` returns a channel just where
-- that channel is in use and its peer has the address, host and port.
pub allocation_get_ch_info_by_peer_addr_lem :
    (a : Allocation) (peer_addr : IoaAddr) (r : ℕ)
    → IsAllocation a
    → (allocation_get_ch_info_by_peer_addr a peer_addr ≡ some r)
      ↔ (((a.chns.cell r).allocated ≡ true) × (addr_eq (a.chns.cell r).peer_addr peer_addr ≡ true))
unfolding allocation_get_ch_info_by_peer_addr
allocation_get_ch_info_by_peer_addr_lem a peer_addr r valid = (
  by_peer_sound valid peer_addr (get_from_turn_permission_hashtable a.addr_to_perm peer_addr) refl,
  λ h. by_peer_complete valid peer_addr h.0 h.1,
)

-- No channel of the permission has the port, where no channel has the peer.
no_channel :
    {a : Allocation} (valid : IsAllocation a) (peer_addr : IoaAddr) {q : ℕ}
    → get_from_turn_permission_hashtable a.addr_to_perm peer_addr ≡ some q
    → allocation_get_ch_info_by_peer_addr a peer_addr ≡ none
    → lm_map_get (a.addr_to_perm.cell q).chns (addr_get_port peer_addr) ≡ none
no_channel {a} valid peer_addr {q} f e =
    elim (Option-cases (lm_map_get (a.addr_to_perm.cell q).chns (addr_get_port peer_addr))) [
      | inl n ↦ n
      | inr (v, found) ↦
          let perm = hashtable_some valid peer_addr f in
          elim (valid.backs q perm.0 _ v found) [
            | back {r} w u o p ↦
                let g =
                  (allocation_get_ch_info_by_peer_addr_lem a peer_addr r valid).1
                    (u, bound_to valid peer_addr r q u o perm.1 p) in
                absurd (let f : ⊥ = cc in f)
          ]
    ]

new_channel :
    (a : Allocation) (chnum : ℕ) (peer_addr : IoaAddr)
    → IsAllocation a
    → addr_eq_no_port peer_addr peer_addr ≡ true
    → addr_get_port peer_addr ≢ 0
    → stun_valid_channel chnum ≡ true
    → ((r : ℕ) → (a.chns.cell r).allocated ≡ true → (a.chns.cell r).chnum ≢ chnum)
    → allocation_get_ch_info_by_peer_addr a peer_addr ≡ none
    → {p : ℕ × Allocation} → Permitted a peer_addr p
    → Bound a.chns chnum peer_addr
        (ch_map_get_new p.1.chns chnum).0
        (bind_to p.1 p.0 chnum peer_addr)
new_channel a chnum peer_addr valid known port number unused free
      (permitted {q} {a'} valid' used addr kept none_yet same) =
    let host : addr_eq_no_port (a'.addr_to_perm.cell q).addr peer_addr ≡ true =
      ap (λ x. addr_eq_no_port x peer_addr) addr ∙ known in
    subst
      (λ c. Bound c chnum peer_addr (ch_map_get_new a'.chns chnum).0 (bind_to a' q chnum peer_addr))
      same
      (bind_to-Bound a' q chnum peer_addr valid' used host (none_yet _) number
        (λ r u z.
          unused r (ap (λ c. (c.cell r).allocated) (sym same) ∙ u)
            (ap (λ c. (c.cell r).chnum) (sym same) ∙ z))
        port)

-- In a well-formed allocation where no channel has the number or the peer, the number is one of a
-- channel, and the peer is of IPv4 or IPv6 and has a port other than 0: `allocation_get_new_ch_info`
-- returns a channel with the number and the peer whose slot was free, adding a permission for the
-- host of the peer where there is none. The other channels are as they were, and the allocation is
-- well-formed.
pub allocation_get_new_ch_info_lem :
    (a : Allocation) (chnum : ℕ) (peer_addr : IoaAddr)
    → IsAllocation a
    → addr_eq_no_port peer_addr peer_addr ≡ true
    → addr_get_port peer_addr ≢ 0
    → stun_valid_channel chnum ≡ true
    → allocation_get_ch_info a chnum ≡ none
    → allocation_get_ch_info_by_peer_addr a peer_addr ≡ none
    → Bound a.chns chnum peer_addr
        (allocation_get_new_ch_info a chnum peer_addr).0
        (allocation_get_new_ch_info a chnum peer_addr).1
unfolding allocation_get_new_ch_info or_add allocation_get_ch_info
allocation_get_new_ch_info_lem a chnum peer_addr valid known port number fresh free =
    let unused = ch_map_none valid chnum fresh in
    elim (Option-cases (get_from_turn_permission_hashtable a.addr_to_perm peer_addr)) [
      | inr (q, f) ↦
          let perm = hashtable_some valid peer_addr f in
          rw f (
            bind_to-Bound a q chnum peer_addr valid perm.0 perm.1
              (no_channel valid peer_addr f free) number unused port)
      | inl f ↦ rw f (
          new_channel a chnum peer_addr valid known port number unused free
            (allocation_add_permission_lem a peer_addr valid f))
    ]
