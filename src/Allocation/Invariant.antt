-- ===== src/Allocation/Invariant.antt =====
-- What holds of an allocation at all times.
use mathlib.Core.Path.{ap₂}
use p2p_cluster.Common.{
  ℕ, suc, ◌%◌, ◌≡◌, ◌≢◌, sym, ap, ◌∙◌, Bool, true, false, Bool-cases, ◌==◌, ◌&&◌, none, some, inl,
  inr, arith,
}
use p2p_cluster.Ioaddr.{IoaAddr, addr_eq, addr_eq_no_port, addr_get_port}
use p2p_cluster.Ioaddr.Equality.{
  addr_hash_no_port_congruent, addr_eq_no_port-SameHost, SameHost-sym, SameHost-trans, addr_eq_lem,
}
use p2p_cluster.LocalMap.{LmMap, lm_map_get}
use p2p_cluster.LocalMap.Laws.{IsMap}
use p2p_cluster.LocalMap.Placement.{ArePlaced}
use p2p_cluster.Stun.Types.{stun_valid_channel}
use p2p_cluster.Allocation.{
  ChInfo, Permission, Allocation, hash_size, perm_index, get_from_turn_permission_hashtable,
  ch_map_get,
}
use p2p_cluster.Allocation.Tables.{Homed, find_slot-some, find_slot-none}

abbrev pub perm_home : Permission → ℕ
perm_home p = perm_index p.addr

abbrev pub chn_home : ChInfo → ℕ
chn_home c = c.chnum % hash_size

abbrev pub perm_used : Permission → Bool
perm_used p = p.allocated

abbrev pub chn_used : ChInfo → Bool
chn_used c = c.allocated

-- A channel has a valid number and the port of its peer, and the permission of its host has it.
pub data Owned (perms : ℕ → Permission) (info : ChInfo) (r : ℕ) : Type 0 where
  owned :
      {q : ℕ}
      → info.owner ≡ some q
      → (perms q).allocated ≡ true
      → addr_eq_no_port (perms q).addr info.peer_addr ≡ true
      → lm_map_get (perms q).chns info.port ≡ some (suc r)
      → info.port ≡ addr_get_port info.peer_addr
      → stun_valid_channel info.chnum ≡ true
      → Owned perms info r

-- What a permission has under a port is a channel of its own, with that port.
pub data Back (chns : ℕ → ChInfo) (q port value : ℕ) : Type 0 where
  back :
      {r : ℕ}
      → value ≡ suc r
      → (chns r).allocated ≡ true
      → (chns r).owner ≡ some q
      → (chns r).port ≡ port
      → Back chns q port value

pub record IsLocal (map : LmMap) : Type 0 where
  pub valid : IsMap map
  pub placed : ArePlaced map

pub record IsAllocation (a : Allocation) : Type 0 where
  pub perms_home : Homed perm_used perm_home a.addr_to_perm
  pub chns_home : Homed chn_used chn_home a.chns
  pub one_per_host :
      (q q' : ℕ)
      → (a.addr_to_perm.cell q).allocated ≡ true
      → (a.addr_to_perm.cell q').allocated ≡ true
      → addr_eq_no_port (a.addr_to_perm.cell q).addr (a.addr_to_perm.cell q').addr ≡ true
      → q ≡ q'
  pub one_per_number :
      (r r' : ℕ)
      → (a.chns.cell r).allocated ≡ true
      → (a.chns.cell r').allocated ≡ true
      → (a.chns.cell r).chnum ≡ (a.chns.cell r').chnum
      → r ≡ r'
  pub locals :
      (q : ℕ) → (a.addr_to_perm.cell q).allocated ≡ true → IsLocal (a.addr_to_perm.cell q).chns
  pub owners :
      (r : ℕ) → (a.chns.cell r).allocated ≡ true → Owned a.addr_to_perm.cell (a.chns.cell r) r
  pub backs :
      (q : ℕ)
      → (a.addr_to_perm.cell q).allocated ≡ true
      → (port value : ℕ) → lm_map_get (a.addr_to_perm.cell q).chns port ≡ some value
      → Back a.chns.cell q port value
  pub perm_owners :
      (q : ℕ) → (a.addr_to_perm.cell q).allocated ≡ true → (a.addr_to_perm.cell q).owner ≡ true

pub host_join :
    (a b c : IoaAddr)
    → addr_eq_no_port a c ≡ true
    → addr_eq_no_port b c ≡ true
    → addr_eq_no_port a b ≡ true
host_join a b c h k = (addr_eq_no_port-SameHost a b).1 (
    SameHost-trans ((addr_eq_no_port-SameHost a c).0 h)
      (SameHost-sym ((addr_eq_no_port-SameHost b c).0 k)))

pub host_trans :
    (a b c : IoaAddr)
    → addr_eq_no_port a b ≡ true
    → addr_eq_no_port b c ≡ true
    → addr_eq_no_port a c ≡ true
host_trans a b c h k =
    (addr_eq_no_port-SameHost a c).1
      (SameHost-trans ((addr_eq_no_port-SameHost a b).0 h) ((addr_eq_no_port-SameHost b c).0 k))

pub host_sym : (a b : IoaAddr) → addr_eq_no_port a b ≡ true → addr_eq_no_port b a ≡ true
host_sym a b h =
    (addr_eq_no_port-SameHost b a).1 (SameHost-sym ((addr_eq_no_port-SameHost a b).0 h))

pub get_port-congruent : (a b : IoaAddr) → addr_eq a b ≡ true → addr_get_port a ≡ addr_get_port b
unfolding addr_get_port addr_eq
get_port-congruent a b h = ground arith

module _ {a : Allocation} (valid : IsAllocation a) where
  -- In a well-formed allocation two channels in use with the same peer, host and port, are the same
  -- channel.
  pub one_per_peer :
      (r r' : ℕ)
      → (a.chns.cell r).allocated ≡ true
      → (a.chns.cell r').allocated ≡ true
      → addr_eq (a.chns.cell r).peer_addr (a.chns.cell r').peer_addr ≡ true
      → r ≡ r'
  one_per_peer r r' y y' e = elim (valid.owners r y) [
    | owned {q} o used host found port number ↦ elim (valid.owners r' y') [
      | owned {q = q'} o' used' host' found' port' number' ↦
          let peers = ((addr_eq_lem _ _).0 e).0 in
          let same : q ≡ q' =
            valid.one_per_host q q' used used'
              (host_join _ _ _ (host_trans _ _ _ host peers) host') in
          let ports : (a.chns.cell r).port ≡ (a.chns.cell r').port =
            port ∙ get_port-congruent _ _ e ∙ sym port' in
          let value : some (suc r) ≡ some (suc r') =
            sym found
            ∙ ap₂ (λ i n. lm_map_get (a.addr_to_perm.cell i).chns n) same ports
            ∙ found' in
          let z : suc r ≡ suc r' = cc in omega (arith, z)
    ]
  ]

  pub hashtable_none :
      (addr : IoaAddr)
      → get_from_turn_permission_hashtable a.addr_to_perm addr ≡ none
      → (q : ℕ) → (a.addr_to_perm.cell q).allocated ≡ true
      → addr_eq_no_port (a.addr_to_perm.cell q).addr addr ≡ false
  unfolding get_from_turn_permission_hashtable
  hashtable_none addr e q used =
      elim (Bool-cases (addr_eq_no_port (a.addr_to_perm.cell q).addr addr)) [
        | inr ne ↦ ne
        | inl y ↦
            let home = valid.perms_home q used in
            let here = home.array ∙ ap (λ h. h % hash_size) (addr_hash_no_port_congruent _ _ y) in
            let skipped =
              find_slot-none perm_used a.addr_to_perm
                (λ p. p.allocated && addr_eq_no_port p.addr addr) (perm_index addr) e q here
                home.within in
            absurd (ground (arith, skipped, used, y))
      ]

  pub hashtable_some :
      (addr : IoaAddr) {q : ℕ}
      → get_from_turn_permission_hashtable a.addr_to_perm addr ≡ some q
      → ((a.addr_to_perm.cell q).allocated ≡ true)
        × (addr_eq_no_port (a.addr_to_perm.cell q).addr addr ≡ true)
  unfolding get_from_turn_permission_hashtable
  hashtable_some addr e =
      let hit =
        find_slot-some perm_used a.addr_to_perm (λ p. p.allocated && addr_eq_no_port p.addr addr)
          (perm_index addr) e in
      (ground (arith, hit), ground (arith, hit))

  pub ch_map_none :
      (chnum : ℕ)
      → ch_map_get a.chns chnum ≡ none
      → (r : ℕ) → (a.chns.cell r).allocated ≡ true
      → (a.chns.cell r).chnum ≢ chnum
  unfolding ch_map_get
  ch_map_none chnum e r used z =
      let home = valid.chns_home r used in
      let here = home.array ∙ ap (λ n. n % hash_size) z in
      let skipped =
        find_slot-none chn_used a.chns (λ c. c.allocated && c.chnum == chnum) (chnum % hash_size) e
          r here home.within in
      ground (arith, skipped, used, z)

  pub ch_map_some :
      (chnum : ℕ) {r : ℕ}
      → ch_map_get a.chns chnum ≡ some r
      → ((a.chns.cell r).allocated ≡ true) × ((a.chns.cell r).chnum ≡ chnum)
  unfolding ch_map_get
  ch_map_some chnum e =
      let hit =
        find_slot-some chn_used a.chns (λ c. c.allocated && c.chnum == chnum) (chnum % hash_size)
          e in
      (ground (arith, hit), ground (arith, hit))
