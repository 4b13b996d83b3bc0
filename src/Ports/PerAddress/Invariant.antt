-- ===== src/Ports/PerAddress/Invariant.antt =====
-- What holds between calls: each address has a ring of its own for each transport.
use p2p_cluster.Common.{
  ℕ, ◌≤◌, ◌<◌, ◌≡◌, ◌≢◌, Bool, true, false, ◌==◌, ◌&&◌, if◌then◌else◌, Option, some, arith,
}
use p2p_cluster.Ioaddr.{IoaAddr, addr_eq, addr_set_port}
use p2p_cluster.AddrMap.{UrAddrMap, magic_hash, ur_addr_map_get, ur_addr_map_put}
use p2p_cluster.AddrMap.Laws.{Put, put, ur_addr_map_put_lem}
use p2p_cluster.Ports.{Turnports, ports_size}
use p2p_cluster.Ports.Invariant
use p2p_cluster.Ports.PerAddress.{
  Turnipports, transport_tcp, get_map, set_map, map_or, put_ring, find_ring,
}

-- A valid ring over the whole range
pub record IsRing (start stop : ℕ) (ring : Turnports) : Type 0 where
  pub valid : Invariant.IsValid ring
  pub range_start_lem : ring.range_start ≡ start
  pub range_stop_lem : ring.range_stop ≡ stop

pub IsRing-of :
    {start stop start' stop' : ℕ} {ring ring' : Turnports}
    → start' ≡ start
    → stop' ≡ stop
    → ring' ≡ ring
    → IsRing start stop ring
    → IsRing start' stop' ring'
IsRing-of a b c r = rw (a, b, c) r

-- Both transports are TCP, or neither is.
abbrev pub same_transport : ℕ → ℕ → Bool
same_transport a b =
    if a == transport_tcp then b == transport_tcp else if b == transport_tcp then false else true

-- Two transports with an address each share a ring.
abbrev pub same_ring : ℕ → IoaAddr → ℕ → IoaAddr → Bool
same_ring transport a transport' b =
    same_transport transport transport' && addr_eq (addr_set_port a 0) (addr_set_port b 0)

pub record IsValid (tp : Turnipports) : Type 0 where
  pub ordered : tp.start ≤ tp.stop
  pub top : tp.stop < ports_size
  pub magic_udp : tp.ip_to_turnports_udp.magic ≡ magic_hash
  pub magic_tcp : tp.ip_to_turnports_tcp.magic ≡ magic_hash
  pub first : 0 < tp.next
  pub pointer :
      (transport : ℕ) (a : IoaAddr) (t : ℕ)
      → find_ring tp transport a ≡ some t
      → (0 < t) × (t < tp.next)
  pub ring :
      (transport : ℕ) (a : IoaAddr) (t : ℕ)
      → find_ring tp transport a ≡ some t
      → IsRing tp.start tp.stop (tp.regions t)
  pub apart :
      (transport transport' : ℕ) (a b : IoaAddr) (t : ℕ)
      → find_ring tp transport a ≡ some t
      → find_ring tp transport' b ≡ some t
      → same_ring transport a transport' b ≡ true

pub get_map-magic :
    {tp : Turnipports} (transport : ℕ) → IsValid tp → (get_map tp transport).magic ≡ magic_hash
unfolding get_map
get_map-magic transport v = ground arith

-- What is found after a ring is put into the map of its transport.
pub put_ring-find :
    (tp : Turnipports) (transport : ℕ) (a : IoaAddr) (t : ℕ) (transport' : ℕ) (b : IoaAddr)
    → (get_map tp transport).magic ≡ magic_hash
    → t ≢ 0
    → find_ring (put_ring tp transport (addr_set_port a 0) t) transport' b
      ≡ (if same_ring transport a transport' b then some t else find_ring tp transport' b)
unfolding find_ring put_ring get_map set_map
put_ring-find tp transport a t transport' b magic nz =
    step (ur_addr_map_put (get_map tp transport) (addr_set_port a 0) t)
      (ur_addr_map_put_lem (get_map tp transport) (addr_set_port a 0) t magic nz)
  where
    step :
        (r : Option UrAddrMap)
        → Put (get_map tp transport) (addr_set_port a 0) t r
        → ur_addr_map_get
            (get_map (set_map tp transport (map_or r (get_map tp transport))) transport')
            (addr_set_port b 0)
          ≡ (if same_ring transport a transport' b
              then some t
              else ur_addr_map_get (get_map tp transport') (addr_set_port b 0))
    step _ (put m found) = ground (arith, found (addr_set_port b 0))

-- The fields after that; the map that is replaced stays an initialised one.
pub put_ring-fields :
    (tp : Turnipports) (transport : ℕ) (ba : IoaAddr) (t : ℕ)
    → tp.ip_to_turnports_udp.magic ≡ magic_hash
    → tp.ip_to_turnports_tcp.magic ≡ magic_hash
    → t ≢ 0
    → ((put_ring tp transport ba t).start ≡ tp.start)
      × ((put_ring tp transport ba t).stop ≡ tp.stop)
      × ((put_ring tp transport ba t).next ≡ tp.next)
      × ((put_ring tp transport ba t).regions ≡ tp.regions)
      × ((put_ring tp transport ba t).ip_to_turnports_udp.magic ≡ magic_hash)
      × ((put_ring tp transport ba t).ip_to_turnports_tcp.magic ≡ magic_hash)
unfolding put_ring get_map set_map
put_ring-fields tp transport ba t udp tcp nz =
    step (ur_addr_map_put (get_map tp transport) ba t)
      (ur_addr_map_put_lem (get_map tp transport) ba t (ground arith) nz)
  where
    step :
        (r : Option UrAddrMap)
        → Put (get_map tp transport) ba t r
        → let after = set_map tp transport (map_or r (get_map tp transport)) in
          (after.start ≡ tp.start)
          × (after.stop ≡ tp.stop)
          × (after.next ≡ tp.next)
          × (after.regions ≡ tp.regions)
          × (after.ip_to_turnports_udp.magic ≡ magic_hash)
          × (after.ip_to_turnports_tcp.magic ≡ magic_hash)
    step _ (put m found) = ground arith
