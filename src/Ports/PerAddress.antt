-- ===== src/Ports/PerAddress.antt =====
-- Rings of ports for each address: `turnipports` of coturn/src/apps/relay/turn_ports.c. The mutex is
-- held through each call, and the pointers are not NULL.
pub mod Invariant
pub mod Add
pub mod After
pub mod Laws
mod Tests
use p2p_cluster.Common.{ℕ, ◌+◌, Bool, true, false, ◌==◌, if◌then◌else◌, Option, none, some}
use p2p_cluster.Common.Memory.{update}
use p2p_cluster.Ioaddr.{IoaAddr, addr_set_port, addr_get_port}
use p2p_cluster.AddrMap.{UrAddrMap, ur_addr_map_init, ur_addr_map_get, ur_addr_map_put}
use p2p_cluster.Ports.{
  Turnports, Token, turnports_create, turnports_allocate, turnports_allocate_even,
  turnports_release, turnports_is_allocated, turnports_is_available,
}

abbrev pub transport_tcp : ℕ
transport_tcp = 6

abbrev pub transport_udp : ℕ
transport_udp = 17

-- A turnports* is a number, 0 is NULL; `regions` is the memory behind it. What the super memory
-- gives is never freed, so `next` is new.
pub record Turnipports : Type 0 where
  pub start : ℕ
  pub stop : ℕ
  pub ip_to_turnports_udp : UrAddrMap
  pub ip_to_turnports_tcp : UrAddrMap
  pub regions : ℕ → Turnports
  pub next : ℕ

unfoldable pub get_map : Turnipports → ℕ → UrAddrMap
get_map tp transport =
    if transport == transport_tcp then tp.ip_to_turnports_tcp else tp.ip_to_turnports_udp

-- The map that get_map points to is replaced.
unfoldable pub set_map : Turnipports → ℕ → UrAddrMap → Turnipports
set_map tp transport map =
    if transport == transport_tcp
    then record tp { ip_to_turnports_tcp = map }
    else record tp { ip_to_turnports_udp = map }

unfoldable pub turnipports_create : (ℕ → Turnports) → ℕ → ℕ → Turnipports
turnipports_create memory start end = record {
  start = start;
  stop = end;
  ip_to_turnports_udp = ur_addr_map_init;
  ip_to_turnports_tcp = ur_addr_map_init;
  regions = memory;
  next = 1;
}

-- The result of ur_addr_map_put is not looked at.
abbrev pub map_or : Option UrAddrMap → UrAddrMap → UrAddrMap
map_or none old = old
map_or (some map) old = map

unfoldable pub put_ring : Turnipports → ℕ → IoaAddr → ℕ → Turnipports
put_ring tp transport ba t =
    set_map tp transport
      (map_or (ur_addr_map_put (get_map tp transport) ba t) (get_map tp transport))

-- What turnports_create gives is put into the map.
unfoldable pub add_ring : Turnipports → ℕ → IoaAddr → Option Turnports → Turnipports × ℕ
add_ring tp transport ba none = (put_ring tp transport ba 0, 0)
add_ring tp transport ba (some ring) =
    let stored = record tp { regions = update tp.regions tp.next ring; next = tp.next + 1 } in
    (put_ring stored transport ba tp.next, tp.next)

-- `rng k` is what the k-th call of random() returns.
unfoldable pub add_found : (ℕ → ℕ) → Turnipports → ℕ → IoaAddr → Option ℕ → Turnipports × ℕ
add_found rng tp transport ba (some t) = (tp, t)
add_found rng tp transport ba none =
    add_ring tp transport ba (turnports_create rng tp.start tp.stop)

-- The pointer that turnipports_release and the tests of ports look up
unfoldable pub find_ring : Turnipports → ℕ → IoaAddr → Option ℕ
find_ring tp transport addr = ur_addr_map_get (get_map tp transport) (addr_set_port addr 0)

unfoldable pub turnipports_add : (ℕ → ℕ) → Turnipports → ℕ → IoaAddr → Turnipports × ℕ
turnipports_add rng tp transport backend_addr =
    add_found rng tp transport (addr_set_port backend_addr 0) (find_ring tp transport backend_addr)

-- Without a ring the call returns -1.
unfoldable pub allocate_at : Turnipports → ℕ → Turnipports × Option ℕ
allocate_at tp t =
    let (ring, port) = turnports_allocate (tp.regions t) in
    if t == 0 then (tp, none) else (record tp { regions = update tp.regions t ring }, port)

unfoldable pub turnipports_allocate : (ℕ → ℕ) → Turnipports → ℕ → IoaAddr → Turnipports × Option ℕ
turnipports_allocate rng tp transport backend_addr =
    let (tp', t) = turnipports_add rng tp transport backend_addr in allocate_at tp' t

unfoldable pub allocate_even_at :
    Turnipports → ℕ → Bool → Bool → ℕ → Turnipports × Option (ℕ × Option Token)
allocate_even_at tp t allocate_rtcp want_token random =
    let (ring, result) = turnports_allocate_even (tp.regions t) allocate_rtcp want_token random in
    if t == 0 then (tp, none) else (record tp { regions = update tp.regions t ring }, result)

unfoldable pub turnipports_allocate_even :
    (ℕ → ℕ) → Turnipports → IoaAddr → Bool → Bool → ℕ → Turnipports × Option (ℕ × Option Token)
turnipports_allocate_even rng tp backend_addr allocate_rtcp want_token random =
    let (tp', t) = turnipports_add rng tp transport_udp backend_addr in
    allocate_even_at tp' t allocate_rtcp want_token random

unfoldable pub turnipports_release : Turnipports → ℕ → IoaAddr → Turnipports
turnipports_release tp transport socket_addr = elim (find_ring tp transport socket_addr) [
  | none ↦ tp
  | some t ↦ record tp {
    regions = update tp.regions t (turnports_release (tp.regions t) (addr_get_port socket_addr));
  }
]

unfoldable pub turnipports_is_allocated : Turnipports → ℕ → IoaAddr → ℕ → Bool
turnipports_is_allocated tp transport backend_addr port =
    elim (find_ring tp transport backend_addr) [
      | none ↦ false
      | some t ↦ turnports_is_allocated (tp.regions t) port
    ]

unfoldable pub turnipports_is_available : Turnipports → ℕ → IoaAddr → ℕ → Bool
turnipports_is_available tp transport backend_addr port =
    elim (find_ring tp transport backend_addr) [
      | none ↦ true
      | some t ↦ turnports_is_available (tp.regions t) port
    ]
