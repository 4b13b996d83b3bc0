-- ===== src/Ioaddr/Tests.antt =====
-- The address functions on concrete addresses, and their theorems at them.
use p2p_cluster.Common.{ℕ, ◌^◌, ◌<◌, ◌≡◌, refl, true, false, [], ◌∷◌, arith}
use p2p_cluster.Common.Memory.{Mem, update}
use p2p_cluster.Ioaddr.{
  IoaAddr, IoaAddrRange, Mappings, af_inet, af_inet6, bytes_eq, addr_eq, addr_any, addr_less_eq,
  ioa_addr_is_loopback, addr_get_port, map_addr_from_public_to_private,
  map_addr_from_private_to_public,
}
use p2p_cluster.Ioaddr.Equality.{SameHost, v4, v6}
use p2p_cluster.Ioaddr.Order.{differ, addr_less_eq_incomparable, ioa_addr_is_loopback_missed}
use p2p_cluster.Ioaddr.Mapping.{here, later, mapping_round_trip}

-- 10.0.0.`last`, with a port
abbrev inet : ℕ → ℕ → IoaAddr
inet last port = record {
  family = af_inet;
  port = port;
  ip4 = update (update (λ _. 0) 0 10) 3 last;
  ip6 = λ _. 0;
}

-- The same host, read from a packet into memory that was not cleared
abbrev uncleared : ℕ → IoaAddr
uncleared port = record {
  family = af_inet;
  port = port;
  ip4 = update (update (λ _. 0) 0 10) 3 7;
  ip6 = λ i. i;
}

abbrev inet6 : Mem → IoaAddr
inet6 m = record { family = af_inet6; port = 80; ip4 = λ _. 0; ip6 = m }

same_host : SameHost (inet 7 80) (uncleared 81)
same_host = v4 refl refl (λ i lt. refl)

equal : addr_eq (inet 7 80) (uncleared 80) ≡ true
unfolding addr_eq bytes_eq
equal = refl

abbrev lan : IoaAddrRange
lan = record { min = inet 1 0; max = inet 9 0 }

bounded_min : addr_any (inet 1 0) ≡ false
unfolding addr_any bytes_eq
bounded_min = refl

bounded_max : addr_any (inet 9 0) ≡ false
unfolding addr_any bytes_eq
bounded_max = refl

-- 1:: with 9 in the last byte, and 2::
abbrev low : Mem
low = update (update (λ _. 0) 0 1) 15 9

abbrev high : Mem
high = update (λ _. 0) 0 2

addr_less_eq_incomparable_example :
    (addr_less_eq (inet6 low) (inet6 high) ≡ false)
    × (addr_less_eq (inet6 high) (inet6 low) ≡ false)
addr_less_eq_incomparable_example =
    addr_less_eq_incomparable (inet6 low) (inet6 high) 15 refl refl
      (differ 0 (omega arith) (λ i lt. absurd (omega arith)) (omega arith)) (omega arith)
      (omega arith)

-- ::1
abbrev loopback6 : Mem
loopback6 = update (λ _. 0) 15 1

zero_below : (i : ℕ) → i < 15 → loopback6 i ≡ 0
zero_below i lt = ground arith

ioa_addr_is_loopback_missed_example : ioa_addr_is_loopback (inet6 loopback6) ≡ false
ioa_addr_is_loopback_missed_example = ioa_addr_is_loopback_missed (inet6 loopback6) refl zero_below

abbrev table : Mappings
table = (inet 200 0, inet 100 0) ∷ (inet 7 0, inet 9 0) ∷ []

apart : (m n : ℕ) → (m ≡ n → ⊥) → SameHost (inet m 0) (inet n 0) → ⊥
apart m n ne (v4 x y s) = ne (s 3 (omega arith))
apart m n ne (v6 x y s) = absurd (omega arith)

port_small : addr_get_port (inet 7 80) < 2 ^ 16
unfolding addr_get_port
port_small = omega arith

mapping_round_trip_example :
    let there = map_addr_from_public_to_private table (inet 7 80) in
    let back = map_addr_from_private_to_public table there in
    (SameHost there (inet 9 0) × (addr_get_port there ≡ addr_get_port (inet 7 80)))
    × (SameHost back (inet 7 80) × (addr_get_port back ≡ addr_get_port (inet 7 80)))
mapping_round_trip_example =
    mapping_round_trip table (inet 7 0) (inet 9 0) (inet 7 80)
      (later (apart 7 200 (omega arith)) (apart 9 100 (omega arith)) here)
      (v4 refl refl (λ i lt. refl)) (v4 refl refl (λ i lt. refl)) port_small
