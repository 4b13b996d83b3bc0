-- ===== src/Ioaddr.antt =====
-- Network addresses: coturn/src/client/ns_turn_ioaddr.c. The pointers are not NULL.
pub mod Equality
pub mod SameAddr
pub mod Order
pub mod Mapping
mod Tests
use Prim.Native.Nat.{bit_xor}
use p2p_cluster.Common.{
  ℕ, zero, suc, ◌+◌, ◌-◌, ◌*◌, ◌/◌, ◌%◌, ◌^◌, Bool, true, false, ltb, leb, ◌==◌, ◌&&◌, ◌||◌, not,
  if◌then◌else◌, Option, none, some, List, [], ◌∷◌, ◌++◌,
}
use p2p_cluster.Common.Memory.{Mem}

-- The families of Linux
abbrev pub af_inet : ℕ
af_inet = 2

abbrev pub af_inet6 : ℕ
af_inet6 = 10

-- `ioa_addr`. Both members of the union hold the port at one place, here as a number; `ip4` and
-- `ip6` are the bytes of sin_addr and of sin6_addr, which do not overlap.
pub record IoaAddr : Type 0 where
  pub family : ℕ
  pub port : ℕ
  pub ip4 : Mem
  pub ip6 : Mem

-- memcmp(a, b, n) == 0
unfoldable pub bytes_eq : ℕ → Mem → Mem → Bool
bytes_eq zero a b = true
bytes_eq (suc n) a b = a n == b n && bytes_eq n a b

unfoldable pub addr_set_any : IoaAddr
addr_set_any = record { family = 0; port = 0; ip4 = λ _. 0; ip6 = λ _. 0 }

pub addr_any_no_port : IoaAddr → Bool
addr_any_no_port a =
    if a.family == af_inet
    then bytes_eq 4 a.ip4 (λ _. 0)
    else if a.family == af_inet6
    then bytes_eq 16 a.ip6 (λ _. 0)
    else true

unfoldable pub addr_any : IoaAddr → Bool
addr_any a =
    if a.family == af_inet
    then bytes_eq 4 a.ip4 (λ _. 0) && a.port == 0
    else if a.family == af_inet6
    then a.port == 0 && bytes_eq 16 a.ip6 (λ _. 0)
    else true

-- The memory of an integer read on a little-endian machine
abbrev pub le32 : Mem → ℕ → ℕ
le32 m off = m off + m (off + 1) * 256 + m (off + 2) * 2 ^ 16 + m (off + 3) * 2 ^ 24

abbrev pub le64 : Mem → ℕ → ℕ
le64 m off = le32 m off + le32 m (off + 4) * 2 ^ 32

-- The port as it is stored, in network byte order
abbrev pub stored_port : IoaAddr → ℕ
stored_port a = a.port % 256 * 256 + a.port / 256

unfoldable pub hash_int32 : ℕ → ℕ
hash_int32 a0 =
    let a1 = bit_xor a0 (a0 / 2 ^ 4) in
    let a2 = (bit_xor a1 0xdeadbeef + a1 * 2 ^ 5) % 2 ^ 32 in bit_xor a2 (a2 / 2 ^ 11)

pub hash_int64 : ℕ → ℕ
hash_int64 a0 =
    let a1 = bit_xor a0 (a0 / 2 ^ 4) in
    let a2 = (bit_xor a1 0xdeadbeefdeadbeef + a1 * 2 ^ 5) % 2 ^ 64 in bit_xor a2 (a2 / 2 ^ 11)

pub addr_hash : IoaAddr → ℕ
addr_hash a =
    if a.family == af_inet
    then hash_int32 ((le32 a.ip4 0 + stored_port a) % 2 ^ 32)
    else (hash_int64 (le64 a.ip6 0) * 2 ^ 3 + hash_int64 ((le64 a.ip6 8 + stored_port a) % 2 ^ 64))
      % 2 ^ 32

unfoldable pub addr_hash_no_port : IoaAddr → ℕ
addr_hash_no_port a =
    if a.family == af_inet
    then hash_int32 (le32 a.ip4 0)
    else (hash_int64 (le64 a.ip6 0) * 2 ^ 3 + hash_int64 (le64 a.ip6 8)) % 2 ^ 32

unfoldable pub addr_eq : IoaAddr → IoaAddr → Bool
addr_eq a1 a2 =
    if a1.family == a2.family
    then if a1.family == af_inet && a1.port == a2.port
      then bytes_eq 4 a1.ip4 a2.ip4
      else if a1.family == af_inet6 && a1.port == a2.port
      then bytes_eq 16 a1.ip6 a2.ip6
      else false
    else false

unfoldable pub addr_eq_no_port : IoaAddr → IoaAddr → Bool
addr_eq_no_port a1 a2 =
    if a1.family == a2.family
    then if a1.family == af_inet
      then bytes_eq 4 a1.ip4 a2.ip4
      else if a1.family == af_inet6
      then bytes_eq 16 a1.ip6 a2.ip6
      else false
    else false

-- The `int` is cut to 16 bits by nswap16.
unfoldable pub addr_set_port : IoaAddr → ℕ → IoaAddr
addr_set_port a port =
    if a.family == af_inet || a.family == af_inet6 then record a { port = port % 2 ^ 16 } else a

unfoldable pub addr_get_port : IoaAddr → ℕ
addr_get_port a = if a.family == af_inet || a.family == af_inet6 then a.port else 0

-- nswap32 of s_addr: the first byte is the highest.
pub be32 : Mem → ℕ
be32 m = m 0 * 2 ^ 24 + m 1 * 2 ^ 16 + m 2 * 256 + m 3

-- The loop over the 16 bytes of an IPv6 address
pub bytes_le : ℕ → Mem → Mem → Bool
bytes_le zero a b = true
bytes_le (suc n) a b = not (ltb (b n) (a n)) && bytes_le n a b

pub addr_less_eq : IoaAddr → IoaAddr → Bool
addr_less_eq a1 a2 =
    if not (a1.family == a2.family)
    then ltb a1.family a2.family
    else if a1.family == af_inet
    then leb (be32 a1.ip4) (be32 a2.ip4)
    else if a1.family == af_inet6
    then bytes_le 16 a1.ip6 a2.ip6
    else true

pub record IoaAddrRange : Type 0 where
  pub min : IoaAddr
  pub max : IoaAddr

-- A NULL bound is `none`.
pub or_any : Option IoaAddr → IoaAddr
or_any none = addr_set_any
or_any (some a) = a

pub ioa_addr_range_set : Option IoaAddr → Option IoaAddr → IoaAddrRange
ioa_addr_range_set addr_min addr_max = record { min = or_any addr_min; max = or_any addr_max }

pub ioa_addr_in_range : IoaAddrRange → IoaAddr → Bool
ioa_addr_in_range range addr =
    if addr_any range.min || addr_less_eq range.min addr
    then if addr_any range.max then true else addr_less_eq addr range.max
    else false

unfoldable pub ioa_addr_is_multicast : IoaAddr → Bool
ioa_addr_is_multicast a =
    if a.family == af_inet
    then ltb 223 (a.ip4 0)
    else if a.family == af_inet6
    then a.ip6 0 == 255
    else false

unfoldable pub ioa_addr_is_loopback : IoaAddr → Bool
ioa_addr_is_loopback a =
    if a.family == af_inet
    then a.ip4 0 == 127
    else if a.family == af_inet6
    then a.ip6 7 == 1 && bytes_eq 7 a.ip6 (λ _. 0)
    else false

-- `public_addrs` and `private_addrs`, of `mcount` entries each: the pairs, first to last.
abbrev pub Mappings : Type 0
Mappings = List (IoaAddr × IoaAddr)

pub ioa_addr_add_mapping : Mappings → IoaAddr → IoaAddr → Mappings
ioa_addr_add_mapping ms apub apriv = ms ++ ((apub, apriv) ∷ [])

unfoldable pub map_addr_from_public_to_private : Mappings → IoaAddr → IoaAddr
map_addr_from_public_to_private [] addr = addr
map_addr_from_public_to_private ((public_addr, private_addr) ∷ ms) addr =
    if addr_eq_no_port addr public_addr
    then addr_set_port private_addr (addr_get_port addr)
    else map_addr_from_public_to_private ms addr

unfoldable pub map_addr_from_private_to_public : Mappings → IoaAddr → IoaAddr
map_addr_from_private_to_public [] addr = addr
map_addr_from_private_to_public ((public_addr, private_addr) ∷ ms) addr =
    if addr_eq_no_port addr private_addr
    then addr_set_port public_addr (addr_get_port addr)
    else map_addr_from_private_to_public ms addr
