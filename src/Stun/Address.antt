-- ===== src/Stun/Address.antt =====
-- Addresses in attributes: coturn/src/client/ns_turn_msg_addr.c. The pointers are not NULL, and a
-- length is not negative. `mc` is the magic cookie, `tsx_id` the transaction id.
pub mod Laws
pub mod Attribute
pub mod Carried
use Prim.Native.Nat.{bit_xor}
use p2p_cluster.Common.{
  ℕ, ◌+◌, ◌-◌, ◌*◌, ◌/◌, ◌%◌, ◌^◌, Bool, true, false, ltb, ◌==◌, ◌||◌, not, if◌then◌else◌, Option,
  none, some,
}
use p2p_cluster.Common.Memory.{Mem, update, blit, shift}
use p2p_cluster.Ioaddr.{IoaAddr, af_inet, af_inet6}

-- The bytes that an address is added to: those of nswap32(mc), then those of the transaction id.
-- The exclusive or of two words is that of their bytes.
unfoldable pub key_at : ℕ → Mem → ℕ → ℕ
key_at mc tsx_id i = if ltb i 4 then mc / 2 ^ (8 * (3 - i)) % 256 else tsx_id (i - 4)

unfoldable pub xored : Bool → ℕ → Mem → Mem → Mem
xored xor_ed mc tsx_id src i = if xor_ed then bit_xor (src i) (key_at mc tsx_id i) else src i

-- The two bytes of a port, as it is stored
abbrev pub port_bytes : ℕ → Mem
port_bytes port i = if i == 0 then port / 256 % 256 else port % 256

unfoldable pub write_field : ℕ → ℕ → Mem → ℕ → Mem → Bool → ℕ → Mem → Mem
write_field fam port src n cfield xor_ed mc tsx_id =
    let start = update (update cfield 0 0) 1 fam in
    let ported = blit start 2 (xored xor_ed mc tsx_id (port_bytes port)) 2 in
    blit ported 4 (xored xor_ed mc tsx_id src) n

-- `*clen` and the field, or -1
unfoldable pub stun_addr_encode : IoaAddr → Mem → Bool → ℕ → Mem → Option (ℕ × Mem)
stun_addr_encode ca cfield xor_ed mc tsx_id =
    if ca.family == af_inet || ca.family == 0
    then some (8, write_field 1 ca.port ca.ip4 4 cfield xor_ed mc tsx_id)
    else if ca.family == af_inet6
    then some (20, write_field 2 ca.port ca.ip6 16 cfield xor_ed mc tsx_id)
    else none

-- 0 or -1, with what `*ca` holds after the call
pub data Decoded : Type 0 where
  decoded : IoaAddr → Decoded
  refused : IoaAddr → Decoded

unfoldable pub read_port : Mem → Bool → ℕ → Mem → ℕ
read_port cfield xor_ed mc tsx_id =
    xored xor_ed mc tsx_id (shift cfield 2) 0 * 256 + xored xor_ed mc tsx_id (shift cfield 2) 1

unfoldable pub decode4 : IoaAddr → Mem → ℕ → Bool → ℕ → Mem → Decoded
decode4 ca cfield len xor_ed mc tsx_id =
    if not (len == 8)
    then refused (record ca { family = af_inet })
    else decoded (record ca {
      family = af_inet;
      port = read_port cfield xor_ed mc tsx_id;
      ip4 = blit ca.ip4 0 (xored xor_ed mc tsx_id (shift cfield 4)) 4;
    })

unfoldable pub decode6 : IoaAddr → Mem → ℕ → Bool → ℕ → Mem → Decoded
decode6 ca cfield len xor_ed mc tsx_id =
    if not (len == 20)
    then refused (record ca { family = af_inet6 })
    else decoded (record ca {
      family = af_inet6;
      port = read_port cfield xor_ed mc tsx_id;
      ip6 = blit ca.ip6 0 (xored xor_ed mc tsx_id (shift cfield 4)) 16;
    })

unfoldable pub stun_addr_decode : IoaAddr → Mem → ℕ → Bool → ℕ → Mem → Decoded
stun_addr_decode ca cfield len xor_ed mc tsx_id =
    if ltb len 8
    then refused ca
    else if not (cfield 0 == 0)
    then refused ca
    else if cfield 1 == 1
    then decode4 ca cfield len xor_ed mc tsx_id
    else if cfield 1 == 2
    then decode6 ca cfield len xor_ed mc tsx_id
    else refused ca
