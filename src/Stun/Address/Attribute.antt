-- ===== src/Stun/Address/Attribute.antt =====
-- Attributes that hold addresses: coturn/src/client/ns_turn_msg.c, with the table of public and
-- private addresses as an argument. `cfield` is the array on the stack, with whatever it holds.
pub mod Laws
use p2p_cluster.Common.{
  ℕ, zero, suc, Bool, true, false, ◌==◌, ◌||◌, ◌&&◌, not, if◌then◌else◌, Option, none, some,
}
use p2p_cluster.Common.Memory.{Mem, shift}
use p2p_cluster.Ioaddr.{
  IoaAddr, Mappings, addr_set_any, addr_any_no_port, addr_set_port, addr_get_port,
  map_addr_from_public_to_private, map_addr_from_private_to_public,
}
use p2p_cluster.Stun.Header.{Message, stun_magic_cookie, stun_tid_from_message_str}
use p2p_cluster.Stun.Attr.{
  stun_attr_get_type, stun_attr_get_len, stun_attr_get_value, stun_attr_get_first_str,
  stun_attr_get_next_str, Added, stun_attr_add_str,
}
use p2p_cluster.Stun.Attr.Values.{stun_attr_is_addr}
use p2p_cluster.Stun.Address.{stun_addr_encode, stun_addr_decode, Decoded, decoded, refused}

abbrev pub stun_attribute_xor_peer_address : ℕ
stun_attribute_xor_peer_address = 0x0012

abbrev pub stun_attribute_xor_relayed_address : ℕ
stun_attribute_xor_relayed_address = 0x0016

abbrev pub stun_attribute_xor_mapped_address : ℕ
stun_attribute_xor_mapped_address = 0x0020

-- The `switch` that sets `xor_ed`
unfoldable pub is_xor_ed : ℕ → Bool
is_xor_ed attr_type =
    attr_type == stun_attribute_xor_mapped_address
    || attr_type == stun_attribute_xor_peer_address
    || attr_type == stun_attribute_xor_relayed_address

unfoldable pub add_field : Message → ℕ → Option (ℕ × Mem) → Option Added
add_field m attr_type none = none
add_field m attr_type (some (clen, cfield)) =
    some (stun_attr_add_str m attr_type (some cfield) clen)

-- `none` is -1 for an address that cannot be encoded.
unfoldable pub stun_attr_add_addr_str : Mappings → Mem → Message → ℕ → IoaAddr → Option Added
stun_attr_add_addr_str ms cfield m attr_type ca = add_field m attr_type (
    stun_addr_encode (map_addr_from_private_to_public ms ca) cfield (is_xor_ed attr_type)
      stun_magic_cookie (stun_tid_from_message_str m.buf))

-- The address of a message may leave the host out: then the host is the default one.
unfoldable pub with_default : IoaAddr → Option IoaAddr → IoaAddr
with_default ca none = ca
with_default ca (some default_addr) =
    if addr_any_no_port ca && not (addr_any_no_port default_addr)
    then addr_set_port default_addr (addr_get_port ca)
    else ca

unfoldable pub from_decoded : Mappings → Option IoaAddr → Decoded → Option IoaAddr
from_decoded ms default_addr (refused _) = none
from_decoded ms default_addr (decoded public_addr) =
    some (with_default (map_addr_from_public_to_private ms public_addr) default_addr)

-- `*ca`, or -1, where it is cleared. The attribute stands at `attr` in the message.
unfoldable pub stun_attr_get_addr_str : Mappings → Mem → ℕ → Option IoaAddr → Option IoaAddr
stun_attr_get_addr_str ms buf attr default_addr = elim (stun_attr_get_value buf attr) [
  | none ↦ none
  | some value ↦ from_decoded ms default_addr (
      stun_addr_decode addr_set_any (shift buf value) (stun_attr_get_len buf attr)
        (is_xor_ed (stun_attr_get_type buf attr)) stun_magic_cookie (stun_tid_from_message_str buf))
]

unfoldable pub or_address : Option IoaAddr → Option IoaAddr → Option IoaAddr
or_address (some a) rest = some a
or_address none rest = rest

-- The `while` loop, on fuel.
unfoldable pub find_addr : ℕ → Mappings → Mem → ℕ → ℕ → Option IoaAddr → Option ℕ → Option IoaAddr
find_addr fuel ms buf len attr_type default_addr none = none
find_addr zero ms buf len attr_type default_addr (some attr) = none
find_addr (suc fuel) ms buf len attr_type default_addr (some attr) =
    let rest =
      find_addr fuel ms buf len attr_type default_addr (stun_attr_get_next_str buf len attr) in
    if stun_attr_is_addr buf (some attr) && attr_type == stun_attr_get_type buf attr
    then or_address (stun_attr_get_addr_str ms buf attr default_addr) rest
    else rest

-- The fuel is the length: each round goes on by four bytes at least.
unfoldable pub stun_attr_get_first_addr_str :
    Mappings → Mem → ℕ → ℕ → Option IoaAddr → Option IoaAddr
stun_attr_get_first_addr_str ms buf len attr_type default_addr =
    find_addr len ms buf len attr_type default_addr (stun_attr_get_first_str buf len)
