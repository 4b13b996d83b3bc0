-- ===== src/Stun/Address/Attribute/Laws.antt =====
-- An address that is added to a message is read from it again.
use p2p_cluster.Common.{
  ℕ, ◌+◌, ◌^◌, ◌<◌, ◌≡◌, refl, sym, ap, ◌∙◌, arith, ◌⊎◌, inr, Option, some, none, [],
}
use p2p_cluster.Common.Memory.{Mem, shift}
use p2p_cluster.Stun.Words.{IsBytes}
use p2p_cluster.Ioaddr.{
  IoaAddr, af_inet, af_inet6, addr_set_any, map_addr_from_public_to_private,
  map_addr_from_private_to_public,
}
use p2p_cluster.Ioaddr.Equality.{SameHost, SameBytes}
use p2p_cluster.Stun.Header.{Message, stun_magic_cookie, stun_tid_from_message_str}
use p2p_cluster.Stun.Attr.{
  stun_attr_get_len, stun_attr_get_type, stun_attr_get_first_by_type_str, added,
}
use p2p_cluster.Stun.Attr.Walk.{IsMessage}
use p2p_cluster.Stun.Attr.Add.{Appended, stun_attr_add_str-AddCase}
use p2p_cluster.Stun.Attr.Values.Laws.{Appended-of, found_new, value_at}
use p2p_cluster.Stun.Address.{stun_addr_decode, decoded}
use p2p_cluster.Stun.Address.Laws.{Reads, reads, addr_round_trip}
use p2p_cluster.Stun.Address.Carried.{decode-same}
use p2p_cluster.Stun.Address.Attribute.{
  is_xor_ed, add_field, stun_attr_add_addr_str, with_default, from_decoded, stun_attr_get_addr_str,
}

-- The message has one attribute of this type more, and the address read from it is `ca`.
pub data Carries (m m' : Message) (t : ℕ) (ca : IoaAddr) : Type 0 where
  carries :
      {ca' : IoaAddr}
      → stun_attr_get_first_by_type_str m'.buf m'.len t ≡ some m.len
      → stun_attr_get_addr_str [] m'.buf m.len none ≡ some ca'
      → SameHost ca' ca
      → ca'.port ≡ ca.port
      → Carries m m' t ca

module _ {m m' : Message} {t clen : ℕ} {field : Mem} (v : IsMessage m)
    (a : Appended m m' t field clen) where
  value_same : SameBytes clen field (shift m'.buf (m.len + 4))
  value_same i lt = sym (a.value_lem i lt)

  ids_same : SameBytes 12 (stun_tid_from_message_str m.buf) (stun_tid_from_message_str m'.buf)
  unfolding stun_tid_from_message_str
  ids_same i lt = sym (a.kept (8 + i) (omega (arith, v.stated)) (inr (omega arith)))

  read_back :
      (ca' : IoaAddr)
      → 0 < clen
      → stun_addr_decode addr_set_any field clen
          (is_xor_ed t)
          stun_magic_cookie
          (stun_tid_from_message_str m.buf)
        ≡ decoded ca'
      → stun_attr_get_addr_str [] m'.buf m.len none ≡ some ca'
  unfolding stun_attr_get_addr_str from_decoded with_default map_addr_from_public_to_private
  read_back ca' pos e =
      let same =
        decode-same field (shift m'.buf (m.len + 4)) clen value_same
          (stun_tid_from_message_str m.buf) (stun_tid_from_message_str m'.buf) ids_same
          (is_xor_ed t) stun_magic_cookie addr_set_any in
      ap
        (λ o. elim o [
          | none ↦ none
          | some value ↦ from_decoded [] none (
              stun_addr_decode addr_set_any (shift m'.buf value) (stun_attr_get_len m'.buf m.len)
                (is_xor_ed (stun_attr_get_type m'.buf m.len)) stun_magic_cookie
                (stun_tid_from_message_str m'.buf))
        ])
        (value_at a pos)
      ∙ rw (a.length_lem, a.type_lem, sym same ∙ e) refl

carried :
    {m m' : Message} {t : ℕ} {ca : IoaAddr} {o : Option (ℕ × Mem)}
    → IsMessage m
    → t < 2 ^ 16
    → stun_attr_get_first_by_type_str m.buf m.len t ≡ none
    → Reads ca addr_set_any (is_xor_ed t) stun_magic_cookie (stun_tid_from_message_str m.buf) o
    → add_field m t o ≡ some (added m')
    → Carries m m' t ca
unfolding add_field
carried {m} {m'} {t} v small fresh (reads {clen} {cfield = field} {ca'} bytes pos e host port) eq =
    let a =
      Appended-of _ m' (let q = eq in cc)
        (stun_attr_add_str-AddCase t (some field) clen v small bytes) in
    carries (found_new a fresh) (read_back v a ca' pos e) host port

-- Without a table of public and private addresses: an IPv4 or IPv6 address that
-- `stun_attr_add_addr_str` adds to a well-formed message, in an attribute of a type that the message
-- does not have, XOR-ed or not, is what `stun_attr_get_addr_str` reads from the attribute that the
-- search by this type finds in the new message.
pub address_attribute_round_trip :
    {m m' : Message} (t : ℕ) (ca : IoaAddr) (cfield : Mem)
    → IsMessage m
    → t < 2 ^ 16
    → stun_attr_get_first_by_type_str m.buf m.len t ≡ none
    → (ca.family ≡ af_inet) ⊎ (ca.family ≡ af_inet6)
    → ca.port < 2 ^ 16
    → IsBytes ca.ip4
    → IsBytes ca.ip6
    → IsBytes cfield
    → stun_attr_add_addr_str [] cfield m t ca ≡ some (added m')
    → Carries m m' t ca
unfolding stun_attr_add_addr_str map_addr_from_private_to_public stun_tid_from_message_str
address_attribute_round_trip {m} t ca cfield v small fresh family port b4 b6 c e =
    carried v small fresh
      (addr_round_trip ca addr_set_any cfield (is_xor_ed t) stun_magic_cookie
        (stun_tid_from_message_str m.buf) family port b4 b6 (λ i. v.bytes (8 + i)) c)
      e
