-- ===== src/Stun/CodecTests.antt =====
-- Addresses, the checksum and SASLprep on concrete bytes, and their theorems at them.
use p2p_cluster.Common.{Option, [], arith, inl, none, refl, some, ◌∷◌, ◌≡◌}
use p2p_cluster.Common.Memory.{Mem, update}
use p2p_cluster.Common.Text.{get_or, bytes_of}
use p2p_cluster.Ioaddr.{map_addr_from_private_to_public, IoaAddr, af_inet}
use p2p_cluster.Stun.Words.{IsBytes, get16, put16, put32}
use p2p_cluster.Stun.Types.Laws.{request, make}
use p2p_cluster.Stun.Header.{
  Message, stun_init_command_str, stun_init_buffer_str, stun_tid_message_cpy,
  stun_get_command_message_len_str,
}
use p2p_cluster.Stun.Attr.{
  stun_attr_get_first_by_type_str, find_by_type, stun_attr_get_first_str, stun_attr_add_str, pad4,
  Added, added,
}
use p2p_cluster.Stun.Attr.Walk.{IsMessage}
use p2p_cluster.Stun.Attr.Start.{stun_init_command_str-IsMessage}
use p2p_cluster.Stun.Address.Attribute.{
  stun_attribute_xor_peer_address, add_field, stun_attr_add_addr_str,
}
use p2p_cluster.Stun.Address.Attribute.Laws.{Carries, address_attribute_round_trip}
use p2p_cluster.Stun.Address.{stun_addr_encode}
use p2p_cluster.Stun.Crc.{crc_table, make_crctable, crc_loop, ns_crc32, update_crc}
use p2p_cluster.Stun.Crc.Laws.{crctable_lem}
use p2p_cluster.Stun.Saslprep.{saslprep, before}
use p2p_cluster.Stun.Saslprep.Laws.{mapped, Checked, no_1f_nil, no_1f_cons, saslprep_lem}

-- The sample address of RFC 5769, 192.0.2.1 with the port 32853
abbrev sample : IoaAddr
sample = record {
  family = af_inet;
  port = 32853;
  ip4 = update (update (update (λ _. 0) 0 192) 2 2) 3 1;
  ip6 = λ _. 0;
}

abbrev tid : Mem
tid i = 7

ip4-IsBytes : IsBytes sample.ip4
ip4-IsBytes i = ground arith

abbrev plain : Mem
plain = update (update (λ _. 0) 1 1) 2 80

crctable_lem_example : get_or crc_table 200 0 ≡ make_crctable 200
crctable_lem_example = crctable_lem 200 (omega arith)

-- The check value of CRC-32
check_value : ns_crc32 (bytes_of "123456789") 9 ≡ 0xCBF43926
unfolding ns_crc32 crc_loop update_crc
check_value = refl

saslprep_sample : saslprep (0x49 ∷ 0xAD ∷ 0x58 ∷ 0xA0 ∷ []) ≡ some (0x49 ∷ 0x58 ∷ 0x20 ∷ [])
unfolding saslprep before
saslprep_sample = refl

saslprep_lem_example :
    Checked (mapped (0x49 ∷ 0xAD ∷ 0x58 ∷ [])) (saslprep (0x49 ∷ 0xAD ∷ 0x58 ∷ []))
saslprep_lem_example =
    saslprep_lem (0x49 ∷ 0xAD ∷ 0x58 ∷ [])
      (no_1f_cons (omega arith) (no_1f_cons (omega arith) (no_1f_cons (omega arith) no_1f_nil)))

-- RFC 4013 prohibits 0x1F, and the code lets it through.
saslprep_1f : saslprep (0x1F ∷ []) ≡ some (0x1F ∷ [])
unfolding saslprep before
saslprep_1f = refl

-- A CreatePermission request
abbrev permission : Message
permission = stun_init_command_str (make request 8) (λ i. 0) tid

permission-IsMessage : IsMessage permission
permission-IsMessage =
    stun_init_command_str-IsMessage request 8 (λ i. 0) tid (omega arith) (λ i. omega arith)
      (λ i. omega arith)

permission_fresh :
    stun_attr_get_first_by_type_str permission.buf permission.len stun_attribute_xor_peer_address
    ≡ none
unfolding stun_attr_get_first_by_type_str find_by_type stun_attr_get_first_str
    stun_get_command_message_len_str get16 put16 put32 stun_init_command_str stun_init_buffer_str
    stun_tid_message_cpy
permission_fresh = refl

-- The message that an addition gave
abbrev sent : Option Added → Message
sent (some (added m)) = m
sent _ = permission

peer_added :
    stun_attr_add_addr_str [] (λ i. 0) permission stun_attribute_xor_peer_address sample
    ≡ some (
        added (
          sent
            (stun_attr_add_addr_str [] (λ i. 0) permission stun_attribute_xor_peer_address sample)))
unfolding stun_attr_add_addr_str add_field stun_addr_encode map_addr_from_private_to_public
    stun_attr_add_str stun_get_command_message_len_str get16 put16 put32 stun_init_command_str
    stun_init_buffer_str stun_tid_message_cpy pad4
peer_added = refl

address_attribute_round_trip_example :
    Carries permission
      (sent (stun_attr_add_addr_str [] (λ i. 0) permission stun_attribute_xor_peer_address sample))
      stun_attribute_xor_peer_address
      sample
address_attribute_round_trip_example =
    address_attribute_round_trip stun_attribute_xor_peer_address sample (λ i. 0)
      permission-IsMessage (omega arith) permission_fresh (inl refl) (omega arith) ip4-IsBytes
      (λ i. omega arith) (λ i. omega arith) peer_added
