-- ===== src/Stun/Types.antt =====
-- The message type: twelve bits of method and two of class, interleaved (RFC 5389, section 6), in
-- coturn/src/client/ns_turn_msg.c and the macros of ns_turn_msg_defs.h.
pub mod Laws
use Prim.Native.Nat.{bit_and, bit_or}
use p2p_cluster.Common.{
  ℕ, zero, suc, ◌*◌, ◌/◌, ◌%◌, ◌^◌, ◌-◌, Bool, ltb, leb, ◌==◌, ◌&&◌, ◌||◌, not, if◌then◌else◌,
}
use p2p_cluster.Common.Memory.{Mem}
use p2p_cluster.Stun.Words.{get16}

-- STUN_VALID_CHANNEL
unfoldable pub stun_valid_channel : ℕ → Bool
stun_valid_channel chn = leb 0x4000 chn && leb chn 0x7FFF

-- The parameter is a uint16_t; no shift leaves 16 bits.
unfoldable pub stun_make_type : ℕ → ℕ
stun_make_type method0 =
    let method = bit_and method0 0x0FFF in
    bit_or
      (bit_or (bit_or (bit_and method 0x000F) (bit_and method 0x0070 * 2))
        (bit_and method 0x0380 * 4))
      (bit_and method 0x0C00 * 4)

-- stun_get_method_str on the first two bytes, `len >= 2`
unfoldable pub method_of_type : ℕ → ℕ
method_of_type tt =
    bit_or (bit_or (bit_or (bit_and tt 0x000F) (bit_and tt 0x00E0 / 2)) (bit_and tt 0x0E00 / 4))
      (bit_and tt 0x3000 / 4)

unfoldable pub stun_get_method_str : Mem → ℕ → ℕ
stun_get_method_str buf len = if ltb len 2 then 2 ^ 16 - 1 else method_of_type (get16 buf 0)

unfoldable pub stun_get_msg_type_str : Mem → ℕ → ℕ
stun_get_msg_type_str buf len = if ltb len 2 then 2 ^ 16 - 1 else bit_and (get16 buf 0) 0x3FFF

unfoldable pub is_channel_msg_str : Mem → ℕ → Bool
is_channel_msg_str buf blen = leb 4 blen && stun_valid_channel (get16 buf 0)

-- IS_STUN_REQUEST and its three neighbours
unfoldable pub is_stun_request : ℕ → Bool
is_stun_request t = bit_and t 0x0110 == 0x0000

unfoldable pub is_stun_indication : ℕ → Bool
is_stun_indication t = bit_and t 0x0110 == 0x0010

unfoldable pub is_stun_success_resp : ℕ → Bool
is_stun_success_resp t = bit_and t 0x0110 == 0x0100

unfoldable pub is_stun_err_resp : ℕ → Bool
is_stun_err_resp t = bit_and t 0x0110 == 0x0110

-- GET_STUN_REQUEST and its three neighbours, applied to stun_make_type
unfoldable pub stun_make_request : ℕ → ℕ
stun_make_request method = bit_and (stun_make_type method) 0xFEEF

unfoldable pub stun_make_indication : ℕ → ℕ
stun_make_indication method = bit_or (bit_and (stun_make_type method) 0xFEEF) 0x0010

unfoldable pub stun_make_success_response : ℕ → ℕ
stun_make_success_response method = bit_or (bit_and (stun_make_type method) 0xFEEF) 0x0100

unfoldable pub stun_make_error_response : ℕ → ℕ
stun_make_error_response method = bit_or (stun_make_type method) 0x0110

unfoldable pub stun_is_request_str : Mem → ℕ → Bool
stun_is_request_str buf len =
    not (is_channel_msg_str buf len) && is_stun_request (stun_get_msg_type_str buf len)

unfoldable pub stun_is_indication_str : Mem → ℕ → Bool
stun_is_indication_str buf len =
    not (is_channel_msg_str buf len) && is_stun_indication (stun_get_msg_type_str buf len)

unfoldable pub stun_is_success_response_str : Mem → ℕ → Bool
stun_is_success_response_str buf len =
    not (is_channel_msg_str buf len) && is_stun_success_resp (stun_get_msg_type_str buf len)

-- `stun_is_error_response_str` with `err_code` NULL
unfoldable pub stun_is_error_type_str : Mem → ℕ → Bool
stun_is_error_type_str buf len =
    not (is_channel_msg_str buf len) && is_stun_err_resp (stun_get_msg_type_str buf len)

unfoldable pub stun_is_response_str : Mem → ℕ → Bool
stun_is_response_str buf len =
    not (is_channel_msg_str buf len)
    && (is_stun_success_resp (stun_get_msg_type_str buf len)
        || is_stun_err_resp (stun_get_msg_type_str buf len))
