-- ===== src/Stun/Header.antt =====
-- The message header and the start of a message, in coturn/src/client/ns_turn_msg.c. A buffer is
-- its bytes and the length in use; a result -1 is `none`.
pub mod Laws
use Prim.Native.Nat.{bit_and}
use p2p_cluster.Common.{
  ℕ, zero, suc, ◌+◌, ◌-◌, ◌*◌, ◌/◌, ◌%◌, ◌^◌, Bool, true, false, ltb, leb, ◌==◌, ◌&&◌, ◌||◌, not,
  if◌then◌else◌, Option, none, some,
}
use p2p_cluster.Common.Memory.{Mem, update, blit, shift}
use p2p_cluster.Stun.Words.{get16, get32, put16, put32}
use p2p_cluster.Stun.Types.{
  stun_valid_channel, stun_make_request, stun_make_indication, stun_make_success_response,
}

abbrev pub stun_header_length : ℕ
stun_header_length = 20

abbrev pub max_stun_message_size : ℕ
max_stun_message_size = 65507

abbrev pub stun_magic_cookie : ℕ
stun_magic_cookie = 0x2112A442

abbrev pub stun_tid_size : ℕ
stun_tid_size = 12

unfoldable pub stun_get_command_message_len_str : Mem → ℕ → Option ℕ
stun_get_command_message_len_str buf len =
    let buf_len = get16 buf 2 + stun_header_length in
    if ltb len stun_header_length then none else if ltb len buf_len then none else some buf_len

-- The caller passes `len >= 20`; (uint16_t)(len - 20).
unfoldable pub stun_set_command_message_len_str : Mem → ℕ → Mem
stun_set_command_message_len_str buf len = put16 buf 2 ((len - stun_header_length) % 2 ^ 16)

-- The tests that the three recognisers of a STUN message share: no channel number in front, and the
-- two top bits of the first byte clear.
unfoldable pub starts_command : Mem → Bool
starts_command buf = not (stun_valid_channel (get16 buf 0)) && bit_and (buf 0) 0xC0 == 0

unfoldable pub stun_is_command_message_str : Mem → ℕ → Bool
stun_is_command_message_str buf blen =
    leb stun_header_length blen
    && (starts_command buf
        && (get32 buf 4 == stun_magic_cookie
            && (bit_and (get16 buf 2) 0x0003 == 0 && get16 buf 2 + stun_header_length == blen)))

-- `none` is 0; else the cookie that it writes.
unfoldable pub old_stun_is_command_message_str : Mem → ℕ → Option ℕ
old_stun_is_command_message_str buf blen =
    if leb stun_header_length blen
      && (starts_command buf
          && (not (get32 buf 4 == stun_magic_cookie)
              && (bit_and (get16 buf 2) 0x0003 == 0 && get16 buf 2 + stun_header_length == blen)))
    then some (get32 buf 4)
    else none

-- A message under construction: the buffer and `*len`.
pub record Message : Type 0 where
  pub buf : Mem
  pub len : ℕ

unfoldable pub stun_init_buffer_str : Mem → Message
stun_init_buffer_str buf = record {
  buf = blit buf 0 (λ _. 0) stun_header_length;
  len = stun_header_length;
}

unfoldable pub stun_tid_message_cpy : Mem → Mem → Mem
stun_tid_message_cpy buf tid = blit buf 8 tid stun_tid_size

unfoldable pub stun_tid_from_message_str : Mem → Mem
stun_tid_from_message_str buf = shift buf 8

-- `tid` holds the bytes of turn_random_tid_size.
unfoldable pub old_stun_init_command_str : ℕ → Mem → ℕ → Mem → Message
old_stun_init_command_str message_type buf cookie tid =
    let m = stun_init_buffer_str buf in
    record m {
      buf =
          stun_tid_message_cpy
            (put32 (put16 (put16 m.buf 0 (bit_and message_type 0x3FFF)) 2 0) 4 cookie) tid;
    }

unfoldable pub stun_init_command_str : ℕ → Mem → Mem → Message
stun_init_command_str message_type buf tid =
    let m = stun_init_buffer_str buf in
    record m {
      buf =
          stun_tid_message_cpy
            (put32 (put16 (put16 m.buf 0 (bit_and message_type 0x3FFF)) 2 0) 4 stun_magic_cookie)
            tid;
    }

unfoldable pub stun_init_request_str : ℕ → Mem → Mem → Message
stun_init_request_str method buf tid = stun_init_command_str (stun_make_request method) buf tid

unfoldable pub stun_init_indication_str : ℕ → Mem → Mem → Message
stun_init_indication_str method buf tid =
    stun_init_command_str (stun_make_indication method) buf tid

-- `id` is the transaction that is answered; without one the random bytes stay.
unfoldable pub stun_init_success_response_str : ℕ → Mem → Mem → Option Mem → Message
stun_init_success_response_str method buf tid id =
    let m = stun_init_command_str (stun_make_success_response method) buf tid in
    elim id [ none ↦ m | some t ↦ record m { buf = stun_tid_message_cpy m.buf t } ]

unfoldable pub old_stun_init_success_response_str : ℕ → Mem → ℕ → Mem → Option Mem → Message
old_stun_init_success_response_str method buf cookie tid id =
    let m = old_stun_init_command_str (stun_make_success_response method) buf cookie tid in
    elim id [ none ↦ m | some t ↦ record m { buf = stun_tid_message_cpy m.buf t } ]
