-- ===== src/Stun/Channel.antt =====
-- ChannelData messages: a channel number and a length in front of the payload, in
-- coturn/src/client/ns_turn_msg.c.
pub mod Laws
use Prim.Native.Nat.{bit_and}
use p2p_cluster.Common.{
  ℕ, zero, suc, ◌+◌, ◌-◌, ◌*◌, ◌/◌, ◌%◌, ◌^◌, Bool, true, false, ltb, leb, ◌==◌, ◌&&◌, ◌||◌, not,
  if◌then◌else◌, Option, none, some,
}
use p2p_cluster.Common.Memory.{Mem}
use p2p_cluster.Stun.Words.{get16, put16}
use p2p_cluster.Stun.Types.{stun_valid_channel}
use p2p_cluster.Stun.Header.{Message, max_stun_message_size}

-- ((rlen >> 2) + 1) << 2 on a uint16_t, unless the two low bits are clear
unfoldable pub pad16 : ℕ → ℕ
pad16 n = if bit_and n 0x0003 == 0 then n else (n / 4 + 1) * 4 % 2 ^ 16

-- `none` is -1. `length` is not negative.
unfoldable pub stun_init_channel_message_str : ℕ → Mem → ℕ → Bool → Option Message
stun_init_channel_message_str chnumber buf length do_padding =
    let rlen = length % 2 ^ 16 in
    if ltb max_stun_message_size (4 + length)
    then none
    else some (record {
      buf = put16 (put16 buf 0 chnumber) 2 (length % 2 ^ 16);
      len = 4 + (if do_padding then pad16 rlen else rlen);
    })

-- The length is in order: as the header says, or with bytes of padding behind.
unfoldable pub padding_ok : ℕ → ℕ → Bool → Bool
padding_ok header actual mandatory_padding =
    if ltb actual header
    then false
    else if header == actual
    then true
    else if bit_and actual 0x0003 == 0
    then true
    else if mandatory_padding
    then false
    else if ltb actual header || header == 0
    then false
    else not (ltb 3 (actual - header))

-- The result is `*blen` afterwards, and the channel number if the return value is 1.
unfoldable pub stun_is_channel_message_str : Mem → ℕ → Bool → ℕ × Option ℕ
stun_is_channel_message_str buf blen mandatory_padding =
    let chn = get16 buf 0 in
    let short = if ltb (2 ^ 16 - 1) blen then 2 ^ 16 - 1 else blen in
    let header = get16 buf 2 in
    if ltb blen 4 || not (stun_valid_channel chn)
    then (blen, none)
    else if padding_ok header (short - 4) mandatory_padding
    then (header + 4, some chn)
    else (short, none)
