-- ===== src/Stun/Attr.antt =====
-- Attributes of a message, in coturn/src/client/ns_turn_msg.c. A `stun_attr_ref` is an offset into
-- the buffer, and `none` where the source has NULL or -1.
pub mod Walk
pub mod Bounds
pub mod Start
pub mod Add
pub mod Values
use Prim.Native.Nat.{bit_and}
use p2p_cluster.Common.{
  ℕ, zero, suc, ◌+◌, ◌-◌, ◌*◌, ◌/◌, ◌%◌, ◌^◌, Bool, true, false, ltb, leb, ◌==◌, ◌&&◌, ◌||◌, not,
  if◌then◌else◌, Option, none, some,
}
use p2p_cluster.Common.Memory.{Mem, update, blit, shift}
use p2p_cluster.Stun.Words.{get16, get32, put16, put32}
use p2p_cluster.Stun.Types.{stun_valid_channel}
use p2p_cluster.Stun.Header.{
  Message, stun_header_length, max_stun_message_size, stun_get_command_message_len_str,
  stun_set_command_message_len_str,
}

unfoldable pub stun_attr_get_type : Mem → ℕ → ℕ
stun_attr_get_type buf attr = get16 buf attr

unfoldable pub stun_attr_get_len : Mem → ℕ → ℕ
stun_attr_get_len buf attr = get16 buf (attr + 2)

-- The offset of the value
unfoldable pub stun_attr_get_value : Mem → ℕ → Option ℕ
stun_attr_get_value buf attr = if ltb (stun_attr_get_len buf attr) 1 then none else some (attr + 4)

-- The length rounded up to a multiple of four, as three of the functions do it.
unfoldable pub round4 : ℕ → ℕ
round4 attrlen =
    let rem4 = bit_and (attrlen % 2 ^ 16) 0x0003 in
    if rem4 == 0 then attrlen else attrlen + 4 - rem4

unfoldable pub stun_attr_check_valid : Mem → ℕ → ℕ → Option ℕ
stun_attr_check_valid buf attr remaining =
    if leb 4 remaining && leb (round4 (stun_attr_get_len buf attr)) (remaining - 4)
    then some attr
    else none

unfoldable pub stun_attr_get_first_str : Mem → ℕ → Option ℕ
stun_attr_get_first_str buf len = elim (stun_get_command_message_len_str buf len) [
  | none ↦ none
  | some buf_len ↦
      if ltb stun_header_length buf_len
      then stun_attr_check_valid buf stun_header_length (buf_len - stun_header_length)
      else none
]

-- With `prev` not NULL. The comparison `attrlen < end - prev - 4` is one of signed numbers; without
-- a valid message `end` stands before `buf`, and the test fails.
unfoldable pub stun_attr_get_next_str : Mem → ℕ → ℕ → Option ℕ
stun_attr_get_next_str buf len prev = elim (stun_get_command_message_len_str buf len) [
  | none ↦ none
  | some end ↦
      let attr_end = prev + 4 + round4 (stun_attr_get_len buf prev) in
      if ltb attr_end end then stun_attr_check_valid buf attr_end (end - attr_end) else none
]

-- The `while` loop, on fuel.
unfoldable pub find_by_type : ℕ → Mem → ℕ → ℕ → Option ℕ → Option ℕ
find_by_type fuel buf len attr_type none = none
find_by_type zero buf len attr_type (some attr) = none
find_by_type (suc fuel) buf len attr_type (some attr) =
    let rest = find_by_type fuel buf len attr_type (stun_attr_get_next_str buf len attr) in
    if stun_attr_get_type buf attr == attr_type then some attr else rest

-- The fuel is the length: each round goes on by four bytes at least.
unfoldable pub stun_attr_get_first_by_type_str : Mem → ℕ → ℕ → Option ℕ
stun_attr_get_first_by_type_str buf len attr_type =
    find_by_type len buf len attr_type (stun_attr_get_first_str buf len)

-- `before_buffer`: without a valid header the length is -1, and the source writes before `buf`.
pub data Added : Type 0 where
  added : Message → Added
  too_long : Added
  before_buffer : Added

-- A NULL value makes the length 0, a negative length counts as 0.
abbrev pub add_len : Option Mem → ℕ → ℕ
add_len none alen = 0
add_len (some value) alen = alen

abbrev pub add_value : Option Mem → Mem
add_value none = λ _. 0
add_value (some value) = value

-- The new length: header, value and padding
unfoldable pub pad4 : ℕ → ℕ
pad4 newlen =
    let newlenrem4 = bit_and newlen 0x00000003 in
    if newlenrem4 == 0 then newlen else newlen + (4 - newlenrem4)

-- What is written once the new length is known to fit.
unfoldable pub write_attr : Mem → ℕ → ℕ → ℕ → Mem → ℕ → Mem
write_attr buf clen newlen attr value alen =
    let head =
      put16 (put16 (stun_set_command_message_len_str buf newlen) clen attr) (clen + 2)
        (alen % 2 ^ 16) in
    if ltb 0 alen then blit head (clen + 4) value alen else head

unfoldable pub stun_attr_add_str : Message → ℕ → Option Mem → ℕ → Added
stun_attr_add_str m attr avalue alen0 =
    let alen = add_len avalue alen0 in
    elim (stun_get_command_message_len_str m.buf m.len) [
      | none ↦ if leb max_stun_message_size (pad4 (3 + alen)) then too_long else before_buffer
      | some clen ↦
          let newlen = pad4 (clen + 4 + alen) in
          if leb max_stun_message_size newlen
          then too_long
          else added (record {
            buf = write_attr m.buf clen newlen attr (add_value avalue) alen;
            len = newlen;
          })
    ]
