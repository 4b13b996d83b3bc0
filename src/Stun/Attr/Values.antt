-- ===== src/Stun/Attr/Values.antt =====
-- The typed accessors of an attribute's value, in coturn/src/client/ns_turn_msg.c. A NULL attribute
-- is `none`.
pub mod Laws
use Prim.Native.Nat.{bit_and}
use Prim.Native.String.{String}
use p2p_cluster.Common.Text.{bytes_of, strlen}
use p2p_cluster.Common.{
  ℕ, zero, suc, ◌+◌, ◌-◌, ◌*◌, ◌/◌, ◌%◌, ◌^◌, Bool, true, false, ltb, leb, ◌==◌, ◌&&◌, ◌||◌, not,
  if◌then◌else◌, Option, none, some, List, [], ◌∷◌,
}
use p2p_cluster.Common.Memory.{Mem, update, blit, shift}
use p2p_cluster.Stun.Words.{get16, get32, put16, put32}
use p2p_cluster.Stun.Types.{stun_valid_channel}
use p2p_cluster.Stun.Header.{Message}
use p2p_cluster.Stun.Attr.{
  stun_attr_get_type, stun_attr_get_len, stun_attr_get_value, stun_attr_get_first_by_type_str,
  stun_attr_get_first_str, stun_attr_get_next_str, stun_attr_add_str, Added,
}

abbrev pub stun_attribute_channel_number : ℕ
stun_attribute_channel_number = 0x000C

abbrev pub stun_attribute_new_bandwidth : ℕ
stun_attribute_new_bandwidth = 0x8010

abbrev pub stun_attribute_address_error_code : ℕ
stun_attribute_address_error_code = 0x8033

-- STUN_ATTRIBUTE_REQUESTED_ADDRESS_FAMILY_VALUE_INVALID is -1.
pub data Family : Type 0 where
  by_default : Family
  ipv4 : Family
  ipv6 : Family
  invalid : Family

unfoldable pub stun_get_requested_address_family : Mem → Option ℕ → Family
stun_get_requested_address_family buf none = by_default
stun_get_requested_address_family buf (some attr) =
    if not (stun_attr_get_len buf attr == 4)
    then invalid
    else if buf (attr + 4) == 1
    then ipv4
    else if buf (attr + 4) == 2
    then ipv6
    else invalid

unfoldable pub stun_attr_get_channel_number : Mem → Option ℕ → ℕ
stun_attr_get_channel_number buf none = 0
stun_attr_get_channel_number buf (some attr) = elim (stun_attr_get_value buf attr) [
  | none ↦ 0
  | some value ↦
      if leb 2 (stun_attr_get_len buf attr) && stun_valid_channel (get16 buf value)
      then get16 buf value
      else 0
]

-- `bps << 7` on a uint32_t, then as band_limit_t
unfoldable pub stun_attr_get_bandwidth : Mem → Option ℕ → ℕ
stun_attr_get_bandwidth buf none = 0
stun_attr_get_bandwidth buf (some attr) = elim (stun_attr_get_value buf attr) [
  | none ↦ 0
  | some value ↦ if leb 4 (stun_attr_get_len buf attr) then get32 buf value * 128 % 2 ^ 32 else 0
]

unfoldable pub stun_attr_get_reservation_token_value : Mem → Option ℕ → ℕ
stun_attr_get_reservation_token_value buf none = 0
stun_attr_get_reservation_token_value buf (some attr) = elim (stun_attr_get_value buf attr) [
  | none ↦ 0
  | some value ↦
      if stun_attr_get_len buf attr == 8
      then get32 buf value * 2 ^ 32 + get32 buf (value + 4)
      else 0
]

unfoldable pub stun_attr_get_even_port : Mem → Option ℕ → Bool
stun_attr_get_even_port buf none = false
stun_attr_get_even_port buf (some attr) = elim (stun_attr_get_value buf attr) [
  | none ↦ false
  | some value ↦ ltb 0x7F (buf value)
]

one_of : ℕ → List ℕ → Bool
one_of t [] = false
one_of t (x ∷ l) = t == x || one_of t l

unfoldable pub stun_attr_is_addr : Mem → Option ℕ → Bool
unfolding one_of
stun_attr_is_addr buf none = false
stun_attr_is_addr buf (some attr) = one_of (stun_attr_get_type buf attr) (
    0x0020 ∷ 0x0012 ∷ 0x0016 ∷ 0x0001 ∷ 0x8023 ∷ 0x0002 ∷ 0x0004 ∷ 0x0005 ∷ 0x000B ∷ 0x802B ∷ 0x802C
    ∷ [])

-- The value is `field`: the number, then two zero bytes.
unfoldable pub stun_attr_add_channel_number_str : Message → ℕ → Added
stun_attr_add_channel_number_str m chnumber =
    stun_attr_add_str m stun_attribute_channel_number (some (put16 (put16 (λ _. 0) 0 chnumber) 2 0))
      4

unfoldable pub stun_attr_add_bandwidth_str : Message → ℕ → Added
stun_attr_add_bandwidth_str m bps0 =
    stun_attr_add_str m stun_attribute_new_bandwidth (some (put32 (λ _. 0) 0 (bps0 / 128 % 2 ^ 32)))
      4

-- The loop of stun_attr_get_first_channel_number_str, on fuel.
unfoldable pub find_channel_number : ℕ → Mem → ℕ → Option ℕ → ℕ
find_channel_number fuel buf len none = 0
find_channel_number zero buf len (some attr) = 0
find_channel_number (suc fuel) buf len (some attr) =
    let number = stun_attr_get_channel_number buf (some attr) in
    let rest = find_channel_number fuel buf len (stun_attr_get_next_str buf len attr) in
    if stun_attr_get_type buf attr == stun_attribute_channel_number && stun_valid_channel number
    then number
    else rest

unfoldable pub stun_attr_get_first_channel_number_str : Mem → ℕ → ℕ
stun_attr_get_first_channel_number_str buf len =
    find_channel_number len buf len (stun_attr_get_first_str buf len)

-- The cases of the `switch` in get_default_reason
unfoldable pub reasons : List (ℕ × String)
reasons =
    (300, "Try Alternate")
    ∷ (400, "Bad Request")
    ∷ (401, "Unauthorized")
    ∷ (403, "Forbidden")
    ∷ (404, "Not Found")
    ∷ (420, "Unknown Attribute")
    ∷ (437, "Allocation Mismatch")
    ∷ (438, "Stale Nonce")
    ∷ (440, "Address Family not Supported")
    ∷ (441, "Wrong Credentials")
    ∷ (442, "Unsupported Transport Protocol")
    ∷ (443, "Peer Address Family Mismatch")
    ∷ (446, "Connection Already Exists")
    ∷ (447, "Connection Timeout or Failure")
    ∷ (486, "Allocation Quota Reached")
    ∷ (487, "Role Conflict")
    ∷ (500, "Server Error")
    ∷ (508, "Insufficient Capacity")
    ∷ []

unfoldable pub reason_in : ℕ → List (ℕ × String) → String
reason_in error_code [] = "Unknown error"
reason_in error_code ((code, reason) ∷ l) =
    if error_code == code then reason else reason_in error_code l

unfoldable pub get_default_reason : ℕ → String
get_default_reason error_code = reason_in error_code reasons

-- strncpy to 509 bytes with a 0 after them: the length of the reason that remains, of `n` bytes,
-- and the length of the value, padded to four by hand.
unfoldable pub address_error_len : ℕ → ℕ
address_error_len n =
    let reason = if ltb 508 n then 508 else n in
    let alen = 4 + reason in let rem = alen % 4 in if rem == 0 then alen else alen + (4 - rem)

-- `avalue`. The bytes after the text are 0, since strncpy fills up with 0.
unfoldable pub address_error_value : ℕ → ℕ → String → Mem
address_error_value family error_code reason i =
    if i == 0
    then family % 256
    else if i == 1
    then 0
    else if i == 2
    then error_code / 100 % 256
    else if i == 3
    then error_code % 100
    else if ltb i 512
    then bytes_of reason (i - 4)
    else 0

-- `error_code` is not negative. The result is 0, whatever comes of the addition.
unfoldable pub stun_attr_add_address_error_code : Message → ℕ → ℕ → ℕ × Added
stun_attr_add_address_error_code m family error_code =
    let reason = get_default_reason error_code in
    (
      0,
      stun_attr_add_str m stun_attribute_address_error_code
          (some (address_error_value family error_code reason)) (address_error_len (strlen reason)),
    )

-- `none` is the result -1; else the family and the code that are written, 0 without an attribute.
unfoldable pub stun_attr_get_address_error_code : Mem → ℕ → Option (ℕ × ℕ)
stun_attr_get_address_error_code buf len =
    if len == 0
    then some (0, 0)
    else elim (stun_attr_get_first_by_type_str buf len stun_attribute_address_error_code) [
      | none ↦ some (0, 0)
      | some sar ↦ elim (stun_attr_get_value buf sar) [
        | none ↦ none
        | some value ↦
            if not (stun_attr_get_len buf sar == 4)
            then none
            else some (buf value, buf (value + 2) * 100 + buf (value + 3))
      ]
    ]
