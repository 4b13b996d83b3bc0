-- ===== src/Stun/Tests.antt =====
-- The message functions on concrete buffers, and their theorems at them.
use p2p_cluster.Common.{ℕ, ◌≤◌, ◌≡◌, refl, true, false, none, some, arith}
use p2p_cluster.Common.Memory.{Mem}
use p2p_cluster.Stun.Words.{IsBytes, get16, get32, put16, put32}
use p2p_cluster.Stun.Types.{stun_valid_channel}
use p2p_cluster.Stun.Types.Laws.{request, make}
use p2p_cluster.Stun.Header.{
  Message, stun_init_command_str, stun_init_buffer_str, stun_tid_message_cpy, starts_command,
  stun_get_command_message_len_str,
}
use p2p_cluster.Stun.Attr.{
  stun_attr_get_type, stun_attr_get_len, stun_attr_get_first_str, stun_attr_check_valid, round4,
  pad4, find_by_type, stun_attr_get_first_by_type_str, stun_attr_add_str, Added, added,
}
use p2p_cluster.Stun.Attr.Walk.{IsMessage, first_of_type, Ends, stun_attr_get_first_by_type_str_lem}
use p2p_cluster.Stun.Attr.Bounds.{
  IsInside, stun_attr_get_first_by_type_str-IsInside, stun_attr_get_first_by_type_str-Ends,
}
use p2p_cluster.Stun.Attr.Start.{stun_init_command_str-IsMessage}
use p2p_cluster.Stun.Attr.Add.{AddCase, stun_attr_add_str-AddCase}
use p2p_cluster.Stun.Attr.Values.{
  stun_attribute_address_error_code, stun_attr_add_channel_number_str, stun_attr_add_bandwidth_str,
  stun_attr_add_address_error_code, stun_attr_get_address_error_code, address_error_len,
  get_default_reason, reasons, reason_in,
}
use p2p_cluster.Stun.Attr.Values.Laws.{address_error_code_not_read}
use p2p_cluster.Stun.Channel.{
  stun_init_channel_message_str, stun_is_channel_message_str, padding_ok,
}
use p2p_cluster.Stun.Channel.Laws.{channel_message_round_trip}
use p2p_cluster.Stun.Framing.{stun_get_message_len_str, stun_frame}
use p2p_cluster.Stun.Framing.Laws.{IsStunStart, stun_get_message_len_str-le}
use p2p_cluster.Stun.Lifetime.{stun_adjust_allocate_lifetime}
use p2p_cluster.Stun.Lifetime.Laws.{IsAdjusted, stun_adjust_allocate_lifetime-IsAdjusted}

abbrev zeros : Mem
zeros i = 0

zeros-IsBytes : IsBytes zeros
zeros-IsBytes i = omega arith

abbrev ones : Mem
ones i = 1

ones-IsBytes : IsBytes ones
ones-IsBytes i = omega arith

-- A binding request
abbrev binding : Message
binding = stun_init_command_str (make request 1) zeros ones

binding-IsMessage : IsMessage binding
binding-IsMessage =
    stun_init_command_str-IsMessage request 1 zeros ones (omega arith) zeros-IsBytes ones-IsBytes

stun_attr_add_str-AddCase_example :
    AddCase binding 6 ones 5 (stun_attr_add_str binding 6 (some ones) 5)
stun_attr_add_str-AddCase_example =
    stun_attr_add_str-AddCase 6 (some ones) 5 binding-IsMessage (omega arith) ones-IsBytes

stun_attr_get_first_by_type_str_lem_example :
    Ends binding.buf binding.len 6
      (stun_attr_get_first_str binding.buf binding.len)
      (stun_attr_get_first_by_type_str binding.buf binding.len 6)
    × (stun_attr_get_first_by_type_str binding.buf binding.len 6
        ≡ first_of_type 6 binding-IsMessage.tiles)
stun_attr_get_first_by_type_str_lem_example =
    stun_attr_get_first_by_type_str_lem 6 binding-IsMessage

stun_attr_get_first_by_type_str-Ends_example :
    Ends ones 300 7 (stun_attr_get_first_str ones 300) (stun_attr_get_first_by_type_str ones 300 7)
stun_attr_get_first_by_type_str-Ends_example =
    stun_attr_get_first_by_type_str-Ends ones 300 7 ones-IsBytes

-- A request with a CHANNEL-NUMBER
abbrev bound : Mem
bound =
    put16 (put16 (put16 (put32 (put16 (put16 zeros 0 9) 2 8) 4 0x2112A442) 20 0x000C) 22 4) 24
      0x4001

bound-IsBytes : IsBytes bound
unfolding put16 put32
bound-IsBytes i = ground arith

bound_found : stun_attr_get_first_by_type_str bound 28 0x000C ≡ some 20
unfolding stun_attr_get_first_by_type_str find_by_type stun_attr_get_first_str stun_attr_check_valid
    stun_get_command_message_len_str stun_attr_get_type stun_attr_get_len round4 get16 put16 put32
bound_found = refl

stun_attr_get_first_by_type_str-IsInside_example :
    IsInside bound 28 20 × (stun_attr_get_type bound 20 ≡ 0x000C)
stun_attr_get_first_by_type_str-IsInside_example =
    stun_attr_get_first_by_type_str-IsInside bound 28 0x000C bound-IsBytes bound_found

-- The message that an addition gave
abbrev sent : Added → Message
sent (added m) = m
sent _ = binding

binding-fresh : (t : ℕ) → stun_attr_get_first_by_type_str binding.buf binding.len t ≡ none
unfolding stun_attr_get_first_by_type_str find_by_type stun_attr_get_first_str
    stun_get_command_message_len_str get16 put16 put32 stun_init_command_str stun_init_buffer_str
    stun_tid_message_cpy
binding-fresh t = refl

channel_added :
    stun_attr_add_channel_number_str binding 0x4001
    ≡ added (sent (stun_attr_add_channel_number_str binding 0x4001))
unfolding stun_attr_add_channel_number_str stun_attr_add_str stun_get_command_message_len_str get16
    put16 put32 stun_init_command_str stun_init_buffer_str stun_tid_message_cpy pad4
channel_added = refl

bandwidth_added :
    stun_attr_add_bandwidth_str binding 1000
    ≡ added (sent (stun_attr_add_bandwidth_str binding 1000))
unfolding stun_attr_add_bandwidth_str stun_attr_add_str stun_get_command_message_len_str get16 put16
    put32 stun_init_command_str stun_init_buffer_str stun_tid_message_cpy pad4
bandwidth_added = refl

error_added :
    stun_attr_add_address_error_code binding 1 440
    ≡ (0, added (sent (stun_attr_add_address_error_code binding 1 440).1))
unfolding stun_attr_add_address_error_code stun_attr_add_str stun_get_command_message_len_str get16
    put16 put32 stun_init_command_str stun_init_buffer_str stun_tid_message_cpy pad4
    address_error_len get_default_reason reasons reason_in
error_added = refl

address_error_code_not_read_example :
    let m = sent (stun_attr_add_address_error_code binding 1 440).1 in
    stun_attr_get_address_error_code m.buf m.len ≡ none
address_error_code_not_read_example =
    address_error_code_not_read 1 440 binding-IsMessage
      (binding-fresh stun_attribute_address_error_code) error_added

channel_message_round_trip_example :
    (m : Message) × (stun_init_channel_message_str 0x4001 zeros 5 true ≡ some m)
    × (stun_is_channel_message_str m.buf m.len true ≡ (9, some 0x4001))
unfolding stun_valid_channel
channel_message_round_trip_example =
    channel_message_round_trip 0x4001 zeros 5 true true refl (omega arith) (λ e. e)

-- Channel data of four bytes
abbrev channel_bytes : Mem
channel_bytes = put16 (put16 zeros 0 0x4001) 2 4

channel_accepted : stun_is_channel_message_str channel_bytes 8 false ≡ (8, some 0x4001)
unfolding stun_is_channel_message_str padding_ok get16 put16 stun_valid_channel
channel_accepted = refl

-- The C library's functions, as far as these tests go
abbrev lower : ℕ → ℕ
lower c = c

abbrev number : Mem → ℕ
number s = 0

bound-IsStunStart : IsStunStart bound
unfolding starts_command stun_valid_channel get16 get32 put16 put32
bound-IsStunStart = record { command = refl; cookie = refl; aligned = refl }

bound_framed : stun_get_message_len_str lower number bound 30 true ≡ some (28, 28)
unfolding stun_get_message_len_str stun_frame starts_command stun_valid_channel get16 get32 put16
    put32
bound_framed = refl

stun_get_message_len_str-le_example : 28 ≤ 30
stun_get_message_len_str-le_example =
    stun_get_message_len_str-le lower number bound 30 true bound_framed

-- A header that announces 65520 bytes
abbrev long : Mem
long = put32 (put16 (put16 zeros 0 1) 2 65520) 4 0x2112A442

stun_adjust_allocate_lifetime-IsAdjusted_example :
    IsAdjusted 777 3600 700 (stun_adjust_allocate_lifetime 777 3600 700)
stun_adjust_allocate_lifetime-IsAdjusted_example =
    stun_adjust_allocate_lifetime-IsAdjusted 777 3600 700 (omega arith)
