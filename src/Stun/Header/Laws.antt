-- ===== src/Stun/Header/Laws.antt =====
-- What the start of a message is recognised as.
use p2p_cluster.Common.{ℕ, ◌<◌, ◌≡◌, refl, Bool, true, false, some, arith, ◌∙◌}
use p2p_cluster.Common.Tables.{bit_and_mask14, bit_and_top_bits}
use p2p_cluster.Common.Memory.{Mem}
use p2p_cluster.Stun.Words.{get16, get32, put16, put32}
use p2p_cluster.Stun.Types.{
  stun_valid_channel, stun_get_msg_type_str, stun_get_method_str, is_channel_msg_str,
  stun_is_request_str, stun_is_indication_str, stun_is_success_response_str, stun_is_error_type_str,
}
use p2p_cluster.Stun.Types.Laws.{
  Class, request, indication, success, error, same, make, is_class, make-IsType,
}
use p2p_cluster.Stun.Header.{
  Message, stun_header_length, stun_magic_cookie, stun_tid_size, stun_get_command_message_len_str,
  starts_command, stun_is_command_message_str, stun_init_buffer_str, stun_tid_message_cpy,
  stun_tid_from_message_str, stun_init_command_str,
}

-- The first byte of a type below 0x4000
top_lt : (buf : Mem) → get16 buf 0 < 0x4000 → buf 0 < 64
unfolding get16
top_lt buf h = omega arith

-- What a message says of itself after its start was written.
pub record IsStarted (t : ℕ) (m : Message) : Type 0 where
  pub len_lem : m.len ≡ stun_header_length
  pub type_lem : get16 m.buf 0 ≡ t
  pub body_lem : get16 m.buf 2 ≡ 0
  pub cookie_lem : get32 m.buf 4 ≡ stun_magic_cookie

pub stun_init_command_str-IsStarted :
    (t : ℕ) (buf tid : Mem) → t < 0x4000 → IsStarted t (stun_init_command_str t buf tid)
unfolding stun_init_command_str stun_init_buffer_str stun_tid_message_cpy get16 get32 put16 put32
stun_init_command_str-IsStarted t buf tid h = record {
  len_lem = refl;
  type_lem = ground (arith, bit_and_mask14 t h);
  body_lem = ground arith;
  cookie_lem = ground arith;
}

-- It is a STUN message by the code's recogniser, and no channel data.
IsStarted-command :
    {t : ℕ} {m : Message}
    → t < 0x4000
    → IsStarted t m
    → (stun_is_command_message_str m.buf m.len ≡ true) × (is_channel_msg_str m.buf m.len ≡ false)
unfolding stun_is_command_message_str starts_command is_channel_msg_str stun_valid_channel
IsStarted-command {t} {m} h s = (
  ground (arith, s, bit_and_top_bits (m.buf 0) (top_lt m.buf (omega (arith, s.type_lem)))),
  ground (arith, s),
)

-- The four tests of a message's class
abbrev pub is_class_str : Class → Mem → ℕ → Bool
is_class_str request = stun_is_request_str
is_class_str indication = stun_is_indication_str
is_class_str success = stun_is_success_response_str
is_class_str error = stun_is_error_type_str

class_of_type :
    (d : Class) (m : Message)
    → stun_get_msg_type_str m.buf m.len ≡ get16 m.buf 0
    → is_channel_msg_str m.buf m.len ≡ false
    → is_class_str d m.buf m.len ≡ is_class d (get16 m.buf 0)
unfolding stun_is_request_str stun_is_indication_str stun_is_success_response_str
    stun_is_error_type_str
class_of_type request m t ch = rw (t, ch)
class_of_type indication m t ch = rw (t, ch)
class_of_type success m t ch = rw (t, ch)
class_of_type error m t ch = rw (t, ch)

IsStarted-type :
    {t : ℕ} {m : Message}
    → t < 0x4000
    → IsStarted t m
    → stun_get_msg_type_str m.buf m.len ≡ get16 m.buf 0
unfolding stun_get_msg_type_str
IsStarted-type {t} {m} h s = ground (arith, s, bit_and_mask14 (get16 m.buf 0))

-- What a reader finds at the start of a message of class `c` and method `method`.
pub record Recognised (c : Class) (method : ℕ) (tid : Mem) (m : Message) : Type 0 where
  pub command : stun_is_command_message_str m.buf m.len ≡ true
  pub no_channel : is_channel_msg_str m.buf m.len ≡ false
  pub method_lem : stun_get_method_str m.buf m.len ≡ method
  pub class_lem : (d : Class) → is_class_str d m.buf m.len ≡ same c d
  pub whole : stun_get_command_message_len_str m.buf m.len ≡ some m.len
  pub transaction : (i : ℕ) → i < stun_tid_size → stun_tid_from_message_str m.buf i ≡ tid i

-- Whatever was in the buffer, `stun_init_command_str` on the type that the library makes for a class
-- and one of the 4096 methods gives a message of 20 bytes that the library's own recogniser takes
-- for a STUN message and not for channel data, from which it reads that method, that class and no
-- other, the full length and the transaction id.
pub stun_init_command_str-Recognised :
    (c : Class) (method : ℕ) (buf tid : Mem)
    → method < 4096
    → Recognised c method tid (stun_init_command_str (make c method) buf tid)
unfolding stun_get_method_str
stun_init_command_str-Recognised c method buf tid h =
    let t = make-IsType c method h in
    let m = stun_init_command_str (make c method) buf tid in
    let s = stun_init_command_str-IsStarted (make c method) buf tid t.2 in
    let r = IsStarted-command t.2 s in
    record {
      command = r.0;
      no_channel = r.1;
      method_lem = rw (s.len_lem, s.type_lem) t.0;
      class_lem = λ d. class_of_type d m (IsStarted-type t.2 s) r.1 ∙ rw s.type_lem (t.1 d);
      whole = unfold stun_get_command_message_len_str in rw (s.len_lem, s.body_lem);
      transaction = λ i lt. copied i lt;
    }
  where
    copied :
        (i : ℕ)
        → i < stun_tid_size
        → stun_tid_from_message_str (stun_init_command_str (make c method) buf tid).buf i ≡ tid i
    copied i lt =
        unfold stun_tid_from_message_str stun_init_command_str stun_tid_message_cpy in ground arith
