-- ===== src/Stun/Framing/Laws.antt =====
-- What the reader of a stream takes off it.
use p2p_cluster.Common.{ℕ, ◌+◌, ◌*◌, ◌/◌, ◌%◌, ◌^◌, ◌≤◌, ◌≡◌, Bool, true, false, none, some, arith}
use p2p_cluster.Common.Memory.{Mem}
use p2p_cluster.Stun.Words.{get16, get32}
use p2p_cluster.Stun.Types.{stun_valid_channel}
use p2p_cluster.Stun.Header.{stun_magic_cookie, starts_command}
use p2p_cluster.Stun.Channel.{pad16}
use p2p_cluster.Stun.Channel.Laws.{pad16_lem}
use p2p_cluster.Stun.Framing.{is_http, stun_frame, channel_frame, stun_get_message_len_str}

-- The start of a STUN message with the RFC 5389 cookie.
pub record IsStunStart (buf : Mem) : Type 0 where
  pub command : starts_command buf ≡ true
  pub cookie : get32 buf 4 ≡ stun_magic_cookie
  pub aligned : get16 buf 2 % 4 ≡ 0

-- The length of a ChannelData message with `n` bytes of payload
abbrev pub padded_len : Bool → ℕ → ℕ
padded_len true n = 4 + (n + 3) / 4 * 4
padded_len false n = 4 + n

padded_len-ge : (padding : Bool) (n : ℕ) → 4 ≤ padded_len padding n
padded_len-ge true n = omega arith
padded_len-ge false n = omega arith

no_stun_frame :
    (buf : Mem) (blen : ℕ) → stun_valid_channel (get16 buf 0) ≡ true → stun_frame buf blen ≡ none
unfolding stun_frame starts_command
no_stun_frame buf blen v = ground (arith, v)

channel_frame_lem :
    (buf : Mem) (blen : ℕ) (padding : Bool)
    → stun_valid_channel (get16 buf 0) ≡ true
    → get16 buf 2 ≤ 65528
    → padded_len padding (get16 buf 2) ≤ blen
    → channel_frame buf blen padding ≡ some (padded_len padding (get16 buf 2), 4 + get16 buf 2)
unfolding channel_frame
channel_frame_lem buf blen true v small fits =
    let m : (4 + get16 buf 2) % 2 ^ 16 ≡ 4 + get16 buf 2 = omega arith in
    let p : pad16 (4 + get16 buf 2) ≡ 4 + (get16 buf 2 + 3) / 4 * 4 =
      omega (arith, pad16_lem (4 + get16 buf 2) (omega arith)) in
    rw (m, p, v) (ground arith)
channel_frame_lem buf blen false v small fits =
    let m : (4 + get16 buf 2) % 2 ^ 16 ≡ 4 + get16 buf 2 = omega arith in rw (m, v) (ground arith)

module _ (tolower : ℕ → ℕ) (strtoul : Mem → ℕ) where
  -- A frame never reaches beyond the bytes in the buffer.
  pub stun_get_message_len_str-le :
      (buf : Mem) (blen : ℕ) (padding : Bool) {n app : ℕ}
      → stun_get_message_len_str tolower strtoul buf blen padding ≡ some (n, app)
      → n ≤ blen
  unfolding stun_get_message_len_str stun_frame channel_frame
  stun_get_message_len_str-le buf blen padding e = ground arith

  -- Channel data whose length field is at most 65528, with its padding if the stream has it, is
  -- framed exactly where the bytes are no HTTP request: the frame counts the padding, `*app_len`
  -- does not.
  pub channel_message_framed :
      (buf : Mem) (blen : ℕ) (padding : Bool)
      → stun_valid_channel (get16 buf 0) ≡ true
      → is_http tolower strtoul buf blen ≡ 0
      → get16 buf 2 ≤ 65528
      → padded_len padding (get16 buf 2) ≤ blen
      → stun_get_message_len_str tolower strtoul buf blen padding
        ≡ some (padded_len padding (get16 buf 2), 4 + get16 buf 2)
  unfolding stun_get_message_len_str
  channel_message_framed buf blen padding v http small fits = ground (
    arith,
    padded_len-ge padding (get16 buf 2),
    http,
    no_stun_frame buf blen v,
    channel_frame_lem buf blen padding v small fits,
  )
