-- ===== src/Stun/Channel/Laws.antt =====
-- A ChannelData message that was made is recognised, and what is recognised lies in the buffer.
use p2p_cluster.Common.{
  ℕ, ◌+◌, ◌-◌, ◌*◌, ◌/◌, ◌%◌, ◌^◌, ◌<◌, ◌≤◌, ◌≡◌, Bool, true, false, ltb, if◌then◌else◌, some,
  arith, inl, ◌∙◌,
}
use p2p_cluster.Common.Memory.{Mem}
use p2p_cluster.Common.Tables.{bit_and_mask2}
use p2p_cluster.Stun.Words.{get16, put16, get16-put16_self, get16-put16_ne}
use p2p_cluster.Stun.Types.{stun_valid_channel}
use p2p_cluster.Stun.Header.{Message}
use p2p_cluster.Stun.Channel.{
  pad16, stun_init_channel_message_str, padding_ok, stun_is_channel_message_str,
}

-- A payload whose padded length is at the message limit's last three bytes would need more than
-- 65535 bytes; the limit excludes it.
pub pad16_lem : (n : ℕ) → n < 2 ^ 16 - 3 → pad16 n ≡ (n + 3) / 4 * 4
unfolding pad16
pad16_lem n h = ground (arith, bit_and_mask2 n)

padding_ok-made :
    (n : ℕ) (do_padding mandatory : Bool)
    → n ≤ 65503
    → (mandatory ≡ true → do_padding ≡ true)
    → padding_ok n (if do_padding then pad16 n else n) mandatory ≡ true
unfolding padding_ok
padding_ok-made n false mandatory h m = ground arith
padding_ok-made n true mandatory h m =
    rw (pad16_lem n (omega arith)) (ground (arith, bit_and_mask2 ((n + 3) / 4 * 4)))

-- What the recogniser makes of a header and a length that are in order
recognise :
    (buf : Mem) (blen chn header : ℕ) (mandatory : Bool)
    → get16 buf 0 ≡ chn
    → get16 buf 2 ≡ header
    → stun_valid_channel chn ≡ true
    → 4 ≤ blen
    → blen < 2 ^ 16
    → padding_ok header (blen - 4) mandatory ≡ true
    → stun_is_channel_message_str buf blen mandatory ≡ (header + 4, some chn)
unfolding stun_is_channel_message_str
recognise buf blen chn header mandatory c h v lo hi p =
    let s : ltb (2 ^ 16 - 1) blen ≡ false = ground arith in rw (c, h, s, v, p) (ground arith)

-- The length in use of a message that was made
made_len : (n : ℕ) (do_padding : Bool) → n ≤ 65503 → (if do_padding then pad16 n else n) ≤ 65531
made_len n false h = omega arith
made_len n true h = omega (arith, pad16_lem n (omega arith))

-- What `stun_init_channel_message_str` makes for a valid channel number and a payload that fits,
-- with or without padding, `stun_is_channel_message_str` recognises: it gives the channel number
-- back and sets the length to the header and the payload without the padding. A reader that
-- insists on padding is only promised a message that was padded.
pub channel_message_round_trip :
    (chnumber : ℕ) (buf : Mem) (length : ℕ) (do_padding mandatory : Bool)
    → stun_valid_channel chnumber ≡ true
    → length ≤ 65503
    → (mandatory ≡ true → do_padding ≡ true)
    → (m : Message) × (stun_init_channel_message_str chnumber buf length do_padding ≡ some m)
      × (stun_is_channel_message_str m.buf m.len mandatory ≡ (length + 4, some chnumber))
unfolding stun_init_channel_message_str stun_is_channel_message_str
channel_message_round_trip chnumber buf length do_padding mandatory valid fits pads =
    (made, ground arith, recognised)
  where
    made : Message
    made = record {
      buf = put16 (put16 buf 0 chnumber) 2 (length % 2 ^ 16);
      len = 4 + (if do_padding then pad16 (length % 2 ^ 16) else length % 2 ^ 16);
    }

    chn_lem : get16 made.buf 0 ≡ chnumber
    chn_lem =
        get16-put16_ne _ 0 2 (length % 2 ^ 16) (inl (omega arith))
        ∙ get16-put16_self buf 0 chnumber (unfold stun_valid_channel in ground arith)

    header_lem : get16 made.buf 2 ≡ length
    header_lem = get16-put16_self _ 2 (length % 2 ^ 16) (omega arith) ∙ omega arith

    recognised :
        stun_is_channel_message_str made.buf made.len mandatory ≡ (length + 4, some chnumber)
    recognised =
        let e : length % 2 ^ 16 ≡ length = omega arith in
        let n = if do_padding then pad16 length else length in
        let small : n ≤ 65531 = made_len length do_padding fits in
        let body : 4 + n - 4 ≡ n = omega arith in
        let len : made.len ≡ 4 + n = rw e in
        recognise made.buf made.len chnumber length mandatory chn_lem header_lem valid
          (omega (arith, len)) (omega (arith, len))
          (rw (e, body) (padding_ok-made length do_padding mandatory fits pads))

-- Whatever bytes arrive, what `stun_is_channel_message_str` accepts has a valid channel number, the
-- one in the first two bytes, and the length that it sets is that of the header and the payload and
-- lies within the bytes received.
pub stun_is_channel_message_str_sound :
    (buf : Mem) (blen : ℕ) (mandatory : Bool) {n chn : ℕ}
    → stun_is_channel_message_str buf blen mandatory ≡ (n, some chn)
    → (stun_valid_channel chn ≡ true) × (chn ≡ get16 buf 0) × (n ≡ get16 buf 2 + 4) × (n ≤ blen)
unfolding stun_is_channel_message_str padding_ok
stun_is_channel_message_str_sound buf blen mandatory e =
    (ground arith, ground arith, ground arith, ground arith)
