-- ===== src/Stun/Framing.antt =====
-- Where a message ends in a stream of bytes, in coturn/src/client/ns_turn_msg.c: STUN, HTTP or
-- channel data. `tolower` and `strtoul` are the C library's.
pub mod Laws
use Prim.Native.Nat.{bit_and}
use p2p_cluster.Common.{
  ℕ, zero, suc, ◌+◌, ◌-◌, ◌*◌, ◌/◌, ◌%◌, ◌^◌, Bool, true, false, ltb, leb, ◌==◌, ◌&&◌, ◌||◌, not,
  if◌then◌else◌, Option, none, some, List, [], ◌∷◌,
}
use p2p_cluster.Common.Memory.{Mem, shift}
use p2p_cluster.Common.Text.{codes, length}
use p2p_cluster.Stun.Words.{get16, get32}
use p2p_cluster.Stun.Types.{stun_valid_channel}
use p2p_cluster.Stun.Header.{stun_header_length, stun_magic_cookie, starts_command}
use p2p_cluster.Stun.Channel.{pad16}

-- The first test: `len += STUN_HEADER_LENGTH` is on a uint16_t.
unfoldable pub stun_frame : Mem → ℕ → Option ℕ
stun_frame buf blen =
    let len = (get16 buf 2 + stun_header_length) % 2 ^ 16 in
    if leb stun_header_length blen
      && (starts_command buf
          && (get32 buf 4 == stun_magic_cookie
              && (bit_and (get16 buf 2) 0x0003 == 0 && leb len blen)))
    then some len
    else none

-- The last test, on a uint16_t too: the length of the frame and `*app_len`.
unfoldable pub channel_frame : Mem → ℕ → Bool → Option (ℕ × ℕ)
channel_frame buf blen padding =
    let app_len = (4 + get16 buf 2) % 2 ^ 16 in
    let bret = if padding then pad16 app_len else app_len in
    if leb 4 blen && (stun_valid_channel (get16 buf 0) && leb bret blen)
    then some (bret, app_len)
    else none

module _ (tolower : ℕ → ℕ) (strtoul : Mem → ℕ) where
  -- Does `full` begin with `head`?
  unfoldable pub sheadof : List ℕ → Mem → Bool → Bool
  sheadof [] full ignore_case = true
  sheadof (c ∷ head) full ignore_case =
      let rest = sheadof head (shift full 1) ignore_case in
      if c == full 0 || ignore_case && tolower c == tolower (full 0) then rest else false

  -- The loop of `findstr`, over the positions that are left.
  unfoldable pub find_at : ℕ → ℕ → Mem → List ℕ → Bool → Option ℕ
  find_at zero i hay needle ignore_case = none
  find_at (suc n) i hay needle ignore_case =
      let rest = find_at n (i + 1) hay needle ignore_case in
      if sheadof needle (shift hay i) ignore_case then some i else rest

  -- The offset of the first `needle` within `slen` bytes; `hay` and `needle` are not NULL.
  unfoldable pub findstr : Mem → ℕ → List ℕ → Bool → Option ℕ
  findstr hay slen needle ignore_case =
      let nlen = length needle in
      if slen == 0 || ltb slen nlen
      then none
      else find_at (slen - nlen + 1) 0 hay needle ignore_case

  -- strstr(s, word) == s: the first occurrence is at the start if there is one there.
  unfoldable pub is_method : Mem → Bool
  is_method s =
      sheadof (codes "GET ") s false
      || (sheadof (codes "POST ") s false
          || (sheadof (codes "DELETE ") s false || sheadof (codes "PUT ") s false))

  -- The end of the headers is at `sp`; the length with the body that they announce.
  unfoldable pub with_body : Mem → ℕ → ℕ
  with_body s sp = elim (findstr s sp (codes "content-length: ") true) [
    | none ↦ sp + 4
    | some cl ↦
        let clen = strtoul (shift s (cl + 16)) in
        if ltb 0 clen && ltb clen 0x0FFFFFFF then sp + 4 + clen else sp + 4
  ]

  -- 0 if it is none.
  unfoldable pub is_http : Mem → ℕ → ℕ
  is_http s blen =
      if leb 12 blen && is_method s
      then elim (findstr (shift s 4) (blen - 4) (codes " HTTP/") false) [
        | none ↦ 0
        | some k ↦
            let diff_blen = 4 + k + 6 in
            if leb (diff_blen + 4) blen
            then elim (findstr (shift s diff_blen) (blen - diff_blen) (13 ∷ 10 ∷ 13 ∷ 10 ∷ [])
                false) [ none ↦ 0 | some j ↦ with_body s (diff_blen + j) ]
            else 0
      ]
      else 0

  -- The length of the first message in the buffer and `*app_len`; `none` is -1, after which the
  -- callers do not look at `*app_len`. `buf` is not NULL.
  unfoldable pub stun_get_message_len_str : Mem → ℕ → Bool → Option (ℕ × ℕ)
  stun_get_message_len_str buf blen padding =
      let http_len = is_http buf blen in
      if blen == 0 then none else elim (stun_frame buf blen) [
        | some len ↦ some (len, len)
        | none ↦
            if ltb 0 http_len && leb http_len blen
            then some (http_len, http_len)
            else channel_frame buf blen padding
      ]
