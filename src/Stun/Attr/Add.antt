-- ===== src/Stun/Attr/Add.antt =====
-- `stun_attr_add_str`: the message stays well formed and holds one attribute more, at its end.
use p2p_cluster.Common.{
  ℕ, ◌+◌, ◌-◌, ◌*◌, ◌/◌, ◌%◌, ◌^◌, ◌<◌, ◌≤◌, ◌≡◌, refl, ltb, leb, ◌==◌, if◌then◌else◌, Option, none,
  some, arith, ◌∙◌, ap, Bool-cases, inl, inr, ◌⊎◌,
}
use p2p_cluster.Common.Memory.{Mem}
use p2p_cluster.Stun.Words.{IsBytes, get16, put16, put16-IsBytes, blit-IsBytes}
use p2p_cluster.Stun.Header.{
  Message, stun_header_length, max_stun_message_size, stun_set_command_message_len_str,
}
use p2p_cluster.Stun.Attr.{
  stun_attr_get_type, stun_attr_get_len, round4, pad4, stun_attr_get_first_by_type_str, Added,
  added, too_long, add_len, add_value, write_attr, stun_attr_add_str,
}
use p2p_cluster.Stun.Attr.Walk.{
  round4_lem, pad4_lem, pad4-le, attr_end, Tiles, stop, more, first_of_type, IsMessage,
  IsMessage-len, stun_attr_get_first_by_type_str_lem,
}

-- The first of two that is there.
abbrev pub or_else : Option ℕ → Option ℕ → Option ℕ
or_else none b = b
or_else (some a) b = some a

-- What the caller hands over as the value, once the length is known.
module _ (buf : Mem) (clen newlen attr : ℕ) (value : Mem) (alen : ℕ)
    (behind : stun_header_length ≤ clen) (fits : clen + 4 + alen ≤ newlen)
    (max : newlen < max_stun_message_size) where
  wrote : Mem
  wrote = write_attr buf clen newlen attr value alen

  -- Bytes in front of the new attribute stay, but for the length field.
  wrote_before : (i : ℕ) → i < clen → (i < 2) ⊎ (4 ≤ i) → wrote i ≡ buf i
  unfolding wrote write_attr stun_set_command_message_len_str put16
  wrote_before i h k = ground arith

  wrote-get16 :
      (off : ℕ) → stun_header_length ≤ off → off + 2 ≤ clen → get16 wrote off ≡ get16 buf off
  unfolding get16
  wrote-get16 off h k = rw (
    wrote_before off (omega arith) (inr (omega arith)),
    wrote_before (off + 1) (omega arith) (inr (omega arith)),
  )

  wrote_stated : get16 wrote 2 + stun_header_length ≡ newlen
  unfolding wrote write_attr stun_set_command_message_len_str put16 get16
  wrote_stated = ground arith

  wrote_type : attr < 2 ^ 16 → get16 wrote clen ≡ attr
  unfolding wrote write_attr stun_set_command_message_len_str put16 get16
  wrote_type h = ground arith

  wrote_len : get16 wrote (clen + 2) ≡ alen
  unfolding wrote write_attr stun_set_command_message_len_str put16 get16
  wrote_len = ground arith

  wrote_value : (i : ℕ) → i < alen → wrote (clen + 4 + i) ≡ value i
  unfolding wrote write_attr stun_set_command_message_len_str put16
  wrote_value i h =
      let e : clen + 4 + i - (clen + 4) ≡ i = omega arith in ground (arith, ap value e)

  wrote-IsBytes : IsBytes buf → IsBytes value → IsBytes wrote
  unfolding wrote write_attr stun_set_command_message_len_str
  wrote-IsBytes h k = elim (Bool-cases (ltb 0 alen)) [
    | inl t ↦ rw (t, write_attr) (blit-IsBytes _ value (clen + 4) alen head k)
    | inr f ↦ rw (f, write_attr) head
  ]
    where
      head : IsBytes (
          put16
            (put16 (put16 buf 2 ((newlen - stun_header_length) % 2 ^ 16)) clen attr)
            (clen + 2)
            (alen % 2 ^ 16))
      head = put16-IsBytes _ _ _ (put16-IsBytes _ _ _ (put16-IsBytes _ _ _ h))

  wrote_end : attr_end wrote clen ≡ clen + 4 + round4 alen
  unfolding stun_attr_get_len
  wrote_end = ap (λ n. clen + 4 + round4 n) wrote_len

  kept_end :
      (off : ℕ) → stun_header_length ≤ off → off + 4 ≤ clen → attr_end wrote off ≡ attr_end buf off
  unfolding stun_attr_get_len
  kept_end off h k =
      ap (λ n. off + 4 + round4 n) (wrote-get16 (off + 2) (omega arith) (omega arith))

  kept_type :
      (off : ℕ)
      → stun_header_length ≤ off
      → off + 2 ≤ clen
      → stun_attr_get_type wrote off ≡ stun_attr_get_type buf off
  unfolding stun_attr_get_type
  kept_type off h k = wrote-get16 off h k

  module _ (rounded : newlen ≡ clen + 4 + round4 alen) where
    Tiles-on : (off : ℕ) → stun_header_length ≤ off → Tiles buf clen off → Tiles wrote newlen off
    Tiles-on off h (stop e) =
        rw e (more (omega (arith, wrote_end)) (stop (omega (arith, wrote_end))))
    Tiles-on off h (more le rest) =
        let e = kept_end off h (omega arith) in
        more (omega (arith, e)) (rw e (Tiles-on _ (omega arith) rest))

    past_end :
        (t : ℕ) {off : ℕ} (s : Tiles wrote newlen off) → newlen ≤ off → first_of_type t s ≡ none
    unfolding first_of_type
    past_end t (stop e) h = refl
    past_end t (more le rest) h = absurd (omega arith)

    -- The new attribute comes last in the sequence.
    first_on :
        (t off off' : ℕ)
        → stun_header_length ≤ off
        → attr < 2 ^ 16
        → off' ≡ off
        → (s : Tiles buf clen off) (s' : Tiles wrote newlen off')
        → first_of_type t s' ≡ or_else (first_of_type t s) (if attr == t then some clen else none)
    unfolding first_of_type
    first_on t off off' h a e (stop x) (stop y) = absurd (omega arith)
    first_on t off off' h a e (stop x) (more le' rest') =
        let p =
          past_end t rest' (
            let q : off' ≡ clen = omega arith in omega (arith, ap (attr_end wrote) q, wrote_end)) in
        let q : stun_attr_get_type wrote off' ≡ attr =
          unfold stun_attr_get_type in
          ap (get16 wrote) (let q : off' ≡ clen = omega arith in q) ∙ wrote_type a in
        rw (p, q) (ground arith)
    first_on t off off' h a e (more le rest) (stop y) = absurd (omega arith)
    first_on t off off' h a e (more le rest) (more le' rest') =
        let end : attr_end wrote off' ≡ attr_end buf off =
          ap (attr_end wrote) e ∙ kept_end off h (omega arith) in
        let type : stun_attr_get_type wrote off' ≡ stun_attr_get_type buf off =
          ap (stun_attr_get_type wrote) e ∙ kept_type off h (omega arith) in
        rw
          (first_on t (attr_end buf off) (attr_end wrote off') (omega arith) a end rest rest', type)
          (ground arith)

-- The message `m'` is `m` with one attribute more at its end.
pub record Appended (m m' : Message) (attr : ℕ) (value : Mem) (alen : ℕ) : Type 0 where
  pub message : IsMessage m'
  pub grows : m'.len ≡ m.len + 4 + (alen + 3) / 4 * 4
  pub type_lem : stun_attr_get_type m'.buf m.len ≡ attr
  pub length_lem : stun_attr_get_len m'.buf m.len ≡ alen
  pub value_lem : (i : ℕ) → i < alen → m'.buf (m.len + 4 + i) ≡ value i
  pub kept : (i : ℕ) → i < m.len → (i < 2) ⊎ (4 ≤ i) → m'.buf i ≡ m.buf i
  pub search :
      (t : ℕ)
      → stun_attr_get_first_by_type_str m'.buf m'.len t
        ≡ or_else
            (stun_attr_get_first_by_type_str m.buf m.len t)
            (if attr == t then some m.len else none)

module _ {m : Message} (attr : ℕ) (value : Mem) (alen : ℕ) (v : IsMessage m) (small : attr < 2 ^ 16)
    (bytes : IsBytes value) where
  newlen : ℕ
  newlen = pad4 (m.len + 4 + alen)

  module _ (max : newlen < max_stun_message_size) where
    behind : stun_header_length ≤ m.len
    behind = omega (arith, v.stated)

    fits : m.len + 4 + alen ≤ newlen
    unfolding newlen
    fits = pad4-le (m.len + 4 + alen)

    newlen_lem : newlen ≡ m.len + 4 + (alen + 3) / 4 * 4
    unfolding newlen
    newlen_lem =
        omega (arith, fits, max, v.aligned, pad4_lem (m.len + 4 + alen) (omega (arith, fits)))

    rounded : newlen ≡ m.len + 4 + round4 alen
    rounded = omega (arith, newlen_lem, round4_lem alen (omega (arith, fits)))

    result : Message
    result = record { buf = wrote m.buf m.len newlen attr value alen behind fits max; len = newlen }

    result-IsMessage : IsMessage result
    unfolding result
    result-IsMessage = record {
      bytes = wrote-IsBytes m.buf m.len newlen attr value alen behind fits max v.bytes bytes;
      stated = wrote_stated m.buf m.len newlen attr value alen behind fits max;
      aligned = omega (arith, newlen_lem, v.aligned);
      tiles =
          Tiles-on m.buf m.len newlen attr value alen behind fits max rounded stun_header_length
            (omega arith) v.tiles;
    }

    result-Appended : Appended m result attr value alen
    unfolding result
    result-Appended = record {
      message = result-IsMessage;
      grows = newlen_lem;
      type_lem =
          unfold stun_attr_get_type in
          wrote_type m.buf m.len newlen attr value alen behind fits max small;
      length_lem =
          unfold stun_attr_get_len in wrote_len m.buf m.len newlen attr value alen behind fits max;
      value_lem = wrote_value m.buf m.len newlen attr value alen behind fits max;
      kept = wrote_before m.buf m.len newlen attr value alen behind fits max;
      search = λ t. rw (stun_attr_get_first_by_type_str_lem t v).1 (
          (stun_attr_get_first_by_type_str_lem t result-IsMessage).1
          ∙ first_on m.buf m.len newlen attr value alen behind fits max rounded t stun_header_length
              stun_header_length (omega arith) small refl v.tiles result-IsMessage.tiles);
    }

refused_length :
    (len n : ℕ)
    → len % 4 ≡ 0
    → max_stun_message_size ≤ pad4 (len + 4 + n)
    → max_stun_message_size ≤ len + 4 + (n + 3) / 4 * 4
refused_length len n a h = elim (Bool-cases (ltb (len + 4 + n) (2 ^ 16))) [
  | inl lt ↦
      let lt' : len + 4 + n < 2 ^ 16 = ground arith in omega (arith, pad4_lem (len + 4 + n) lt')
  | inr ge ↦ let ge' : 2 ^ 16 ≤ len + 4 + n = ground arith in omega arith
]

-- What `stun_attr_add_str` does to a well-formed message.
pub data AddCase (m : Message) (attr : ℕ) (value : Mem) (alen : ℕ) : Added → Type 0 where
  appends :
      (m' : Message)
      → m.len + 4 + (alen + 3) / 4 * 4 < max_stun_message_size
      → Appended m m' attr value alen
      → AddCase m attr value alen (added m')
  refuses :
      max_stun_message_size ≤ m.len + 4 + (alen + 3) / 4 * 4 → AddCase m attr value alen too_long

-- From a well-formed message `stun_attr_add_str` never writes before the buffer. It refuses exactly
-- when the message would reach 65507 bytes. Otherwise the message is well formed again and longer by
-- the attribute's header and its value rounded up to four bytes; the new attribute has the type,
-- length and value given, all bytes in front of it but the length field are kept, and a search by
-- any type finds what it found before, and the new attribute where it found nothing and the type is
-- the new one's.
pub stun_attr_add_str-AddCase :
    {m : Message} (attr : ℕ) (value : Option Mem) (alen : ℕ)
    → IsMessage m
    → attr < 2 ^ 16
    → IsBytes (add_value value)
    → AddCase m attr (add_value value) (add_len value alen) (stun_attr_add_str m attr value alen)
unfolding stun_attr_add_str result newlen wrote
stun_attr_add_str-AddCase {m} attr value alen v small bytes =
    let n = add_len value alen in
    rw (IsMessage-len v, stun_attr_add_str)
      (elim (Bool-cases (leb max_stun_message_size (pad4 (m.len + 4 + n)))) [
        | inl big ↦ rw big (refuses (refused_length m.len n v.aligned (ground arith)))
        | inr fine ↦
            let lt : newlen attr (add_value value) n v small bytes < max_stun_message_size =
              ground arith in
            rw fine (
              appends _ (omega (arith, newlen_lem attr (add_value value) n v small bytes lt))
                (result-Appended attr (add_value value) n v small bytes lt))
      ])
