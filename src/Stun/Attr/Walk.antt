-- ===== src/Stun/Attr/Walk.antt =====
-- The walk over a message's attributes against the sequence of attributes that the message holds.
use p2p_cluster.Common.{
  ℕ, zero, suc, ◌+◌, ◌-◌, ◌*◌, ◌/◌, ◌%◌, ◌^◌, ◌<◌, ◌≤◌, ◌≡◌, refl, sym, subst, true, false,
  Bool-cases, ◌==◌, if◌then◌else◌, Option, none, some, inl, inr, arith,
}
use p2p_cluster.Common.Tables.{bit_and_mask2}
use p2p_cluster.Common.Memory.{Mem}
use p2p_cluster.Stun.Words.{IsBytes, get16}
use p2p_cluster.Stun.Header.{Message, stun_header_length, stun_get_command_message_len_str}
use p2p_cluster.Stun.Attr.{
  stun_attr_get_type, stun_attr_get_len, round4, pad4, stun_attr_check_valid,
  stun_attr_get_first_str, stun_attr_get_next_str, find_by_type, stun_attr_get_first_by_type_str,
}

pub round4_lem : (x : ℕ) → x < 2 ^ 16 → round4 x ≡ (x + 3) / 4 * 4
unfolding round4
round4_lem x h = ground (arith, bit_and_mask2 x h)

pub pad4_lem : (x : ℕ) → x < 2 ^ 16 → pad4 x ≡ (x + 3) / 4 * 4
unfolding pad4
pad4_lem x h = ground (arith, bit_and_mask2 x h)

pub pad4-le : (x : ℕ) → x ≤ pad4 x
unfolding pad4
pad4-le x = ground arith

-- Where the attribute at `off` ends
abbrev pub attr_end : Mem → ℕ → ℕ
attr_end buf off = off + 4 + round4 (stun_attr_get_len buf off)

-- From `off` on the buffer is a sequence of attributes that ends exactly at `end`.
pub data Tiles (buf : Mem) (end : ℕ) : ℕ → Type 0 where
  stop : {off : ℕ} → off ≡ end → Tiles buf end off
  more : {off : ℕ} → attr_end buf off ≤ end → Tiles buf end (attr_end buf off) → Tiles buf end off

-- The first attribute of a type, by recursion on the sequence.
unfoldable pub first_of_type : {buf : Mem} {end off : ℕ} → ℕ → Tiles buf end off → Option ℕ
first_of_type t (stop e) = none
first_of_type {buf} {off = off} t (more h rest) =
    let later = first_of_type t rest in if stun_attr_get_type buf off == t then some off else later

-- A message whose header states its length, and whose body is a sequence of attributes.
pub record IsMessage (m : Message) : Type 0 where
  pub bytes : IsBytes m.buf
  pub stated : get16 m.buf 2 + stun_header_length ≡ m.len
  pub aligned : m.len % 4 ≡ 0
  pub tiles : Tiles m.buf m.len stun_header_length

pub IsMessage-len :
    {m : Message} → IsMessage m → stun_get_command_message_len_str m.buf m.len ≡ some m.len
unfolding stun_get_command_message_len_str
IsMessage-len v = ground (arith, v.stated)

-- Where the walk is when the rest of the sequence begins at `off`.
abbrev at_tiles : {buf : Mem} {end off : ℕ} → Tiles buf end off → Option ℕ
at_tiles (stop e) = none
at_tiles {off = off} (more h rest) = some off

check_valid-tiles :
    (buf : Mem) (end off : ℕ)
    → off + 4 ≤ end
    → attr_end buf off ≤ end
    → stun_attr_check_valid buf off (end - off) ≡ some off
unfolding stun_attr_check_valid
check_valid-tiles buf end off a b = ground arith

next-Tiles :
    {m : Message} (off : ℕ)
    → IsMessage m
    → (rest : Tiles m.buf m.len (attr_end m.buf off))
    → stun_attr_get_next_str m.buf m.len off ≡ at_tiles rest
unfolding stun_attr_get_next_str
next-Tiles off v (stop e) = rw (IsMessage-len v, stun_attr_get_next_str) (ground arith)
next-Tiles {m} off v (more h rest) =
    rw (IsMessage-len v, stun_attr_get_next_str)
      (ground (arith, check_valid-tiles m.buf m.len (attr_end m.buf off)))

first-Tiles :
    {m : Message}
    → IsMessage m
    → (t : Tiles m.buf m.len stun_header_length) → stun_attr_get_first_str m.buf m.len ≡ at_tiles t
unfolding stun_attr_get_first_str
first-Tiles v (stop e) = rw (IsMessage-len v, stun_attr_get_first_str) (ground arith)
first-Tiles {m} v (more h rest) =
    rw (IsMessage-len v, stun_attr_get_first_str)
      (ground (arith, check_valid-tiles m.buf m.len stun_header_length))

find-Tiles :
    {m : Message} (fuel : ℕ) (t : ℕ) {off : ℕ}
    → IsMessage m
    → (s : Tiles m.buf m.len off) → m.len - off ≤ fuel
    → find_by_type fuel m.buf m.len t (at_tiles s) ≡ first_of_type t s
unfolding find_by_type first_of_type
find-Tiles zero t v (stop e) h = refl
find-Tiles (suc fuel) t v (stop e) h = refl
find-Tiles zero t v (more le rest) h = absurd (omega arith)
find-Tiles (suc fuel) t v (more le rest) h =
    rw (next-Tiles _ v rest, find-Tiles fuel t v rest (omega arith))

-- The runs of the search, attribute by attribute, without fuel: one that goes on for ever has none.
pub data Ends (buf : Mem) (len t : ℕ) : Option ℕ → Option ℕ → Type 0 where
  not_found : Ends buf len t none none
  found :
      {attr : ℕ}
      → (stun_attr_get_type buf attr == t) ≡ true
      → Ends buf len t (some attr) (some attr)
  onward :
      {attr : ℕ} {r : Option ℕ}
      → (stun_attr_get_type buf attr == t) ≡ false
      → Ends buf len t (stun_attr_get_next_str buf len attr) r
      → Ends buf len t (some attr) r

-- One round of the search
pub round-Ends :
    (buf : Mem) (len t attr : ℕ) {rest : Option ℕ}
    → Ends buf len t (stun_attr_get_next_str buf len attr) rest
    → Ends buf len t (some attr) (if stun_attr_get_type buf attr == t then some attr else rest)
round-Ends buf len t attr e = elim (Bool-cases (stun_attr_get_type buf attr == t)) [
  | inl y ↦ rw y (found y)
  | inr n ↦ rw n (onward n e)
]

Tiles-Ends :
    {m : Message} (t : ℕ) {off : ℕ}
    → IsMessage m
    → (s : Tiles m.buf m.len off) → Ends m.buf m.len t (at_tiles s) (first_of_type t s)
unfolding first_of_type
Tiles-Ends t v (stop e) = not_found
Tiles-Ends {m} t v (more h rest) = round-Ends m.buf m.len t _ (
    subst (λ o. Ends m.buf m.len t o (first_of_type t rest)) (sym (next-Tiles _ v rest))
      (Tiles-Ends t v rest))

-- On a well-formed message the search by type, from the first attribute on, ends after finitely many
-- rounds, with what `stun_attr_get_first_by_type_str` returns; and that is the first attribute of the
-- type in the sequence of attributes, or nothing if there is none.
pub stun_attr_get_first_by_type_str_lem :
    {m : Message} (t : ℕ) (v : IsMessage m)
    → Ends m.buf m.len t
        (stun_attr_get_first_str m.buf m.len)
        (stun_attr_get_first_by_type_str m.buf m.len t)
      × (stun_attr_get_first_by_type_str m.buf m.len t ≡ first_of_type t v.tiles)
unfolding stun_attr_get_first_by_type_str
stun_attr_get_first_by_type_str_lem {m} t v =
    rw (first-Tiles v v.tiles)
      (let e = find-Tiles m.len t v v.tiles (omega arith) in (rw e (Tiles-Ends t v v.tiles), e))
