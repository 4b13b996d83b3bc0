-- ===== src/Stun/Attr/Bounds.antt =====
-- The walk over the attributes of any bytes that arrive, well formed or not.
use p2p_cluster.Common.{
  ℕ, zero, suc, ◌+◌, ◌-◌, ◌^◌, ◌<◌, ◌≤◌, ◌≡◌, refl, ltb, ◌==◌, Option, none, some, arith,
  Bool-cases, Option-cases, inl, inr,
}
use p2p_cluster.Common.Memory.{Mem}
use p2p_cluster.Stun.Words.{IsBytes, get16-lt}
use p2p_cluster.Stun.Header.{stun_header_length, stun_get_command_message_len_str}
use p2p_cluster.Stun.Attr.{
  stun_attr_get_type, stun_attr_get_len, round4, stun_attr_check_valid, stun_attr_get_first_str,
  stun_attr_get_next_str, find_by_type, stun_attr_get_first_by_type_str,
}
use p2p_cluster.Stun.Attr.Walk.{round4_lem, Ends, not_found, round-Ends}

-- The attribute lies behind the header and inside the bytes received, value included.
pub record IsInside (buf : Mem) (len attr : ℕ) : Type 0 where
  pub behind_header : stun_header_length ≤ attr
  pub inside : attr + 4 + stun_attr_get_len buf attr ≤ len

abbrev Inside? : Mem → ℕ → ℕ → Option ℕ → Type 0
Inside? buf len from none = Unit {0}
Inside? buf len from (some attr) = (from ≤ attr) × (attr + 4 + stun_attr_get_len buf attr ≤ len)

pub get_len-lt : (buf : Mem) (attr : ℕ) → IsBytes buf → stun_attr_get_len buf attr < 2 ^ 16
unfolding stun_attr_get_len
get_len-lt buf attr h = get16-lt buf (attr + 2) h

-- Rounding never shortens a length.
pub get_len-le-round4 :
    (buf : Mem) (attr : ℕ)
    → IsBytes buf
    → stun_attr_get_len buf attr ≤ round4 (stun_attr_get_len buf attr)
get_len-le-round4 buf attr h =
    omega (
      arith,
      get_len-lt buf attr h,
      round4_lem (stun_attr_get_len buf attr) (get_len-lt buf attr h),
    )

check_valid-Inside :
    (buf : Mem) (attr remaining len from : ℕ)
    → IsBytes buf
    → from ≤ attr
    → attr + remaining ≤ len
    → Inside? buf len from (stun_attr_check_valid buf attr remaining)
unfolding stun_attr_check_valid
check_valid-Inside buf attr remaining len from h f le = ground (arith, get_len-le-round4 buf attr h)

-- The header's length is that of the bytes at most.
message_len_bound :
    (buf : Mem) (len : ℕ) {n : ℕ} → stun_get_command_message_len_str buf len ≡ some n → n ≤ len
unfolding stun_get_command_message_len_str
message_len_bound buf len e = ground arith

first-Inside :
    (buf : Mem) (len : ℕ)
    → IsBytes buf
    → Inside? buf len stun_header_length (stun_attr_get_first_str buf len)
unfolding stun_attr_get_first_str
first-Inside buf len h = elim (Option-cases (stun_get_command_message_len_str buf len)) [
  | inl e ↦ rw (e, stun_attr_get_first_str) tt
  | inr (n, e) ↦
      rw (e, stun_attr_get_first_str)
        (elim (Bool-cases (ltb stun_header_length n)) [
          | inl t ↦ rw t (
              check_valid-Inside buf stun_header_length (n - stun_header_length) len
                stun_header_length h (omega arith) (ground (arith, message_len_bound buf len e)))
          | inr f ↦ rw f tt
        ])
]

-- The next attribute stands behind the previous one's header.
next-Inside :
    (buf : Mem) (len prev : ℕ)
    → IsBytes buf
    → Inside? buf len (prev + 4) (stun_attr_get_next_str buf len prev)
unfolding stun_attr_get_next_str
next-Inside buf len prev h = elim (Option-cases (stun_get_command_message_len_str buf len)) [
  | inl e ↦ rw (e, stun_attr_get_next_str) tt
  | inr (n, e) ↦
      let at = prev + 4 + round4 (stun_attr_get_len buf prev) in
      rw (e, stun_attr_get_next_str)
        (elim (Bool-cases (ltb at n)) [
          | inl t ↦ rw t (
              check_valid-Inside buf at (n - at) len (prev + 4) h (omega arith)
                (ground (arith, message_len_bound buf len e)))
          | inr f ↦ rw f tt
        ])
]

Found : Mem → ℕ → ℕ → Option ℕ → Type 0
Found buf len t none = Unit {0}
Found buf len t (some attr) = IsInside buf len attr × (stun_attr_get_type buf attr ≡ t)

find-Found :
    (fuel : ℕ) (buf : Mem) (len t from : ℕ) (o : Option ℕ)
    → IsBytes buf
    → stun_header_length ≤ from
    → Inside? buf len from o
    → Found buf len t (find_by_type fuel buf len t o)
unfolding find_by_type Found
find-Found zero buf len t from none h f i = tt
find-Found (suc fuel) buf len t from none h f i = tt
find-Found zero buf len t from (some attr) h f i = tt
find-Found (suc fuel) buf len t from (some attr) h f i =
    elim (Bool-cases (stun_attr_get_type buf attr == t)) [
      | inl e ↦ rw e (record { behind_header = omega arith; inside = i.1 }, ground arith)
      | inr ne ↦ rw ne (
          find-Found fuel buf len t (attr + 4) (stun_attr_get_next_str buf len attr) h (omega arith)
            (next-Inside buf len attr h))
    ]

-- Whatever bytes arrive, an attribute that the search by type returns has that type, stands behind
-- the header, and its header and value lie within the `len` bytes received.
pub stun_attr_get_first_by_type_str-IsInside :
    (buf : Mem) (len t : ℕ) {attr : ℕ}
    → IsBytes buf
    → stun_attr_get_first_by_type_str buf len t ≡ some attr
    → IsInside buf len attr × (stun_attr_get_type buf attr ≡ t)
unfolding stun_attr_get_first_by_type_str Found
stun_attr_get_first_by_type_str-IsInside buf len t h e = rw e at (
    find-Found len buf len t stun_header_length (stun_attr_get_first_str buf len) h (omega arith)
      (first-Inside buf len h))

find-more_fuel :
    (fuel more : ℕ) (buf : Mem) (len t from : ℕ) (o : Option ℕ)
    → IsBytes buf
    → len - from ≤ fuel
    → fuel ≤ more
    → Inside? buf len from o
    → find_by_type more buf len t o ≡ find_by_type fuel buf len t o
unfolding find_by_type
find-more_fuel fuel more buf len t from none h m le i = refl
find-more_fuel zero more buf len t from (some attr) h m le i = absurd (omega arith)
find-more_fuel (suc fuel) zero buf len t from (some attr) h m le i = absurd (omega arith)
find-more_fuel (suc fuel) (suc more) buf len t from (some attr) h m le i = rw (
    find-more_fuel fuel more buf len t (attr + 4) (stun_attr_get_next_str buf len attr) h
      (omega arith) (omega arith) (next-Inside buf len attr h))

-- The loop of the search ends on any bytes: with more rounds allowed than the bytes received it
-- gives the same result, so the rounds allowed never cut it short.
pub stun_attr_get_first_by_type_str-fuel :
    (more : ℕ) (buf : Mem) (len t : ℕ)
    → IsBytes buf
    → len ≤ more
    → find_by_type more buf len t (stun_attr_get_first_str buf len)
      ≡ stun_attr_get_first_by_type_str buf len t
unfolding stun_attr_get_first_by_type_str
stun_attr_get_first_by_type_str-fuel more buf len t h le =
    find-more_fuel len more buf len t stun_header_length (stun_attr_get_first_str buf len) h
      (omega arith) le (first-Inside buf len h)

find-Ends :
    (fuel : ℕ) (buf : Mem) (len t from : ℕ) (o : Option ℕ)
    → IsBytes buf
    → len - from ≤ fuel
    → Inside? buf len from o
    → Ends buf len t o (find_by_type fuel buf len t o)
unfolding find_by_type
find-Ends fuel buf len t from none h le i = not_found
find-Ends zero buf len t from (some attr) h le i = absurd (omega arith)
find-Ends (suc fuel) buf len t from (some attr) h le i = round-Ends buf len t attr (
    find-Ends fuel buf len t (attr + 4) (stun_attr_get_next_str buf len attr) h (omega arith)
      (next-Inside buf len attr h))

-- Whatever bytes arrive, well formed or not, the search by type ends: finitely many calls of
-- `stun_attr_get_next_str` lead from the first attribute to one of the type or to the end, with the
-- result of `stun_attr_get_first_by_type_str`.
pub stun_attr_get_first_by_type_str-Ends :
    (buf : Mem) (len t : ℕ)
    → IsBytes buf
    → Ends buf len t (stun_attr_get_first_str buf len) (stun_attr_get_first_by_type_str buf len t)
unfolding stun_attr_get_first_by_type_str
stun_attr_get_first_by_type_str-Ends buf len t h =
    find-Ends len buf len t stun_header_length (stun_attr_get_first_str buf len) h (omega arith)
      (first-Inside buf len h)
