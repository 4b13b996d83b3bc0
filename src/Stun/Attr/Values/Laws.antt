-- ===== src/Stun/Attr/Values/Laws.antt =====
-- What an accessor reads of what its partner wrote.
use Prim.Native.String.{String}
use p2p_cluster.Common.{
  ℕ, zero, suc, ◌+◌, ◌-◌, ◌*◌, ◌/◌, ◌%◌, ◌^◌, ◌<◌, ◌≤◌, ◌≡◌, refl, Bool, true, ltb, ◌&&◌, none,
  some, arith, ◌∙◌, ap, inl, List, [], ◌∷◌,
}
use p2p_cluster.Common.Memory.{Mem}
use p2p_cluster.Common.Text.{strlen, codes, get_or}
use p2p_cluster.Stun.Words.{
  IsBytes, get16, get32, put16, put32, put16-IsBytes, put32-IsBytes, get16-put16_self,
  get16-put16_ne, get32-put32_self,
}
use p2p_cluster.Stun.Types.{stun_valid_channel}
use p2p_cluster.Stun.Header.{Message}
use p2p_cluster.Stun.Attr.{stun_attr_get_value, stun_attr_get_first_by_type_str, Added, added}
use p2p_cluster.Stun.Attr.Walk.{IsMessage}
use p2p_cluster.Stun.Attr.Add.{Appended, AddCase, appends, refuses, stun_attr_add_str-AddCase}
use p2p_cluster.Stun.Attr.Values.{
  stun_attribute_channel_number, stun_attribute_new_bandwidth, stun_attribute_address_error_code,
  stun_attr_get_channel_number, stun_attr_get_bandwidth, stun_attr_add_channel_number_str,
  stun_attr_add_bandwidth_str, get_default_reason, reasons, reason_in, address_error_value,
  address_error_len, stun_attr_add_address_error_code, stun_attr_get_address_error_code,
}

pub Appended-of :
    {m : Message} {attr : ℕ} {value : Mem} {alen : ℕ} (r : Added) (m' : Message)
    → r ≡ added m'
    → AddCase m attr value alen r
    → Appended m m' attr value alen
Appended-of r m' e (appends m'' h a) = let q : m'' ≡ m' = cc in rw (← q) a
Appended-of r m' e (refuses h) = absurd (let f : ⊥ = cc in f)

-- What the search by its own type finds of a new attribute, where there was none before.
pub found_new :
    {m m' : Message} {attr : ℕ} {value : Mem} {alen : ℕ}
    → Appended m m' attr value alen
    → stun_attr_get_first_by_type_str m.buf m.len attr ≡ none
    → stun_attr_get_first_by_type_str m'.buf m'.len attr ≡ some m.len
found_new {m} {m'} {attr} a h = a.search attr ∙ rw h (ground arith)

pub value_at :
    {m m' : Message} {attr : ℕ} {value : Mem} {alen : ℕ}
    → Appended m m' attr value alen
    → 0 < alen
    → stun_attr_get_value m'.buf m.len ≡ some (m.len + 4)
unfolding stun_attr_get_value
value_at a h = ground (arith, a.length_lem)

value_byte :
    {m m' : Message} {attr : ℕ} {value : Mem} {alen : ℕ}
    → Appended m m' attr value alen
    → (i j : ℕ) → i < alen
    → j ≡ m.len + 4 + i
    → m'.buf j ≡ value i
value_byte {m' = m'} a i j h e = ap m'.buf e ∙ a.value_lem i h

value_get16 :
    {m m' : Message} {attr : ℕ} {value : Mem} {alen : ℕ}
    → Appended m m' attr value alen
    → 2 ≤ alen
    → get16 m'.buf (m.len + 4) ≡ get16 value 0
unfolding get16
value_get16 {m} {m'} a h = omega (
  arith,
  value_byte a 0 (m.len + 4) (omega arith) (omega arith),
  value_byte a 1 (m.len + 4 + 1) (omega arith) refl,
)

value_get32 :
    {m m' : Message} {attr : ℕ} {value : Mem} {alen : ℕ}
    → Appended m m' attr value alen
    → 4 ≤ alen
    → get32 m'.buf (m.len + 4) ≡ get32 value 0
unfolding get32
value_get32 {m} {m'} a h = omega (
  arith,
  value_byte a 0 (m.len + 4) (omega arith) (omega arith),
  value_byte a 1 (m.len + 4 + 1) (omega arith) refl,
  value_byte a 2 (m.len + 4 + 2) (omega arith) refl,
  value_byte a 3 (m.len + 4 + 3) (omega arith) refl,
)

channel-lt : (n : ℕ) → stun_valid_channel n ≡ true → n < 2 ^ 16
unfolding stun_valid_channel
channel-lt n h = ground arith

-- On a well-formed message with no CHANNEL-NUMBER attribute, a valid channel number that
-- `stun_attr_add_channel_number_str` adds is the one that `stun_attr_get_channel_number` reads from
-- the attribute found by its type.
pub channel_number_round_trip :
    {m m' : Message} (chnumber : ℕ)
    → IsMessage m
    → stun_attr_get_first_by_type_str m.buf m.len stun_attribute_channel_number ≡ none
    → stun_valid_channel chnumber ≡ true
    → stun_attr_add_channel_number_str m chnumber ≡ added m'
    → stun_attr_get_channel_number m'.buf
        (stun_attr_get_first_by_type_str m'.buf m'.len stun_attribute_channel_number)
      ≡ chnumber
unfolding stun_attr_get_channel_number stun_attr_add_channel_number_str
channel_number_round_trip {m} {m'} chnumber v fresh valid e =
    let field = put16 (put16 (λ _. 0) 0 chnumber) 2 0 in
    let lt : chnumber < 2 ^ 16 = channel-lt chnumber valid in
    let a = Appended-of _ m' e (
      stun_attr_add_str-AddCase stun_attribute_channel_number (some field) 4 v (omega arith)
        (put16-IsBytes _ 2 0 (put16-IsBytes _ 0 chnumber (λ i. omega arith)))) in
    let f : get16 field 0 ≡ chnumber =
      get16-put16_ne _ 0 2 0 (inl (omega arith)) ∙ get16-put16_self _ 0 chnumber lt in
    rw (found_new a fresh, stun_attr_get_channel_number)
      (rw (value_at a (omega arith))
        (rw (value_get16 a (omega arith), f, valid) (ground (arith, a.length_lem))))

-- A bandwidth below 2 ^ 32 that `stun_attr_add_bandwidth_str` adds to a well-formed message with no
-- such attribute is read back by `stun_attr_get_bandwidth` less its remainder by 128.
pub bandwidth_round_trip :
    {m m' : Message} (bps : ℕ)
    → IsMessage m
    → stun_attr_get_first_by_type_str m.buf m.len stun_attribute_new_bandwidth ≡ none
    → bps < 2 ^ 32
    → stun_attr_add_bandwidth_str m bps ≡ added m'
    → stun_attr_get_bandwidth m'.buf
        (stun_attr_get_first_by_type_str m'.buf m'.len stun_attribute_new_bandwidth)
      ≡ bps / 128 * 128
unfolding stun_attr_get_bandwidth stun_attr_add_bandwidth_str
bandwidth_round_trip {m} {m'} bps v fresh small e =
    let field = put32 (λ _. 0) 0 (bps / 128 % 2 ^ 32) in
    let a = Appended-of _ m' e (
      stun_attr_add_str-AddCase stun_attribute_new_bandwidth (some field) 4 v (omega arith)
        (put32-IsBytes _ 0 (bps / 128 % 2 ^ 32) (λ i. omega arith))) in
    let f : get32 field 0 ≡ bps / 128 % 2 ^ 32 =
      get32-put32_self _ 0 (bps / 128 % 2 ^ 32) (omega arith) in
    rw (found_new a fresh, stun_attr_get_bandwidth)
      (rw (value_at a (omega arith))
        (rw (value_get32 a (omega arith), f) (ground (arith, a.length_lem))))

-- The text is not empty, and its characters are bytes.
all_bytes : List ℕ → Bool
all_bytes [] = true
all_bytes (x ∷ l) = ltb x 256 && all_bytes l

all_bytes_sound : (l : List ℕ) (i : ℕ) → all_bytes l ≡ true → get_or l i 0 < 256
unfolding all_bytes
all_bytes_sound [] i h = omega arith
all_bytes_sound (x ∷ l) zero h = ground arith
all_bytes_sound (x ∷ l) (suc i) h = all_bytes_sound l i (ground arith)

text_ok : String → Bool
text_ok s = ltb 0 (strlen s) && all_bytes (codes s)

all_ok : List (ℕ × String) → Bool
all_ok [] = true
all_ok ((code, reason) ∷ l) = text_ok reason && all_ok l

reason_in-ok :
    (code : ℕ) (l : List (ℕ × String)) → all_ok l ≡ true → text_ok (reason_in code l) ≡ true
unfolding reason_in all_ok
reason_in-ok code [] h = unfold text_ok all_bytes in refl
reason_in-ok code ((c, reason) ∷ l) h = ground (arith, reason_in-ok code l)

get_default_reason-ok : (code : ℕ) → text_ok (get_default_reason code) ≡ true
unfolding get_default_reason
get_default_reason-ok code =
    reason_in-ok code reasons (unfold reasons all_ok text_ok all_bytes in refl)

-- The text of any error code makes the value longer than the four bytes in front of it.
address_error_len-long : (code : ℕ) → 4 < address_error_len (strlen (get_default_reason code))
unfolding address_error_len
address_error_len-long code =
    let h : 0 < strlen (get_default_reason code) =
      unfold text_ok in ground (arith, get_default_reason-ok code) in
    ground arith

address_error_value-IsBytes :
    (family code : ℕ) → IsBytes (address_error_value family code (get_default_reason code))
unfolding address_error_value
address_error_value-IsBytes family code i =
    let h : all_bytes (codes (get_default_reason code)) ≡ true =
      unfold text_ok in ground (arith, get_default_reason-ok code) in
    ground (arith, all_bytes_sound (codes (get_default_reason code)) (i - 4) h)

-- A defect. What `stun_attr_add_address_error_code` adds to a well-formed message without such an
-- attribute, for any family and any error code, `stun_attr_get_address_error_code` refuses with -1:
-- the writer always puts a text after the code, and the reader wants a value of exactly 4 bytes.
pub address_error_code_not_read :
    {m m' : Message} (family code : ℕ)
    → IsMessage m
    → stun_attr_get_first_by_type_str m.buf m.len stun_attribute_address_error_code ≡ none
    → stun_attr_add_address_error_code m family code ≡ (0, added m')
    → stun_attr_get_address_error_code m'.buf m'.len ≡ none
unfolding stun_attr_get_address_error_code stun_attr_add_address_error_code
address_error_code_not_read {m} {m'} family code v fresh e =
    let a = Appended-of _ m' (ap (λ p. p.1) e) (
      stun_attr_add_str-AddCase stun_attribute_address_error_code
        (some (address_error_value family code (get_default_reason code)))
        (address_error_len (strlen (get_default_reason code))) v (omega arith)
        (address_error_value-IsBytes family code)) in
    rw (found_new a fresh, stun_attr_get_address_error_code)
      (rw (value_at a (omega (arith, address_error_len-long code)))
        (ground (arith, a.length_lem, a.grows, address_error_len-long code)))
