-- ===== src/Stun/Address/Laws.antt =====
-- What the address codec writes, it reads again.
use p2p_cluster.Common.{
  ℕ, ◌+◌, ◌-◌, ◌^◌, ◌<◌, ◌≡◌, refl, ap, Bool, true, false, Bool-cases, ltb, leb, ◌==◌, ◌&&◌, arith,
  ◌⊎◌, inl, inr, ◌↔◌, Option, some,
}
use p2p_cluster.Common.Memory.{Mem, blit, shift}
use p2p_cluster.Common.Xor.{bit_xor-lt, bit_xor_twice}
use p2p_cluster.Stun.Words.{IsBytes}
use p2p_cluster.Ioaddr.{IoaAddr, af_inet, af_inet6}
use p2p_cluster.Ioaddr.Equality.{SameHost, v4, v6, SameBytes}
use p2p_cluster.Stun.Address.{
  key_at, xored, port_bytes, write_field, read_port, decode4, decode6, stun_addr_encode,
  stun_addr_decode, Decoded, decoded, refused,
}

key_at-lt : (mc : ℕ) (tsx_id : Mem) (i : ℕ) → IsBytes tsx_id → key_at mc tsx_id i < 256
unfolding key_at
key_at-lt mc tsx_id i h = ground (arith, h (i - 4))

xored_twice :
    (x : Bool) (mc : ℕ) (tsx_id src read : Mem) (i : ℕ)
    → IsBytes tsx_id
    → src i < 256
    → read i ≡ xored x mc tsx_id src i
    → xored x mc tsx_id read i ≡ src i
unfolding xored
xored_twice true mc tsx_id src read i h small e =
    rw e (bit_xor_twice (src i) (key_at mc tsx_id i) small (key_at-lt mc tsx_id i h))
xored_twice false mc tsx_id src read i h small e = e

xored-lt :
    (x : Bool) (mc : ℕ) (tsx_id src : Mem) (i : ℕ)
    → IsBytes tsx_id
    → src i < 256
    → xored x mc tsx_id src i < 256
unfolding xored
xored-lt true mc tsx_id src i h small =
    bit_xor-lt (src i) (key_at mc tsx_id i) small (key_at-lt mc tsx_id i h)
xored-lt false mc tsx_id src i h small = small

module _ (fam port : ℕ) (src : Mem) (n : ℕ) (cfield : Mem) (x : Bool) (mc : ℕ) (tsx_id : Mem) where
  field : Mem
  field = write_field fam port src n cfield x mc tsx_id

  field-start : field 0 ≡ 0
  unfolding field write_field
  field-start = ground arith

  field-family : field 1 ≡ fam
  unfolding field write_field
  field-family = ground arith

  field-port : (i : ℕ) → i < 2 → shift field 2 i ≡ xored x mc tsx_id (port_bytes port) i
  unfolding field write_field
  field-port i lt = elim (Bool-cases (i == 0)) [
    | inl e ↦ let q : i ≡ 0 = ground arith in rw q refl
    | inr ne ↦ let q : i ≡ 1 = ground arith in rw q refl
  ]

  field-host : (i : ℕ) → i < n → shift field 4 i ≡ xored x mc tsx_id src i
  unfolding field write_field
  field-host i lt = rw (inside) (ap (xored x mc tsx_id src) (omega arith))
    where
      inside : (leb 4 (4 + i) && ltb (4 + i) (4 + n)) ≡ true
      inside = ground arith

  field-IsBytes : fam < 256 → IsBytes src → IsBytes tsx_id → IsBytes cfield → IsBytes field
  unfolding field write_field
  field-IsBytes small bytes h c i =
      let host = xored-lt x mc tsx_id src (i - 4) h (bytes (i - 4)) in
      let ports = xored-lt x mc tsx_id (port_bytes port) (i - 2) h (ground arith) in
      ground (arith, host, ports, c i)

  field-read_port : IsBytes tsx_id → port < 2 ^ 16 → read_port field x mc tsx_id ≡ port
  unfolding read_port
  field-read_port h small =
      let hi =
        xored_twice x mc tsx_id (port_bytes port) (shift field 2) 0 h (omega arith)
          (field-port 0 (omega arith)) in
      let lo =
        xored_twice x mc tsx_id (port_bytes port) (shift field 2) 1 h (omega arith)
          (field-port 1 (omega arith)) in
      omega (arith, hi, lo)

  field-read_host :
      (old : Mem)
      → IsBytes tsx_id
      → IsBytes src
      → SameBytes n (blit old 0 (xored x mc tsx_id (shift field 4)) n) src
  field-read_host old h bytes i lt =
      let at = xored_twice x mc tsx_id src (shift field 4) i h (bytes i) (field-host i lt) in
      ground (arith, at)

-- The field is there, of bytes, and reads as the address `ca`.
pub data Reads (ca old : IoaAddr) (x : Bool) (mc : ℕ) (tsx_id : Mem)
    : Option (ℕ × Mem) → Type 0 where
  reads :
      {clen : ℕ} {cfield : Mem} {ca' : IoaAddr}
      → IsBytes cfield
      → 0 < clen
      → stun_addr_decode old cfield clen x mc tsx_id ≡ decoded ca'
      → SameHost ca' ca
      → ca'.port ≡ ca.port
      → Reads ca old x mc tsx_id (some (clen, cfield))

encode_v4 :
    (ca : IoaAddr) (cfield : Mem) (x : Bool) (mc : ℕ) (tsx_id : Mem)
    → ca.family ≡ af_inet
    → stun_addr_encode ca cfield x mc tsx_id
      ≡ some (8, write_field 1 ca.port ca.ip4 4 cfield x mc tsx_id)
unfolding stun_addr_encode
encode_v4 ca cfield x mc tsx_id fam = ground arith

encode_v6 :
    (ca : IoaAddr) (cfield : Mem) (x : Bool) (mc : ℕ) (tsx_id : Mem)
    → ca.family ≡ af_inet6
    → stun_addr_encode ca cfield x mc tsx_id
      ≡ some (20, write_field 2 ca.port ca.ip6 16 cfield x mc tsx_id)
unfolding stun_addr_encode
encode_v6 ca cfield x mc tsx_id fam = ground arith

decode_v4 :
    (old : IoaAddr) (cfield : Mem) (x : Bool) (mc : ℕ) (tsx_id : Mem)
    → cfield 0 ≡ 0
    → cfield 1 ≡ 1
    → stun_addr_decode old cfield 8 x mc tsx_id ≡ decode4 old cfield 8 x mc tsx_id
unfolding stun_addr_decode
decode_v4 old cfield x mc tsx_id a b = ground arith

decode_v6 :
    (old : IoaAddr) (cfield : Mem) (x : Bool) (mc : ℕ) (tsx_id : Mem)
    → cfield 0 ≡ 0
    → cfield 1 ≡ 2
    → stun_addr_decode old cfield 20 x mc tsx_id ≡ decode6 old cfield 20 x mc tsx_id
unfolding stun_addr_decode
decode_v6 old cfield x mc tsx_id a b = ground arith

-- `stun_addr_encode` makes a field from an IPv4 or an IPv6 address, whether XOR-ed or not, and
-- `stun_addr_decode` reads from it that address and that port, whatever the result held before.
pub addr_round_trip :
    (ca old : IoaAddr) (cfield : Mem) (x : Bool) (mc : ℕ) (tsx_id : Mem)
    → (ca.family ≡ af_inet) ⊎ (ca.family ≡ af_inet6)
    → ca.port < 2 ^ 16
    → IsBytes ca.ip4
    → IsBytes ca.ip6
    → IsBytes tsx_id
    → IsBytes cfield
    → Reads ca old x mc tsx_id (stun_addr_encode ca cfield x mc tsx_id)
unfolding decode4 decode6 write_field field
addr_round_trip ca old cfield x mc tsx_id (inl fam) small b4 b6 h c =
    let start = field-start 1 ca.port ca.ip4 4 cfield x mc tsx_id in
    let family = field-family 1 ca.port ca.ip4 4 cfield x mc tsx_id in
    let host = field-read_host 1 ca.port ca.ip4 4 cfield x mc tsx_id old.ip4 h b4 in
    rw (encode_v4 ca cfield x mc tsx_id fam) (
      reads (field-IsBytes 1 ca.port ca.ip4 4 cfield x mc tsx_id (omega arith) b4 h c) (omega arith)
        (decode_v4 old (write_field 1 ca.port ca.ip4 4 cfield x mc tsx_id) x mc tsx_id start family)
        (v4 refl fam host) (field-read_port 1 ca.port ca.ip4 4 cfield x mc tsx_id h small))
addr_round_trip ca old cfield x mc tsx_id (inr fam) small b4 b6 h c =
    let start = field-start 2 ca.port ca.ip6 16 cfield x mc tsx_id in
    let family = field-family 2 ca.port ca.ip6 16 cfield x mc tsx_id in
    let host = field-read_host 2 ca.port ca.ip6 16 cfield x mc tsx_id old.ip6 h b6 in
    rw (encode_v6 ca cfield x mc tsx_id fam) (
      reads (field-IsBytes 2 ca.port ca.ip6 16 cfield x mc tsx_id (omega arith) b6 h c)
        (omega arith)
        (decode_v6 old (write_field 2 ca.port ca.ip6 16 cfield x mc tsx_id) x mc tsx_id start
          family)
        (v6 refl fam host) (field-read_port 2 ca.port ca.ip6 16 cfield x mc tsx_id h small))

-- The field is one of those that RFC 5389 describes: a zero byte, then 1 and 8 bytes in all for
-- IPv4, or 2 and 20 bytes for IPv6.
pub data IsField (cfield : Mem) (len : ℕ) : Type 0 where
  field4 : cfield 0 ≡ 0 → cfield 1 ≡ 1 → len ≡ 8 → IsField cfield len
  field6 : cfield 0 ≡ 0 → cfield 1 ≡ 2 → len ≡ 20 → IsField cfield len

-- The call succeeded.
pub accepted : Decoded → Bool
accepted (decoded _) = true
accepted (refused _) = false

accepted-IsField :
    (ca : IoaAddr) (cfield : Mem) (len : ℕ) (x : Bool) (mc : ℕ) (tsx_id : Mem)
    → accepted (stun_addr_decode ca cfield len x mc tsx_id) ≡ true
    → IsField cfield len
unfolding accepted stun_addr_decode decode4 decode6
accepted-IsField ca cfield len x mc tsx_id h = elim (Bool-cases (cfield 1 == 1)) [
  | inl e ↦ field4 (ground arith) (ground arith) (ground arith)
  | inr ne ↦ field6 (ground arith) (ground arith) (ground arith)
]

IsField-accepted :
    (ca : IoaAddr) (cfield : Mem) (len : ℕ) (x : Bool) (mc : ℕ) (tsx_id : Mem)
    → IsField cfield len
    → accepted (stun_addr_decode ca cfield len x mc tsx_id) ≡ true
unfolding accepted stun_addr_decode decode4 decode6
IsField-accepted ca cfield len x mc tsx_id (field4 a b l) = rw (l, a, b) refl
IsField-accepted ca cfield len x mc tsx_id (field6 a b l) = rw (l, a, b) refl

-- `stun_addr_decode` succeeds on exactly the fields that `IsField` describes.
pub stun_addr_decode_accepts :
    (ca : IoaAddr) (cfield : Mem) (len : ℕ) (x : Bool) (mc : ℕ) (tsx_id : Mem)
    → (accepted (stun_addr_decode ca cfield len x mc tsx_id) ≡ true) ↔ IsField cfield len
stun_addr_decode_accepts ca cfield len x mc tsx_id =
    (accepted-IsField ca cfield len x mc tsx_id, IsField-accepted ca cfield len x mc tsx_id)
