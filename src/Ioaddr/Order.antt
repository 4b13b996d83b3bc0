-- ===== src/Ioaddr/Order.antt =====
-- The order of addresses, ranges, and the tests for special addresses.
use p2p_cluster.Common.{
  ℕ, zero, suc, ◌<◌, ◌≤◌, ◌≡◌, refl, true, false, ◌==◌, Bool-cases, arith, inl, inr, ◌↔◌,
}
use p2p_cluster.Common.Memory.{Mem}
use p2p_cluster.Ioaddr.{
  IoaAddr, IoaAddrRange, af_inet, af_inet6, be32, bytes_le, addr_any, addr_less_eq,
  ioa_addr_in_range, ioa_addr_is_loopback,
}
use p2p_cluster.Ioaddr.Equality.{SameBytes}

-- On IPv4 addresses `addr_less_eq` is the order of the addresses as 32-bit numbers.
pub addr_less_eq_v4 :
    (a b : IoaAddr)
    → a.family ≡ af_inet
    → b.family ≡ af_inet
    → (addr_less_eq a b ≡ true) ↔ (be32 a.ip4 ≤ be32 b.ip4)
unfolding addr_less_eq
addr_less_eq_v4 a b x y = (λ h. ground arith, λ h. ground arith)

-- An IPv4 range whose bounds are not 0.0.0.0 with port 0 holds, of the IPv4 addresses, exactly those
-- between its bounds as 32-bit numbers.
pub ioa_addr_in_range_v4 :
    (r : IoaAddrRange) (a : IoaAddr)
    → r.min.family ≡ af_inet
    → r.max.family ≡ af_inet
    → a.family ≡ af_inet
    → addr_any r.min ≡ false
    → addr_any r.max ≡ false
    → (ioa_addr_in_range r a ≡ true)
      ↔ ((be32 r.min.ip4 ≤ be32 a.ip4) × (be32 a.ip4 ≤ be32 r.max.ip4))
unfolding ioa_addr_in_range
ioa_addr_in_range_v4 r a lo hi x nlo nhi = (
  λ h. (
    (addr_less_eq_v4 r.min a lo x).0 (ground arith),
    (addr_less_eq_v4 a r.max x hi).0 (ground arith),
  ),
  λ h.
      rw (nlo, nhi, (addr_less_eq_v4 r.min a lo x).1 h.0, (addr_less_eq_v4 a r.max x hi).1 h.1)
        refl,
)

bytes_le-at : (n : ℕ) (a b : Mem) (j : ℕ) → j < n → b j < a j → bytes_le n a b ≡ false
unfolding bytes_le
bytes_le-at zero a b j h lt = absurd (omega arith)
bytes_le-at (suc n) a b j h lt = elim (Bool-cases (j == n)) [
  | inl e ↦ let q : j ≡ n = ground arith in let last : b n < a n = rw q at lt in ground arith
  | inr ne ↦ let rest = bytes_le-at n a b j (ground arith) lt in ground (arith, rest)
]

-- The first byte in which two addresses differ decides which comes first.
pub data Before (a b : Mem) : Type 0 where
  differ : (i : ℕ) → i < 16 → SameBytes i a b → a i < b i → Before a b

-- A defect. `addr_less_eq` compares IPv6 addresses byte by byte, each on its own: where `a` comes
-- before `b`, and some byte of `a` is above that of `b`, it denies `a` ≤ `b` (and, as the source
-- writes it, `b` ≤ `a` too).
pub addr_less_eq_incomparable :
    (a b : IoaAddr) (j : ℕ)
    → a.family ≡ af_inet6
    → b.family ≡ af_inet6
    → Before a.ip6 b.ip6
    → j < 16
    → b.ip6 j < a.ip6 j
    → (addr_less_eq a b ≡ false) × (addr_less_eq b a ≡ false)
unfolding addr_less_eq
addr_less_eq_incomparable a b j x y (differ i lt s below) hj above = (
  ground (arith, bytes_le-at 16 a.ip6 b.ip6 j hj above),
  ground (arith, bytes_le-at 16 b.ip6 a.ip6 i lt below),
)

-- A defect. `ioa_addr_is_loopback` looks at the eighth byte of an IPv6 address, not the sixteenth:
-- it denies that any address is a loopback address whose bytes but the last are 0, ::1 included.
pub ioa_addr_is_loopback_missed :
    (a : IoaAddr)
    → a.family ≡ af_inet6
    → SameBytes 15 a.ip6 (λ _. 0)
    → ioa_addr_is_loopback a ≡ false
unfolding ioa_addr_is_loopback
ioa_addr_is_loopback_missed a x s = ground (arith, s 7 (omega arith))

-- On IPv4 `ioa_addr_is_loopback` holds exactly of 127.0.0.0/8.
pub ioa_addr_is_loopback_v4 :
    (a : IoaAddr) → a.family ≡ af_inet → (ioa_addr_is_loopback a ≡ true) ↔ (a.ip4 0 ≡ 127)
unfolding ioa_addr_is_loopback
ioa_addr_is_loopback_v4 a x = (λ h. ground arith, λ h. ground arith)
