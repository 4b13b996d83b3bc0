-- ===== src/Ioaddr/Equality.antt =====
-- Equality of addresses, and the hashes that go with it.
use p2p_cluster.Common.{
  ℕ, zero, suc, ◌+◌, ◌*◌, ◌/◌, ◌%◌, ◌^◌, ◌<◌, ◌≤◌, ◌≡◌, refl, sym, ap, ◌∙◌, true, ◌==◌, Bool-cases,
  arith, inl, inr, ◌↔◌,
}
use mathlib.Core.Path.{ap₂}
use p2p_cluster.Common.Memory.{Mem}
use p2p_cluster.Ioaddr.{
  IoaAddr, af_inet, af_inet6, bytes_eq, addr_eq, addr_eq_no_port, addr_hash, addr_hash_no_port,
  le32, le64, hash_int32, hash_int64, stored_port,
}

-- The first `n` bytes are the same.
abbrev pub SameBytes : ℕ → Mem → Mem → Type 0
SameBytes n a b = (i : ℕ) → i < n → a i ≡ b i

pub bytes_eq-SameBytes : (n : ℕ) (a b : Mem) → bytes_eq n a b ≡ true → SameBytes n a b
unfolding bytes_eq
bytes_eq-SameBytes zero a b h i lt = absurd (omega arith)
bytes_eq-SameBytes (suc n) a b h i lt = elim (Bool-cases (i == n)) [
  | inl e ↦
      let q : i ≡ n = ground arith in
      let last : a n ≡ b n = ground arith in ap a q ∙ last ∙ ap b (sym q)
  | inr ne ↦ bytes_eq-SameBytes n a b (ground arith) i (ground arith)
]

pub SameBytes-bytes_eq : (n : ℕ) (a b : Mem) → SameBytes n a b → bytes_eq n a b ≡ true
unfolding bytes_eq
SameBytes-bytes_eq zero a b h = refl
SameBytes-bytes_eq (suc n) a b h =
    ground (arith, h n, SameBytes-bytes_eq n a b (λ i lt. h i (omega arith)))

-- The addresses that two values stand for are the same, of IPv4 or of IPv6.
pub data SameHost (a b : IoaAddr) : Type 0 where
  v4 : a.family ≡ af_inet → b.family ≡ af_inet → SameBytes 4 a.ip4 b.ip4 → SameHost a b
  v6 : a.family ≡ af_inet6 → b.family ≡ af_inet6 → SameBytes 16 a.ip6 b.ip6 → SameHost a b

SameHost-sound : (a b : IoaAddr) → addr_eq_no_port a b ≡ true → SameHost a b
unfolding addr_eq_no_port
SameHost-sound a b h = elim (Bool-cases (a.family == af_inet)) [
  | inl e ↦ v4 (ground arith) (ground arith) (bytes_eq-SameBytes 4 a.ip4 b.ip4 (ground arith))
  | inr ne ↦ v6 (ground arith) (ground arith) (bytes_eq-SameBytes 16 a.ip6 b.ip6 (ground arith))
]

SameHost-complete : (a b : IoaAddr) → SameHost a b → addr_eq_no_port a b ≡ true
unfolding addr_eq_no_port
SameHost-complete a b (v4 x y s) = ground (arith, SameBytes-bytes_eq 4 a.ip4 b.ip4 s)
SameHost-complete a b (v6 x y s) = ground (arith, SameBytes-bytes_eq 16 a.ip6 b.ip6 s)

-- `addr_eq_no_port` holds of two addresses exactly when both are of IPv4 with the same four bytes,
-- or both of IPv6 with the same sixteen.
pub addr_eq_no_port-SameHost : (a b : IoaAddr) → (addr_eq_no_port a b ≡ true) ↔ SameHost a b
addr_eq_no_port-SameHost a b = (SameHost-sound a b, SameHost-complete a b)

-- `addr_eq` holds exactly when `addr_eq_no_port` does and the ports are the same.
pub addr_eq_lem :
    (a b : IoaAddr) → (addr_eq a b ≡ true) ↔ ((addr_eq_no_port a b ≡ true) × (a.port ≡ b.port))
unfolding addr_eq addr_eq_no_port
addr_eq_lem a b = (λ h. (ground arith, ground arith), λ h. ground arith)

pub SameHost-sym : {a b : IoaAddr} → SameHost a b → SameHost b a
SameHost-sym (v4 x y s) = v4 y x (λ i lt. sym (s i lt))
SameHost-sym (v6 x y s) = v6 y x (λ i lt. sym (s i lt))

pub SameHost-trans : {a b c : IoaAddr} → SameHost a b → SameHost b c → SameHost a c
SameHost-trans (v4 x y s) (v4 x' y' s') = v4 x y' (λ i lt. s i lt ∙ s' i lt)
SameHost-trans (v4 x y s) (v6 x' y' s') = absurd (omega arith)
SameHost-trans (v6 x y s) (v4 x' y' s') = absurd (omega arith)
SameHost-trans (v6 x y s) (v6 x' y' s') = v6 x y' (λ i lt. s i lt ∙ s' i lt)

le32-SameBytes :
    (n : ℕ) (a b : Mem) (off : ℕ) → SameBytes n a b → off + 4 ≤ n → le32 a off ≡ le32 b off
le32-SameBytes n a b off s h = omega (
  arith,
  s off (omega arith),
  s (off + 1) (omega arith),
  s (off + 2) (omega arith),
  s (off + 3) (omega arith),
)

le64-SameBytes :
    (n : ℕ) (a b : Mem) (off : ℕ) → SameBytes n a b → off + 8 ≤ n → le64 a off ≡ le64 b off
le64-SameBytes n a b off s h =
    ap₂ (λ x y. x + y * 2 ^ 32) (le32-SameBytes n a b off s (omega arith))
      (le32-SameBytes n a b (off + 4) s (omega arith))

hash_v4 : (a : IoaAddr) → a.family ≡ af_inet → addr_hash_no_port a ≡ hash_int32 (le32 a.ip4 0)
unfolding addr_hash_no_port
hash_v4 a h = ground arith

hash_v6 :
    (a : IoaAddr)
    → a.family ≡ af_inet6
    → addr_hash_no_port a ≡ (hash_int64 (le64 a.ip6 0) * 2 ^ 3 + hash_int64 (le64 a.ip6 8)) % 2 ^ 32
unfolding addr_hash_no_port
hash_v6 a h = ground arith

hash-SameHost : {a b : IoaAddr} → SameHost a b → addr_hash_no_port a ≡ addr_hash_no_port b
hash-SameHost {a} {b} (v4 x y s) =
    hash_v4 a x ∙ ap hash_int32 (le32-SameBytes 4 a.ip4 b.ip4 0 s (omega arith)) ∙ sym (hash_v4 b y)
hash-SameHost {a} {b} (v6 x y s) =
    hash_v6 a x
    ∙ ap₂ (λ p q. (hash_int64 p * 2 ^ 3 + hash_int64 q) % 2 ^ 32)
        (le64-SameBytes 16 a.ip6 b.ip6 0 s (omega arith))
        (le64-SameBytes 16 a.ip6 b.ip6 8 s (omega arith))
    ∙ sym (hash_v6 b y)

-- Addresses that `addr_eq_no_port` takes for equal have the same `addr_hash_no_port`, so a table
-- that is indexed by the hash finds an entry under any spelling of its address.
pub addr_hash_no_port_congruent :
    (a b : IoaAddr) → addr_eq_no_port a b ≡ true → addr_hash_no_port a ≡ addr_hash_no_port b
addr_hash_no_port_congruent a b h = hash-SameHost (SameHost-sound a b h)

hash_port_v4 :
    (a : IoaAddr)
    → a.family ≡ af_inet
    → addr_hash a ≡ hash_int32 ((le32 a.ip4 0 + stored_port a) % 2 ^ 32)
unfolding addr_hash
hash_port_v4 a h = ground arith

hash_port_v6 :
    (a : IoaAddr)
    → a.family ≡ af_inet6
    → addr_hash a
      ≡ (hash_int64 (le64 a.ip6 0) * 2 ^ 3 + hash_int64 ((le64 a.ip6 8 + stored_port a) % 2 ^ 64))
        % 2 ^ 32
unfolding addr_hash
hash_port_v6 a h = ground arith

hash_port-SameHost : {a b : IoaAddr} → SameHost a b → a.port ≡ b.port → addr_hash a ≡ addr_hash b
hash_port-SameHost {a} {b} (v4 x y s) e =
    hash_port_v4 a x
    ∙ ap₂ (λ p q. hash_int32 ((p + (q % 256 * 256 + q / 256)) % 2 ^ 32))
        (le32-SameBytes 4 a.ip4 b.ip4 0 s (omega arith)) e
    ∙ sym (hash_port_v4 b y)
hash_port-SameHost {a} {b} (v6 x y s) e =
    hash_port_v6 a x
    ∙ ap₂ (λ p q. (hash_int64 p * 2 ^ 3 + hash_int64 ((q + stored_port a) % 2 ^ 64)) % 2 ^ 32)
        (le64-SameBytes 16 a.ip6 b.ip6 0 s (omega arith))
        (le64-SameBytes 16 a.ip6 b.ip6 8 s (omega arith))
    ∙ ap
        (λ p.
          (hash_int64 (le64 b.ip6 0) * 2 ^ 3
            + hash_int64 ((le64 b.ip6 8 + (p % 256 * 256 + p / 256)) % 2 ^ 64))
          % 2 ^ 32)
        e
    ∙ sym (hash_port_v6 b y)

-- Addresses that `addr_eq` takes for equal, ports included, have the same `addr_hash`.
pub addr_hash_congruent : (a b : IoaAddr) → addr_eq a b ≡ true → addr_hash a ≡ addr_hash b
addr_hash_congruent a b h =
    hash_port-SameHost (SameHost-sound a b ((addr_eq_lem a b).0 h).0) ((addr_eq_lem a b).0 h).1
