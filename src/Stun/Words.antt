-- ===== src/Stun/Words.antt =====
-- 16 and 32-bit numbers in network byte order in a byte buffer: what nswap16 and nswap32 make of
-- an access through a uint16_t or uint32_t pointer on any machine.
use p2p_cluster.Common.{ℕ, ◌+◌, ◌-◌, ◌*◌, ◌/◌, ◌%◌, ◌^◌, ◌≤◌, ◌<◌, ◌≡◌, arith, ◌⊎◌}
use p2p_cluster.Common.Memory.{Mem, update, blit}

-- Every cell is a uint8_t.
abbrev pub IsBytes : Mem → Type 0
IsBytes m = (i : ℕ) → m i < 256

-- nswap16(*(uint16_t*)(m + off))
unfoldable pub get16 : Mem → ℕ → ℕ
get16 m off = m off * 256 + m (off + 1)

unfoldable pub get32 : Mem → ℕ → ℕ
get32 m off = m off * 2 ^ 24 + m (off + 1) * 2 ^ 16 + m (off + 2) * 256 + m (off + 3)

-- *(uint16_t*)(m + off) = nswap16(v)
unfoldable pub put16 : Mem → ℕ → ℕ → Mem
put16 m off v = update (update m off (v / 256 % 256)) (off + 1) (v % 256)

unfoldable pub put32 : Mem → ℕ → ℕ → Mem
put32 m off v =
    update
      (update (update (update m off (v / 2 ^ 24 % 256)) (off + 1) (v / 2 ^ 16 % 256)) (off + 2)
        (v / 256 % 256))
      (off + 3) (v % 256)

pub get16-lt : (m : Mem) (off : ℕ) → IsBytes m → get16 m off < 2 ^ 16
unfolding get16
get16-lt m off h = omega (arith, h off, h (off + 1))

pub get16-put16_self : (m : Mem) (off v : ℕ) → v < 2 ^ 16 → get16 (put16 m off v) off ≡ v
unfolding get16 put16
get16-put16_self m off v h = ground arith

pub get16-put16_ne :
    (m : Mem) (off at v : ℕ)
    → (off + 2 ≤ at) ⊎ (at + 2 ≤ off)
    → get16 (put16 m at v) off ≡ get16 m off
unfolding get16 put16
get16-put16_ne m off at v h = ground arith

pub get32-put16_ne :
    (m : Mem) (off at v : ℕ)
    → (off + 4 ≤ at) ⊎ (at + 2 ≤ off)
    → get32 (put16 m at v) off ≡ get32 m off
unfolding get32 put16
get32-put16_ne m off at v h = ground arith

pub get32-put32_self : (m : Mem) (off v : ℕ) → v < 2 ^ 32 → get32 (put32 m off v) off ≡ v
unfolding get32 put32
get32-put32_self m off v h = ground arith

pub get16-put32_ne :
    (m : Mem) (off at v : ℕ)
    → (off + 2 ≤ at) ⊎ (at + 4 ≤ off)
    → get16 (put32 m at v) off ≡ get16 m off
unfolding get16 put32
get16-put32_ne m off at v h = ground arith

pub get16-blit_ne :
    (m src : Mem) (off at n : ℕ)
    → (off + 2 ≤ at) ⊎ (at + n ≤ off)
    → get16 (blit m at src n) off ≡ get16 m off
unfolding get16
get16-blit_ne m src off at n h = ground arith

pub get32-blit_ne :
    (m src : Mem) (off at n : ℕ)
    → (off + 4 ≤ at) ⊎ (at + n ≤ off)
    → get32 (blit m at src n) off ≡ get32 m off
unfolding get32
get32-blit_ne m src off at n h = ground arith

pub put16-IsBytes : (m : Mem) (off v : ℕ) → IsBytes m → IsBytes (put16 m off v)
unfolding put16
put16-IsBytes m off v h i = ground (arith, h i)

pub put32-IsBytes : (m : Mem) (off v : ℕ) → IsBytes m → IsBytes (put32 m off v)
unfolding put32
put32-IsBytes m off v h i = ground (arith, h i)

pub blit-IsBytes : (m src : Mem) (off n : ℕ) → IsBytes m → IsBytes src → IsBytes (blit m off src n)
blit-IsBytes m src off n h k i = ground (arith, h i, k (i - off))
