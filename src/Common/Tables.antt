-- ===== src/Common/Tables.antt =====
-- Facts about masks over a small range, by evaluation at every value.
use Prim.Native.Nat.{ℕ, zero, suc, ◌%◌, ◌<◌, bit_and}
use mathlib.Core.Path.{◌≡◌, refl}
use mathlib.Core.Bool.{Bool, true, ◌&&◌}
use native.Mathlib.Omega.{arith}
use p2p_cluster.Common.Tests.{◌==◌, ==_iff}

-- A test passes at each of the first `bound` numbers.
unfoldable pub passes : (ℕ → Bool) → ℕ → Bool
passes test zero = true
passes test (suc last) = test last && passes test last

pub passes_at :
    (test : ℕ → Bool) (bound : ℕ) {n : ℕ} → passes test bound ≡ true → n < bound → test n ≡ true
unfolding passes
passes_at test zero whole inside = absurd (omega arith)
passes_at test (suc last) {n} whole inside = ground (arith, passes_at test last {n = n})

mask14_table : passes (λ x. bit_and x 0x3FFF == x) 0x4000 ≡ true
unfolding passes
mask14_table = refl

pub bit_and_mask14 : (x : ℕ) → x < 0x4000 → bit_and x 0x3FFF ≡ x
bit_and_mask14 x h = (==_iff _ x).0 (passes_at (λ x. bit_and x 0x3FFF == x) 0x4000 mask14_table h)

mask2_table : passes (λ x. bit_and x 3 == x % 4) 0x1_0000 ≡ true
unfolding passes
mask2_table = refl

-- The remainder by 4 of a 16-bit number
pub bit_and_mask2 : (x : ℕ) → x < 0x1_0000 → bit_and x 3 ≡ x % 4
bit_and_mask2 x h =
    (==_iff _ (x % 4)).0 (passes_at (λ x. bit_and x 3 == x % 4) 0x1_0000 mask2_table h)

top_bits_table : passes (λ x. bit_and x 0xC0 == 0) 64 ≡ true
unfolding passes
top_bits_table = refl

-- The two top bits of a byte below 64
pub bit_and_top_bits : (x : ℕ) → x < 64 → bit_and x 0xC0 ≡ 0
bit_and_top_bits x h = (==_iff _ 0).0 (passes_at (λ x. bit_and x 0xC0 == 0) 64 top_bits_table h)
