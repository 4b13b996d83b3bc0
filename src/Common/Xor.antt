-- ===== src/Common/Xor.antt =====
-- Exclusive or of bytes.
use Prim.Native.Nat.{ℕ, ◌<◌, bit_xor}
use mathlib.Core.Path.{◌≡◌, refl}
use mathlib.Core.Bool.{Bool, true, ◌&&◌}
use native.Mathlib.Omega.{arith}
use p2p_cluster.Common.Tests.{◌==◌, ltb}
use p2p_cluster.Common.Tables.{passes, passes_at}

abbrev undone : ℕ → ℕ → Bool
undone b a = bit_xor (bit_xor a b) b == a && ltb (bit_xor a b) 256

xor_table : passes (λ b. passes (undone b) 256) 256 ≡ true
unfolding passes
xor_table = refl

undone_at : (a b : ℕ) → a < 256 → b < 256 → undone b a ≡ true
undone_at a b la lb =
    passes_at (undone b) 256 (passes_at (λ b. passes (undone b) 256) 256 xor_table lb) la

-- To add a mask to a byte twice changes nothing.
pub bit_xor_twice : (a b : ℕ) → a < 256 → b < 256 → bit_xor (bit_xor a b) b ≡ a
bit_xor_twice a b la lb = ground (arith, undone_at a b la lb)

pub bit_xor-lt : (a b : ℕ) → a < 256 → b < 256 → bit_xor a b < 256
bit_xor-lt a b la lb = ground (arith, undone_at a b la lb)
