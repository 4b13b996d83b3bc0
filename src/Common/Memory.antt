-- ===== src/Common/Memory.antt =====
-- C arrays and byte buffers as functions from an index to the cell's value. A write gives a new
-- function. What lies inside the array is a fact about indices, stated where it matters.
use Prim.Native.Nat.{ℕ, ◌+◌, ◌-◌}
use mathlib.Core.Bool.{◌&&◌}
use p2p_cluster.Common.Tests.{ltb, leb, ◌==◌, if◌then◌else◌}

abbrev pub Mem : Type 0
Mem = ℕ → ℕ

-- m[i] = v
abbrev pub update {ℓ} : {A : Type ℓ} → (ℕ → A) → ℕ → A → ℕ → A
update m i v j = if i == j then v else m j

-- bcopy(src, m + off, n)
abbrev pub blit : Mem → ℕ → Mem → ℕ → Mem
blit m off src n j = if leb off j && ltb j (off + n) then src (j - off) else m j

-- The bytes from `off` on, as a pointer sees them: m + off
abbrev pub shift : Mem → ℕ → Mem
shift m off j = m (off + j)
