-- ===== src/Stun/Crc/Laws.antt =====
-- The table of the checksum, and the checksum of a message in parts.
use p2p_cluster.Common.{
  ℕ, zero, suc, ◌+◌, ◌<◌, ◌≡◌, refl, ap, ◌∙◌, fun_ext, true, ◌==◌, ==_iff, arith,
}
use p2p_cluster.Common.Memory.{Mem, shift}
use p2p_cluster.Common.Tables.{passes, passes_at}
use p2p_cluster.Common.Text.{get_or}
use p2p_cluster.Stun.Crc.{crc_table, crc_shifts, make_crctable, crc_loop, update_crc}

table_passes : passes (λ i. get_or crc_table i 0 == make_crctable i) 256 ≡ true
unfolding passes make_crctable crc_shifts
table_passes = refl

-- Each of the 256 entries of `crctable` is what `make_crctable` computes for it, by eight shifts
-- with the polynomial of CRC-32.
pub crctable_lem : (i : ℕ) → i < 256 → get_or crc_table i 0 ≡ make_crctable i
crctable_lem i h =
    (==_iff _ (make_crctable i)).0
      (passes_at (λ i. get_or crc_table i 0 == make_crctable i) 256 table_passes h)

-- The checksum loop over `m + n` bytes is the loop over the first `m`, then over the next `n`.
pub crc_loop-add :
    (crc : ℕ) (buffer : Mem) (m n : ℕ)
    → crc_loop crc buffer (m + n) ≡ crc_loop (crc_loop crc buffer m) (shift buffer m) n
unfolding crc_loop
crc_loop-add crc buffer zero n =
    let drop : 0 + n ≡ n = omega arith in
    let unshifted : buffer ≡ shift buffer 0 = fun_ext (λ j. ap buffer (omega arith)) in
    ap (crc_loop crc buffer) drop ∙ ap (λ b. crc_loop crc b n) unshifted
crc_loop-add crc buffer (suc m) n =
    let out : suc m + n ≡ suc (m + n) = omega arith in
    let shifts : shift (shift buffer 1) m ≡ shift buffer (suc m) =
      fun_ext (λ j. ap buffer (omega arith)) in
    ap (crc_loop crc buffer) out
    ∙ crc_loop-add (update_crc crc_table crc (buffer 0)) (shift buffer 1) m n
    ∙ ap (λ b. crc_loop (crc_loop (update_crc crc_table crc (buffer 0)) (shift buffer 1) m) b n)
        shifts
