-- ===== src/Stun/Address/Carried.antt =====
-- Reading an address from any copy of its field, with any copy of the transaction id.
use p2p_cluster.Common.{
  ℕ, ◌+◌, ◌-◌, ◌<◌, ◌≤◌, ◌≡◌, refl, fun_ext, Bool, Bool-cases, ltb, ◌==◌, arith, inl, inr,
}
use mathlib.Core.Path.{ap₂}
use p2p_cluster.Common.Memory.{Mem, blit, shift}
use p2p_cluster.Ioaddr.{IoaAddr, af_inet, af_inet6}
use p2p_cluster.Ioaddr.Equality.{SameBytes}
use p2p_cluster.Stun.Address.{key_at, xored, read_port, decode4, decode6, stun_addr_decode, decoded}

-- Two fields with the same bytes, and two transaction ids
module _ (f g : Mem) (n : ℕ) (same : SameBytes n f g) (tid tid' : Mem) (ids : SameBytes 12 tid tid')
    (x : Bool) (mc : ℕ) where
  key-same : (i : ℕ) → i < 16 → key_at mc tid i ≡ key_at mc tid' i
  unfolding key_at
  key-same i h = ground (arith, ids (i - 4))

  xored-same :
      (off i : ℕ)
      → i < 16
      → off + i < n
      → xored x mc tid (shift f off) i ≡ xored x mc tid' (shift g off) i
  unfolding xored
  xored-same off i h lt = rw (key-same i h, same (off + i) lt) refl

  port-same : 4 ≤ n → read_port f x mc tid ≡ read_port g x mc tid'
  unfolding read_port
  port-same h =
      rw (xored-same 2 0 (omega arith) (omega arith), xored-same 2 1 (omega arith) (omega arith))
        refl

  host-same :
      (k : ℕ) (old : Mem)
      → k ≤ 16
      → 4 + k ≤ n
      → blit old 0 (xored x mc tid (shift f 4)) k ≡ blit old 0 (xored x mc tid' (shift g 4)) k
  host-same k old small h = fun_ext (λ j. elim (Bool-cases (ltb j k)) [
    | inl lt ↦ let same_j = xored-same 4 j (ground arith) (ground arith) in ground (arith, same_j)
    | inr out ↦ ground arith
  ])

  decode4-same : (old : IoaAddr) → decode4 old f n x mc tid ≡ decode4 old g n x mc tid'
  unfolding decode4
  decode4-same old = elim (Bool-cases (n == 8)) [
    | inl e ↦ rw e (
        ap₂ (λ p h. decoded (record old { family = af_inet; port = p; ip4 = h }))
          (port-same (ground arith)) (host-same 4 old.ip4 (omega arith) (ground arith)))
    | inr ne ↦ rw ne refl
  ]

  decode6-same : (old : IoaAddr) → decode6 old f n x mc tid ≡ decode6 old g n x mc tid'
  unfolding decode6
  decode6-same old = elim (Bool-cases (n == 20)) [
    | inl e ↦ rw e (
        ap₂ (λ p h. decoded (record old { family = af_inet6; port = p; ip6 = h }))
          (port-same (ground arith)) (host-same 16 old.ip6 (omega arith) (ground arith)))
    | inr ne ↦ rw ne refl
  ]

  pub decode-same :
      (old : IoaAddr) → stun_addr_decode old f n x mc tid ≡ stun_addr_decode old g n x mc tid'
  unfolding stun_addr_decode
  decode-same old = elim (Bool-cases (ltb n 8)) [
    | inl short ↦ rw short refl
    | inr long ↦
        rw (same 0 (ground arith), same 1 (ground arith), decode4-same old, decode6-same old) refl
  ]
