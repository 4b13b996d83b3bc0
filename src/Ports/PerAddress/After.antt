-- ===== src/Ports/PerAddress/After.antt =====
-- The state after the ring of an address is replaced.
use p2p_cluster.Common.{
  ℕ, ◌≡◌, ◌≢◌, refl, sym, ap, ◌∙◌, false, Bool-cases, Option-cases, ◌==◌, if◌then◌else◌, some, inl,
  inr, arith,
}
use p2p_cluster.Common.Memory.{update}
use p2p_cluster.Ioaddr.{IoaAddr}
use p2p_cluster.Ports.{Turnports, is_taken}
use p2p_cluster.Ports.PerAddress.{Turnipports, find_ring, get_map, turnipports_is_allocated}
use p2p_cluster.Ports.PerAddress.Invariant.{IsRing, IsValid, same_ring}
use p2p_cluster.Ports.PerAddress.Add.{find-congruent_ring, is_allocated_at, is_allocated_none}

module _ (tp : Turnipports) (transport : ℕ) (a : IoaAddr) (t : ℕ) (v : IsValid tp)
    (found : find_ring tp transport a ≡ some t) (ring : Turnports) where
  -- The ring of the address is replaced.
  unfoldable pub after : Turnipports
  after = record tp { regions = update tp.regions t ring }

  pub after-find : (s : ℕ) (b : IoaAddr) → find_ring after s b ≡ find_ring tp s b
  unfolding after find_ring get_map
  after-find s b = refl

  pub after-IsValid : IsRing tp.start tp.stop ring → IsValid after
  unfolding after find_ring get_map
  after-IsValid r = record {
    ordered = v.ordered;
    top = v.top;
    magic_udp = v.magic_udp;
    magic_tcp = v.magic_tcp;
    first = v.first;
    pointer = v.pointer;
    ring = λ s b u e. elim (Bool-cases (t == u)) [ inl h ↦ rw h r | inr h ↦ rw h (v.ring s b u e) ];
    apart = v.apart;
  }

  -- A port is taken as the new ring says where the call shares the ring, and as before elsewhere.
  pub after_taken :
      (s : ℕ) (b : IoaAddr) (q : ℕ)
      → turnipports_is_allocated after s b q ≡ (
          if same_ring transport a s b
          then is_taken (ring.status q)
          else turnipports_is_allocated tp s b q)
  unfolding after
  after_taken s b q = elim (Bool-cases (same_ring transport a s b)) [
    | inl h ↦
        let here : find_ring after s b ≡ some t =
          after-find s b ∙ sym (find-congruent_ring tp transport a s b h) ∙ found in
        let at_new : after.regions t ≡ ring = ground arith in
        rw h (is_allocated_at after s b q t here ∙ ap (λ r. is_taken (r.status q)) at_new)
    | inr h ↦ rw h (elim (Option-cases (find_ring tp s b)) [
      | inl nothing ↦
          is_allocated_none after s b q (after-find s b ∙ nothing)
          ∙ sym (is_allocated_none tp s b q nothing)
      | inr (u, old) ↦
          let other : u ≢ t = λ e. different s b u h old e in
          let kept : after.regions u ≡ tp.regions u = ground arith in
          is_allocated_at after s b q u (after-find s b ∙ old)
          ∙ ap (λ r. is_taken (r.status q)) kept
          ∙ sym (is_allocated_at tp s b q u old)
    ])
  ]
    where
      different :
          (s : ℕ) (b : IoaAddr) (u : ℕ)
          → same_ring transport a s b ≡ false
          → find_ring tp s b ≡ some u
          → u ≢ t
      different s b u h old e =
          let same = v.apart transport s a b t found (old ∙ ap some e) in ground arith
