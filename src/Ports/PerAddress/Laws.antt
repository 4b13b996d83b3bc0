-- ===== src/Ports/PerAddress/Laws.antt =====
-- A call changes the ports of its own address and transport only.
use p2p_cluster.Common.{
  ℕ, ◌≤◌, ◌≡◌, ◌≢◌, refl, sym, ap, ◌∙◌, true, false, Bool-cases, ◌==◌, ◌&&◌, if◌then◌else◌, Option,
  none, some, inl, inr, arith,
}
use p2p_cluster.Common.Memory.{update}
use p2p_cluster.Ioaddr.{IoaAddr, addr_eq, addr_set_port, addr_get_port}
use p2p_cluster.Ports.{Turnports, is_taken, tps_taken_single, turnports_allocate, turnports_release}
use p2p_cluster.Ports.Invariant.{IsFree, is_taken-marks}
use p2p_cluster.Ports.Allocate.{Allocates, turnports_allocate-Allocates}
use p2p_cluster.Ports.Release.{
  HasRoom, IsHeld-cases, release_other, turnports_release-IsValid, turnports_release-frees,
}
use p2p_cluster.Ports.PerAddress.{
  Turnipports, find_ring, turnipports_add, allocate_at, turnipports_allocate, turnipports_release,
  turnipports_is_allocated,
}
use p2p_cluster.Ports.PerAddress.Invariant.{IsRing, IsValid, same_ring}
use p2p_cluster.Ports.PerAddress.Add.{
  find-congruent_ring, is_allocated_at, SameTaken, Added, add-Added,
}
use p2p_cluster.Ports.PerAddress.After.{after, after-IsValid, after_taken}

-- The result of a call that allocates a port
pub data Allocated (tp : Turnipports) (transport : ℕ) (a : IoaAddr)
    : Turnipports × Option ℕ → Type 0 where
  refused :
      {tp' : Turnipports}
      → IsValid tp'
      → SameTaken tp tp'
      → ((q : ℕ) → tp.start ≤ q → q ≤ tp.stop → turnipports_is_allocated tp transport a q ≡ true)
      → Allocated tp transport a (tp', none)
  granted :
      {tp' : Turnipports} {p : ℕ}
      → IsValid tp'
      → tp.start ≤ p
      → p ≤ tp.stop
      → turnipports_is_allocated tp transport a p ≡ false
      → ((s : ℕ) (b : IoaAddr) (q : ℕ)
          → tp.start ≤ q
          → q ≤ tp.stop
          → turnipports_is_allocated tp' s b q ≡ (
              if same_ring transport a s b && q == p
              then true
              else turnipports_is_allocated tp s b q))
      → Allocated tp transport a (tp', some p)

module _ (tp tp1 : Turnipports) (transport : ℕ) (a : IoaAddr) (t : ℕ)
    (added : Added tp tp1 transport a t) where
  old-IsRing : IsRing tp1.start tp1.stop (tp1.regions t)
  old-IsRing = added.valid.ring transport a t added.found

  new-IsRing :
      (ring : Turnports) (o : Option ℕ)
      → Allocates (tp1.regions t) ring o
      → IsRing tp1.start tp1.stop ring
  new-IsRing ring o done = record {
    valid = done.valid;
    range_start_lem = done.keeps.same_start ∙ old-IsRing.range_start_lem;
    range_stop_lem = done.keeps.same_stop ∙ old-IsRing.range_stop_lem;
  }

  -- What a call that shares the ring said before
  shared :
      (s : ℕ) (b : IoaAddr) (q : ℕ)
      → same_ring transport a s b ≡ true
      → tp.start ≤ q
      → q ≤ tp.stop
      → turnipports_is_allocated tp s b q ≡ is_taken ((tp1.regions t).status q)
  shared s b q h lo hi =
      sym (added.taken s b q lo hi)
      ∙ is_allocated_at tp1 s b q t (sym (find-congruent_ring tp1 transport a s b h) ∙ added.found)

  own :
      (q : ℕ)
      → tp.start ≤ q
      → q ≤ tp.stop
      → turnipports_is_allocated tp transport a q ≡ is_taken ((tp1.regions t).status q)
  own q lo hi =
      sym (added.taken transport a q lo hi) ∙ is_allocated_at tp1 transport a q t added.found

  all_taken :
      ((q : ℕ) → ¬ IsFree (tp1.regions t) q)
      → (q : ℕ) → tp.start ≤ q
      → q ≤ tp.stop
      → turnipports_is_allocated tp transport a q ≡ true
  all_taken none_free q lo hi =
      own q lo hi ∙ (elim (Bool-cases (is_taken ((tp1.regions t).status q))) [
        | inl h ↦ h
        | inr h ↦ absurd (
            none_free q (
              omega (arith, old-IsRing.range_start_lem, added.same_start),
              omega (arith, old-IsRing.range_stop_lem, added.same_stop),
              h,
            ))
      ])

  unchanged :
      (ring : Turnports)
      → ring.status ≡ (tp1.regions t).status
      → (s : ℕ) (b : IoaAddr) (q : ℕ) → tp.start ≤ q
      → q ≤ tp.stop
      → (if same_ring transport a s b
          then is_taken (ring.status q)
          else turnipports_is_allocated tp1 s b q)
        ≡ turnipports_is_allocated tp s b q
  unchanged ring e s b q lo hi = elim (Bool-cases (same_ring transport a s b)) [
    | inl h ↦ rw h (ap (λ f. is_taken (f q)) e ∙ sym (shared s b q h lo hi))
    | inr h ↦ rw h (added.taken s b q lo hi)
  ]

  marked :
      (ring : Turnports) (p : ℕ)
      → ring.status ≡ update (tp1.regions t).status p tps_taken_single
      → (s : ℕ) (b : IoaAddr) (q : ℕ) → tp.start ≤ q
      → q ≤ tp.stop
      → (if same_ring transport a s b
          then is_taken (ring.status q)
          else turnipports_is_allocated tp1 s b q)
        ≡ (if same_ring transport a s b && q == p then true else turnipports_is_allocated tp s b q)
  marked ring p e s b q lo hi = elim (Bool-cases (same_ring transport a s b)) [
    | inl h ↦ rw h (
        ap (λ f. is_taken (f q)) e ∙ (elim (Bool-cases (q == p)) [
          | inl at ↦ let here : (p == q) ≡ true = ground arith in rw (at, here) is_taken-marks.0
          | inr off ↦
              let there : (p == q) ≡ false = ground arith in
              rw (off, there) (sym (shared s b q h lo hi))
        ]))
    | inr h ↦ rw h (added.taken s b q lo hi)
  ]

  Allocated-step :
      (ring : Turnports) (o : Option ℕ)
      → Allocates (tp1.regions t) ring o
      → Allocated tp transport a (record tp1 { regions = update tp1.regions t ring }, o)
  unfolding after
  Allocated-step ring none done =
      refused
        (after-IsValid tp1 transport a t added.valid added.found ring (new-IsRing ring none done))
        (λ s b q lo hi.
          after_taken tp1 transport a t added.valid added.found ring s b q
          ∙ unchanged ring done.outcome.0 s b q lo hi)
        (all_taken done.outcome.1)
  Allocated-step ring (some p) done =
      let lo : tp.start ≤ p =
        omega (arith, done.outcome.1.0, old-IsRing.range_start_lem, added.same_start) in
      let hi : p ≤ tp.stop =
        omega (arith, done.outcome.1.1, old-IsRing.range_stop_lem, added.same_stop) in
      granted
        (after-IsValid tp1 transport a t added.valid added.found ring
          (new-IsRing ring (some p) done))
        lo hi (own p lo hi ∙ done.outcome.1.2)
        (λ s b q lo hi.
          after_taken tp1 transport a t added.valid added.found ring s b q
          ∙ marked ring p done.outcome.0 s b q lo hi)

  allocate_at-Allocated : Allocated tp transport a (allocate_at tp1 t)
  unfolding allocate_at
  allocate_at-Allocated =
      let guard : (t == 0) ≡ false =
        ground (arith, added.valid.pointer transport a t added.found) in
      rw guard (
        Allocated-step (turnports_allocate (tp1.regions t)).0 (turnports_allocate (tp1.regions t)).1
          (turnports_allocate-Allocates (tp1.regions t) old-IsRing.valid))

-- From a valid state, for an IPv4 or IPv6 address: `turnipports_allocate` leaves a valid state. If it
-- grants a port, the port is in the range, was not allocated for this address and transport, and
-- is now; whether any other port of the range, or a port of the range for any other address or
-- transport, is allocated is as before. If it fails, every port of the range was allocated, and
-- whether a port of the range is allocated, for any address and transport, is as before.
pub turnipports_allocate-Allocated :
    (rng : ℕ → ℕ) (tp : Turnipports) (transport : ℕ) (a : IoaAddr)
    → IsValid tp
    → addr_eq (addr_set_port a 0) (addr_set_port a 0) ≡ true
    → Allocated tp transport a (turnipports_allocate rng tp transport a)
unfolding turnipports_allocate
turnipports_allocate-Allocated rng tp transport a v known =
    allocate_at-Allocated tp (turnipports_add rng tp transport a).0 transport a
      (turnipports_add rng tp transport a).1 (add-Added rng tp transport a v known)

-- A ring in which one port is given back
cleared :
    (tp : Turnipports) (transport : ℕ) (a : IoaAddr) (t p : ℕ)
    → IsValid tp
    → find_ring tp transport a ≡ some t
    → (ring : Turnports) → is_taken (ring.status p) ≡ false
    → ((q : ℕ) → q ≢ p → ring.status q ≡ (tp.regions t).status q)
    → (s : ℕ) (b : IoaAddr) (q : ℕ)
    → (if same_ring transport a s b
        then is_taken (ring.status q)
        else turnipports_is_allocated tp s b q)
      ≡ (if same_ring transport a s b && q == p then false else turnipports_is_allocated tp s b q)
cleared tp transport a t p v found ring free others s b q =
    elim (Bool-cases (same_ring transport a s b)) [
      | inl h ↦ rw h (elim (Bool-cases (q == p)) [
        | inl at ↦
            let e : q ≡ p = ground arith in rw at (ap (λ x. is_taken (ring.status x)) e ∙ free)
        | inr off ↦ rw off (
            ap is_taken (others q (ground arith))
            ∙ sym (
                is_allocated_at tp s b q t
                  (sym (find-congruent_ring tp transport a s b h) ∙ found)))
      ])
      | inr h ↦ rw h refl
    ]

-- A port of the range is free after its release, whether it was held or not.
release_clears :
    (ring : Turnports) (p : ℕ)
    → HasRoom ring
    → ring.range_start ≤ p
    → p ≤ ring.range_stop
    → (is_taken ((turnports_release ring p).status p) ≡ false)
      × ((q : ℕ) → q ≢ p → (turnports_release ring p).status q ≡ ring.status q)
      × ((turnports_release ring p).range_start ≡ ring.range_start)
      × ((turnports_release ring p).range_stop ≡ ring.range_stop)
release_clears ring p room lo hi = elim (IsHeld-cases ring p) [
  | inl held ↦
      let freed = turnports_release-frees p room held in (freed.0.2, freed.1, freed.2, freed.3)
  | inr other ↦
      rw (release_other {tp = ring} {p = p} other) (elim (Bool-cases (is_taken (ring.status p))) [
        | inl h ↦ absurd (other (lo, hi, h))
        | inr h ↦ (h, λ q ne. refl, refl, refl)
      ])
]

-- From a valid state, where an address has a ring with a cell and a step to spare:
-- `turnipports_release` of an address whose port is in the range leaves a valid state in which that
-- port is not allocated for it. Whether any other port, or a port of any other address or transport,
-- is allocated is as before.
pub turnipports_release_lem :
    (tp : Turnipports) (transport : ℕ) (a : IoaAddr) (t : ℕ)
    → IsValid tp
    → find_ring tp transport a ≡ some t
    → HasRoom (tp.regions t)
    → tp.start ≤ addr_get_port a
    → addr_get_port a ≤ tp.stop
    → IsValid (turnipports_release tp transport a)
      × ((s : ℕ) (b : IoaAddr) (q : ℕ)
          → turnipports_is_allocated (turnipports_release tp transport a) s b q ≡ (
              if same_ring transport a s b && q == addr_get_port a
              then false
              else turnipports_is_allocated tp s b q))
unfolding turnipports_release after
turnipports_release_lem tp transport a t v found room lo hi =
    let old = v.ring transport a t found in
    let p = addr_get_port a in
    let ring = turnports_release (tp.regions t) p in
    let freed =
      release_clears (tp.regions t) p room (omega (arith, old.range_start_lem))
        (omega (arith, old.range_stop_lem)) in
    rw (found, turnipports_release)
      (
        after-IsValid tp transport a t v found ring (record {
          valid = turnports_release-IsValid p room old.valid;
          range_start_lem = freed.2 ∙ old.range_start_lem;
          range_stop_lem = freed.3 ∙ old.range_stop_lem;
        }),
        λ s b q.
            after_taken tp transport a t v found ring s b q
            ∙ cleared tp transport a t p v found ring freed.0 freed.1 s b q,
      )
