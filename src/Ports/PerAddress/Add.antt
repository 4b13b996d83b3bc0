-- ===== src/Ports/PerAddress/Add.antt =====
-- A ring is made for an address when it is first used, and no port is taken by that.
use p2p_cluster.Common.{
  ℕ, ◌+◌, ◌≤◌, ◌≡◌, refl, sym, ap, ◌∙◌, ◌⊎◌, true, false, Bool-cases, Option-cases, if◌then◌else◌,
  none, some, inl, inr, arith,
}
use p2p_cluster.Common.Memory.{update}
use p2p_cluster.Ioaddr.{IoaAddr, addr_eq, addr_set_port}
use p2p_cluster.AddrMap.{magic_hash}
use p2p_cluster.Ioaddr.SameAddr.{addr_eq_join}
use p2p_cluster.AddrMap.Laws.{find-congruent}
use p2p_cluster.Ports.{Turnports, is_taken, turnports_create, turnports_is_allocated}
use p2p_cluster.Ports.Create.{IsFresh, turnports_create-IsFresh}
use p2p_cluster.Ports.PerAddress.{
  Turnipports, get_map, put_ring, find_ring, add_ring, add_found, turnipports_add,
  turnipports_is_allocated,
}
use p2p_cluster.Ports.PerAddress.Invariant.{
  IsRing, IsRing-of, IsValid, same_ring, get_map-magic, put_ring-find, put_ring-fields,
}

pub same_ring_join :
    (s : ℕ) (a : IoaAddr) (t : ℕ) (b : IoaAddr) (u : ℕ) (c : IoaAddr)
    → same_ring s a t b ≡ true
    → same_ring s a u c ≡ same_ring t b u c
same_ring_join s a t b u c h =
    ground (arith, addr_eq_join (addr_set_port a 0) (addr_set_port b 0) (addr_set_port c 0))

-- Calls that share a ring find the same pointer.
pub find-congruent_ring :
    (tp : Turnipports) (s : ℕ) (a : IoaAddr) (t : ℕ) (b : IoaAddr)
    → same_ring s a t b ≡ true
    → find_ring tp s a ≡ find_ring tp t b
unfolding find_ring get_map
find-congruent_ring tp s a t b h = ground (
  arith,
  find-congruent tp.ip_to_turnports_tcp (addr_set_port a 0) (addr_set_port b 0),
  find-congruent tp.ip_to_turnports_udp (addr_set_port a 0) (addr_set_port b 0),
)

pub is_allocated_at :
    (tp : Turnipports) (s : ℕ) (a : IoaAddr) (q t : ℕ)
    → find_ring tp s a ≡ some t
    → turnipports_is_allocated tp s a q ≡ is_taken ((tp.regions t).status q)
unfolding turnipports_is_allocated turnports_is_allocated
is_allocated_at tp s a q t found = rw (found, turnipports_is_allocated) refl

pub is_allocated_none :
    (tp : Turnipports) (s : ℕ) (a : IoaAddr) (q : ℕ)
    → find_ring tp s a ≡ none
    → turnipports_is_allocated tp s a q ≡ false
unfolding turnipports_is_allocated
is_allocated_none tp s a q missing = rw (missing, turnipports_is_allocated) refl

-- The ports of the range that are taken are the same for every address.
abbrev pub SameTaken : Turnipports → Turnipports → Type 0
SameTaken tp tp' =
    (s : ℕ) (b : IoaAddr) (q : ℕ)
    → tp.start ≤ q
    → q ≤ tp.stop
    → turnipports_is_allocated tp' s b q ≡ turnipports_is_allocated tp s b q

-- The address has a ring now.
pub record Added (tp tp' : Turnipports) (transport : ℕ) (a : IoaAddr) (t : ℕ) : Type 0 where
  pub valid : IsValid tp'
  pub same_start : tp'.start ≡ tp.start
  pub same_stop : tp'.stop ≡ tp.stop
  pub found : find_ring tp' transport a ≡ some t
  pub taken : SameTaken tp tp'

module _ (tp : Turnipports) (transport : ℕ) (a : IoaAddr) (ring : Turnports) (v : IsValid tp)
    (known : addr_eq (addr_set_port a 0) (addr_set_port a 0) ≡ true)
    (missing : find_ring tp transport a ≡ none) (fresh : IsFresh tp.start tp.stop ring) where
  unfoldable pub stored : Turnipports
  stored = record tp { regions = update tp.regions tp.next ring; next = tp.next + 1 }

  unfoldable pub after : Turnipports
  after = put_ring stored transport (addr_set_port a 0) tp.next

  pub after_fields :
      (after.start ≡ tp.start)
      × (after.stop ≡ tp.stop)
      × (after.next ≡ tp.next + 1)
      × (after.regions ≡ update tp.regions tp.next ring)
      × (after.ip_to_turnports_udp.magic ≡ magic_hash)
      × (after.ip_to_turnports_tcp.magic ≡ magic_hash)
  unfolding after stored
  after_fields =
      put_ring-fields stored transport (addr_set_port a 0) tp.next v.magic_udp v.magic_tcp
        (omega (arith, v.first))

  pub after_find :
      (s : ℕ) (b : IoaAddr)
      → find_ring after s b ≡ (if same_ring transport a s b then some tp.next else find_ring tp s b)
  unfolding after stored find_ring get_map
  after_find s b =
      put_ring-find stored transport a tp.next s b (get_map-magic transport v)
        (omega (arith, v.first))

  pub region_at : (t : ℕ) → after.regions t ≡ update tp.regions tp.next ring t
  region_at t = ap (λ f. f t) after_fields.3

  new-IsRing : IsRing tp.start tp.stop ring
  new-IsRing = record {
    valid = fresh.valid;
    range_start_lem = fresh.range_start_lem;
    range_stop_lem = fresh.range_stop_lem;
  }

  -- The ring that another call finds is the new one or an old one.
  found_cases :
      (s : ℕ) (b : IoaAddr) (t : ℕ)
      → find_ring after s b ≡ some t
      → ((same_ring transport a s b ≡ true) × (t ≡ tp.next))
        ⊎ ((same_ring transport a s b ≡ false) × (find_ring tp s b ≡ some t))
  found_cases s b t e = elim (Bool-cases (same_ring transport a s b)) [
    | inl h ↦ inl (h, ground (arith, after_find s b))
    | inr h ↦ inr (h, ground (arith, after_find s b))
  ]

  pub after-IsValid : IsValid after
  after-IsValid = record {
    ordered = omega (arith, v.ordered, after_fields);
    top = omega (arith, v.top, after_fields);
    magic_udp = after_fields.4;
    magic_tcp = after_fields.5;
    first = omega (arith, after_fields);
    pointer = λ s b t e. elim (found_cases s b t e) [
      | inl (h, q) ↦ (omega (arith, v.first), omega (arith, after_fields))
      | inr (h, old) ↦
          (omega (arith, v.pointer s b t old), omega (arith, v.pointer s b t old, after_fields))
    ];
    ring = λ s b t e. elim (found_cases s b t e) [
      | inl (h, q) ↦ IsRing-of after_fields.0 after_fields.1 (region_at t ∙ ground arith) new-IsRing
      | inr (h, old) ↦
          IsRing-of after_fields.0 after_fields.1
            (region_at t ∙ ground (arith, v.pointer s b t old)) (v.ring s b t old)
    ];
    apart = λ s u b c t e f. elim (found_cases s b t e) [
      | inl (h, q) ↦ elim (found_cases u c t f) [
        | inl (h', q') ↦ sym (same_ring_join transport a s b u c h) ∙ h'
        | inr (h', old) ↦ absurd (omega (arith, v.pointer u c t old))
      ]
      | inr (h, old) ↦ elim (found_cases u c t f) [
        | inl (h', q') ↦ absurd (omega (arith, v.pointer s b t old))
        | inr (h', old') ↦ v.apart s u b c t old old'
      ]
    ];
  }

  after_taken : SameTaken tp after
  after_taken s b q lo hi = elim (Bool-cases (same_ring transport a s b)) [
    | inl h ↦
        let nothing = sym (find-congruent_ring tp transport a s b h) ∙ missing in
        let found : find_ring after s b ≡ some tp.next = ground (arith, after_find s b) in
        let at_new : after.regions tp.next ≡ ring = region_at tp.next ∙ ground arith in
        is_allocated_at after s b q tp.next found
        ∙ ap (λ r. is_taken (r.status q)) at_new
        ∙ (fresh.all_free q lo hi).2
        ∙ sym (is_allocated_none tp s b q nothing)
    | inr h ↦ elim (Option-cases (find_ring tp s b)) [
      | inl nothing ↦
          let found : find_ring after s b ≡ none = ground (arith, after_find s b) in
          is_allocated_none after s b q found ∙ sym (is_allocated_none tp s b q nothing)
      | inr (t, old) ↦
          let found : find_ring after s b ≡ some t = ground (arith, after_find s b) in
          let kept : after.regions t ≡ tp.regions t =
            region_at t ∙ ground (arith, v.pointer s b t old) in
          is_allocated_at after s b q t found
          ∙ ap (λ r. is_taken (r.status q)) kept
          ∙ sym (is_allocated_at tp s b q t old)
    ]
  ]

  after-Added : Added tp after transport a tp.next
  after-Added = record {
    valid = after-IsValid;
    same_start = after_fields.0;
    same_stop = after_fields.1;
    found = ground (arith, after_find transport a);
    taken = after_taken;
  }

pub add-Added :
    (rng : ℕ → ℕ) (tp : Turnipports) (transport : ℕ) (a : IoaAddr)
    → IsValid tp
    → addr_eq (addr_set_port a 0) (addr_set_port a 0) ≡ true
    → Added tp
        (turnipports_add rng tp transport a).0
        transport
        a
        (turnipports_add rng tp transport a).1
unfolding turnipports_add add_found add_ring after stored
add-Added rng tp transport a v known = elim (Option-cases (find_ring tp transport a)) [
  | inr (t, found) ↦
      rw (found, add_found)
        (record {
          valid = v;
          same_start = refl;
          same_stop = refl;
          found = found;
          taken = λ s b q lo hi. refl;
        })
  | inl missing ↦
      let created = turnports_create-IsFresh rng tp.start tp.stop v.top in
      elim (Option-cases (turnports_create rng tp.start tp.stop)) [
        | inl failed ↦ absurd (omega (arith, created.1 failed, v.ordered))
        | inr (ring, e) ↦
            rw (missing, add_found)
              (rw (e, add_ring)
                (after-Added tp transport a ring v known missing (created.0 ring e)))
      ]
]
