-- ===== src/Ports/PerAddress/Tests.antt =====
-- Two addresses with a ring each, and the theorems at them.
use p2p_cluster.Common.{
  ℕ, ◌+◌, ◌≤◌, ◌≡◌, refl, sym, subst, ◌∙◌, true, false, ◌==◌, ◌&&◌, if◌then◌else◌, none, some,
  arith,
}
use p2p_cluster.Ioaddr.{IoaAddr, af_inet, addr_eq, addr_set_port, addr_get_port}
use p2p_cluster.Ioaddr.Equality.{v4}
use p2p_cluster.Ioaddr.SameAddr.{same_addr, SameAddr-eq}
use p2p_cluster.AddrMap.{ur_addr_map_init}
use p2p_cluster.AddrMap.Laws.{init-get}
use p2p_cluster.Ports.{
  Turnports, init_ports, randomize, randomize_from, swap_ports, turnports_create,
}
use p2p_cluster.Ports.Create.{IsFresh, turnports_create-IsFresh}
use p2p_cluster.Ports.Release.{HasRoom}
use p2p_cluster.Ports.PerAddress.{
  Turnipports, turnipports_create, turnipports_allocate, turnipports_release,
  turnipports_is_allocated, find_ring, get_map,
}
use p2p_cluster.Ports.PerAddress.Invariant.{IsValid, same_ring}
use p2p_cluster.Ports.PerAddress.Add.{after, after_find, after_fields, region_at, after-IsValid}
use p2p_cluster.Ports.PerAddress.Laws.{
  turnipports_release_lem, Allocated, turnipports_allocate-Allocated,
}

abbrev relay : IoaAddr
relay = record { family = af_inet; port = 3478; ip4 = λ i. 10 + i; ip6 = λ _. 0 }

abbrev started : Turnipports
started = turnipports_create (λ _. init_ports 0 0) 100 103

-- Where nothing is found, there is nothing to say of rings.
nothing : (transport : ℕ) (a : IoaAddr) → find_ring started transport a ≡ none
unfolding find_ring get_map turnipports_create
nothing transport a = ground (arith, init-get (addr_set_port a 0))

started-IsValid : IsValid started
unfolding turnipports_create ur_addr_map_init
started-IsValid = record {
  ordered = omega arith;
  top = omega arith;
  magic_udp = refl;
  magic_tcp = refl;
  first = omega arith;
  pointer = λ s a t e. let n = nothing s a in absurd (let f : ⊥ = cc in f);
  ring = λ s a t e. let n = nothing s a in absurd (let f : ⊥ = cc in f);
  apart = λ s u a b t e f. let n = nothing s a in absurd (let f : ⊥ = cc in f);
}

known : addr_eq (addr_set_port relay 0) (addr_set_port relay 0) ≡ true
unfolding addr_set_port
known = SameAddr-eq (same_addr (v4 refl refl (λ i lt. refl)) refl)

turnipports_allocate-Allocated_example :
    Allocated started 17 relay (turnipports_allocate (λ k. k) started 17 relay)
turnipports_allocate-Allocated_example =
    turnipports_allocate-Allocated (λ k. k) started 17 relay started-IsValid known

-- A ring of four ports, put in for the address
abbrev fresh_four : Turnports
fresh_four = randomize (λ k. 0) (init_ports 100 103)

fresh_four-IsFresh : IsFresh started.start started.stop fresh_four
unfolding turnports_create turnipports_create
fresh_four-IsFresh = (turnports_create-IsFresh (λ k. 0) 100 103 (omega arith)).0 fresh_four refl

abbrev used : Turnipports
used = after started 17 relay fresh_four started-IsValid known (nothing 17 relay) fresh_four-IsFresh

used-IsValid : IsValid used
used-IsValid =
    after-IsValid started 17 relay fresh_four started-IsValid known (nothing 17 relay)
      fresh_four-IsFresh

-- A relay address with a port of the range
abbrev relayed : IoaAddr
relayed = record relay { port = 102 }

shares : addr_eq (addr_set_port relay 0) (addr_set_port relayed 0) ≡ true
unfolding addr_set_port
shares = SameAddr-eq (same_addr (v4 refl refl (λ i lt. refl)) refl)

used-find : find_ring used 17 relayed ≡ some 1
unfolding turnipports_create
used-find =
    after_find started 17 relay fresh_four started-IsValid known (nothing 17 relay)
      fresh_four-IsFresh 17 relayed
    ∙ rw shares refl

used-HasRoom : HasRoom (used.regions 1)
unfolding turnipports_create randomize randomize_from swap_ports init_ports
used-HasRoom =
    subst HasRoom
      (sym (
        region_at started 17 relay fresh_four started-IsValid known (nothing 17 relay)
          fresh_four-IsFresh 1))
      (omega arith)

used-range : (used.start ≤ addr_get_port relayed) × (addr_get_port relayed ≤ used.stop)
unfolding turnipports_create addr_get_port
used-range =
    let fields =
      after_fields started 17 relay fresh_four started-IsValid known (nothing 17 relay)
        fresh_four-IsFresh in
    omega (arith, fields)

turnipports_release_lem_example :
    IsValid (turnipports_release used 17 relayed)
    × ((s : ℕ) (b : IoaAddr) (q : ℕ)
        → turnipports_is_allocated (turnipports_release used 17 relayed) s b q ≡ (
            if same_ring 17 relayed s b && q == addr_get_port relayed
            then false
            else turnipports_is_allocated used s b q))
turnipports_release_lem_example =
    turnipports_release_lem used 17 relayed 1 used-IsValid used-find used-HasRoom used-range.0
      used-range.1
