-- ===== src/Ports/Tests.antt =====
-- The port allocator on small rings, and its theorems at them.
use p2p_cluster.Common.{ℕ, ◌<◌, ◌≡◌, refl, true, false, none, some, arith, [], ◌==◌, if◌then◌else◌}
use p2p_cluster.Ports.{
  Turnports, allocate_round, allocate_loop, is_taken, tps_out_of_range, tps_taken_even,
  tps_taken_odd, turnports_create, randomize, randomize_from, swap_ports, init_ports,
  turnports_allocate, turnports_allocate_even, turnports_release, turnports_is_available,
  turnports_size, even_loop, even_round, even_choose, even_pair, even_taken,
}
use p2p_cluster.Ports.Invariant.{IsValid}
use p2p_cluster.Ports.Allocate.{
  Allocates, turnports_allocate-Allocates, Runs, turnports_allocate-Runs,
}
use p2p_cluster.Ports.Release.{HasRoom}
use p2p_cluster.Ports.Even.{EvenOutcome, turnports_allocate_even_lem}
use p2p_cluster.Ports.Create.{IsFresh, turnports_create-IsFresh}
use p2p_cluster.Ports.History.{
  here, next, allocate, release, Agrees, given_one, remove, turnports_history-Agrees,
}

-- Draws that exchange the second and the third port of a range of four.
abbrev one_swap : ℕ → ℕ
one_swap k = if k == 0 then 1 else if k == 1 then 2 else 0

-- Four ports, 100 to 103; the ring holds 100, 102, 101, 103.
abbrev four : Turnports
four = record {
  status = λ i.
      if i == 100
      then 100
      else if i == 101
      then 102
      else if i == 102
      then 101
      else if i == 103
      then 103
      else tps_out_of_range;
  low = 100;
  high = 104;
  range_start = 100;
  range_stop = 103;
  ports = λ i. if i == 101 then 102 else if i == 102 then 101 else i;
}

four-IsValid : IsValid four
unfolding is_taken
four-IsValid = record {
  range = omega arith;
  top = omega arith;
  ordered = omega arith;
  room = omega arith;
  small = omega arith;
  live = λ p f. ground arith;
  entries = λ i lo hi. ground arith;
}

four-HasRoom : HasRoom four
four-HasRoom = omega arith

-- The four highest ports, all held; two stale entries, 65533 and 65535, are left.
abbrev full : Turnports
full = record {
  status = λ i.
      if i == 65532
      then tps_taken_even
      else if i == 65533
      then tps_taken_odd
      else if i == 65534
      then tps_taken_even
      else if i == 65535
      then tps_taken_odd
      else tps_out_of_range;
  low = 65534;
  high = 65536;
  range_start = 65532;
  range_stop = 65535;
  ports = λ i. if i == 65533 then 65534 else if i == 65534 then 65533 else i;
}

-- Two calls that ask for an RTCP port lead from a fresh ring to such a state.
abbrev top_four : Turnports
top_four = randomize one_swap (init_ports 65532 65535)

full_reached :
    let second =
      (turnports_allocate_even (turnports_allocate_even top_four true false 0).0 true false 0).0 in
    (second.low ≡ full.low)
    × (second.high ≡ full.high)
    × (second.status 65535 ≡ full.status 65535)
    × (second.ports 65534 ≡ full.ports 65534)
    × (second.ports 65535 ≡ full.ports 65535)
unfolding randomize randomize_from swap_ports init_ports turnports_allocate_even turnports_size
    even_loop even_round even_choose even_pair even_taken turnports_allocate allocate_loop
    allocate_round turnports_release turnports_is_available is_taken
full_reached = (refl, refl, refl, refl, refl)

turnports_allocate-Allocates_example :
    Allocates four (turnports_allocate four).0 (turnports_allocate four).1
turnports_allocate-Allocates_example = turnports_allocate-Allocates four four-IsValid

turnports_allocate-Runs_example : Runs four (turnports_allocate four)
turnports_allocate-Runs_example = turnports_allocate-Runs four four-IsValid

full-HasRoom : HasRoom full
full-HasRoom = omega arith

turnports_allocate_even_lem_example :
    IsValid (turnports_allocate_even four true true 7).0
    × EvenOutcome four
        (turnports_allocate_even four true true 7).0
        true
        (turnports_allocate_even four true true 7).1
turnports_allocate_even_lem_example =
    turnports_allocate_even_lem true true 7 four four-IsValid (omega arith) (λ h. omega arith)

turnports_create-IsFresh_example :
    ((tp : Turnports) → turnports_create one_swap 100 103 ≡ some tp → IsFresh 100 103 tp)
    × (turnports_create one_swap 100 103 ≡ none → 103 < 100)
    × (103 < 100 → turnports_create one_swap 100 103 ≡ none)
turnports_create-IsFresh_example = turnports_create-IsFresh one_swap 100 103 (omega arith)

-- Four ports, one allocated and given back.
abbrev fresh_four : Turnports
fresh_four = randomize one_swap (init_ports 100 103)

fresh_four-HasRoom : HasRoom (turnports_allocate fresh_four).0
unfolding randomize randomize_from swap_ports init_ports turnports_allocate allocate_loop
    allocate_round is_taken
fresh_four-HasRoom = omega arith

turnports_history-Agrees_example : Agrees (record {
  tp = turnports_release (turnports_allocate fresh_four).0 100;
  held = remove 100 (given_one [] (turnports_allocate fresh_four).1);
})
unfolding turnports_create
turnports_history-Agrees_example =
    turnports_history-Agrees one_swap 100 103 (omega arith) refl
      (next (next here (allocate refl)) (release 100 fresh_four-HasRoom refl))
