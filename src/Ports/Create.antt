-- ===== src/Ports/Create.antt =====
-- `turnports_create`: the shuffle is a permutation, so the new ring is valid and every port is free.
use p2p_cluster.Common.{
  ℕ, zero, suc, ◌+◌, ◌-◌, ◌*◌, ◌%◌, ◌^◌, ◌≤◌, ◌<◌, ◌≡◌, refl, none, some, arith, inl, inr,
  Bool-cases, subst, ◌==◌, ltb,
}
use p2p_cluster.Ports.{
  Turnports, ports_size, swap_ports, draw_port, randomize_from, randomize, init_ports,
  turnports_create,
}
use p2p_cluster.Ports.Invariant.{IsValid, IsFree, InRange, is_taken-small}

-- `status` and `ports` are inverse permutations of the range, and the ring holds all of it.
record IsShuffled (start end : ℕ) (tp : Turnports) : Type 0 where
  low_lem : tp.low ≡ start
  high_lem : tp.high ≡ end + 1
  start_lem : tp.range_start ≡ start
  stop_lem : tp.range_stop ≡ end
  place :
      (p : ℕ)
      → start ≤ p
      → p ≤ end
      → (start ≤ tp.status p) × (tp.status p ≤ end) × (tp.ports (tp.status p) ≡ p)
  port :
      (i : ℕ)
      → start ≤ i
      → i ≤ end
      → (start ≤ tp.ports i) × (tp.ports i ≤ end) × (tp.status (tp.ports i) ≡ i)

init_ports-IsShuffled : (start end : ℕ) → start ≤ end → IsShuffled start end (init_ports start end)
unfolding init_ports
init_ports-IsShuffled start end h = record {
  low_lem = refl;
  high_lem = refl;
  start_lem = refl;
  stop_lem = refl;
  place = λ p lo hi. ground arith;
  port = λ i lo hi. ground arith;
}

-- The exchange of two ports of the range.
swap_ports-IsShuffled :
    {start end : ℕ} {tp : Turnports} (a b : ℕ)
    → InRange tp a
    → InRange tp b
    → IsShuffled start end tp
    → IsShuffled start end (swap_ports tp a b)
unfolding swap_ports
swap_ports-IsShuffled {start} {end} {tp} a b ha hb s = elim (Bool-cases (a == b)) [
  | inl same ↦ rw same s
  | inr ne ↦ rw ne (record {
    low_lem = s.low_lem;
    high_lem = s.high_lem;
    start_lem = s.start_lem;
    stop_lem = s.stop_lem;
    place = λ p lo hi. ground (arith, s.start_lem, s.stop_lem, s.place a, s.place b, s.place p);
    port = λ i lo hi. ground (arith, s.start_lem, s.stop_lem, s.place a, s.place b, s.port i);
  })
]

draw_port-InRange :
    {start end : ℕ} {tp : Turnports} (r : ℕ)
    → start ≤ end
    → end < ports_size
    → IsShuffled start end tp
    → InRange tp (draw_port tp (end + 1 - start) r)
draw_port-InRange {start} {end} r le top s =
    let m : r % (end + 1 - start) < end + 1 - start = omega arith in
    ground (arith, m, s.low_lem, s.start_lem, s.stop_lem)

randomize_from-IsShuffled :
    (rng : ℕ → ℕ) (n i : ℕ) {start end : ℕ} {tp : Turnports}
    → start ≤ end
    → end < ports_size
    → IsShuffled start end tp
    → IsShuffled start end (randomize_from rng (end + 1 - start) n i tp)
unfolding randomize_from
randomize_from-IsShuffled rng zero i le top s = s
randomize_from-IsShuffled rng (suc n) i le top s = randomize_from-IsShuffled rng n (i + 1) le top (
    swap_ports-IsShuffled _ _ (draw_port-InRange (rng (2 * i)) le top s)
      (draw_port-InRange (rng (2 * i + 1)) le top s) s)

randomize-IsShuffled :
    (rng : ℕ → ℕ) {start end : ℕ}
    → start ≤ end
    → end < ports_size
    → IsShuffled start end (randomize rng (init_ports start end))
unfolding randomize init_ports
randomize-IsShuffled rng {start} {end} le top =
    let size : (end + 1 + 2 ^ 32 - start) % 2 ^ 32 ≡ end + 1 - start = omega arith in
    rw size (
      unfold init_ports in
      randomize_from-IsShuffled rng _ 0 le top (init_ports-IsShuffled start end le))

-- A full ring: valid, with every port of the range free.
pub record IsFresh (start end : ℕ) (tp : Turnports) : Type 0 where
  pub valid : IsValid tp
  pub range_start_lem : tp.range_start ≡ start
  pub range_stop_lem : tp.range_stop ≡ end
  pub all_free : (p : ℕ) → start ≤ p → p ≤ end → IsFree tp p

IsShuffled-IsFresh :
    {start end : ℕ} {tp : Turnports}
    → start ≤ end
    → end < ports_size
    → IsShuffled start end tp
    → IsFresh start end tp
IsShuffled-IsFresh {start} {end} {tp} le top s = record {
  valid = record {
    range = omega (arith, s.start_lem, s.stop_lem);
    top = omega (arith, s.stop_lem);
    ordered = omega (arith, s.low_lem, s.high_lem);
    room = omega (arith, s.low_lem, s.high_lem);
    small = omega (arith, s.high_lem);
    live = λ p f. ground (arith, s.place p, s.low_lem, s.high_lem, s.start_lem, s.stop_lem);
    entries = λ i lo hi. ground (arith, s.port i, s.low_lem, s.high_lem, s.start_lem, s.stop_lem);
  };
  range_start_lem = s.start_lem;
  range_stop_lem = s.stop_lem;
  all_free = λ p lo hi. (
    omega (arith, s.start_lem),
    omega (arith, s.stop_lem),
    is_taken-small (tp.status p) (omega (arith, s.place p lo hi)),
  );
}

-- For 16-bit bounds in order, and whatever random() returns, `turnports_create` gives a valid ring
-- over exactly that range, in which every port is free. It fails exactly when the bounds are out
-- of order.
pub turnports_create-IsFresh :
    (rng : ℕ → ℕ) (start end : ℕ)
    → end < ports_size
    → ((tp : Turnports) → turnports_create rng start end ≡ some tp → IsFresh start end tp)
      × (turnports_create rng start end ≡ none → end < start)
      × (end < start → turnports_create rng start end ≡ none)
unfolding turnports_create
turnports_create-IsFresh rng start end top = elim (Bool-cases (ltb end start)) [
  | inl out ↦ rw out (λ tp e. cc, λ _. ground arith, λ _. refl)
  | inr fine ↦ rw fine (
    λ tp e.
        let q : randomize rng (init_ports start end) ≡ tp = cc in
        subst (IsFresh start end) q
          (IsShuffled-IsFresh (ground arith) top (randomize-IsShuffled rng (ground arith) top)),
    λ e. cc,
    λ h. ground arith,
  )
]
