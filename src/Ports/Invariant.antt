-- ===== src/Ports/Invariant.antt =====
-- What holds of a `turnports` between calls: the ring of free ports and the status array agree.
use p2p_cluster.Common.{ℕ, ◌+◌, ◌%◌, ◌≤◌, ◌<◌, ◌≡◌, refl, true, false, arith}
use p2p_cluster.Ports.{
  Turnports, is_taken, ports_size, tps_taken_single, tps_taken_even, tps_taken_odd,
  turnports_is_available,
}

abbrev pub InRange : Turnports → ℕ → Type 0
InRange tp p = (tp.range_start ≤ p) × (p ≤ tp.range_stop)

-- Nobody holds the port.
abbrev pub IsFree : Turnports → ℕ → Type 0
IsFree tp p = (tp.range_start ≤ p) × (p ≤ tp.range_stop) × (is_taken (tp.status p) ≡ false)

-- Somebody holds the port.
abbrev pub IsHeld : Turnports → ℕ → Type 0
IsHeld tp p = (tp.range_start ≤ p) × (p ≤ tp.range_stop) × (is_taken (tp.status p) ≡ true)

-- The port's status is the ring position that holds the port.
abbrev pub IsLive : Turnports → ℕ → Type 0
IsLive tp p =
    (tp.low ≤ tp.status p) × (tp.status p < tp.high) × (tp.ports (tp.status p % ports_size) ≡ p)

-- `small`: the 32-bit counter of releases has not come near the marks of taken ports.
pub record IsValid (tp : Turnports) : Type 0 where
  pub range : tp.range_start ≤ tp.range_stop
  pub top : tp.range_stop < ports_size
  pub ordered : tp.low ≤ tp.high
  pub room : tp.high ≤ tp.low + ports_size
  pub small : tp.high < tps_taken_odd
  pub live : (p : ℕ) → IsFree tp p → IsLive tp p
  pub entries : (i : ℕ) → tp.low ≤ i → i < tp.high → InRange tp (tp.ports (i % ports_size))

pub is_taken-marks :
    (is_taken tps_taken_single ≡ true)
    × (is_taken tps_taken_even ≡ true)
    × (is_taken tps_taken_odd ≡ true)
unfolding is_taken
is_taken-marks = (refl, refl, refl)

pub is_taken-small : (s : ℕ) → s < tps_taken_odd → is_taken s ≡ false
unfolding is_taken
is_taken-small s h = ground arith

-- `turnports_is_available` says of a port in the range whether it is free.
pub is_available_lem :
    {tp : Turnports} (p : ℕ)
    → IsValid tp
    → InRange tp p
    → (turnports_is_available tp p ≡ true → IsFree tp p)
      × (IsFree tp p → turnports_is_available tp p ≡ true)
unfolding turnports_is_available
is_available_lem p v r = (λ h. ground arith, λ f. ground (arith, v.live p f))
