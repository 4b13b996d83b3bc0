-- ===== src/Ports/Release.antt =====
-- `turnports_release`: it frees the port, and nothing else.
use p2p_cluster.Common.{
  ℕ, ◌+◌, ◌%◌, ◌<◌, ◌≡◌, refl, arith, ◌⊎◌, inl, inr, ◌≢◌, Bool-cases, leb, ◌&&◌,
}
use p2p_cluster.Common.Memory.{update}
use p2p_cluster.Ports.{Turnports, is_taken, ports_size, tps_taken_odd, turnports_release}
use p2p_cluster.Ports.Invariant.{IsValid, IsFree, IsHeld, is_taken-small}

-- A ring with a cell to spare, and a counter with a step to spare.
pub record HasRoom (tp : Turnports) : Type 0 where
  pub cell : tp.high < tp.low + ports_size
  pub step : tp.high + 1 < tps_taken_odd

-- The ring after the release of a port that is held.
abbrev pub released : Turnports → ℕ → Turnports
released tp p = record tp {
  status = update tp.status p tp.high;
  ports = update tp.ports (tp.high % ports_size) p;
  high = tp.high + 1;
}

pub release_held :
    {tp : Turnports} {p : ℕ} → HasRoom tp → IsHeld tp p → turnports_release tp p ≡ released tp p
unfolding turnports_release
release_held room h = ground arith

-- A port outside the range, or one that nobody holds, is ignored.
pub release_other : {tp : Turnports} {p : ℕ} → ¬ IsHeld tp p → turnports_release tp p ≡ tp
unfolding turnports_release
release_other h = ground arith

pub released-IsValid :
    {tp : Turnports} {p : ℕ} → HasRoom tp → IsHeld tp p → IsValid tp → IsValid (released tp p)
released-IsValid {tp} {p} room h v = record {
  range = v.range;
  top = v.top;
  ordered = omega arith;
  room = omega arith;
  small = room.step;
  live = λ q f. ground (arith, v.live q);
  entries = λ i lo hi. ground (arith, v.entries i lo);
}

-- Held or not, by the tests that the code makes.
pub IsHeld-cases : (tp : Turnports) (p : ℕ) → IsHeld tp p ⊎ (¬ IsHeld tp p)
IsHeld-cases tp p =
    elim (Bool-cases (leb tp.range_start p && (leb p tp.range_stop && is_taken (tp.status p)))) [
      | inl t ↦ inl (ground arith, ground arith, ground arith)
      | inr f ↦ inr (λ h. ground arith)
    ]

-- Whatever port it is called with, `turnports_release` leaves a valid ring, if the ring has a cell
-- to spare and the counter is not at its end.
pub turnports_release-IsValid :
    {tp : Turnports} (p : ℕ) → HasRoom tp → IsValid tp → IsValid (turnports_release tp p)
turnports_release-IsValid {tp} p room v = elim (IsHeld-cases tp p) [
  | inl h ↦ rw (release_held room h) (released-IsValid room h v)
  | inr n ↦ rw (release_other {tp = tp} {p = p} n) v
]

-- After the release a port that was held is free; each other port's status is as before.
pub turnports_release-frees :
    {tp : Turnports} (p : ℕ)
    → HasRoom tp
    → IsHeld tp p
    → IsFree (turnports_release tp p) p
      × ((q : ℕ) → q ≢ p → (turnports_release tp p).status q ≡ tp.status q)
      × ((turnports_release tp p).range_start ≡ tp.range_start)
      × ((turnports_release tp p).range_stop ≡ tp.range_stop)
turnports_release-frees {tp} p room h =
    rw (release_held room h)
      ((h.0, h.1, ground (arith, is_taken-small tp.high)), λ q ne. ground arith, refl, refl)
