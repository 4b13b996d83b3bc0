-- ===== src/Ports/Exhausted.antt =====
-- What `turnports_allocate_even` does when no port is free but stale entries are left in the ring.
use p2p_cluster.Common.{ℕ, ◌+◌, ◌<◌, Bool}
use p2p_cluster.Ports.{Turnports, ports_size, tps_taken_odd, turnports_allocate}
use p2p_cluster.Ports.Invariant.{IsValid, IsFree, IsHeld}

module _ (tp : Turnports) (rtcp want : Bool) (random : ℕ) (v : IsValid tp)
    (few : tp.high + ports_size < tps_taken_odd) (full : (p : ℕ) → ¬ IsFree tp p)
    (top : IsHeld tp 65535) where
  after : Turnports
  after = (turnports_allocate tp).0
