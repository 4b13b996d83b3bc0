-- ===== src/Ports/Allocate.antt =====
-- `turnports_allocate`: what it hands out, when it fails, and that its loop ends.
use p2p_cluster.Common.{
  ℕ, zero, suc, ◌+◌, ◌-◌, ◌≤◌, ◌<◌, ◌≡◌, refl, sym, subst, Option, none, some, arith, ◌≢◌,
}
use p2p_cluster.Common.Memory.{update}
use p2p_cluster.Ports.{
  Turnports, tps_taken_single, Round, give_up, skip, take_port, allocate_round, allocate_loop,
  turnports_allocate,
}
use p2p_cluster.Ports.Invariant.{IsValid, IsFree, is_taken-marks}

-- The fields that `turnports_allocate` leaves alone.
pub record Keeps (tp tp' : Turnports) : Type 0 where
  pub same_start : tp'.range_start ≡ tp.range_start
  pub same_stop : tp'.range_stop ≡ tp.range_stop
  pub same_high : tp'.high ≡ tp.high
  pub same_ports : tp'.ports ≡ tp.ports

-- A port is handed out only if it is free, and is marked; without one, nothing is free.
abbrev pub Outcome : Turnports → Turnports → Option ℕ → Type 0
Outcome tp tp' none = (tp'.status ≡ tp.status) × ((p : ℕ) → ¬ IsFree tp p) × (tp.high ≤ tp'.low)
Outcome tp tp' (some p) =
    (tp'.status ≡ update tp.status p tps_taken_single) × IsFree tp p × (tp.low < tp'.low)

pub record Allocates (tp tp' : Turnports) (port : Option ℕ) : Type 0 where
  pub valid : IsValid tp'
  pub keeps : Keeps tp tp'
  pub outcome : Outcome tp tp' port

-- The three ways out of a round: an empty ring, a stale first entry, a free first port.
abbrev RoundCase : Turnports → Round → Type 0
RoundCase tp give_up = tp.high ≤ tp.low
RoundCase tp (skip tp') =
    (tp' ≡ record tp { low = tp.low + 1 })
    × (tp.low < tp.high)
    × ((p : ℕ) → IsFree tp p → tp.status p ≢ tp.low)
RoundCase tp (take_port tp' p) =
    (tp' ≡ record tp { status = update tp.status p tps_taken_single; low = tp.low + 1 })
    × (tp.low < tp.high)
    × IsFree tp p
    × (tp.status p ≡ tp.low)

round_lem : {tp : Turnports} → IsValid tp → RoundCase tp (allocate_round tp)
unfolding allocate_round
round_lem {tp} v = ground (arith, v.entries tp.low)

-- A stale entry goes out of the ring, and nothing else changes.
skip-IsValid :
    {tp : Turnports}
    → IsValid tp
    → tp.low < tp.high
    → ((p : ℕ) → IsFree tp p → tp.status p ≢ tp.low)
    → IsValid (record tp { low = tp.low + 1 })
skip-IsValid {tp} v h stale = record {
  range = v.range;
  top = v.top;
  ordered = omega arith;
  room = omega arith;
  small = v.small;
  live = λ p f. ground (arith, v.live p f, stale p f);
  entries = λ i lo hi. v.entries i (omega arith) hi;
}

-- The first port goes out of the ring and is marked.
take-IsValid :
    {tp : Turnports} (p : ℕ)
    → IsValid tp
    → tp.low < tp.high
    → IsFree tp p
    → tp.status p ≡ tp.low
    → IsValid (record tp { status = update tp.status p tps_taken_single; low = tp.low + 1 })
take-IsValid {tp} p v h free first = record {
  range = v.range;
  top = v.top;
  ordered = omega arith;
  room = omega arith;
  small = v.small;
  live = λ q f. ground (arith, v.live q, v.live p free, is_taken-marks);
  entries = λ i lo hi. v.entries i (omega arith) hi;
}

empty-IsFree : {tp : Turnports} → IsValid tp → tp.high ≤ tp.low → (p : ℕ) → ¬ IsFree tp p
empty-IsFree v h p f = omega (arith, v.live p f)

-- What is done after a stale entry went out is done from the start.
Allocates-skip :
    {tp : Turnports} (tp' : Turnports) (port : Option ℕ)
    → Allocates (record tp { low = tp.low + 1 }) tp' port
    → Allocates tp tp' port
Allocates-skip tp' none a = record {
  valid = a.valid;
  keeps = record {
    same_start = a.keeps.same_start;
    same_stop = a.keeps.same_stop;
    same_high = a.keeps.same_high;
    same_ports = a.keeps.same_ports;
  };
  outcome = a.outcome;
}
Allocates-skip tp' (some p) a = record {
  valid = a.valid;
  keeps = record {
    same_start = a.keeps.same_start;
    same_stop = a.keeps.same_stop;
    same_high = a.keeps.same_high;
    same_ports = a.keeps.same_ports;
  };
  outcome = (a.outcome.0, a.outcome.1, omega arith);
}

module _ (n : ℕ)
    (rest : (tp : Turnports)
      → IsValid tp
      → tp.high - tp.low ≡ n
      → Allocates tp (allocate_loop n tp).0 (allocate_loop n tp).1) where
  loop-Allocates :
      {tp : Turnports} (r : Round)
      → IsValid tp
      → tp.high - tp.low ≡ suc n
      → allocate_round tp ≡ r
      → RoundCase tp r
      → Allocates tp (allocate_loop (suc n) tp).0 (allocate_loop (suc n) tp).1
  unfolding allocate_loop
  loop-Allocates give_up v e eq c = absurd (omega arith)
  loop-Allocates {tp} (skip tp') v e eq c =
      rw (eq, allocate_loop)
        (rw c.0 (
          Allocates-skip _ _
            (rest (record tp { low = tp.low + 1 }) (skip-IsValid v c.1 c.2) (omega arith))))
  loop-Allocates {tp} (take_port tp' p) v e eq c =
      rw (eq, allocate_loop)
        (rw c.0 (record {
          valid = take-IsValid p v c.1 c.2 c.3;
          keeps = record {
            same_start = refl;
            same_stop = refl;
            same_high = refl;
            same_ports = refl;
          };
          outcome = (refl, c.2, omega arith);
        }))

allocate_loop-Allocates :
    (n : ℕ) (tp : Turnports)
    → IsValid tp
    → tp.high - tp.low ≡ n
    → Allocates tp (allocate_loop n tp).0 (allocate_loop n tp).1
unfolding allocate_loop
allocate_loop-Allocates zero tp v e = record {
  valid = v;
  keeps = record { same_start = refl; same_stop = refl; same_high = refl; same_ports = refl };
  outcome = (refl, empty-IsFree v (omega arith), omega arith);
}
allocate_loop-Allocates (suc n) tp v e =
    loop-Allocates n (allocate_loop-Allocates n) (allocate_round tp) v e refl (round_lem v)

-- From a valid ring, `turnports_allocate` leaves a valid ring. It returns -1 only when no port of
-- the range is free, and then the statuses are as before. It returns a port only if that port was
-- free, and then that port's status alone changes, to TPS_TAKEN_SINGLE. The range, `high` and the
-- ring's cells are kept.
pub turnports_allocate-Allocates :
    (tp : Turnports) → IsValid tp → let (tp', port) = turnports_allocate tp in Allocates tp tp' port
unfolding turnports_allocate
turnports_allocate-Allocates tp v = allocate_loop-Allocates (tp.high - tp.low) tp v refl

-- The runs of `while(1)`, round by round, without fuel: a loop that goes on for ever has none.
pub data Runs : Turnports → Turnports × Option ℕ → Type 0 where
  gives_up : {tp : Turnports} → allocate_round tp ≡ give_up → Runs tp (tp, none)
  skips :
      {tp tp' : Turnports} {r : Turnports × Option ℕ}
      → allocate_round tp ≡ skip tp'
      → Runs tp' r
      → Runs tp r
  takes :
      {tp tp' : Turnports} {port : ℕ}
      → allocate_round tp ≡ take_port tp' port
      → Runs tp (tp', some port)

gives_up-Runs :
    {tp : Turnports} (r : Round)
    → allocate_round tp ≡ r
    → RoundCase tp r
    → tp.high ≤ tp.low
    → Runs tp (tp, none)
gives_up-Runs give_up eq c h = gives_up eq
gives_up-Runs (skip tp') eq c h = absurd (omega arith)
gives_up-Runs (take_port tp' p) eq c h = absurd (omega arith)

module _ (n : ℕ)
    (rest : (tp : Turnports)
      → IsValid tp
      → tp.high - tp.low ≡ n
      → Runs tp (allocate_loop n tp)) where
  round-Runs :
      {tp : Turnports} (r : Round)
      → IsValid tp
      → tp.high - tp.low ≡ suc n
      → allocate_round tp ≡ r
      → RoundCase tp r
      → Runs tp (allocate_loop (suc n) tp)
  unfolding allocate_loop
  round-Runs give_up v e eq c = absurd (omega arith)
  round-Runs {tp} (skip tp') v e eq c =
      rw (eq, allocate_loop)
        (skips eq
          (rest tp' (subst IsValid (sym c.0) (skip-IsValid v c.1 c.2)) (rw c.0 (omega arith))))
  round-Runs (take_port tp' p) v e eq c = rw (eq, allocate_loop) (takes eq)

allocate_loop-Runs :
    (n : ℕ) (tp : Turnports) → IsValid tp → tp.high - tp.low ≡ n → Runs tp (allocate_loop n tp)
unfolding allocate_loop
allocate_loop-Runs zero tp v e = gives_up-Runs (allocate_round tp) refl (round_lem v) (omega arith)
allocate_loop-Runs (suc n) tp v e =
    round-Runs n (allocate_loop-Runs n) (allocate_round tp) v e refl (round_lem v)

-- From a valid ring the loop of `turnports_allocate` ends: finitely many rounds of `while(1)` lead
-- from the ring to a round that gives up or takes a port, and the function returns what that round
-- leaves and returns.
pub turnports_allocate-Runs : (tp : Turnports) → IsValid tp → Runs tp (turnports_allocate tp)
unfolding turnports_allocate
turnports_allocate-Runs tp v = allocate_loop-Runs (tp.high - tp.low) tp v refl
