-- ===== src/Ports/Even.antt =====
-- `turnports_allocate_even`: an even port, alone or with the odd port above it.
use p2p_cluster.Common.{
  ℕ, zero, suc, ◌+◌, ◌-◌, ◌%◌, ◌^◌, ◌≤◌, ◌<◌, ◌≡◌, refl, Bool, true, false, Option, none, some,
  arith, inl, inr, ◌≢◌, Bool-cases, ltb, ◌==◌, ◌∙◌,
}
use p2p_cluster.Common.Memory.{update}
use p2p_cluster.Ports.{
  Turnports, Token, ports_size, tps_taken_single, tps_taken_even, tps_taken_odd, turnports_allocate,
  turnports_release, turnports_is_available, turnports_size, EvenRound, again, done, even_taken,
  even_choose, even_pair, even_round, even_loop, turnports_allocate_even,
}
use p2p_cluster.Ports.Invariant.{
  IsValid, IsFree, IsHeld, is_taken-small, is_taken-marks, is_available_lem,
}
use p2p_cluster.Ports.Allocate.{Allocates, turnports_allocate-Allocates}
use p2p_cluster.Ports.Release.{HasRoom, released, released-IsValid, release_held, release_other}

-- The same ports are free, and a port that is held keeps its mark.
pub record SameHolders (tp tp' : Turnports) : Type 0 where
  pub same_start : tp'.range_start ≡ tp.range_start
  pub same_stop : tp'.range_stop ≡ tp.range_stop
  pub free_on : (q : ℕ) → IsFree tp q → IsFree tp' q
  pub free_back : (q : ℕ) → IsFree tp' q → IsFree tp q
  pub held : (q : ℕ) → IsHeld tp q → tp'.status q ≡ tp.status q

-- What is granted was free, is even, and is marked; no other port's holder changes.
pub record Granted (tp tp' : Turnports) (rtcp : Bool) (p : ℕ) : Type 0 where
  pub same_start : tp'.range_start ≡ tp.range_start
  pub same_stop : tp'.range_stop ≡ tp.range_stop
  pub even : p % 2 ≡ 0
  pub free : IsFree tp p
  pub single : rtcp ≡ false → tp'.status p ≡ tps_taken_single
  pub pair :
      rtcp ≡ true
      → IsFree tp (p + 1) × (tp'.status p ≡ tps_taken_even) × (tp'.status (p + 1) ≡ tps_taken_odd)
  pub others_free :
      (q : ℕ)
      → q ≢ p
      → (rtcp ≡ true → q ≢ p + 1)
      → (IsFree tp q → IsFree tp' q) × (IsFree tp' q → IsFree tp q)
  pub others_held : (q : ℕ) → IsHeld tp q → tp'.status q ≡ tp.status q

-- A port that is taken and given back at once.
back-SameHolders :
    {tp tp1 : Turnports} {p : ℕ}
    → IsValid tp
    → Allocates tp tp1 (some p)
    → SameHolders tp (released tp1 p)
back-SameHolders {tp} {tp1} {p} v a = record {
  same_start = a.keeps.same_start;
  same_stop = a.keeps.same_stop;
  free_on = λ q f. ground (arith, a.keeps, a.outcome.0, is_taken-small tp1.high);
  free_back = λ q f. ground (arith, a.keeps, a.outcome.0, a.outcome.1);
  held = λ q h. ground (arith, a.keeps, a.outcome.0, a.outcome.1);
}

-- The pair of marks keeps the ring valid: the odd port's own entry turns stale.
pair-IsValid :
    {tp : Turnports} (p : ℕ)
    → IsValid tp
    → IsValid
        (record tp { status = update (update tp.status p tps_taken_even) (p + 1) tps_taken_odd })
pair-IsValid {tp} p v = record {
  range = v.range;
  top = v.top;
  ordered = v.ordered;
  room = v.room;
  small = v.small;
  live = λ q f. ground (arith, v.live q, is_taken-marks);
  entries = v.entries;
}

abbrev EvenCase : Turnports → Bool → EvenRound → Type 0
EvenCase tp rtcp (again tp') = IsValid tp' × SameHolders tp tp' × (tp'.high ≤ tp.high + 1)
EvenCase tp rtcp (done tp' p token) = IsValid tp' × Granted tp tp' rtcp p

module _ {tp tp1 : Turnports} {p : ℕ} (v : IsValid tp) (few : tp.high + 1 < tps_taken_odd)
    (a : Allocates tp tp1 (some p)) where
  room : HasRoom tp1
  room = record {
    cell = omega (arith, v.room, a.keeps.same_high, a.outcome.2);
    step = omega (arith, a.keeps.same_high);
  }

  now_held : IsHeld tp1 p
  now_held = ground (arith, a.keeps, a.outcome.0, a.outcome.1, is_taken-marks)

  give_back : (rtcp : Bool) → EvenCase tp rtcp (again (turnports_release tp1 p))
  give_back rtcp = rw (release_held room now_held) (
    released-IsValid room now_held a.valid,
    back-SameHolders v a,
    omega (arith, a.keeps.same_high),
  )

  alone : p % 2 ≡ 0 → Granted tp tp1 false p
  alone e = record {
    same_start = a.keeps.same_start;
    same_stop = a.keeps.same_stop;
    even = e;
    free = a.outcome.1;
    single = λ _. ground (arith, a.outcome.0);
    pair = λ x. cc;
    others_free = λ q ne _.
        (λ f. ground (arith, a.keeps, a.outcome.0), λ f. ground (arith, a.keeps, a.outcome.0));
    others_held = λ q h. ground (arith, a.outcome.0, a.outcome.1);
  }

  -- What `turnports_is_available` says of the odd port after the even one was taken.
  partner-IsFree :
      p + 1 ≤ tp1.range_stop → turnports_is_available tp1 (p + 1) ≡ true → IsFree tp (p + 1)
  partner-IsFree le av = ground (
    arith,
    a.keeps,
    a.outcome.0,
    a.outcome.1,
    (is_available_lem (p + 1) a.valid (omega (arith, a.keeps.same_start, a.outcome.1), le)).0 av,
  )

  both :
      (want : Bool) (random : ℕ)
      → p % 2 ≡ 0
      → p + 1 ≤ tp1.range_stop
      → turnports_is_available tp1 (p + 1) ≡ true
      → EvenCase tp true (even_taken tp1 p want random)
  unfolding even_taken
  both want random e le av = (
    pair-IsValid p a.valid,
    record {
      same_start = a.keeps.same_start;
      same_stop = a.keeps.same_stop;
      even = e;
      free = a.outcome.1;
      single = λ x. cc;
      pair = λ _. (partner-IsFree le av, ground arith, ground arith);
      others_free = λ q ne ne'. (
        λ f. ground (arith, a.keeps, a.outcome.0, ne' refl),
        λ f. ground (arith, a.keeps, a.outcome.0, ne' refl),
      );
      others_held = λ q h. ground (arith, a.outcome.0, a.outcome.1, partner-IsFree le av);
    },
  )

  pair-EvenCase :
      (want : Bool) (random : ℕ) → p % 2 ≡ 0 → EvenCase tp true (even_pair tp1 p want random)
  unfolding even_pair
  pair-EvenCase want random e = elim (Bool-cases (ltb tp1.range_stop (p + 1))) [
    | inl over ↦ rw over (give_back true)
    | inr le ↦ rw le (elim (Bool-cases (turnports_is_available tp1 (p + 1))) [
      | inl av ↦ rw av (both want random e (ground arith) av)
      | inr na ↦ rw na (give_back true)
    ])
  ]

  choose-EvenCase :
      (rtcp want : Bool) (random : ℕ) → EvenCase tp rtcp (even_choose tp1 p rtcp want random)
  unfolding even_choose
  choose-EvenCase false want random = elim (Bool-cases (p % 2 == 1)) [
    | inl odd ↦ rw odd (give_back false)
    | inr even ↦ rw even (a.valid, alone (ground arith))
  ]
  choose-EvenCase true want random = elim (Bool-cases (p % 2 == 1)) [
    | inl odd ↦ rw odd (give_back true)
    | inr even ↦ rw even (pair-EvenCase want random (ground arith))
  ]

-- A failed `turnports_allocate`: the port released is 65535.
none-EvenCase :
    {tp tp1 : Turnports} (rtcp : Bool)
    → tp.high + 1 < tps_taken_odd
    → ¬ IsHeld tp 65535
    → Allocates tp tp1 none
    → EvenCase tp rtcp (again (turnports_release tp1 65535))
none-EvenCase {tp} {tp1} rtcp few top a =
    rw (release_other {tp = tp1} {p = 65535} (λ h. ground (arith, a.keeps, a.outcome.0))) (
      a.valid,
      record {
        same_start = a.keeps.same_start;
        same_stop = a.keeps.same_stop;
        free_on = λ q f. ground (arith, a.keeps, a.outcome.0);
        free_back = λ q f. ground (arith, a.keeps, a.outcome.0);
        held = λ q h. ground (arith, a.outcome.0);
      },
      omega (arith, a.keeps.same_high),
    )

even_round-EvenCase :
    (tp : Turnports) (rtcp want : Bool) (random : ℕ)
    → IsValid tp
    → tp.high + 1 < tps_taken_odd
    → ¬ IsHeld tp 65535
    → EvenCase tp rtcp (even_round tp rtcp want random)
unfolding even_round
even_round-EvenCase tp rtcp want random v few top =
    by_port (turnports_allocate tp).1 (turnports_allocate-Allocates tp v)
  where
    by_port :
        (port : Option ℕ)
        → Allocates tp (turnports_allocate tp).0 port
        → EvenCase tp rtcp (elim port [
          | none ↦ again (turnports_release (turnports_allocate tp).0 (2 ^ 16 - 1))
          | some p ↦ even_choose (turnports_allocate tp).0 p rtcp want random
        ])
    by_port none a = none-EvenCase rtcp few top a
    by_port (some p) a = choose-EvenCase v few a rtcp want random

-- A port that was held is held still, and one that is held was held.
pub held_on : {tp tp' : Turnports} → SameHolders tp tp' → (q : ℕ) → IsHeld tp q → IsHeld tp' q
held_on s q h = ground (arith, s.same_start, s.same_stop, s.held q h)

pub held_back : {tp tp' : Turnports} → SameHolders tp tp' → (q : ℕ) → IsHeld tp' q → IsHeld tp q
held_back s q h = ground (arith, s.same_start, s.same_stop, s.free_on q)

SameHolders-trans : {a b c : Turnports} → SameHolders a b → SameHolders b c → SameHolders a c
SameHolders-trans x y = record {
  same_start = y.same_start ∙ x.same_start;
  same_stop = y.same_stop ∙ x.same_stop;
  free_on = λ q f. y.free_on q (x.free_on q f);
  free_back = λ q f. x.free_back q (y.free_back q f);
  held = λ q h. y.held q (held_on x q h) ∙ x.held q h;
}

abbrev pub EvenOutcome : Turnports → Turnports → Bool → Option (ℕ × Option Token) → Type 0
EvenOutcome tp tp' rtcp none = SameHolders tp tp'
EvenOutcome tp tp' rtcp (some (p, token)) = Granted tp tp' rtcp p

-- What a later round grants is granted from the start.
Granted-after :
    {a b c : Turnports} {rtcp : Bool} {p : ℕ}
    → SameHolders a b
    → Granted b c rtcp p
    → Granted a c rtcp p
Granted-after x g = record {
  same_start = g.same_start ∙ x.same_start;
  same_stop = g.same_stop ∙ x.same_stop;
  even = g.even;
  free = x.free_back _ g.free;
  single = g.single;
  pair = λ e. (x.free_back _ (g.pair e).0, (g.pair e).1, (g.pair e).2);
  others_free = λ q ne ne'. (
    λ f. (g.others_free q ne ne').0 (x.free_on q f),
    λ f. x.free_back q ((g.others_free q ne ne').1 f),
  );
  others_held = λ q h. g.others_held q (held_on x q h) ∙ x.held q h;
}

EvenOutcome-after :
    {a b : Turnports} (c : Turnports) (rtcp : Bool) (r : Option (ℕ × Option Token))
    → SameHolders a b
    → EvenOutcome b c rtcp r
    → EvenOutcome a c rtcp r
EvenOutcome-after c rtcp none x o = SameHolders-trans x o
EvenOutcome-after c rtcp (some (p, token)) x o = Granted-after x o

SameHolders-refl : (tp : Turnports) → SameHolders tp tp
SameHolders-refl tp = record {
  same_start = refl;
  same_stop = refl;
  free_on = λ q f. f;
  free_back = λ q f. f;
  held = λ q h. refl;
}

-- What `n` rounds lead to, started at `tp`.
abbrev pub EvenRun : ℕ → Bool → Bool → ℕ → Turnports → Type 0
EvenRun n rtcp want random tp =
    IsValid (even_loop n tp rtcp want random).0
    × EvenOutcome tp (even_loop n tp rtcp want random).0 rtcp (even_loop n tp rtcp want random).1

module _ (rtcp want : Bool) (random : ℕ) where
  even_loop-step :
      (n : ℕ) (tp : Turnports) (r : EvenRound)
      → ((tp' : Turnports)
          → IsValid tp'
          → tp'.high + n < tps_taken_odd
          → ¬ IsHeld tp' 65535
          → EvenRun n rtcp want random tp')
      → tp.high + suc n < tps_taken_odd
      → ¬ IsHeld tp 65535
      → even_round tp rtcp want random ≡ r
      → EvenCase tp rtcp r
      → EvenRun (suc n) rtcp want random tp
  even_loop-step n tp (again tp') ih few top e (v, same, up) =
      let rest = ih tp' v (omega arith) (λ h. top (held_back same 65535 h)) in
      unfold even_loop in rw (e, even_loop) (rest.0, EvenOutcome-after _ rtcp _ same rest.1)
  even_loop-step n tp (done tp' p token) ih few top e (v, g) =
      unfold even_loop in rw (e, even_loop) (v, g)

  pub even_loop-EvenRun :
      (n : ℕ) (tp : Turnports)
      → IsValid tp
      → tp.high + n < tps_taken_odd
      → ¬ IsHeld tp 65535
      → EvenRun n rtcp want random tp
  unfolding even_loop
  even_loop-EvenRun zero tp v few top = (v, SameHolders-refl tp)
  even_loop-EvenRun (suc n) tp v few top =
      even_loop-step n tp (even_round tp rtcp want random) (even_loop-EvenRun n) few top refl
        (even_round-EvenCase tp rtcp want random v (omega arith) top)

  -- From a valid ring whose counter has 65536 steps to spare, and where nobody holds port 65535,
  -- `turnports_allocate_even` leaves a valid ring. If it fails, the same ports are free and held as
  -- before. If it grants a port, that port was free and is even. It is marked TPS_TAKEN_SINGLE if no
  -- RTCP port was asked for; else the next port was free too, and the two are marked TPS_TAKEN_EVEN
  -- and TPS_TAKEN_ODD. Every other port is free or held as before.
  pub turnports_allocate_even_lem :
      (tp : Turnports)
      → IsValid tp
      → tp.high + ports_size < tps_taken_odd
      → ¬ IsHeld tp 65535
      → let (tp', granted) = turnports_allocate_even tp rtcp want random in
        IsValid tp' × EvenOutcome tp tp' rtcp granted
  unfolding turnports_allocate_even turnports_size
  turnports_allocate_even_lem tp v few top = elim (Bool-cases (ltb 1 (turnports_size tp))) [
    | inl many ↦ rw many (even_loop-EvenRun (turnports_size tp) tp v (omega arith) top)
    | inr one ↦ rw one (v, SameHolders-refl tp)
  ]
