-- ===== src/Ports/History.antt =====
-- A client's calls in any order, with the list of the ports that it was given and has not released:
-- no port is ever given out twice.
use p2p_cluster.Common.{
  ℕ, suc, ◌+◌, ◌<◌, ◌≡◌, refl, Bool, true, false, Option, none, some, arith, inl, inr, List, [],
  ◌∷◌, leb, ◌==◌, if◌then◌else◌, ◌&&◌,
}
use p2p_cluster.Ports.{
  Turnports, Token, is_taken, ports_size, tps_taken_odd, turnports_create, turnports_allocate,
  turnports_allocate_even, turnports_release,
}
use p2p_cluster.Ports.Invariant.{IsValid, IsHeld, is_taken-marks}
use p2p_cluster.Ports.Allocate.{Allocates, turnports_allocate-Allocates}
use p2p_cluster.Ports.Release.{
  HasRoom, IsHeld-cases, release_other, turnports_release-IsValid, turnports_release-frees,
}
use p2p_cluster.Ports.Even.{EvenOutcome, turnports_allocate_even_lem}
use p2p_cluster.Ports.Create.{IsFresh, turnports_create-IsFresh}

abbrev pub count : ℕ → List ℕ → ℕ
count p [] = 0
count p (q ∷ l) = if q == p then suc (count p l) else count p l

abbrev pub remove : ℕ → List ℕ → List ℕ
remove p [] = []
remove p (q ∷ l) = let rest = remove p l in if q == p then rest else q ∷ rest

count-remove : (p q : ℕ) (l : List ℕ) → count q (remove p l) ≡ (if p == q then 0 else count q l)
count-remove p q [] = ground arith
count-remove p q (x ∷ l) = ground (arith, count-remove p q l)

-- 1 if the port is marked as held, else 0.
abbrev pub holders : Turnports → ℕ → ℕ
holders tp q =
    if leb tp.range_start q && (leb q tp.range_stop && is_taken (tp.status q)) then 1 else 0

pub record Client : Type 0 where
  pub tp : Turnports
  pub held : List ℕ

abbrev pub given : Bool → List ℕ → Option (ℕ × Option Token) → List ℕ
given rtcp held none = held
given false held (some (p, token)) = p ∷ held
given true held (some (p, token)) = p ∷ (p + 1) ∷ held

abbrev pub given_one : List ℕ → Option ℕ → List ℕ
given_one held none = held
given_one held (some p) = p ∷ held

-- A call. The ring must have room where a port goes back to it.
pub data Step (c : Client) : Client → Type 0 where
  allocate :
      {d : Client}
      → d ≡ record {
        tp = (turnports_allocate c.tp).0;
        held = given_one c.held (turnports_allocate c.tp).1;
      }
      → Step c d
  allocate_even :
      {d : Client} (rtcp want : Bool) (random : ℕ)
      → c.tp.high + ports_size < tps_taken_odd
      → ¬ IsHeld c.tp 65535
      → d ≡ record {
        tp = (turnports_allocate_even c.tp rtcp want random).0;
        held = given rtcp c.held (turnports_allocate_even c.tp rtcp want random).1;
      }
      → Step c d
  release :
      {d : Client} (p : ℕ)
      → HasRoom c.tp
      → d ≡ record { tp = turnports_release c.tp p; held = remove p c.held }
      → Step c d

pub data Reach (c : Client) : Client → Type 0 where
  here : Reach c c
  next : {d e : Client} → Reach c d → Step d e → Reach c e

-- The ring is valid, and the client's list has each held port once and no other.
pub record Agrees (c : Client) : Type 0 where
  pub valid : IsValid c.tp
  pub exact : (q : ℕ) → count q c.held ≡ holders c.tp q

allocate-Agrees :
    {tp tp' : Turnports} {held : List ℕ} (r : Option ℕ)
    → Agrees (record { tp = tp; held = held })
    → Allocates tp tp' r
    → Agrees (record { tp = tp'; held = given_one held r })
allocate-Agrees none g a = record {
  valid = a.valid;
  exact = λ q. ground (arith, g.exact q, a.keeps, a.outcome.0);
}
allocate-Agrees (some p) g a = record {
  valid = a.valid;
  exact = λ q. ground (arith, g.exact q, a.keeps, a.outcome.0, a.outcome.1, is_taken-marks);
}

even-Agrees :
    {tp tp' : Turnports} {held : List ℕ} (rtcp : Bool) (r : Option (ℕ × Option Token))
    → Agrees (record { tp = tp; held = held })
    → IsValid tp'
    → EvenOutcome tp tp' rtcp r
    → Agrees (record { tp = tp'; held = given rtcp held r })
even-Agrees rtcp none g v s = record {
  valid = v;
  exact = λ q. ground (arith, g.exact q, s.same_start, s.same_stop, s.free_on q, s.held q);
}
even-Agrees {tp} {tp'} false (some (p, token)) g v s = record {
  valid = v;
  exact = λ q. ground (
    arith,
    g.exact q,
    s.free,
    s.same_start,
    s.same_stop,
    s.single refl,
    is_taken-marks,
    s.others_free q,
    s.others_held q,
  );
}
even-Agrees {tp} {tp'} true (some (p, token)) g v s = record {
  valid = v;
  exact = λ q. ground (
    arith,
    g.exact q,
    s.free,
    s.same_start,
    s.same_stop,
    s.pair refl,
    is_taken-marks,
    s.others_free q,
    s.others_held q,
  );
}

release-Agrees :
    {tp : Turnports} {held : List ℕ} (p : ℕ)
    → HasRoom tp
    → Agrees (record { tp = tp; held = held })
    → Agrees (record { tp = turnports_release tp p; held = remove p held })
release-Agrees {tp} {held} p room g = record {
  valid = turnports_release-IsValid p room g.valid;
  exact = λ q. elim (IsHeld-cases tp p) [
    | inl h ↦ ground (
      arith,
      g.exact q,
      g.exact p,
      count-remove p q held,
      turnports_release-frees p room h,
      (turnports_release-frees p room h).1 q,
    )
    | inr n ↦
        ground
          (arith, g.exact q, g.exact p, count-remove p q held, release_other {tp = tp} {p = p} n)
  ];
}

Step-Agrees : {c d : Client} → Step c d → Agrees c → Agrees d
Step-Agrees {c} (allocate e) g =
    rw e (allocate-Agrees _ g (turnports_allocate-Allocates c.tp g.valid))
Step-Agrees {c} (allocate_even rtcp want random few top e) g =
    let o = turnports_allocate_even_lem rtcp want random c.tp g.valid few top in
    rw e (even-Agrees rtcp _ g o.0 o.1)
Step-Agrees (release p room e) g = rw e (release-Agrees p room g)

Reach-Agrees : {c d : Client} → Agrees c → Reach c d → Agrees d
Reach-Agrees g here = g
Reach-Agrees g (next r s) = Step-Agrees s (Reach-Agrees g r)

-- Start from a ring that `turnports_create` made over 16-bit bounds, and nothing held. After any
-- sequence of calls, where a release finds room in the ring and `turnports_allocate_even` is called
-- with the counter short of its end and port 65535 not held, the ring is valid and each port occurs
-- in the client's list once if it is marked as taken and not at all if it is not.
pub turnports_history-Agrees :
    (rng : ℕ → ℕ) (start end : ℕ) {tp : Turnports} {d : Client}
    → end < ports_size
    → turnports_create rng start end ≡ some tp
    → Reach (record { tp = tp; held = [] }) d
    → Agrees d
turnports_history-Agrees rng start end {tp} top e r =
    Reach-Agrees
      (record {
        valid = fresh.valid;
        exact = λ q. ground (arith, fresh.all_free q, fresh.range_start_lem, fresh.range_stop_lem);
      })
      r
  where
    fresh : IsFresh start end tp
    fresh = (turnports_create-IsFresh rng start end top).0 tp e
