-- ===== src/Ports.antt =====
-- The port allocator of coturn/src/apps/relay/turn_ports.c: one ring of free ports for an IP
-- address. `status` and `ports` are the arrays of `struct _turnports`. The mutex is recursive and
-- held through each call, so a call is one step.
pub mod Invariant
pub mod Allocate
pub mod Release
pub mod Even
pub mod Create
pub mod Exhausted
pub mod History
pub mod PerAddress
mod Tests
use p2p_cluster.Common.{
  ℕ, zero, suc, ◌+◌, ◌-◌, ◌*◌, ◌%◌, ◌^◌, Bool, not, ◌&&◌, ◌||◌, Option, none, some, ltb, leb, ◌==◌,
  if◌then◌else◌,
}
use p2p_cluster.Common.Memory.{Mem, update}

abbrev pub ports_size : ℕ
ports_size = 65536

-- (uint32_t)(-1) and so on
abbrev pub tps_out_of_range : ℕ
tps_out_of_range = 2 ^ 32 - 1

abbrev pub tps_taken_single : ℕ
tps_taken_single = 2 ^ 32 - 2

abbrev pub tps_taken_even : ℕ
tps_taken_even = 2 ^ 32 - 3

abbrev pub tps_taken_odd : ℕ
tps_taken_odd = 2 ^ 32 - 4

pub record Turnports : Type 0 where
  pub status : Mem
  pub low : ℕ
  pub high : ℕ
  pub range_start : ℕ
  pub range_stop : ℕ
  pub ports : Mem

-- The `switch` falls through its three cases.
pub is_taken : ℕ → Bool
is_taken s = s == tps_taken_single || (s == tps_taken_even || s == tps_taken_odd)

-- The body of `turnports_randomize`'s loop, once the two ports are drawn.
pub swap_ports : Turnports → ℕ → ℕ → Turnports
swap_ports tp port1 port2 =
    let pos1 = tp.status port1 in
    let pos2 = tp.status port2 in
    if port1 == port2 then tp else record tp {
      status = update (update tp.status port1 pos2) port2 pos1;
      ports = update (update tp.ports pos1 (tp.ports pos2)) pos2 (tp.ports pos1);
    }

-- (uint16_t)(tp->low + (uint16_t)(random() % size))
abbrev pub draw_port : Turnports → ℕ → ℕ → ℕ
draw_port tp size r = (tp.low + r % size % 2 ^ 16) % 2 ^ 16

-- `rng k` is what the k-th call of random() returns.
pub randomize_from : (ℕ → ℕ) → ℕ → ℕ → ℕ → Turnports → Turnports
randomize_from rng size zero i tp = tp
randomize_from rng size (suc n) i tp =
    randomize_from rng size n (i + 1)
      (swap_ports tp (draw_port tp size (rng (2 * i))) (draw_port tp size (rng (2 * i + 1))))

pub randomize : (ℕ → ℕ) → Turnports → Turnports
randomize rng tp =
    let size = (tp.high + 2 ^ 32 - tp.low) % 2 ^ 32 in
    randomize_from rng size (size * 10 % 2 ^ 32) 0 tp

-- The three loops of `turnports_init` write every cell of both arrays once; here is what each
-- cell gets.
pub init_ports : ℕ → ℕ → Turnports
init_ports start end = record {
  status = λ i. if ltb i start then tps_out_of_range else if leb i end then i else tps_out_of_range;
  low = start;
  high = end + 1;
  range_start = start;
  range_stop = end;
  ports = λ i. i;
}

pub turnports_create : (ℕ → ℕ) → ℕ → ℕ → Option Turnports
turnports_create rng start end =
    if ltb end start then none else some (randomize rng (init_ports start end))

-- The value is a uint16_t.
pub turnports_size : Turnports → ℕ
turnports_size tp = (tp.high + 2 ^ 32 - tp.low) % 2 ^ 32 % 2 ^ 16

-- One round of the loop of `turnports_allocate`.
pub data Round : Type 0 where
  give_up : Round
  skip : Turnports → Round
  take_port : Turnports → ℕ → Round

pub allocate_round : Turnports → Round
allocate_round tp =
    let port = tp.ports (tp.low % ports_size) in
    let next = (tp.low + 1) % 2 ^ 32 in
    if leb tp.high tp.low
    then give_up
    else if ltb port tp.range_start || ltb tp.range_stop port
    then give_up
    else if is_taken (tp.status port)
    then skip (record tp { low = next })
    else if not (tp.status port == tp.low)
    then skip (record tp { low = next })
    else take_port (record tp { status = update tp.status port tps_taken_single; low = next }) port

-- `while(1)`: a round that does not return moves `low` one step towards `high`, so `high - low`
-- rounds and the last test are all there can be. `none` is the result -1.
pub allocate_loop : ℕ → Turnports → Turnports × Option ℕ
allocate_loop zero tp = (tp, none)
allocate_loop (suc n) tp = elim (allocate_round tp) [
  | give_up ↦ (tp, none)
  | skip tp' ↦ allocate_loop n tp'
  | take_port tp' port ↦ (tp', some port)
]

pub turnports_allocate : Turnports → Turnports × Option ℕ
turnports_allocate tp = allocate_loop (tp.high - tp.low) tp

pub turnports_release : Turnports → ℕ → Turnports
turnports_release tp port =
    if leb tp.range_start port && (leb port tp.range_stop && is_taken (tp.status port))
    then record tp {
      status = update tp.status port tp.high;
      ports = update tp.ports (tp.high % ports_size) port;
      high = (tp.high + 1) % 2 ^ 32;
    }
    else tp

unfoldable pub turnports_is_allocated : Turnports → ℕ → Bool
turnports_is_allocated tp port = is_taken (tp.status port)

pub turnports_is_available : Turnports → ℕ → Bool
turnports_is_available tp port =
    not (tp.status port == tps_out_of_range)
    && (not (is_taken (tp.status port)) && tp.ports (tp.status port % ports_size) == port)

-- The three words written through `reservation_token`.
pub record Token : Type 0 where
  pub v16_0 : ℕ
  pub v16_1 : ℕ
  pub v32_1 : ℕ

-- One round of the loop of `turnports_allocate_even`.
pub data EvenRound : Type 0 where
  again : Turnports → EvenRound
  done : Turnports → ℕ → Option Token → EvenRound

-- `random` is turn_random()'s value; the token is `none` where the caller passes no pointer or
-- nothing is written. A failed `turnports_allocate` gives -1, which is odd, so that round releases
-- (uint16_t)(-1).
pub even_taken : Turnports → ℕ → Bool → ℕ → EvenRound
even_taken tp port want_token random =
    done
      (record tp {
        status = update (update tp.status port tps_taken_even) (port + 1) tps_taken_odd;
      })
      port
      (if want_token
        then some (record {
          v16_0 = tp.ports (tp.low % ports_size);
          v16_1 = tp.ports (tp.high % ports_size);
          v32_1 = random % 2 ^ 32;
        })
        else none)

pub even_pair : Turnports → ℕ → Bool → ℕ → EvenRound
even_pair tp port want_token random =
    if ltb tp.range_stop (port + 1)
    then again (turnports_release tp port)
    else if not (turnports_is_available tp (port + 1))
    then again (turnports_release tp port)
    else even_taken tp port want_token random

pub even_choose : Turnports → ℕ → Bool → Bool → ℕ → EvenRound
even_choose tp port allocate_rtcp want_token random =
    if port % 2 == 1
    then again (turnports_release tp port)
    else if not allocate_rtcp
    then done tp port none
    else even_pair tp port want_token random

pub even_round : Turnports → Bool → Bool → ℕ → EvenRound
even_round tp allocate_rtcp want_token random =
    let (tp', port) = turnports_allocate tp in
    elim port [
      | none ↦ again (turnports_release tp' (2 ^ 16 - 1))
      | some p ↦ even_choose tp' p allocate_rtcp want_token random
    ]

pub even_loop : ℕ → Turnports → Bool → Bool → ℕ → Turnports × Option (ℕ × Option Token)
even_loop zero tp allocate_rtcp want_token random = (tp, none)
even_loop (suc n) tp allocate_rtcp want_token random =
    elim (even_round tp allocate_rtcp want_token random) [
      | again tp' ↦ even_loop n tp' allocate_rtcp want_token random
      | done tp' port token ↦ (tp', some (port, token))
    ]

pub turnports_allocate_even : Turnports → Bool → Bool → ℕ → Turnports × Option (ℕ × Option Token)
turnports_allocate_even tp allocate_rtcp want_token random =
    let size = turnports_size tp in
    if ltb 1 size then even_loop size tp allocate_rtcp want_token random else (tp, none)
