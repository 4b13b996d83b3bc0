-- ===== src/Allocation/Unsent.antt =====
-- Buffers of TCP connections that wait to be sent: coturn/src/server/ns_turn_allocation.c. A buffer
-- that was popped is NULL in its slot, and `sz` counts the slots.
use p2p_cluster.Common.{
  ℕ, zero, suc, ◌+◌, ◌≤◌, ◌≡◌, refl, ap, ◌∙◌, Bool-cases, true, false, ltb, leb, if◌then◌else◌,
  Option, none, some, List, [], ◌∷◌, ◌++◌, inl, inr, arith,
}

-- `unsent_buffer`: the handles, `none` for NULL
abbrev pub UnsentBuffer : Type 0
UnsentBuffer = List (Option ℕ)

abbrev pub max_unsent_buffer_size : ℕ
max_unsent_buffer_size = 16

unfoldable pub slots : UnsentBuffer → ℕ
slots [] = 0
slots (b ∷ bs) = 1 + slots bs

-- The handles that ioa_network_buffer_delete is called on, and the empty buffer
unfoldable pub handles : UnsentBuffer → List ℕ
handles [] = []
handles (none ∷ bs) = handles bs
handles (some nbh ∷ bs) = nbh ∷ handles bs

unfoldable pub clear_unsent_buffer : UnsentBuffer → UnsentBuffer × List ℕ
clear_unsent_buffer ub = ([], handles ub)

-- The buffer, and the handle if it is deleted
unfoldable pub add_unsent_buffer : UnsentBuffer → ℕ → UnsentBuffer × Option ℕ
add_unsent_buffer ub nbh =
    if leb max_unsent_buffer_size (slots ub) then (ub, some nbh) else (ub ++ some nbh ∷ [], none)

unfoldable pub top_unsent_buffer : UnsentBuffer → Option ℕ
top_unsent_buffer [] = none
top_unsent_buffer (none ∷ bs) = top_unsent_buffer bs
top_unsent_buffer (some nbh ∷ bs) = some nbh

unfoldable pub pop_unsent_buffer : UnsentBuffer → UnsentBuffer
pop_unsent_buffer [] = []
pop_unsent_buffer (none ∷ bs) = none ∷ pop_unsent_buffer bs
pop_unsent_buffer (some nbh ∷ bs) = none ∷ bs

-- The first of a list, and the rest
pub head : List ℕ → Option ℕ
head [] = none
head (x ∷ xs) = some x

pub tail : List ℕ → List ℕ
tail [] = []
tail (x ∷ xs) = xs

top-head : (ub : UnsentBuffer) → top_unsent_buffer ub ≡ head (handles ub)
unfolding top_unsent_buffer handles head
top-head [] = refl
top-head (none ∷ bs) = top-head bs
top-head (some nbh ∷ bs) = refl

pop-tail : (ub : UnsentBuffer) → handles (pop_unsent_buffer ub) ≡ tail (handles ub)
unfolding pop_unsent_buffer handles tail
pop-tail [] = refl
pop-tail (none ∷ bs) = pop-tail bs
pop-tail (some nbh ∷ bs) = refl

handles_append :
    (ub : UnsentBuffer) (nbh : ℕ) → handles (ub ++ some nbh ∷ []) ≡ handles ub ++ nbh ∷ []
unfolding handles
handles_append [] nbh = refl
handles_append (none ∷ bs) nbh = handles_append bs nbh
handles_append (some b ∷ bs) nbh = ap (λ t. b ∷ t) (handles_append bs nbh)

add-handles :
    (ub : UnsentBuffer) (nbh : ℕ)
    → handles (add_unsent_buffer ub nbh).0
      ≡ (if ltb (slots ub) max_unsent_buffer_size then handles ub ++ nbh ∷ [] else handles ub)
unfolding add_unsent_buffer
add-handles ub nbh = elim (Bool-cases (leb max_unsent_buffer_size (slots ub))) [
  | inl e ↦ let n : ltb (slots ub) max_unsent_buffer_size ≡ false = ground arith in rw (e, n) refl
  | inr e ↦
      let n : ltb (slots ub) max_unsent_buffer_size ≡ true = ground arith in
      rw (e, n) (handles_append ub nbh)
]

add-dropped :
    (ub : UnsentBuffer) (nbh : ℕ)
    → (add_unsent_buffer ub nbh).1
      ≡ (if ltb (slots ub) max_unsent_buffer_size then none else some nbh)
unfolding add_unsent_buffer
add-dropped ub nbh = elim (Bool-cases (leb max_unsent_buffer_size (slots ub))) [
  | inl e ↦ let n : ltb (slots ub) max_unsent_buffer_size ≡ false = ground arith in rw (e, n) refl
  | inr e ↦ let n : ltb (slots ub) max_unsent_buffer_size ≡ true = ground arith in rw (e, n) refl
]

-- An unsent buffer is a queue of handles: the top is the first handle, popping takes the first
-- handle away, and adding puts a handle at the end, while fewer than 16 slots are there; else the
-- handle is deleted and the buffer is as it is. Clearing deletes all the handles.
pub unsent_buffer_lem :
    (ub : UnsentBuffer) (nbh : ℕ)
    → (top_unsent_buffer ub ≡ head (handles ub))
      × (handles (pop_unsent_buffer ub) ≡ tail (handles ub))
      × (handles (add_unsent_buffer ub nbh).0
          ≡ (if ltb (slots ub) max_unsent_buffer_size then handles ub ++ nbh ∷ [] else handles ub))
      × ((add_unsent_buffer ub nbh).1
          ≡ (if ltb (slots ub) max_unsent_buffer_size then none else some nbh))
      × ((clear_unsent_buffer ub).1 ≡ handles ub)
unfolding clear_unsent_buffer
unsent_buffer_lem ub nbh = (top-head ub, pop-tail ub, add-handles ub nbh, add-dropped ub nbh, refl)

-- The buffer after n pops
unfoldable pub pops : ℕ → UnsentBuffer → UnsentBuffer
pops zero ub = ub
pops (suc n) ub = pop_unsent_buffer (pops n ub)

slots-pop : (ub : UnsentBuffer) → slots (pop_unsent_buffer ub) ≡ slots ub
unfolding slots pop_unsent_buffer
slots-pop [] = refl
slots-pop (none ∷ bs) = ap (λ k. 1 + k) (slots-pop bs)
slots-pop (some nbh ∷ bs) = refl

slots-pops : (n : ℕ) (ub : UnsentBuffer) → slots (pops n ub) ≡ slots ub
unfolding pops
slots-pops zero ub = refl
slots-pops (suc n) ub = slots-pop (pops n ub) ∙ slots-pops n ub

-- Pops make no room: once 16 slots are there, every handle that is added is deleted, however often
-- the buffer was popped.
pub unsent_buffer_stuck :
    (ub : UnsentBuffer) (n nbh : ℕ)
    → max_unsent_buffer_size ≤ slots ub
    → add_unsent_buffer (pops n ub) nbh ≡ (pops n ub, some nbh)
unfolding add_unsent_buffer
unsent_buffer_stuck ub n nbh h =
    let same = slots-pops n ub in
    let stays : leb max_unsent_buffer_size (slots (pops n ub)) ≡ true = ground arith in
    rw stays refl
