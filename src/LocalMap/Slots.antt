-- ===== src/LocalMap/Slots.antt =====
-- The loops over the slots of one array.
use p2p_cluster.Common.{
  ℕ, ◌+◌, ◌-◌, ◌≡◌, ◌≢◌, refl, Bool-cases, ◌==◌, if◌then◌else◌, none, some, List, [], ◌∷◌, ◌⊎◌, inl,
  inr, arith,
}
use p2p_cluster.LocalMap.{
  Slot, is_free, placed, full, behind, put_main, put_extra, get_main, get_extra, del_main,
  del_extra,
}

-- In each slot key and value are both 0 or neither is.
pub data IsClean : List Slot → Type 0 where
  clean_nil : IsClean []
  clean_cons :
      {s : Slot} {ss : List Slot} → (s.key == 0) ≡ (s.value == 0) → IsClean ss → IsClean (s ∷ ss)

-- How many slots hold the key
unfoldable pub occurs : ℕ → List Slot → ℕ
occurs key [] = 0
occurs key (s ∷ ss) = (if s.key == key then 1 else 0) + occurs key ss

pub get_main-get_extra :
    {key : ℕ} {ss : List Slot} → IsClean ss → key ≢ 0 → get_main key ss ≡ get_extra key ss
unfolding get_main get_extra
get_main-get_extra clean_nil ne = refl
get_main-get_extra (clean_cons e c) ne = ground (arith, get_main-get_extra c ne)

pub del_main-del_extra :
    {key : ℕ} {ss : List Slot} → IsClean ss → key ≢ 0 → del_main key ss ≡ del_extra key ss
unfolding del_main del_extra
del_main-del_extra clean_nil ne = refl
del_main-del_extra (clean_cons e c) ne = ground (arith, del_main-del_extra c ne)

pub put_main_lem :
    (key value : ℕ) {ss : List Slot}
    → IsClean ss
    → key ≢ 0
    → occurs key ss ≡ 0
    → (put_main key value ss ≡ placed (put_extra key value ss)) ⊎ (put_main key value ss ≡ full)
unfolding put_main put_extra behind occurs
put_main_lem key value clean_nil ne absent = inr refl
put_main_lem key value (clean_cons {s} {ss} e c) ne absent = elim (Bool-cases (is_free s)) [
  | inl f ↦ inl (ground arith)
  | inr nf ↦ elim (put_main_lem key value c ne (ground arith)) [
    | inl q ↦ inl (ground (arith, q))
    | inr q ↦ inr (ground (arith, q))
  ]
]

pub occurs_zero : (key : ℕ) (ss : List Slot) → get_extra key ss ≡ none → occurs key ss ≡ 0
unfolding get_extra occurs
occurs_zero key [] h = refl
occurs_zero key (s ∷ ss) h = ground (arith, occurs_zero key ss)

pub get_extra-none : (key : ℕ) (ss : List Slot) → occurs key ss ≡ 0 → get_extra key ss ≡ none
unfolding get_extra occurs
get_extra-none key [] h = refl
get_extra-none key (s ∷ ss) h = ground (arith, get_extra-none key ss)

pub put_extra-IsClean :
    (key value : ℕ) {ss : List Slot}
    → key ≢ 0
    → value ≢ 0
    → IsClean ss
    → IsClean (put_extra key value ss)
unfolding put_extra
put_extra-IsClean key value k v clean_nil = clean_cons (ground arith) clean_nil
put_extra-IsClean key value k v (clean_cons {s} {ss} e c) = elim (Bool-cases (is_free s)) [
  | inl f ↦ rw f (clean_cons (ground arith) c)
  | inr nf ↦ rw nf (clean_cons e (put_extra-IsClean key value k v c))
]

pub del_extra-IsClean : (key : ℕ) {ss : List Slot} → IsClean ss → IsClean (del_extra key ss)
unfolding del_extra
del_extra-IsClean key clean_nil = clean_nil
del_extra-IsClean key (clean_cons {s} {ss} e c) = elim (Bool-cases (s.key == key)) [
  | inl f ↦ rw f (clean_cons refl c)
  | inr nf ↦ rw nf (clean_cons e (del_extra-IsClean key c))
]

pub put_extra-occurs_self :
    (key value : ℕ) {ss : List Slot}
    → key ≢ 0
    → IsClean ss
    → occurs key (put_extra key value ss) ≡ 1 + occurs key ss
unfolding put_extra occurs
put_extra-occurs_self key value ne clean_nil = ground arith
put_extra-occurs_self key value ne (clean_cons e c) =
    ground (arith, put_extra-occurs_self key value ne c)

pub put_extra-occurs_ne :
    (key value other : ℕ) {ss : List Slot}
    → other ≢ key
    → other ≢ 0
    → IsClean ss
    → occurs other (put_extra key value ss) ≡ occurs other ss
unfolding put_extra occurs
put_extra-occurs_ne key value other d ne clean_nil = ground arith
put_extra-occurs_ne key value other d ne (clean_cons e c) =
    ground (arith, put_extra-occurs_ne key value other d ne c)

pub del_extra-occurs_self :
    (key : ℕ) (ss : List Slot) → key ≢ 0 → occurs key (del_extra key ss) ≡ occurs key ss - 1
unfolding del_extra occurs
del_extra-occurs_self key [] ne = refl
del_extra-occurs_self key (s ∷ ss) ne = ground (arith, del_extra-occurs_self key ss ne)

pub del_extra-occurs_ne :
    (key other : ℕ) (ss : List Slot)
    → other ≢ key
    → other ≢ 0
    → occurs other (del_extra key ss) ≡ occurs other ss
unfolding del_extra occurs
del_extra-occurs_ne key other [] d ne = refl
del_extra-occurs_ne key other (s ∷ ss) d ne = ground (arith, del_extra-occurs_ne key other ss d ne)

pub put_extra-get_self :
    (key value : ℕ) {ss : List Slot}
    → key ≢ 0
    → IsClean ss
    → occurs key ss ≡ 0
    → get_extra key (put_extra key value ss) ≡ some value
unfolding put_extra get_extra occurs
put_extra-get_self key value ne clean_nil absent = ground arith
put_extra-get_self key value ne (clean_cons {s} {ss} e c) absent =
    ground (arith, put_extra-get_self key value ne c)

pub put_extra-get_ne :
    (key value other : ℕ) {ss : List Slot}
    → other ≢ key
    → other ≢ 0
    → IsClean ss
    → get_extra other (put_extra key value ss) ≡ get_extra other ss
unfolding put_extra get_extra
put_extra-get_ne key value other d ne clean_nil = ground arith
put_extra-get_ne key value other d ne (clean_cons e c) =
    ground (arith, put_extra-get_ne key value other d ne c)

pub del_extra-get_ne :
    (key other : ℕ) (ss : List Slot)
    → other ≢ key
    → other ≢ 0
    → get_extra other (del_extra key ss) ≡ get_extra other ss
unfolding del_extra get_extra
del_extra-get_ne key other [] d ne = refl
del_extra-get_ne key other (s ∷ ss) d ne = ground (arith, del_extra-get_ne key other ss d ne)
