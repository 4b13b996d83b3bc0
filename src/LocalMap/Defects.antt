-- ===== src/LocalMap/Defects.antt =====
-- What lm_map_put does to a key that is in the extra slots.
use p2p_cluster.Common.{
  ℕ, ◌≡◌, ◌≢◌, refl, true, false, Bool-cases, ◌==◌, ◌||◌, Option, none, some, List, [], ◌∷◌, inl,
  inr, arith,
}
use p2p_cluster.LocalMap.{
  Slot, LmMap, index_of, is_free, lm_map_put, put_placed, put_main, put_extra, behind, full,
  lm_map_get, get_main, get_extra,
}

-- Every slot is in use.
pub data IsFull : List Slot → Type 0 where
  full_nil : IsFull []
  full_cons : {s : Slot} {ss : List Slot} → is_free s ≡ false → IsFull ss → IsFull (s ∷ ss)

-- The slots hold other keys.
pub data Others (key : ℕ) : List Slot → Type 0 where
  others_nil : Others key []
  others_cons : {s : Slot} {ss : List Slot} → s.key ≢ key → Others key ss → Others key (s ∷ ss)

put_main-full :
    (key value : ℕ) {ss : List Slot} → IsFull ss → Others key ss → put_main key value ss ≡ full
unfolding put_main behind
put_main-full key value full_nil others_nil = refl
put_main-full key value (full_cons f fs) (others_cons ne o) =
    ground (arith, put_main-full key value fs o)

get_main-none : (key : ℕ) {ss : List Slot} → Others key ss → get_main key ss ≡ none
unfolding get_main
get_main-none key others_nil = refl
get_main-none key (others_cons ne o) = ground (arith, get_main-none key o)

put_extra-get_old :
    (key value old : ℕ) {ss : List Slot}
    → IsFull ss
    → get_extra key ss ≡ some old
    → get_extra key (put_extra key value ss) ≡ some old
unfolding put_extra get_extra
put_extra-get_old key value old full_nil found = absurd (ground (arith, found))
put_extra-get_old key value old (full_cons {s} f fs) found = elim (Bool-cases (s.key == key)) [
  | inl e ↦ ground arith
  | inr ne ↦ let rest = put_extra-get_old key value old fs (ground arith) in ground (arith, rest)
]

-- The call returns 0, and the key is found with the value `old`.
pub data Ignored (key old : ℕ) : Option LmMap → Type 0 where
  ignored : {map' : LmMap} → lm_map_get map' key ≡ some old → Ignored key old (some map')

-- A defect. Where all slots of a key's bucket are in use and the key is in an extra slot with the
-- value `old`, `lm_map_put` of another value returns 0, as it does where it has stored the value,
-- but `lm_map_get` still finds `old`.
pub lm_map_put-Ignored :
    (map : LmMap) (key value old : ℕ)
    → key ≢ 0
    → value ≢ 0
    → IsFull (map (index_of key)).main
    → Others key (map (index_of key)).main
    → IsFull (map (index_of key)).extra
    → get_extra key (map (index_of key)).extra ≡ some old
    → Ignored key old (lm_map_put map key value)
unfolding lm_map_put put_placed lm_map_get
lm_map_put-Ignored map key value old k nz f o fe found =
    let guard : (key == 0 || value == 0) ≡ false = ground arith in
    let guard_get : (key == 0) ≡ false = ground arith in
    let self : (index_of key == index_of key) ≡ true = ground arith in
    rw (guard, put_main-full key value f o)
      (ignored
        (rw (guard_get, self, get_main-none key o) (put_extra-get_old key value old fe found)))
