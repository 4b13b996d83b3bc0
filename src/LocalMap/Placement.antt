-- ===== src/LocalMap/Placement.antt =====
-- Where the keys of a local map stand: each in the bucket that index_of names.
use p2p_cluster.Common.{
  ℕ, ◌≡◌, ◌≢◌, refl, subst, Bool-cases, ◌==◌, ◌||◌, ◌&&◌, not, Option, none, some, List, [], ◌∷◌,
  inl, inr, arith,
}
use p2p_cluster.Common.Memory.{update}
use p2p_cluster.LocalMap.{
  Slot, free_slot, LmMap, LmMapArray, is_free, index_of, lm_map_init, put_main, put_extra,
  put_placed, behind, Placed, placed, same, clash, full, lm_map_put, get_main, is_some, del_main,
  del_extra, del_in, del_found, lm_map_del, lm_map_get,
}
use p2p_cluster.LocalMap.History.{History, started, put, del}

-- Every key stands in its bucket.
pub data Belong (i : ℕ) : List Slot → Type 0 where
  belong_nil : Belong i []
  belong_cons :
      {s : Slot} {ss : List Slot}
      → (s.key ≢ 0 → index_of s.key ≡ i)
      → Belong i ss
      → Belong i (s ∷ ss)

pub record IsPlaced (i : ℕ) (a : LmMapArray) : Type 0 where
  pub main : Belong i a.main
  pub extra : Belong i a.extra

abbrev pub ArePlaced : LmMap → Type 0
ArePlaced map = (i : ℕ) → IsPlaced i (map i)

data Fits (i : ℕ) : Placed → Type 0 where
  fits_placed : {ss : List Slot} → Belong i ss → Fits i (placed ss)
  fits_same : Fits i same
  fits_clash : Fits i clash
  fits_full : Fits i full

behind-Fits :
    {i : ℕ} (s : Slot) {p : Placed}
    → (s.key ≢ 0 → index_of s.key ≡ i)
    → Fits i p
    → Fits i (behind s p)
unfolding behind
behind-Fits s h (fits_placed b) = fits_placed (belong_cons h b)
behind-Fits s h fits_same = fits_same
behind-Fits s h fits_clash = fits_clash
behind-Fits s h fits_full = fits_full

put_main-Fits :
    (key value : ℕ) {ss : List Slot}
    → Belong (index_of key) ss
    → Fits (index_of key) (put_main key value ss)
unfolding put_main
put_main-Fits key value belong_nil = fits_full
put_main-Fits key value (belong_cons {s} h b) = elim (Bool-cases (s.key == key)) [
  | inl e ↦ elim (Bool-cases (s.value == value)) [
    | inl v ↦ rw e (rw v fits_same)
    | inr w ↦ rw e (rw w fits_clash)
  ]
  | inr d ↦ elim (Bool-cases (is_free s)) [
    | inl f ↦ rw d (rw f (fits_placed (belong_cons (λ ne. refl) b)))
    | inr n ↦ rw d (rw n (behind-Fits s h (put_main-Fits key value b)))
  ]
]

Belong-put_extra :
    (key value : ℕ) {ss : List Slot}
    → Belong (index_of key) ss
    → Belong (index_of key) (put_extra key value ss)
unfolding put_extra
Belong-put_extra key value belong_nil = belong_cons (λ ne. refl) belong_nil
Belong-put_extra key value (belong_cons {s} h b) = elim (Bool-cases (is_free s)) [
  | inl f ↦ rw f (belong_cons (λ ne. refl) b)
  | inr n ↦ rw n (belong_cons h (Belong-put_extra key value b))
]

Belong-del_main : (key : ℕ) {i : ℕ} {ss : List Slot} → Belong i ss → Belong i (del_main key ss)
unfolding del_main
Belong-del_main key belong_nil = belong_nil
Belong-del_main key (belong_cons {s} h b) = elim (Bool-cases (s.key == key && not (s.value == 0))) [
  | inl f ↦ rw f (belong_cons (λ ne. absurd (ne refl)) b)
  | inr n ↦ rw n (belong_cons h (Belong-del_main key b))
]

Belong-del_extra : (key : ℕ) {i : ℕ} {ss : List Slot} → Belong i ss → Belong i (del_extra key ss)
unfolding del_extra
Belong-del_extra key belong_nil = belong_nil
Belong-del_extra key (belong_cons {s} h b) = elim (Bool-cases (s.key == key)) [
  | inl f ↦ rw f (belong_cons (λ ne. absurd (ne refl)) b)
  | inr n ↦ rw n (belong_cons h (Belong-del_extra key b))
]

update-ArePlaced :
    (map : LmMap) (i : ℕ) (b : LmMapArray)
    → ArePlaced map
    → IsPlaced i b
    → ArePlaced (update map i b)
update-ArePlaced map i b v w j = elim (Bool-cases (i == j)) [
  | inl e ↦ let q : i ≡ j = ground arith in rw e (subst (λ n. IsPlaced n b) q w)
  | inr d ↦ rw d (v j)
]

pub data Keeps : Option LmMap → Type 0 where
  keeps : {map : LmMap} → ArePlaced map → Keeps (some map)
  refuses : Keeps none

put_placed-Keeps :
    (map : LmMap) (key value : ℕ) {p : Placed}
    → ArePlaced map
    → Fits (index_of key) p
    → Keeps (put_placed map key value (map (index_of key)) p)
unfolding put_placed
put_placed-Keeps map key value v (fits_placed b) = keeps (
    update-ArePlaced map (index_of key) _ v (record { main = b; extra = (v (index_of key)).extra }))
put_placed-Keeps map key value v fits_same = keeps v
put_placed-Keeps map key value v fits_clash = refuses
put_placed-Keeps map key value v fits_full = keeps (
    update-ArePlaced map (index_of key) _ v (record {
      main = (v (index_of key)).main;
      extra = Belong-put_extra key value (v (index_of key)).extra;
    }))

pub lm_map_put-Keeps :
    (map : LmMap) (key value : ℕ) → ArePlaced map → Keeps (lm_map_put map key value)
unfolding lm_map_put
lm_map_put-Keeps map key value v = elim (Bool-cases (key == 0 || value == 0)) [
  | inl e ↦ rw e refuses
  | inr n ↦
      rw n (put_placed-Keeps map key value v (put_main-Fits key value (v (index_of key)).main))
]

del_in-IsPlaced : (key : ℕ) {i : ℕ} (a : LmMapArray) → IsPlaced i a → IsPlaced i (del_in key a)
unfolding del_in
del_in-IsPlaced key a p = elim (Bool-cases (is_some (get_main key a.main))) [
  | inl e ↦ rw e (record { main = Belong-del_main key p.main; extra = p.extra })
  | inr n ↦ rw n (record { main = p.main; extra = Belong-del_extra key p.extra })
]

pub data KeepsDel : Option (ℕ × LmMap) → Type 0 where
  keeps_del : {value : ℕ} {map : LmMap} → ArePlaced map → KeepsDel (some (value, map))
  refuses_del : KeepsDel none

pub del_found-Keeps :
    (map : LmMap) (key : ℕ) (found : Option ℕ) → ArePlaced map → KeepsDel (del_found map key found)
unfolding del_found
del_found-Keeps map key none v = refuses_del
del_found-Keeps map key (some value) v = keeps_del (
    update-ArePlaced map (index_of key) _ v
      (del_in-IsPlaced key (map (index_of key)) (v (index_of key))))

pub from_Keeps : {map : LmMap} → Keeps (some map) → ArePlaced map
from_Keeps (keeps v) = v

pub from_KeepsDel : {value : ℕ} {map : LmMap} → KeepsDel (some (value, map)) → ArePlaced map
from_KeepsDel (keeps_del v) = v

pub init-ArePlaced : ArePlaced lm_map_init
unfolding lm_map_init
init-ArePlaced i = record {
  main = belong_cons free (belong_cons free (belong_cons free belong_nil));
  extra = belong_nil;
}
  where
    free : free_slot.key ≢ 0 → index_of free_slot.key ≡ i
    free ne = absurd (ne refl)

pub History-ArePlaced : {map : LmMap} {held : ℕ → Option ℕ} → History map held → ArePlaced map
unfolding lm_map_del
History-ArePlaced started = init-ArePlaced
History-ArePlaced (put {map} key value h k nz absent e) =
    from_Keeps (subst Keeps e (lm_map_put-Keeps map key value (History-ArePlaced h)))
History-ArePlaced (del {map} key value value' h found e) =
    from_KeepsDel
      (subst KeepsDel e (del_found-Keeps map key (lm_map_get map key) (History-ArePlaced h)))
