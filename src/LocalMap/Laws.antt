-- ===== src/LocalMap/Laws.antt =====
-- Local maps as finite maps: what a lookup finds after any calls that put absent keys only.
use p2p_cluster.Common.{
  ℕ, ◌≡◌, ◌≢◌, refl, sym, ap, ◌∙◌, true, false, Bool-cases, ◌==◌, ◌||◌, Option, none, some, inl,
  inr, arith,
}
use p2p_cluster.Common.Memory.{update}
use p2p_cluster.LocalMap.{
  LmMap, LmMapArray, index_of, put_placed, lm_map_put, lm_map_get, del_found, lm_map_del,
}
use p2p_cluster.LocalMap.Slots.{put_main_lem}
use p2p_cluster.LocalMap.Buckets.{
  IsBucket, find_in, absent-both, StoredIn, stored_in, in_main, in_extra, deleted_in,
  del_in-DeletedIn,
}

-- Every bucket of the map is well-formed.
abbrev pub IsMap : LmMap → Type 0
IsMap map = (i : ℕ) → IsBucket (map i)

-- The map after a call that stores a key
pub data Stored (key value : ℕ) (map : LmMap) : Option LmMap → Type 0 where
  stored :
      {map' : LmMap}
      → IsMap map'
      → lm_map_get map' key ≡ some value
      → ((other : ℕ) → other ≢ key → lm_map_get map' other ≡ lm_map_get map other)
      → Stored key value map (some map')

pub get_in :
    (map : LmMap) (key : ℕ) → key ≢ 0 → lm_map_get map key ≡ find_in key (map (index_of key))
unfolding lm_map_get
get_in map key ne = ground arith

pub get_zero : (map : LmMap) → lm_map_get map 0 ≡ none
unfolding lm_map_get
get_zero map = refl

update-IsMap :
    (map : LmMap) (i : ℕ) (b : LmMapArray) → IsMap map → IsBucket b → IsMap (update map i b)
update-IsMap map i b v w j = elim (Bool-cases (i == j)) [ inl e ↦ rw e w | inr d ↦ rw d (v j) ]

-- Other keys of the bucket, and those of other buckets, are found as before.
update-get :
    (map : LmMap) (key other : ℕ) (b : LmMapArray)
    → ((n : ℕ) → n ≢ key → n ≢ 0 → find_in n b ≡ find_in n (map (index_of key)))
    → other ≢ key
    → lm_map_get (update map (index_of key) b) other ≡ lm_map_get map other
unfolding lm_map_get
update-get map key other b h d = elim (Bool-cases (other == 0)) [
  | inl z ↦ rw z refl
  | inr nz ↦ rw nz (elim (Bool-cases (index_of key == index_of other)) [
    | inl e ↦
        let q : index_of key ≡ index_of other = ground arith in
        rw e (h other d (ground arith) ∙ ap (λ i. find_in other (map i)) q)
    | inr ne ↦ rw ne refl
  ])
]

update-get_self :
    (map : LmMap) (key : ℕ) (b : LmMapArray)
    → key ≢ 0
    → lm_map_get (update map (index_of key) b) key ≡ find_in key b
update-get_self map key b ne = get_in (update map (index_of key) b) key ne ∙ rw at_self refl
  where
    at_self : (index_of key == index_of key) ≡ true
    at_self = ground arith

Stored-from :
    (key value : ℕ) (map : LmMap) (b : LmMapArray)
    → IsMap map
    → key ≢ 0
    → StoredIn key value (map (index_of key)) b
    → Stored key value map (some (update map (index_of key) b))
Stored-from key value map b v k (stored_in w found others) =
    stored (update-IsMap map (index_of key) b v w) (update-get_self map key b k ∙ found)
      (λ other d. update-get map key other b others d)

-- In a well-formed map, `lm_map_put` of a key that is not found and of a value, neither of them 0,
-- succeeds. Then the key is found with that value, every other lookup is as before, and the map is
-- well-formed.
pub lm_map_put_lem :
    (map : LmMap) (key value : ℕ)
    → IsMap map
    → key ≢ 0
    → value ≢ 0
    → lm_map_get map key ≡ none
    → Stored key value map (lm_map_put map key value)
unfolding lm_map_put put_placed
lm_map_put_lem map key value v k nz absent =
    let a = map (index_of key) in
    let nothing : find_in key a ≡ none = sym (get_in map key k) ∙ absent in
    let guard : (key == 0 || value == 0) ≡ false = ground arith in
    let bucket = v (index_of key) in
    rw guard
      (elim (put_main_lem key value bucket.main k (absent-both key a bucket.main k nothing).0) [
        | inl q ↦ rw q (Stored-from key value map _ v k (in_main key value a bucket k nz nothing))
        | inr q ↦ rw q (Stored-from key value map _ v k (in_extra key value a bucket k nz nothing))
      ])

-- A call that deletes a key
pub data Deleted (key value : ℕ) (map : LmMap) : Option (ℕ × LmMap) → Type 0 where
  deleted :
      {map' : LmMap}
      → IsMap map'
      → lm_map_get map' key ≡ none
      → ((other : ℕ) → other ≢ key → lm_map_get map' other ≡ lm_map_get map other)
      → Deleted key value map (some (value, map'))

-- In a well-formed map, `lm_map_del` of a key that is found succeeds and hands the value of the key
-- to the callback. Then the key is not found, every other lookup is as before, and the map is
-- well-formed.
pub lm_map_del_lem :
    (map : LmMap) (key value : ℕ)
    → IsMap map
    → lm_map_get map key ≡ some value
    → Deleted key value map (lm_map_del map key)
unfolding lm_map_del del_found
lm_map_del_lem map key value v found =
    rw found (elim (del_in-DeletedIn key (map (index_of key)) (v (index_of key)) k) [
      | deleted_in w gone others ↦
          deleted (update-IsMap map (index_of key) _ v w) (update-get_self map key _ k ∙ gone)
            (λ other d. update-get map key other _ others d)
    ])
  where
    k : key ≢ 0
    k z = let nothing = ap (lm_map_get map) z ∙ get_zero map in absurd (ground (arith, nothing))
