-- ===== src/StringMap/Laws.antt =====
-- A string map is a finite map: what is found after a call, for every key.
use p2p_cluster.Common.{
  ℕ, ◌≡◌, ◌↔◌, refl, ap, ◌∙◌, true, Bool-cases, Option-cases, ◌==◌, if◌then◌else◌, Option, none,
  some, List, [], ◌∷◌, inl, inr, arith,
}
use p2p_cluster.Common.Memory.{update}
use p2p_cluster.StringMap.{
  StringElem, UrStringMap, string_map_magic, str_equal, string_list_get, string_list_remove,
  set_value, put_value, string_map_index, ur_string_map_put, ur_string_map_get, ur_string_map_del,
}

str_equal_sound : (a b : List ℕ) → str_equal a b ≡ true → a ≡ b
unfolding str_equal
str_equal_sound [] [] h = refl
str_equal_sound [] (d ∷ ds) h = absurd (let f : ⊥ = cc in f)
str_equal_sound (c ∷ cs) [] h = absurd (let f : ⊥ = cc in f)
str_equal_sound (c ∷ cs) (d ∷ ds) h = ground (arith, str_equal_sound cs ds)

str_equal_refl : (a : List ℕ) → str_equal a a ≡ true
unfolding str_equal
str_equal_refl [] = refl
str_equal_refl (c ∷ cs) = ground (arith, str_equal_refl cs)

pub str_equal_lem : (a b : List ℕ) → (str_equal a b ≡ true) ↔ (a ≡ b)
str_equal_lem a b = (str_equal_sound a b, λ e. rw e (str_equal_refl b))

set_value-get :
    (sl : List StringElem) (key : List ℕ) (value old : ℕ) (other : List ℕ)
    → string_list_get sl key ≡ some old
    → string_list_get (set_value sl key value) other
      ≡ (if str_equal key other then some value else string_list_get sl other)
unfolding string_list_get set_value
set_value-get [] key value old other found = absurd (let f : ⊥ = cc in f)
set_value-get (e ∷ es) key value old other found = ground (
  arith,
  set_value-get es key value old other,
  str_equal_lem e.key key,
  str_equal_lem e.key other,
  str_equal_lem key other,
)

same_value-get :
    (sl : List StringElem) (key : List ℕ) (value : ℕ) (other : List ℕ)
    → string_list_get sl key ≡ some value
    → string_list_get sl other
      ≡ (if str_equal key other then some value else string_list_get sl other)
same_value-get sl key value other found = elim (Bool-cases (str_equal key other)) [
  | inl e ↦ let q : key ≡ other = (str_equal_lem key other).0 e in rw e (rw q at found)
  | inr ne ↦ rw ne refl
]

put_value-get :
    (sl : List StringElem) (key : List ℕ) (value : ℕ) (other : List ℕ)
    → string_list_get (put_value sl key value (string_list_get sl key)).0 other
      ≡ (if str_equal key other then some value else string_list_get sl other)
unfolding put_value
put_value-get sl key value other = elim (Option-cases (string_list_get sl key)) [
  | inl absent ↦ rw (absent, put_value) (unfold string_list_get in refl)
  | inr (old, found) ↦ elim (Bool-cases (old == value)) [
    | inl e ↦
        let q : old ≡ value = ground arith in
        rw (found, put_value) (rw e (same_value-get sl key value other (found ∙ ap some q)))
    | inr ne ↦ rw (found, put_value) (rw ne (set_value-get sl key value old other found))
  ]
]

remove-get :
    (sl : List StringElem) (key other : List ℕ)
    → string_list_get (string_list_remove sl key) other
      ≡ (if str_equal key other then none else string_list_get sl other)
unfolding string_list_get string_list_remove
remove-get [] key other = ground arith
remove-get (e ∷ es) key other = ground (
  arith,
  remove-get es key other,
  str_equal_lem e.key key,
  str_equal_lem e.key other,
  str_equal_lem key other,
)

-- Where the new list of a key differs only at this key, so does the map.
with_list-get :
    (map : UrStringMap) (key other : List ℕ) (sl : List StringElem) (now : Option ℕ)
    → map.magic ≡ string_map_magic
    → ((j : List ℕ)
        → string_list_get sl j
          ≡ (if str_equal key j then now else string_list_get (map.lists (string_map_index key)) j))
    → ur_string_map_get (record map { lists = update map.lists (string_map_index key) sl }) other
      ≡ (if str_equal key other then now else ur_string_map_get map other)
unfolding ur_string_map_get
with_list-get map key other sl now valid h =
    let guard : (map.magic == string_map_magic) ≡ true = ground arith in
    rw guard (elim (Bool-cases (string_map_index key == string_map_index other)) [
      | inl e ↦
          let q : string_map_index key ≡ string_map_index other = ground arith in
          rw e (
            h other
            ∙ ap (λ i. if str_equal key other then now else string_list_get (map.lists i) other) q)
      | inr ne ↦ rw ne (elim (Bool-cases (str_equal key other)) [
        | inl same ↦
            let q = ap string_map_index ((str_equal_lem key other).0 same) in absurd (ground arith)
        | inr d ↦ rw d refl
      ])
    ])

-- The map after a successful put, and the values given to the callback
pub data Put (map : UrStringMap) (key : List ℕ) (value : ℕ)
    : Option (UrStringMap × List ℕ) → Type 0 where
  put :
      {map' : UrStringMap} {freed : List ℕ}
      → map'.magic ≡ string_map_magic
      → ((other : List ℕ)
          → ur_string_map_get map' other
            ≡ (if str_equal key other then some value else ur_string_map_get map other))
      → Put map key value (some (map', freed))

-- In an initialised map `ur_string_map_put` succeeds, also where the key is there with another value;
-- then the key is found with the value, and every other key is found as before.
pub ur_string_map_put_lem :
    (map : UrStringMap) (key : List ℕ) (value : ℕ)
    → map.magic ≡ string_map_magic
    → Put map key value (ur_string_map_put map key value)
unfolding ur_string_map_put
ur_string_map_put_lem map key value valid =
    let guard : (map.magic == string_map_magic) ≡ true = ground arith in
    rw guard (
      put valid λ other.
        with_list-get map key other _ (some value) valid
          (λ j. put_value-get (map.lists (string_map_index key)) key value j))

-- After `ur_string_map_del` in an initialised map the key is not found, and every other key is found
-- as before.
pub ur_string_map_del-get :
    (map : UrStringMap) (key other : List ℕ)
    → map.magic ≡ string_map_magic
    → ur_string_map_get (ur_string_map_del map key).0 other
      ≡ (if str_equal key other then none else ur_string_map_get map other)
unfolding ur_string_map_del
ur_string_map_del-get map key other valid =
    let guard : (map.magic == string_map_magic) ≡ true = ground arith in
    rw guard (
      with_list-get map key other _ none valid
        (λ j. remove-get (map.lists (string_map_index key)) key j))
